-- ===== src/Audit/Grounds.antt =====
-- What the evidence of a report rests on: `audit_run`.
use testbed_services.Common.{
  ℕ, String, true, Option, none, some, List, [], ◌≡◌, ◌≢◌, refl, sym, ap, ◌∙◌, Bool-cases, inl, inr,
}
use testbed_services.Audit.Runs.{Audited, ok, audit_error, exception, RunResult}
use testbed_services.Audit.Names.{AnswerKey, entry_service_for, injection_targets}
use testbed_services.Audit.Gates.{Window}
use testbed_services.Audit.Host.{AuditHost, Traces}
use testbed_services.Audit.Shift.{ShiftStatus, target_silenced, Shift}
use testbed_services.Audit.Ratio.{Ratio, causal_check}
use testbed_services.Audit.Report.{
  Verdict, found, not_found, ShiftReport, shifted, Evidence, no_gate, not_failure_rate, no_window,
  no_trace_backend, no_entry_service, query_failed, by_ratio, causality_via_silence, run_unreadable,
  or_other, is_open, evidence_of, domain_of, by_silence, supersede, question,
}

module _ (host : AuditHost) (metadata : List (String × AnswerKey)) (known : List String) where
  -- the shift has no target that fell silent
  abbrev pub NotSilenced : ShiftReport host → Type 0
  NotSilenced shift =
      (s : Shift host) (xs : List String) → shift ≡ shifted s → s.status ≢ target_silenced xs

  -- the shift names these targets as silenced
  pub record NamesSilenced (shift : ShiftReport host) (xs : List String) : Type 0 where
    pub of : Shift host
    pub shift_eq : shift ≡ shifted of
    pub status_eq : of.status ≡ target_silenced xs

  module _ (backend : Option Traces) (meta : Option AnswerKey) (result : RunResult)
      (shift : ShiftReport host) (entry : Option String) (signals : List String)
      (verdict : Verdict) where
    -- The entry service of the failure-rate signals, or that of all signals.
    abbrev pub failure_entry : Option String
    failure_entry = or_other (entry_service_for signals (domain_of meta)) entry

    -- The traces of the window were asked about the targets of the answer key, with this answer.
    pub record WasAsked (e : Evidence) : Type 0 where
      pub traces : Traces
      pub backend_eq : backend ≡ some traces
      pub window : Window
      pub index : ℕ
      pub verdict_eq : verdict ≡ found window index
      pub entry_service : String
      pub entry_eq : failure_entry ≡ some entry_service
      pub targets : List String
      pub targets_eq : injection_targets meta known (some entry_service) ≡ ok targets
      pub answer :
          evidence_of (
            causal_check host traces
              (question host metadata known result window entry_service targets))
          ≡ e

    -- What each kind of evidence rests on.
    abbrev pub Rests : Evidence → Type 0
    Rests no_gate = ⊥
    Rests not_failure_rate = signals ≡ []
    Rests no_window = (signals ≢ []) × (verdict ≡ not_found)
    Rests no_trace_backend = (signals ≢ []) × (backend ≡ none)
    Rests no_entry_service = (signals ≢ []) × (failure_entry ≡ none)
    Rests query_failed = WasAsked query_failed × NotSilenced shift
    Rests (by_ratio r) = WasAsked (by_ratio r) × (is_open (by_ratio r) ≡ true → NotSilenced shift)
    Rests (causality_via_silence e xs) = WasAsked e × (is_open e ≡ true) × NamesSilenced shift xs
    Rests (run_unreadable e) = ⊥

    plain-Rests :
        (a : Audited Ratio)
        → WasAsked (evidence_of a)
        → (is_open (evidence_of a) ≡ true → NotSilenced shift)
        → Rests (evidence_of a)
    plain-Rests (ok r) w h = (w, h)
    plain-Rests (audit_error e) w h = (w, h refl)
    plain-Rests (exception text) w h = (w, h refl)

    -- a shift with another status
    quiet_status :
        (s : Shift host) (status : ShiftStatus)
        → shift ≡ shifted s
        → s.status ≡ status
        → ((xs : List String) → status ≢ target_silenced xs)
        → NotSilenced shift
    quiet_status s status h k n t xs same said =
        let one : s ≡ t = cc (sym h ∙ same) in n xs (sym k ∙ ap (λ u. u.status) one ∙ said)

    silenced-Rests :
        (a : Audited Ratio) (s : Shift host) (xs : List String)
        → WasAsked (evidence_of a)
        → shift ≡ shifted s
        → s.status ≡ target_silenced xs
        → Rests (by_silence host metadata known (evidence_of a) (target_silenced xs))
    unfolding by_silence
    silenced-Rests a s xs w h k = elim (Bool-cases (is_open (evidence_of a))) [
      | inl o ↦ rw o (w, o, record { of = s; shift_eq = h; status_eq = k })
      | inr c ↦ rw c (plain-Rests a w (λ o. absurd (cc (o, c))))
    ]

    by_silence-Rests :
        (a : Audited Ratio) (s : Shift host) (status : ShiftStatus)
        → WasAsked (evidence_of a)
        → shift ≡ shifted s
        → s.status ≡ status
        → Rests (by_silence host metadata known (evidence_of a) status)
    unfolding by_silence
    by_silence-Rests a s (target_silenced xs) w h k = silenced-Rests a s xs w h k
    by_silence-Rests a s (ShiftStatus.target_collapsed_recovery_unknown xs) w h k =
        plain-Rests a w (λ o. quiet_status s _ h k (λ ys e. absurd (cc e)))
    by_silence-Rests a s (ShiftStatus.target_erring xs) w h k =
        plain-Rests a w (λ o. quiet_status s _ h k (λ ys e. absurd (cc e)))
    by_silence-Rests a s ShiftStatus.no_services w h k =
        plain-Rests a w (λ o. quiet_status s _ h k (λ ys e. absurd (cc e)))
    by_silence-Rests a s ShiftStatus.no_targets w h k =
        plain-Rests a w (λ o. quiet_status s _ h k (λ ys e. absurd (cc e)))
    by_silence-Rests a s ShiftStatus.too_quiet w h k =
        plain-Rests a w (λ o. quiet_status s _ h k (λ ys e. absurd (cc e)))
    by_silence-Rests a s ShiftStatus.no_load_after w h k =
        plain-Rests a w (λ o. quiet_status s _ h k (λ ys e. absurd (cc e)))
    by_silence-Rests a s ShiftStatus.no_shift w h k =
        plain-Rests a w (λ o. quiet_status s _ h k (λ ys e. absurd (cc e)))

    pub supersede-Rests :
        (a : Audited Ratio) (report : ShiftReport host)
        → WasAsked (evidence_of a)
        → shift ≡ report
        → Rests (supersede host metadata known (evidence_of a) report)
    unfolding supersede
    supersede-Rests a (shifted s) w h = by_silence-Rests a s s.status w h refl
    supersede-Rests a ShiftReport.targets_unknown w h =
        plain-Rests a w (λ o t xs same said. absurd (cc (h, same)))
    supersede-Rests a ShiftReport.no_backend w h =
        plain-Rests a w (λ o t xs same said. absurd (cc (h, same)))
    supersede-Rests a ShiftReport.no_injection w h =
        plain-Rests a w (λ o t xs same said. absurd (cc (h, same)))
    supersede-Rests a ShiftReport.shift_failed w h =
        plain-Rests a w (λ o t xs same said. absurd (cc (h, same)))
