-- ===== src/Audit/Errors.antt =====
-- What an audit raises, and that one run does not stop the others: `main`.
use testbed_services.Common.{
  String, Option, none, some, List, [], ◌∷◌, map, filter, ◌≡◌, ◌≢◌, refl, subst, All,
}
use testbed_services.Audit.Runs.{
  AuditError, no_answer_key, Audited, ok, audit_error, exception, RunResult, RunFiles, AuditedRun,
  load_run,
}
use testbed_services.Audit.Names.{AnswerKey, entry_service_for, is_failure_rate, injection_targets}
use testbed_services.Audit.Gates.{
  gate_of, gate_spec, signal_names, count_of, Window, verdict_window,
}
use testbed_services.Audit.Host.{AuditHost, Traces}
use testbed_services.Audit.Report.{
  Verdict, found, not_found, ShiftReport, Report, or_other, verdict_of_window, key_of, domain_of,
  shift_of_targets, evidence_of_entry, causal_evidence, audit_gate, audit_loaded, audit_run,
  reported, audit_all,
}
use testbed_services.Audit.Raises.{
  Raises, any_error, >>=-Raises, Any, Every, CanReadRun, load_run-Raises, verdict_window-Raises,
  verdict_of_window-Raises,
}

module _ (host : AuditHost) (metadata : List (String × AnswerKey)) (known : List String) where
  -- The answer key is missing where the traces would be asked about its targets.
  abbrev pub LacksKey : Option Traces → Option AnswerKey → List String → AuditError → Type 0
  LacksKey backend meta signals e =
      (e ≡ no_answer_key) × (meta ≡ none) × (backend ≢ none) × (signals ≢ [])

  lacks :
      (traces : Traces) (s : String) (signals : List String) (e : AuditError)
      (meta : Option AnswerKey)
      → (e ≡ no_answer_key) × (meta ≡ none)
      → LacksKey (some traces) meta (s ∷ signals) e
  lacks traces s signals e meta h = (h.0, h.1, λ k. absurd (cc k), λ k. absurd (cc k))

  entry-Raises :
      (traces : Traces) (meta : Option AnswerKey) (result : RunResult) (w : Window)
      (shift : ShiftReport host) (s : String) (signals : List String) (entry : Option String)
      → Raises
          (LacksKey (some traces) meta (s ∷ signals))
          Every
          (evidence_of_entry host metadata known traces meta result w shift entry)
  unfolding evidence_of_entry injection_targets
  entry-Raises traces meta result w shift s signals none = tt
  entry-Raises traces none result w shift s signals (some entry) =
      lacks traces s signals no_answer_key none (refl, refl)
  entry-Raises traces (some meta) result w shift s signals (some entry) = tt

  causal_evidence-Raises :
      (backend : Option Traces) (meta : Option AnswerKey) (result : RunResult)
      (shift : ShiftReport host) (entry : Option String) (signals : List String) (verdict : Verdict)
      → Raises
          (LacksKey backend meta signals)
          Every
          (causal_evidence host metadata known backend meta result shift entry signals verdict)
  unfolding causal_evidence
  causal_evidence-Raises backend meta result shift entry [] verdict = tt
  causal_evidence-Raises backend meta result shift entry (s ∷ signals) not_found = tt
  causal_evidence-Raises none meta result shift entry (s ∷ signals) (found w i) = tt
  causal_evidence-Raises (some traces) meta result shift entry (s ∷ signals) (found w i) =
      entry-Raises traces meta result w shift s signals
        (or_other (entry_service_for (s ∷ signals) (domain_of meta)) entry)

  module _ {V : Type 0} (backend : Option Traces) where
    -- the failure-rate signals of a gate
    abbrev pub failure_signals : AuditedRun V → String → List String
    failure_signals run gate =
        filter (is_failure_rate host.lower) (signal_names (gate_spec gate run.run_state.gates))

    -- The audit of a run that a gate decided raises nothing but the error of a missing answer key,
    -- and that only with a failure-rate signal and a trace backend; its report has the run's name.
    pub audit_gate-Raises :
        (run : AuditedRun V) (scenario_id : Option String) (gate : String)
        → Raises
            (LacksKey backend (key_of scenario_id metadata) (failure_signals run gate))
            (λ (r : Report host V). r.run_id ≡ run.run_id)
            (audit_gate host metadata known backend run scenario_id gate)
    unfolding audit_gate
    audit_gate-Raises run scenario_id gate =
        let spec = gate_spec gate run.run_state.gates in
        let meta = key_of scenario_id metadata in
        let entry = entry_service_for (signal_names spec) (domain_of meta) in
        let shift =
          shift_of_targets host metadata known backend entry run.run_result
            (injection_targets meta known entry) in
        let E = LacksKey backend meta (failure_signals run gate) in
        let Q : Report host V → Type 0 = λ r. r.run_id ≡ run.run_id in
        >>=-Raises E Every Q
          (verdict_of_window run.run_ticks (verdict_window gate (count_of spec) run.run_ticks)) _
          (verdict_of_window-Raises E run.run_ticks
            (verdict_window gate (count_of spec) run.run_ticks)
            (verdict_window-Raises gate (count_of spec) run.run_ticks))
          (λ verdict h.
            >>=-Raises E Every Q
              (causal_evidence host metadata known backend meta run.run_result shift entry
                (failure_signals run gate) verdict)
              _
              (causal_evidence-Raises backend meta run.run_result shift entry
                (failure_signals run gate) verdict)
              (λ evidence k. refl))

    audit_loaded-Raises :
        (run : AuditedRun V) (scenario_id gate : Option String)
        → Raises Any
            (λ (r : Report host V). r.run_id ≡ run.run_id)
            (audit_loaded host metadata known backend run scenario_id gate)
    unfolding audit_loaded
    audit_loaded-Raises run scenario_id none = refl
    audit_loaded-Raises run scenario_id (some gate) =
        any_error _ _ (audit_gate host metadata known backend run scenario_id gate)
          (audit_gate-Raises run scenario_id gate)

    audit_run-Raises :
        (files : RunFiles V)
        → CanReadRun files
        → Raises Any
            (λ (r : Report host V). r.run_id ≡ files.name)
            (audit_run host metadata known backend files)
    unfolding audit_run
    audit_run-Raises files h =
        >>=-Raises Any (λ (run : AuditedRun V). run.run_id ≡ files.name)
          (λ (r : Report host V). r.run_id ≡ files.name) (load_run files) _
          (load_run-Raises files h)
          (λ run same.
            subst
              (λ name.
                Raises Any (λ (r : Report host V). r.run_id ≡ name)
                  (audit_loaded host metadata known backend run
                    (or_other run.run_result.scenario_id run.run_state.scenario_id) (gate_of run)))
              same
              (audit_loaded-Raises run
                (or_other run.run_result.scenario_id run.run_state.scenario_id) (gate_of run)))

    reported-ok :
        (name : String) (o : Audited (Report host V))
        → Raises Any (λ (r : Report host V). r.run_id ≡ name) o
        → (r : Report host V) × (reported host metadata known name o ≡ ok r) × (r.run_id ≡ name)
    reported-ok name (ok r) h = (r, refl, h)
    reported-ok name (audit_error e) h = (_, refl, refl)
    reported-ok name (exception text) h = absurd h

    -- If each file of the runs is missing or can be read, the audit ends with one report per run, in
    -- their order and with their names, whatever the traces answer.
    pub audit_all-total :
        (runs : List (RunFiles V))
        → All CanReadRun runs
        → (rs : List (Report host V)) × (audit_all host metadata known backend runs ≡ ok rs)
          × (map (λ r. r.run_id) rs ≡ map (λ f. f.name) runs)
    unfolding audit_all
    audit_all-total [] h = ([], refl, refl)
    audit_all-total (files ∷ more) h =
        let r =
          reported-ok files.name (audit_run host metadata known backend files)
            (audit_run-Raises files h.0) in
        let rs = audit_all-total more h.1 in (r.0 ∷ rs.0, rw (r.1, rs.1) refl, cc (r.2, rs.2))
