-- ===== src/Audit/Report.antt =====
-- `audit_run` and the loop of `main` of scripts/scenarios/audit-run-causality.py.
use testbed_services.Common.{
  ℕ, suc, String, str_eq, Bool, true, false, Option, none, some, List, [], ◌∷◌, filter,
  if◌then◌else◌,
}
use testbed_services.Audit.Runs.{
  AuditError, Audited, ok, audit_error, exception, ◌>>=◌, AuditTick, RunResult, RunFiles,
  AuditedRun, load_run,
}
use testbed_services.Audit.Names.{AnswerKey, entry_service_for, is_failure_rate, injection_targets}
use testbed_services.Audit.Gates.{
  gate_of, gate_spec, signal_names, count_of, Window, verdict_window, is_outcome,
}
use testbed_services.Audit.Host.{AuditHost, Traces}
use testbed_services.Audit.Shift.{ShiftStatus, target_silenced, Shift, activity_shift}
use testbed_services.Audit.Ratio.{Ratio, Question, causal_check}
use testbed_services.Audit.Arm.{Arm, control_arm}

-- `report["verdict_window"]`: the window, with the index of the tick that ends it, or the error
pub data Verdict : Type 0 where
  found : Window → ℕ → Verdict
  not_found : Verdict

-- `report["activity_shift"]`
pub data ShiftReport (host : AuditHost) : Type 0 where
  shifted : Shift host → ShiftReport host
  targets_unknown no_backend no_injection : ShiftReport host
  shift_failed : ShiftReport host

-- `report["causal_evidence"]`
pub data Evidence : Type 0 where
  no_gate not_failure_rate : Evidence
  no_window no_trace_backend no_entry_service query_failed : Evidence
  by_ratio : Ratio → Evidence
  causality_via_silence : (superseded : Evidence) (silenced : List String) → Evidence
  run_unreadable : AuditError → Evidence

pub record Report (host : AuditHost) (V : Type 0) : Type 0 where
  pub run_id : String
  pub scenario_id : Option String
  pub gate : Option String
  pub signals : List String
  pub verdict : Verdict
  pub arm : Arm V
  pub shift : Option (ShiftReport host)
  pub evidence : Evidence

-- `a or b`, on texts that may be missing
abbrev pub or_other : Option String → Option String → Option String
or_other none b = b
or_other (some a) b = if str_eq a "" then b else some a

-- `next(i for i, t in enumerate(ticks) if t.get("at") == end_at)`
unfoldable pub index_at : {V : Type 0} → String → List (AuditTick V) → Option ℕ
index_at end_at [] = none
index_at end_at (t ∷ ticks) =
    let rest = index_at end_at ticks in
    if is_outcome t.at end_at then some 0 else elim rest [ none ↦ none | some i ↦ some (suc i) ]

-- Statuses that are `causality_absent` or `undetermined`, of the ratio and of the evidence.
abbrev pub is_open_ratio : Ratio → Bool
is_open_ratio Ratio.no_target_services = true
is_open_ratio Ratio.no_rows = true
is_open_ratio Ratio.no_failed_traces = true
is_open_ratio (Ratio.small_sample total touching) = true
is_open_ratio (Ratio.causality_absent c h) = true
is_open_ratio (Ratio.causality_via_breaker c h) = false
is_open_ratio (Ratio.causality_present c) = false
is_open_ratio (Ratio.causality_partial c) = false

abbrev pub is_open : Evidence → Bool
is_open (by_ratio r) = is_open_ratio r
is_open query_failed = true
is_open no_window = true
is_open no_trace_backend = true
is_open no_entry_service = true
is_open (run_unreadable e) = true
is_open no_gate = false
is_open not_failure_rate = false
is_open (causality_via_silence e names) = false

-- `except Exception`
abbrev pub evidence_of : Audited Ratio → Evidence
evidence_of (ok r) = by_ratio r
evidence_of (audit_error e) = query_failed
evidence_of (exception text) = query_failed

abbrev pub indexed : Window → Option ℕ → Verdict
indexed w none = not_found
indexed w (some i) = found w i

abbrev pub verdict_of_window : {V : Type 0} → List (AuditTick V) → Audited Window → Audited Verdict
verdict_of_window ticks (ok w) = ok (indexed w (index_at w.end_at ticks))
verdict_of_window ticks (audit_error e) = ok not_found
verdict_of_window ticks (exception text) = exception text

abbrev pub end_index : Verdict → Option ℕ
end_index (found w i) = some i
end_index not_found = none

-- A text that is not empty.
abbrev pub present : Option String → Option String
present o = or_other o none

-- `metadata.get(scenario_id)`, and its domain
unfoldable pub key_of : Option String → List (String × AnswerKey) → Option AnswerKey
key_of none metadata = none
key_of (some id) [] = none
key_of (some id) ((k, meta) ∷ metadata) =
    if str_eq k id then some meta else key_of (some id) metadata

abbrev pub domain_of : Option AnswerKey → Option String
domain_of none = none
domain_of (some meta) = meta.domain

module _ (host : AuditHost) (metadata : List (String × AnswerKey)) (known : List String) where
  -- `except Exception`, of the shift
  abbrev pub shift_result : Audited (Shift host) → ShiftReport host
  shift_result (ok s) = shifted s
  shift_result (audit_error e) = shift_failed
  shift_result (exception text) = shift_failed

  unfoldable pub shift_of_interval :
      Traces → List String → Option String → (t1 t2 : Option String) → ShiftReport host
  shift_of_interval traces targets entry (some t1) (some t2) =
      shift_result (activity_shift host traces targets entry t1 t2)
  shift_of_interval traces targets entry t1 t2 = no_injection

  unfoldable pub shift_of_targets :
      Option Traces → Option String → RunResult → Audited (List String) → ShiftReport host
  unfolding shift_of_interval
  shift_of_targets none entry result (ok targets) = no_backend
  shift_of_targets (some traces) entry result (ok targets) =
      shift_of_interval traces targets entry (present result.t1) (present result.t2)
  shift_of_targets backend entry result (audit_error e) = targets_unknown
  shift_of_targets backend entry result (exception text) = targets_unknown

  -- The silence of a target is the cause where the ratio left the question open.
  unfoldable pub by_silence : Evidence → ShiftStatus → Evidence
  by_silence e (target_silenced silenced) =
      if is_open e then causality_via_silence e silenced else e
  by_silence e status = e

  unfoldable pub supersede : Evidence → ShiftReport host → Evidence
  unfolding by_silence
  supersede e (shifted s) = by_silence e s.status
  supersede e report = e

  -- the question that `causal_check` is asked
  abbrev pub question : RunResult → Window → String → List String → Question
  question result w entry targets = record {
    start_at = w.start_at;
    end_at = w.end_at;
    entry_service = entry;
    targets = targets;
    injection_from = present result.t1;
    injection_to = present result.t2;
  }

  unfoldable pub evidence_of_entry :
      Traces
      → Option AnswerKey
      → RunResult
      → Window
      → ShiftReport host
      → Option String
      → Audited Evidence
  unfolding supersede
  evidence_of_entry traces meta result w shift none = ok no_entry_service
  evidence_of_entry traces meta result w shift (some entry) = do
    targets ← injection_targets meta known (some entry)
    ok (supersede (evidence_of (causal_check host traces (question result w entry targets))) shift)

  -- the end of `audit_run`, from the failure-rate signals on
  unfoldable pub causal_evidence :
      Option Traces
      → Option AnswerKey
      → RunResult
      → ShiftReport host
      → Option String
      → List String
      → Verdict
      → Audited Evidence
  unfolding evidence_of_entry
  causal_evidence backend meta result shift entry [] verdict = ok not_failure_rate
  causal_evidence backend meta result shift entry (s ∷ signals) not_found = ok no_window
  causal_evidence none meta result shift entry (s ∷ signals) (found w i) = ok no_trace_backend
  causal_evidence (some traces) meta result shift entry (s ∷ signals) (found w i) =
      evidence_of_entry traces meta result w shift
        (or_other (entry_service_for (s ∷ signals) (domain_of meta)) entry)

  module _ {V : Type 0} where
    unfoldable pub audit_gate :
        Option Traces → AuditedRun V → Option String → String → Audited (Report host V)
    unfolding causal_evidence shift_of_targets
    audit_gate backend run scenario_id gate = do
      let spec = gate_spec gate run.run_state.gates
      let meta = key_of scenario_id metadata
      let entry = entry_service_for (signal_names spec) (domain_of meta)
      verdict ← verdict_of_window run.run_ticks (verdict_window gate (count_of spec) run.run_ticks)
      let shift = shift_of_targets backend entry run.run_result (injection_targets meta known entry)
      evidence ←
          causal_evidence backend meta run.run_result shift entry
            (filter (is_failure_rate host.lower) (signal_names spec)) verdict
      ok (record {
        run_id = run.run_id;
        scenario_id = scenario_id;
        gate = some gate;
        signals = signal_names spec;
        verdict = verdict;
        arm = control_arm run.run_ticks (end_index verdict);
        shift = some shift;
        evidence = evidence;
      })

    -- a run that no gate decided
    abbrev pub ungated : AuditedRun V → Option String → Report host V
    ungated run scenario_id = record {
      run_id = run.run_id;
      scenario_id = scenario_id;
      gate = none;
      signals = [];
      verdict = not_found;
      arm = control_arm run.run_ticks none;
      shift = none;
      evidence = no_gate;
    }

    unfoldable pub audit_loaded :
        Option Traces → AuditedRun V → Option String → Option String → Audited (Report host V)
    unfolding audit_gate
    audit_loaded backend run scenario_id none = ok (ungated run scenario_id)
    audit_loaded backend run scenario_id (some gate) = audit_gate backend run scenario_id gate

    unfoldable pub audit_run : Option Traces → RunFiles V → Audited (Report host V)
    unfolding audit_loaded
    audit_run backend files = do
      run ← load_run files
      audit_loaded backend run (or_other run.run_result.scenario_id run.run_state.scenario_id)
          (gate_of run)

    -- the report of a run whose audit raised an `AuditError`
    abbrev pub unread : String → AuditError → Report host V
    unread name e = record {
      run_id = name;
      scenario_id = some "?";
      gate = none;
      signals = [];
      verdict = not_found;
      arm = Arm.no_ticks;
      shift = none;
      evidence = run_unreadable e;
    }

    -- one round of the loop of `main`
    abbrev pub reported : String → Audited (Report host V) → Audited (Report host V)
    reported name (ok r) = ok r
    reported name (audit_error e) = ok (unread name e)
    reported name (exception text) = exception text

    unfoldable pub audit_all : Option Traces → List (RunFiles V) → Audited (List (Report host V))
    audit_all backend [] = ok []
    audit_all backend (files ∷ more) = do
      r ← reported files.name (audit_run backend files)
      rs ← audit_all backend more
      ok (r ∷ rs)
