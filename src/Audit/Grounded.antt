-- ===== src/Audit/Grounded.antt =====
-- The evidence of a report is grounded: `audit_run`.
use testbed_services.Common.{String, Option, none, some, List, filter, ◌≡◌}
use testbed_services.Audit.Runs.{ok, AuditedRun}
use testbed_services.Audit.Names.{AnswerKey, entry_service_for, is_failure_rate, injection_targets}
use testbed_services.Audit.Gates.{gate_spec, signal_names, count_of, verdict_window}
use testbed_services.Audit.Host.{AuditHost, Traces}
use testbed_services.Audit.Arm.{control_arm}
use testbed_services.Audit.Report.{
  ShiftReport, Report, or_other, verdict_of_window, end_index, key_of, domain_of, shift_of_targets,
  ungated,
}
use testbed_services.Audit.Grounds.{Rests}

module _ (host : AuditHost) (metadata : List (String × AnswerKey)) (known : List String) where
  module _ {V : Type 0} (backend : Option Traces) where
    -- The report of a run that a gate decided: its window, its shift and what its evidence rests on.
    pub record IsDecided (run : AuditedRun V) (scenario_id : Option String) (gate : String)
        (r : Report host V) : Type 0 where
      pub gate_eq : r.gate ≡ some gate
      pub signals_eq : r.signals ≡ signal_names (gate_spec gate run.run_state.gates)
      pub verdict_eq :
          verdict_of_window run.run_ticks
            (verdict_window gate (count_of (gate_spec gate run.run_state.gates)) run.run_ticks)
          ≡ ok r.verdict
      pub arm_eq : r.arm ≡ control_arm run.run_ticks (end_index r.verdict)
      pub shift : ShiftReport host
      pub shift_eq : r.shift ≡ some shift
      pub shift_of :
          shift
          ≡ shift_of_targets host metadata known backend
              (entry_service_for r.signals (domain_of (key_of scenario_id metadata)))
              run.run_result
              (injection_targets
                (key_of scenario_id metadata)
                known
                (entry_service_for r.signals (domain_of (key_of scenario_id metadata))))
      pub rests :
          Rests host metadata known backend
            (key_of scenario_id metadata)
            run.run_result
            shift
            (entry_service_for r.signals (domain_of (key_of scenario_id metadata)))
            (filter (is_failure_rate host.lower) r.signals)
            r.verdict
            r.evidence

    abbrev scenario_of : AuditedRun V → Option String
    scenario_of run = or_other run.run_result.scenario_id run.run_state.scenario_id

    -- What a report says of a run, by the gate that decided it.
    abbrev pub Reports : AuditedRun V → Option String → Report host V → Type 0
    Reports run none r = r ≡ ungated host metadata known run (scenario_of run)
    Reports run (some gate) r = IsDecided run (scenario_of run) gate r
