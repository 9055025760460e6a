-- ===== src/Audit/Gates.antt =====
-- Which gate decided a run, and when: `deciding_gate`, `gate_spec`, `signal_names` and
-- `verdict_window` of scripts/scenarios/audit-run-causality.py.
use testbed_services.Common.{
  ℕ, suc, String, str_eq, Bool, false, ◌||◌, Option, none, some, List, [], ◌∷◌, if◌then◌else◌, leb,
  ltb, get_or,
}
use testbed_services.Audit.Runs.{
  Audited, ok, audit_error, no_reached_tick, no_tick_time, ◌>>=◌, AuditTick, GateSpec, AuditedRun,
}

abbrev pub is_outcome : Option String → String → Bool
is_outcome none text = false
is_outcome (some s) text = str_eq s text

unfoldable pub deciding_gate : Option String → Option String → Option String
deciding_gate outcome reason =
    if is_outcome outcome "succeeded"
    then some "success"
    else if is_outcome reason "must_rule_out_detected"
    then some "must_rule_out"
    else if is_outcome reason "abort_condition" || is_outcome reason "abort"
    then some "abort"
    else none

unfoldable pub gate_spec : String → List (String × GateSpec) → Option GateSpec
gate_spec gate [] = none
gate_spec gate ((k, spec) ∷ specs) = if str_eq k gate then some spec else gate_spec gate specs

abbrev pub signal_names : Option GateSpec → List String
signal_names none = []
signal_names (some spec) = spec.condition_signals

-- `int((spec or {}).get("consecutive_ticks", 1))`
abbrev pub count_of : Option GateSpec → ℕ
count_of none = 1
count_of (some spec) = get_or spec.consecutive_ticks 1

-- `streaks.get(gate, 0)`
unfoldable pub streak_at : String → List (String × ℕ) → ℕ
streak_at gate [] = 0
streak_at gate ((k, n) ∷ streaks) = if str_eq k gate then n else streak_at gate streaks

-- What `verdict_window` returns: two times and the number of ticks.
pub record Window : Type 0 where
  pub start_at : String
  pub end_at : String
  pub span : ℕ

-- `not at`, for a text that may be missing
unfoldable pub time_at : Option String → Audited String
time_at none = audit_error no_tick_time
time_at (some at) = if str_eq at "" then audit_error no_tick_time else ok at

module _ {V : Type 0} where
  abbrev pub streak : String → AuditTick V → ℕ
  streak gate tick = streak_at gate tick.streaks

  -- `ticks[:end_idx]`, newest first, and `ticks[end_idx]`
  unfoldable pub reached :
      String
      → ℕ
      → List (AuditTick V)
      → List (AuditTick V)
      → Audited (AuditTick V × List (AuditTick V))
  unfolding streak_at
  reached gate consecutive before [] = audit_error no_reached_tick
  reached gate consecutive before (tick ∷ ticks) =
      let rest = reached gate consecutive (tick ∷ before) ticks in
      if leb consecutive (streak gate tick) then ok (tick, before) else rest

  -- `ticks[start_idx]` and the number of ticks from it to the end, which is `span` so far
  unfoldable pub walk_back : String → AuditTick V → ℕ → List (AuditTick V) → AuditTick V × ℕ
  unfolding streak_at
  walk_back gate start span [] = (start, span)
  walk_back gate start span (tick ∷ before) =
      let further = walk_back gate tick (suc span) before in
      if ltb 0 (streak gate tick) then further else (start, span)

  unfoldable pub window_of : AuditTick V × ℕ → AuditTick V → Audited Window
  unfolding time_at
  window_of (start, span) end = do
    start_at ← time_at start.at
    end_at ← time_at end.at
    ok (record { start_at = start_at; end_at = end_at; span = span })

  unfoldable pub verdict_window : String → ℕ → List (AuditTick V) → Audited Window
  unfolding reached walk_back window_of
  verdict_window gate consecutive ticks = do
    found ← reached gate consecutive [] ticks
    window_of (walk_back gate found.0 1 found.1) found.0

  -- the deciding gate of a run
  abbrev pub gate_of : AuditedRun V → Option String
  gate_of run = deciding_gate run.run_result.outcome run.run_decisions.reason
