-- ===== src/Recording.antt =====
-- scripts/scenarios/recording-guard.py: a deployment is held back while a run is recorded.
use testbed_services.Common.{
  ℕ, String, str_append, str_eq, Bool, true, ◌||◌, Option, none, some, List, [], ◌∷◌, ◌≢◌, All, any,
  if◌then◌else◌,
}
mod Tests

-- The text on the standard input: no JSON object with a phase; a phase that is a text, with the
-- text of the current scenario's id; a phase that is no text, as a null; and a list or an object,
-- which cannot be looked for in a set.
pub data LiveQueue : Type 0 where
  unreadable other_phase unhashable_phase : LiveQueue
  in_phase : (phase scenario_id : String) → LiveQueue

-- What `blocking_reason` returns, or that it raises.
pub data Reason : Type 0 where
  no_reason type_error : Reason
  reason : String → Reason

abbrev pub recording_phases : List String
recording_phases =
    "cycle_buffer" ∷ "running" ∷ "cycle_cooldown" ∷ "waiting_capture" ∷ "waiting_clean_window" ∷ []

-- `f"녹화 중(phase={phase}, scenario={state.get('current_scenario_id')})"`
abbrev recording_text : String → String → String
recording_text phase scenario_id =
    str_append "녹화 중(phase="
      (str_append phase (str_append ", scenario=" (str_append scenario_id ")")))

unfoldable pub blocking_reason : LiveQueue → Reason
blocking_reason unreadable = reason "live-queue 응답을 읽을 수 없다"
blocking_reason other_phase = no_reason
blocking_reason unhashable_phase = type_error
blocking_reason (in_phase phase scenario_id) =
    if any (λ p. str_eq p phase) recording_phases
    then reason (recording_text phase scenario_id)
    else no_reason

-- The exit code of `main`; an exception that nothing catches ends the process with 1.
unfoldable pub guard_code : Reason → ℕ
guard_code no_reason = 0
guard_code (reason text) = 3
guard_code type_error = 1

-- the answers of the live queue on which a deployment may go ahead
abbrev pub IsQuiet : LiveQueue → Type 0
IsQuiet unreadable = ⊥
IsQuiet other_phase = Unit
IsQuiet unhashable_phase = ⊥
IsQuiet (in_phase phase scenario_id) = All (λ p. p ≢ phase) recording_phases
