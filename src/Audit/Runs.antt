-- ===== src/Audit/Runs.antt =====
-- The files of a run, as scripts/scenarios/audit-run-causality.py reads them: `load_run`.
use testbed_services.Common.{ℕ, String, Option, some, List, head?, last?}

-- `AuditError`, by its message
pub data AuditError : Type 0 where
  file_missing : (name : String) → AuditError
  no_result no_reached_tick no_tick_time no_answer_key : AuditError
  bad_time : String → AuditError

-- A value, the program's own error, or another exception by its text.
pub data Audited (A : Type 0) : Type 0 where
  ok : A → Audited A
  audit_error : AuditError → Audited A
  exception : String → Audited A

infixl 5 ◌>>=◌
abbrev pub ◌>>=◌ : {A B : Type 0} → Audited A → (A → Audited B) → Audited B
ok a >>= f = f a
audit_error e >>= f = audit_error e
exception text >>= f = exception text

-- A file of the run's directory: missing, not readable as JSON with the exception's text, or read.
pub data RunFile (A : Type 0) : Type 0 where
  missing : RunFile A
  unreadable : String → RunFile A
  document : A → RunFile A

-- A signal of a tick; its value may be missing. `V` is a JSON value.
pub record TickSignal (V : Type 0) : Type 0 where
  pub name : String
  pub value : Option V

pub record AuditTick (V : Type 0) : Type 0 where
  pub at : Option String
  pub streaks : List (String × ℕ)
  pub signals : List (TickSignal V)

-- A gate of `spec.adaptive`: the signals of its conditions that have one, and its count.
pub record GateSpec : Type 0 where
  pub condition_signals : List String
  pub consecutive_ticks : Option ℕ

pub record LevelChange : Type 0 where
  pub applied_at : Option String
  pub effect_ended_at : Option String

pub record RunState : Type 0 where
  pub scenario_id : Option String
  pub phase : Option String
  pub level_changes : List LevelChange
  pub gates : List (String × GateSpec)

pub record RunResult : Type 0 where
  pub scenario_id : Option String
  pub outcome : Option String
  pub t1 : Option String
  pub t2 : Option String

-- `decisions["controller_state"]["reason"]`, if it is there
pub record Decisions : Type 0 where
  pub reason : Option String

pub record RunFiles (V : Type 0) : Type 0 where
  pub name : String
  pub ticks : RunFile (List (AuditTick V))
  pub state : RunFile RunState
  pub result : RunFile RunResult
  pub decisions : RunFile Decisions

pub record AuditedRun (V : Type 0) : Type 0 where
  pub run_id : String
  pub run_result : RunResult
  pub run_state : RunState
  pub run_decisions : Decisions
  pub run_ticks : List (AuditTick V)

-- `_json`
unfoldable pub read_document : {A : Type 0} → String → RunFile A → Audited A
read_document name missing = audit_error (file_missing name)
read_document name (unreadable text) = exception text
read_document name (document a) = ok a

-- The result that is made of the first and the last change of the level.
unfoldable pub result_of_changes :
    RunState → Option LevelChange → Option LevelChange → Audited RunResult
result_of_changes state (some first) (some last) = ok (record {
  scenario_id = state.scenario_id;
  outcome = state.phase;
  t1 = first.applied_at;
  t2 = last.effect_ended_at;
})
result_of_changes state first last = audit_error no_result

-- `_result_or_state`
unfoldable pub result_or_state : RunState → RunFile RunResult → Audited RunResult
unfolding result_of_changes
result_or_state state missing =
    result_of_changes state (head? state.level_changes) (last? state.level_changes)
result_or_state state (unreadable text) = exception text
result_or_state state (document r) = ok r

unfoldable pub load_run : {V : Type 0} → RunFiles V → Audited (AuditedRun V)
unfolding read_document result_or_state
load_run files = do
  ticks ← read_document "ticks.jsonl" files.ticks
  state ← read_document "state.json" files.state
  result ← result_or_state state files.result
  decisions ← read_document "decisions.json" files.decisions
  ok (record {
    run_id = files.name;
    run_result = result;
    run_state = state;
    run_decisions = decisions;
    run_ticks = ticks;
  })
