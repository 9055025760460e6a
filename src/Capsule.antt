-- ===== src/Capsule.antt =====
-- The boundary of an executor under scripts/scenarios/profiles, as its callers use it: the verb of
-- the command line, and what a call comes back with.
use testbed_services.Common.{ℕ, String, str_eq, if◌then◌else◌}

-- What `subprocess.run` of an executor does: it raises, or returns a code and two texts. A negative
-- return code, of a signal, stands here as any number but 0.
pub data Reply : Type 0 where
  raised : String → Reply
  completed : (returncode : ℕ) (stdout stderr : String) → Reply

pub data Verb : Type 0 where
  preflight run cleanup recovery : Verb

abbrev pub verb_name : Verb → String
verb_name preflight = "preflight"
verb_name run = "run"
verb_name cleanup = "cleanup"
verb_name recovery = "recovery"

-- `a or b`, on texts
abbrev pub or_text : String → String → String
or_text a b = if str_eq a "" then b else a
