-- ===== src/Audit/Host.antt =====
-- What scripts/scenarios/audit-run-causality.py meets outside itself: floats, times and the traces.
use Prim.Native.Char.{code}
use testbed_services.Common.{ℕ, String, Bool, Option, none, some, List, ◌==◌, if◌then◌else◌}
use testbed_services.Audit.Runs.{Audited, ok, audit_error, exception, bad_time}

-- `near n d` is the float literal for n / d; `mul`, `div`, `lt` and `le` are those of floats.
-- `per_minute n lo hi` is `round(n / minutes, 1)` for the minutes from lo to hi, at least 1e-9. A time is a number
-- of microseconds since 1970. `strptime` takes a format and a text, `stamp` writes a time to the
-- second, and `lower` is `str.lower`.
pub record AuditHost : Type 1 where
  pub F : Type 0
  pub near : ℕ → ℕ → F
  pub mul : F → F → F
  pub div : F → F → F
  pub lt : F → F → Bool
  pub le : F → F → Bool
  pub per_minute : ℕ → ℕ → ℕ → F
  pub strptime : String → String → Option ℕ
  pub stamp : ℕ → String
  pub lower : String → String

-- The rows of a query, or the text of what it raises.
pub data Rows (A : Type 0) : Type 0 where
  rows : List A → Rows A
  failed : String → Rows A

-- A row of each of the three queries; a count that is missing or null is 0.
pub record ActivityRow : Type 0 where
  pub service_name : String
  pub spans : ℕ
  pub errors : ℕ

pub record FailedRow : Type 0 where
  pub failed_traces : ℕ
  pub traces_touching_target : ℕ

pub record HealthRow : Type 0 where
  pub spans : ℕ
  pub errors : ℕ
  pub entry_failures : ℕ

-- The trace table, by the values that are put into the text of each query: a window's two times and
-- its services; the window, the entry service, the wider window and the targets; and the targets,
-- the window and the entry service.
pub record Traces : Type 0 where
  pub activity : (lo hi : String) → List String → Rows ActivityRow
  pub failures : (from to : String) (entry lo hi : String) → List String → Rows FailedRow
  pub health : List String → (lo hi entry : String) → Rows HealthRow

abbrev pub queried : {A : Type 0} → Rows A → Audited (List A)
queried (rows xs) = ok xs
queried (failed text) = exception text

-- `value.replace("Z", "")`
unfoldable pub without_z : String → String
without_z String.[] = String.[]
without_z (String.◌∷◌ c s) =
    let rest = without_z s in if code c == b'Z' then rest else String.◌∷◌ c rest

module _ (host : AuditHost) where
  open host use {strptime}

  -- the second format, where the first one does not fit
  unfoldable pub parse_seconds : String → Option ℕ → Audited ℕ
  parse_seconds value none = audit_error (bad_time value)
  parse_seconds value (some t) = ok t

  unfoldable pub parse_text : String → String → Option ℕ → Audited ℕ
  unfolding parse_seconds
  parse_text value text none = parse_seconds value (strptime "%Y-%m-%dT%H:%M:%S" text)
  parse_text value text (some t) = ok t

  -- `_parse`
  unfoldable pub parse : String → Audited ℕ
  unfolding parse_text without_z
  parse value =
      let text = without_z value in parse_text value text (strptime "%Y-%m-%dT%H:%M:%S.%f" text)
