-- ===== src/Audit/Arm.antt =====
-- `control_arm` of scripts/scenarios/audit-run-causality.py: whether the arm without injection can
-- be read.
use text.Mathlib.Text.{starts_with}
use testbed_services.Common.{
  ℕ, ◌-◌, String, Bool, ◌&&◌, Option, none, some, List, [], ◌∷◌, filter, any, length, get_elem?,
  if◌then◌else◌, leb, get_or,
}
use testbed_services.Common.Texts.{ends_with, before_suffix}
use testbed_services.Audit.Runs.{TickSignal, AuditTick}

-- The status, with the signals of the arm and those that count its requests.
pub data Arm (V : Type 0) : Type 0 where
  no_ticks arm_absent : Arm V
  interpretable : (values denominators : List (TickSignal V)) → Arm V
  uninterpretable : (values : List (TickSignal V)) → Arm V

abbrev pub smaller : ℕ → ℕ → ℕ
smaller a b = if leb a b then a else b

module _ {V : Type 0} where
  abbrev pub is_baseline : TickSignal V → Bool
  is_baseline s = ends_with s.name "_baseline"

  -- `stems`
  abbrev pub stem_of : TickSignal V → String
  stem_of s = before_suffix s.name "_baseline"

  -- a signal that counts the requests of one of the arm's signals
  unfoldable pub counts_for : List (TickSignal V) → TickSignal V → Bool
  counts_for values s =
      ends_with s.name "_count"
      && any (λ v. starts_with (stem_of v) (before_suffix s.name "_count")) values

  abbrev pub with_denominators : List (TickSignal V) → List (TickSignal V) → Arm V
  with_denominators values [] = uninterpretable values
  with_denominators values (d ∷ ds) = interpretable values (d ∷ ds)

  -- the arm, from its signals and all of the tick's
  unfoldable pub arm_of : List (TickSignal V) → List (TickSignal V) → Arm V
  unfolding counts_for
  arm_of [] signals = arm_absent
  arm_of (v ∷ values) signals =
      with_denominators (v ∷ values) (filter (counts_for (v ∷ values)) signals)

  unfoldable pub arm_at : Option (AuditTick V) → Arm V
  unfolding arm_of
  arm_at none = no_ticks
  arm_at (some tick) = arm_of (filter is_baseline tick.signals) tick.signals

  -- `control_arm`; the index is that of the last tick where it is missing or too large.
  unfoldable pub control_arm : List (AuditTick V) → Option ℕ → Arm V
  unfolding arm_at
  control_arm ticks index =
      let last = length ticks - 1 in arm_at (get_elem? ticks (smaller (get_or index last) last))
