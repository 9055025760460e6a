-- ===== src/Replay/Signals.antt =====
-- The conditions of scripts/scenarios/replay-success-streak.py on the signals of one tick.
use testbed_services.Common.{
  ℕ, String, str_eq, Bool, true, false, not, ◌||◌, Option, none, some, List, [], ◌∷◌, if◌then◌else◌,
  leb, any, map, get_or, is_none,
}

-- Python's six comparisons, on the values that a signal or a condition can have.
pub record Comparisons : Type 1 where
  pub V : Type 0
  pub is_ge : V → V → Bool
  pub is_gt : V → V → Bool
  pub is_lt : V → V → Bool
  pub is_le : V → V → Bool
  pub is_eq : V → V → Bool
  pub is_ne : V → V → Bool

-- the keys of `OPS`
pub data Op : Type 0 where
  gte gt lt lte eq ne : Op

pub data Match : Type 0 where
  match_all match_any : Match

-- an entry of a tick's `signals`; its interval may be missing or null
pub record Signal (V : Type 0) : Type 0 where
  pub usable : Bool
  pub value : V
  pub update_interval_sec : Option ℕ

pub record Condition (V : Type 0) : Type 0 where
  pub observation : String
  pub op : Op
  pub value : V

-- `signals.get(name)`
unfoldable pub signal_of : {V : Type 0} → String → List (String × Signal V) → Option (Signal V)
signal_of name [] = none
signal_of name ((key, s) ∷ signals) = if str_eq key name then some s else signal_of name signals

abbrev pub is_true : Option Bool → Bool
is_true none = false
is_true (some b) = b

abbrev pub is_false : Option Bool → Bool
is_false none = false
is_false (some b) = not b

abbrev pub is_all : Match → Bool
is_all match_all = true
is_all match_any = false

-- `max(xs)` of `x ∷ xs`, and `min(xs)`
abbrev pub largest : ℕ → List ℕ → ℕ
largest x [] = x
largest x (y ∷ ys) = let m = largest y ys in if leb m x then x else m

abbrev pub smallest : ℕ → List ℕ → ℕ
smallest x [] = x
smallest x (y ∷ ys) = let m = smallest y ys in if leb x m then x else m

-- the last two lines of `_independence`
unfoldable pub bound_of : Match → List ℕ → ℕ
bound_of match [] = 0
bound_of match_all (x ∷ xs) = largest x xs
bound_of match_any (x ∷ xs) = smallest x xs

-- `verdict`, from the results of the conditions
unfoldable pub verdict_of : Match → List (Option Bool) → Option Bool
verdict_of match_all results =
    if any is_false results then some false else if any is_none results then none else some true
verdict_of match_any results =
    if any is_true results then some true else if any is_none results then none else some false

module _ (c : Comparisons) where
  open c use {V}

  -- `OPS[op]`
  unfoldable pub ops : Op → V → V → Bool
  ops gte v t = c.is_ge v t
  ops gt v t = c.is_gt v t
  ops lt v t = c.is_lt v t
  ops lte v t = c.is_le v t
  ops eq v t = c.is_eq v t
  ops ne v t = c.is_ne v t

  unfoldable pub observed : Condition V → Option (Signal V) → Option Bool
  observed cond none = none
  observed cond (some s) = if not s.usable then none else some (ops cond.op s.value cond.value)

  -- `_condition`
  unfoldable pub condition : Condition V → List (String × Signal V) → Option Bool
  condition cond signals = observed cond (signal_of cond.observation signals)

  -- the intervals of `_independence`; `s` is the signal of `cond`
  unfoldable pub interval :
      Match → Condition V → List (String × Signal V) → Option (Signal V) → List ℕ → List ℕ
  interval match cond signals none rest = rest
  interval match cond signals (some s) rest =
      if is_all match || is_true (condition cond signals)
      then get_or s.update_interval_sec 0 ∷ rest
      else rest

  unfoldable pub intervals : Match → List (Condition V) → List (String × Signal V) → List ℕ
  intervals match [] signals = []
  intervals match (cond ∷ conds) signals =
      interval match cond signals (signal_of cond.observation signals)
        (intervals match conds signals)

  -- `_independence`
  unfoldable pub independence : Match → List (Condition V) → List (String × Signal V) → ℕ
  independence match conds signals = bound_of match (intervals match conds signals)

  unfoldable pub verdict : Match → List (Condition V) → List (String × Signal V) → Option Bool
  verdict match conds signals = verdict_of match (map (λ cond. condition cond signals) conds)
