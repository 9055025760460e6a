-- ===== src/Common/Texts.antt =====
-- Python's operations on texts and on sets of texts.
use Prim.Native.Nat.{◌-◌}
use Prim.Native.String.{String, len, slice, find, compare}
use mathlib.Core.Bool.{Bool, ◌&&◌, not}
use mathlib.Core.List.{List, [], ◌∷◌}
use text.Mathlib.Text.{◌==◌ as str_eq, is_le}
use mathlib.Core.Logic.{inl, inr}
use testbed_services.Common.Lists.{leb, any, filter, if◌then◌else◌, All, Bool-cases}

-- `part in s`
abbrev pub contains : String → String → Bool
contains s part = leb (find s part) (len s)

-- `s.endswith(t)`
abbrev pub ends_with : String → String → Bool
ends_with s t = leb (len t) (len s) && str_eq (slice s (len s - len t) (len s)) t

-- `s[len(t):]`, and `s[:-len(t)]`, of a text that starts or ends with `t`
abbrev pub after_prefix : String → String → String
after_prefix s t = slice s (len t) (len s)

abbrev pub before_suffix : String → String → String
before_suffix s t = slice s 0 (len s - len t)

-- `s.split(t, 1)[0]`
abbrev pub before_first : String → String → String
before_first s t = if contains s t then slice s 0 (find s t) else s

-- `x in xs`, and a set as a list without repetition
abbrev pub is_in : String → List String → Bool
is_in x xs = any (λ y. str_eq y x) xs

unfoldable pub add : String → List String → List String
add x xs = if is_in x xs then xs else x ∷ xs

-- `xs.discard(x)`
abbrev pub discard : String → List String → List String
discard x xs = filter (λ y. not (str_eq y x)) xs

-- `sorted(xs)`
unfoldable pub place : String → List String → List String
place x [] = x ∷ []
place x (y ∷ ys) = if is_le (compare x y) then x ∷ y ∷ ys else y ∷ place x ys

unfoldable pub sorted : List String → List String
sorted [] = []
sorted (x ∷ xs) = place x (sorted xs)

-- What every element of a set or of a sorted list satisfies.
module _ {κ} (P : String → Type κ) where
  pub All-add : (x : String) (xs : List String) → P x → All P xs → All P (add x xs)
  unfolding add
  All-add x xs p h = elim (Bool-cases (is_in x xs)) [ inl old ↦ rw old h | inr new ↦ rw new (p, h) ]

  All-place : (x : String) (xs : List String) → P x → All P xs → All P (place x xs)
  unfolding place
  All-place x [] p h = (p, h)
  All-place x (y ∷ ys) p h = elim (Bool-cases (is_le (compare x y))) [
    | inl before ↦ rw before (p, h)
    | inr after ↦ rw after (h.0, All-place x ys p h.1)
  ]

  pub All-sorted : (xs : List String) → All P xs → All P (sorted xs)
  unfolding sorted
  All-sorted [] h = h
  All-sorted (x ∷ xs) h = All-place x (sorted xs) h.0 (All-sorted xs h.1)
