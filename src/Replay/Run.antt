-- ===== src/Replay/Run.antt =====
-- `replay` of scripts/scenarios/replay-success-streak.py, and the validation of `main`.
use testbed_services.Common.{
  ℕ, suc, ◌+◌, ◌*◌, String, Bool, true, false, not, ◌&&◌, Option, none, some, List, [], ◌∷◌, ◌++◌,
  if◌then◌else◌, leb, ltb, ◌==◌, filter, is_none,
}
use testbed_services.Replay.Signals.{Comparisons, Match, Signal, Condition, verdict, independence}

-- `other_phase` is any text but these two.
pub data Phase : Type 0 where
  settling evaluating other_phase : Phase

-- A line of ticks.jsonl. `recorded` is `streaks["success"]`, which may be missing.
pub record Tick (V : Type 0) : Type 0 where
  pub phase : Phase
  pub elapsed_sec : ℕ
  pub signals : List (String × Signal V)
  pub recorded : Option ℕ

-- `streak, mark`
pub record Streak : Type 0 where
  pub streak : ℕ
  pub mark : Option ℕ

-- An entry of `trace`, with its tick.
pub record Visit (V : Type 0) : Type 0 where
  pub tick : Tick V
  pub streak : ℕ

-- what `replay` returns, so far
pub record Progress (V : Type 0) : Type 0 where
  pub trace : List (Visit V)
  pub max_any : ℕ
  pub max_post : ℕ
  pub fires_at : Option ℕ

abbrev pub reset : Streak
reset = record { streak = 0; mark = none }

abbrev pub begun : ℕ → Streak
begun elapsed = record { streak = 1; mark = some elapsed }

-- `HOLD_FACTOR`
abbrev pub hold_factor : ℕ
hold_factor = 2

abbrev pub is_replayed : Phase → Bool
is_replayed settling = true
is_replayed evaluating = true
is_replayed other_phase = false

abbrev pub is_evaluating : Phase → Bool
is_evaluating settling = false
is_evaluating evaluating = true
is_evaluating other_phase = false

-- `verdict is None`: the streak is held, up to `hold_factor * independence` from its mark.
unfoldable pub hold : ℕ → ℕ → ℕ → Option ℕ → Streak
hold independence elapsed streak none = record { streak = streak; mark = none }
hold independence elapsed streak (some mark) =
    if not (streak == 0) && ltb (mark + hold_factor * independence) elapsed
    then reset
    else record { streak = streak; mark = some mark }

-- `verdict is True`: `elapsed - mark >= independence` is tested as `elapsed >= mark + independence`.
unfoldable pub confirm : ℕ → ℕ → ℕ → Option ℕ → Streak
confirm independence elapsed streak none = begun elapsed
confirm independence elapsed streak (some mark) =
    if streak == 0
    then begun elapsed
    else if leb (mark + independence) elapsed
    then record { streak = suc streak; mark = some elapsed }
    else record { streak = streak; mark = some mark }

unfoldable pub updated : Option Bool → ℕ → ℕ → Streak → Streak
updated none independence elapsed s = hold independence elapsed s.streak s.mark
updated (some false) independence elapsed s = reset
updated (some true) independence elapsed s = confirm independence elapsed s.streak s.mark

abbrev pub larger : ℕ → ℕ → ℕ
larger a b = if leb b a then a else b

-- `previous is not None and elapsed < previous`
unfoldable pub is_rewind : Option ℕ → ℕ → Bool
is_rewind none elapsed = false
is_rewind (some previous) elapsed = ltb elapsed previous

abbrev pub is_mismatch : ℕ → Option ℕ → Bool
is_mismatch streak none = false
is_mismatch streak (some recorded) = not (streak == recorded)

module _ {V : Type 0} where
  -- the loop that cuts the ticks into segments
  unfoldable pub cut :
      List (List (Tick V)) → List (Tick V) → Option ℕ → List (Tick V) → List (List (Tick V))
  unfolding is_rewind
  cut segments current previous [] = segments ++ current ∷ []
  cut segments current previous (tick ∷ ticks) =
      let rewind = is_rewind previous tick.elapsed_sec in
      cut (if rewind then segments ++ current ∷ [] else segments)
        ((if rewind then [] else current) ++ tick ∷ []) (some tick.elapsed_sec) ticks

  unfoldable pub segments_of : List (Tick V) → List (List (Tick V))
  segments_of ticks = cut [] [] none (filter (λ t. is_replayed t.phase) ticks)

  -- `elapsed >= min_hold and tick.get("phase") == "evaluating"`
  abbrev pub is_post : ℕ → Tick V → Bool
  is_post min_hold tick = leb min_hold tick.elapsed_sec && is_evaluating tick.phase

  -- the end of the loop over a segment's ticks
  unfoldable pub record_visit : ℕ → ℕ → Tick V → ℕ → Progress V → Progress V
  record_visit min_hold ct tick streak p =
      let post = is_post min_hold tick in
      record {
        trace = p.trace ++ record { tick = tick; streak = streak } ∷ [];
        max_any = larger p.max_any streak;
        max_post = if post then larger p.max_post streak else p.max_post;
        fires_at =
            if post && leb ct streak && is_none p.fires_at
            then some tick.elapsed_sec
            else p.fires_at;
      }

  -- `mismatched`, of the entries of a trace
  unfoldable pub mismatched : List (Visit V) → List (Visit V)
  mismatched trace = filter (λ v. is_mismatch v.streak v.tick.recorded) trace

  -- what `main` returns
  unfoldable pub exit_code : (json validate : Bool) → List (Visit V) → ℕ
  exit_code json validate [] = 0
  exit_code json validate (v ∷ vs) = if not json && validate then 1 else 0

module _ (c : Comparisons) (match : Match) (conds : List (Condition c.V)) where
  open c use {V}

  unfoldable pub advance : Tick V → Streak → Streak
  advance tick s =
      updated (verdict c match conds tick.signals) (independence c match conds tick.signals)
        tick.elapsed_sec s

  module _ (min_hold ct : ℕ) where
    unfoldable pub replay_segment : List (Tick V) → Streak → Progress V → Progress V
    replay_segment [] s p = p
    replay_segment (tick ∷ ticks) s p =
        let s' = advance tick s in
        replay_segment ticks s' (record_visit min_hold ct tick s'.streak p)

    unfoldable pub replay_segments : List (List (Tick V)) → Progress V → Progress V
    replay_segments [] p = p
    replay_segments (segment ∷ segments) p =
        replay_segments segments (replay_segment segment reset p)

    -- `replay`
    unfoldable pub replay : List (Tick V) → Progress V
    replay ticks =
        replay_segments (segments_of ticks)
          (record { trace = []; max_any = 0; max_post = 0; fires_at = none })
