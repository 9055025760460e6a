-- ===== src/Replay/Evidence.antt =====
-- A success streak counts confirmations that are independent of each other.
use mathlib.Core.List.{append_assoc}
use testbed_services.Common.{
  ℕ, suc, ◌+◌, ◌*◌, ◌≤◌, ◌<◌, Bool, true, false, Option, none, some, List, [], ◌∷◌, ◌≡◌, refl, sym,
  ap, ◌⊎◌, inl, inr, Bool-cases, leb, ltb, ◌==◌, not, ◌&&◌, arith, rev_onto, All, All-append, ◌++◌,
  subst, ◌≢◌,
}
use testbed_services.Replay.Signals.{Comparisons, Match, Condition, verdict, independence}
use testbed_services.Replay.Run.{
  Tick, Streak, Visit, Progress, reset, hold_factor, hold, confirm, updated, record_visit, advance,
  replay_segment, replay_segments, replay, segments_of,
}

module _ (c : Comparisons) (match : Match) (conds : List (Condition c.V)) where
  open c use {V}

  abbrev pub tick_verdict : Tick V → Option Bool
  tick_verdict t = verdict c match conds t.signals

  abbrev pub spacing : Tick V → ℕ
  spacing t = independence c match conds t.signals

  -- The ticks of a segment that were seen, newest first, hold `n` confirmations, the last of them
  -- at `mark`: ticks with a true verdict, each at least its own spacing after the one before. Since
  -- the first of them no verdict was false, and while it was unknown the last confirmation was at
  -- most twice the spacing old.
  pub data Confirmed : List (Tick V) → ℕ → ℕ → Type 0 where
    first :
        (t : Tick V) (seen : List (Tick V))
        → tick_verdict t ≡ some true
        → Confirmed (t ∷ seen) 1 t.elapsed_sec
    next :
        (t : Tick V) (seen : List (Tick V)) (n mark : ℕ)
        → tick_verdict t ≡ some true
        → mark + spacing t ≤ t.elapsed_sec
        → Confirmed seen n mark
        → Confirmed (t ∷ seen) (suc n) t.elapsed_sec
    again :
        (t : Tick V) (seen : List (Tick V)) (n mark : ℕ)
        → tick_verdict t ≡ some true
        → t.elapsed_sec < mark + spacing t
        → Confirmed seen n mark
        → Confirmed (t ∷ seen) n mark
    unknown :
        (t : Tick V) (seen : List (Tick V)) (n mark : ℕ)
        → tick_verdict t ≡ none
        → t.elapsed_sec ≤ mark + 2 * spacing t
        → Confirmed seen n mark
        → Confirmed (t ∷ seen) n mark

  -- A streak is none, or is confirmed.
  abbrev pub Backed : List (Tick V) → Streak → Type 0
  Backed seen s = (s ≡ reset) ⊎ ((mark : ℕ) × (s.mark ≡ some mark) × Confirmed seen s.streak mark)

  positive : (seen : List (Tick V)) (n mark : ℕ) → Confirmed seen n mark → n ≡ 0 → ⊥
  positive seen n mark (first t rest v) e = cc e
  positive seen n mark (next t rest m k v s h) e = cc e
  positive seen n mark (again t rest m k v s h) e = positive rest m k h e
  positive seen n mark (unknown t rest m k v s h) e = positive rest m k h e

  hold-Backed :
      (t : Tick V) (seen : List (Tick V)) (n mark : ℕ)
      → tick_verdict t ≡ none
      → Confirmed seen n mark
      → Backed (t ∷ seen) (hold (spacing t) t.elapsed_sec n (some mark))
  unfolding hold
  hold-Backed t seen n mark v h =
      elim (Bool-cases (not (n == 0) && ltb (mark + hold_factor * spacing t) t.elapsed_sec)) [
        | inl old ↦ rw old (inl refl)
        | inr young ↦ rw young (
            let positive_n : n ≢ 0 = positive seen n mark h in
            inr (mark, refl, unknown t seen n mark v (ground arith) h))
      ]

  confirm-Backed :
      (t : Tick V) (seen : List (Tick V)) (n mark : ℕ)
      → tick_verdict t ≡ some true
      → Confirmed seen n mark
      → Backed (t ∷ seen) (confirm (spacing t) t.elapsed_sec n (some mark))
  unfolding confirm
  confirm-Backed t seen n mark v h = elim (Bool-cases (n == 0)) [
    | inl z ↦ rw z (inr (t.elapsed_sec, refl, first t seen v))
    | inr nz ↦ elim (Bool-cases (leb (mark + spacing t) t.elapsed_sec)) [
      | inl far ↦ rw (nz, far) (inr (t.elapsed_sec, refl, next t seen n mark v (ground arith) h))
      | inr near ↦ rw (nz, near) (inr (mark, refl, again t seen n mark v (ground arith) h))
    ]
  ]

  fresh-Backed :
      (v : Option Bool) (t : Tick V) (seen : List (Tick V))
      → tick_verdict t ≡ v
      → Backed (t ∷ seen) (updated v (spacing t) t.elapsed_sec reset)
  unfolding updated hold confirm
  fresh-Backed none t seen e = inl refl
  fresh-Backed (some false) t seen e = inl refl
  fresh-Backed (some true) t seen e = inr (t.elapsed_sec, refl, first t seen e)

  updated-Backed :
      (v : Option Bool) (t : Tick V) (seen : List (Tick V)) (s : Streak)
      → tick_verdict t ≡ v
      → Backed seen s
      → Backed (t ∷ seen) (updated v (spacing t) t.elapsed_sec s)
  unfolding updated
  updated-Backed v t seen s e (inl z) = rw z (fresh-Backed v t seen e)
  updated-Backed none t seen s e (inr (mark, m, h)) = rw m (hold-Backed t seen s.streak mark e h)
  updated-Backed (some false) t seen s e (inr b) = inl refl
  updated-Backed (some true) t seen s e (inr (mark, m, h)) =
      rw m (confirm-Backed t seen s.streak mark e h)

  advance-Backed :
      (t : Tick V) (seen : List (Tick V)) (s : Streak)
      → Backed seen s
      → Backed (t ∷ seen) (advance c match conds t s)
  unfolding advance
  advance-Backed t seen s b = updated-Backed (tick_verdict t) t seen s refl b

  -- A visit whose streak is confirmed by the ticks of its segment, up to its own.
  pub record Explained (segments : List (List (Tick V))) (v : Visit V) : Type 0 where
    pub before : List (List (Tick V))
    pub segment : List (Tick V)
    pub after : List (List (Tick V))
    pub seen : List (Tick V)
    pub later : List (Tick V)
    pub among : segments ≡ before ++ segment ∷ after
    pub split : segment ≡ rev_onto (v.tick ∷ seen) later
    pub streak_eq : (v.streak ≡ 0) ⊎ ((mark : ℕ) × Confirmed (v.tick ∷ seen) v.streak mark)

  Backed-streak :
      (seen : List (Tick V)) (s : Streak)
      → Backed seen s
      → (s.streak ≡ 0) ⊎ ((mark : ℕ) × Confirmed seen s.streak mark)
  Backed-streak seen s (inl e) = inl (ap (λ x. x.streak) e)
  Backed-streak seen s (inr (mark, m, h)) = inr (mark, h)

  module _ (min_hold ct : ℕ) where
    segment-Explained :
        (before after : List (List (Tick V))) (segment seen ticks : List (Tick V)) (s : Streak)
        (p : Progress V)
        → segment ≡ rev_onto seen ticks
        → Backed seen s
        → All (Explained (before ++ segment ∷ after)) p.trace
        → All
            (Explained (before ++ segment ∷ after))
            (replay_segment c match conds min_hold ct ticks s p).trace
    unfolding replay_segment record_visit
    segment-Explained before after segment seen [] s p e b h = h
    segment-Explained before after segment seen (t ∷ ts) s p e b h =
        let s' = advance c match conds t s in
        let b' = advance-Backed t seen s b in
        let v : Visit V = record { tick = t; streak = s'.streak } in
        segment-Explained before after segment (t ∷ seen) ts s'
          (record_visit min_hold ct t s'.streak p) e b'
          (All-append (Explained (before ++ segment ∷ after)) p.trace (v ∷ []) h (
            record {
              before = before;
              segment = segment;
              after = after;
              seen = seen;
              later = ts;
              among = refl;
              split = e;
              streak_eq = Backed-streak (t ∷ seen) s' b';
            },
            tt,
          ))

    segments-Explained :
        (before after : List (List (Tick V))) (p : Progress V)
        → All (Explained (before ++ after)) p.trace
        → All
            (Explained (before ++ after))
            (replay_segments c match conds min_hold ct after p).trace
    unfolding replay_segments
    segments-Explained before [] p h = h
    segments-Explained before (segment ∷ after) p h =
        subst
          (λ all.
            All (Explained all)
              (replay_segments c match conds min_hold ct after
                (replay_segment c match conds min_hold ct segment reset p)).trace)
          (append_assoc before (segment ∷ []) after)
          (segments-Explained (before ++ segment ∷ []) after
            (replay_segment c match conds min_hold ct segment reset p)
            (subst
              (λ all.
                All (Explained all)
                  (replay_segment c match conds min_hold ct segment reset p).trace)
              (sym (append_assoc before (segment ∷ []) after))
              (segment-Explained before after segment [] segment reset p refl (inl refl) h)))

    -- Every entry of the trace has a streak of zero, or as many independent confirmations as its
    -- streak among the ticks of its own segment up to its own tick.
    pub replay-Explained :
        (ticks : List (Tick V))
        → All (Explained (segments_of ticks)) (replay c match conds min_hold ct ticks).trace
    unfolding replay
    replay-Explained ticks = segments-Explained [] (segments_of ticks) _ tt
