-- ===== src/Replay/Candidates.antt =====
-- What a candidate hold and count can change in a replay, and when one can fire.
use testbed_services.Common.{
  ℕ, ◌≤◌, ◌<◌, Bool, false, Option, none, some, List, [], ◌∷◌, ◌++◌, ◌≡◌, refl, sym, ap, ◌∙◌,
  Bool-cases, inl, inr, leb, arith, if◌then◌else◌, map, filter, find?, subst, ◌↔◌, ◌≢◌,
}
use testbed_services.Replay.Signals.{Comparisons, Match, Condition}
use testbed_services.Replay.Run.{
  Tick, Streak, Visit, Progress, reset, record_visit, advance, replay_segment, replay_segments,
  replay, segments_of,
}
use testbed_services.Replay.Summary.{
  maximum, streak_of, is_late, would_fire, time_of, replay-IsSummary,
}

module _ {V : Type 0} where
  weaker_fires :
      (min_hold ct min_hold' ct' : ℕ) (v : Visit V)
      → min_hold ≤ min_hold'
      → ct ≤ ct'
      → would_fire min_hold ct v ≡ false
      → would_fire min_hold' ct' v ≡ false
  weaker_fires min_hold ct min_hold' ct' v h k e = ground arith

  none_fires :
      (min_hold ct min_hold' ct' : ℕ) (vs : List (Visit V))
      → min_hold ≤ min_hold'
      → ct ≤ ct'
      → time_of (find? (would_fire min_hold ct) vs) ≡ none
      → time_of (find? (would_fire min_hold' ct') vs) ≡ none
  none_fires min_hold ct min_hold' ct' [] h k e = refl
  none_fires min_hold ct min_hold' ct' (v ∷ vs) h k e =
      elim (Bool-cases (would_fire min_hold ct v)) [
        | inl y ↦ absurd (cc (subst (λ b. time_of (choice b v vs) ≡ none) y e))
        | inr n ↦ rw (weaker_fires min_hold ct min_hold' ct' v h k n) (
            none_fires min_hold ct min_hold' ct' vs h k
              (subst (λ b. time_of (choice b v vs) ≡ none) n e))
      ]
    where
      choice : Bool → Visit V → List (Visit V) → Option (Visit V)
      choice b v vs = if b then some v else find? (would_fire min_hold ct) vs

  found_if_reached :
      (min_hold ct : ℕ) (vs : List (Visit V))
      → 0 < ct
      → time_of (find? (would_fire min_hold ct) vs) ≢ none
        ↔ ct ≤ maximum (map streak_of (filter (is_late min_hold) vs))
  found_if_reached min_hold ct [] h = ((λ n. absurd (n refl)), (λ c. omega (arith, h, c)))
  found_if_reached min_hold ct (v ∷ vs) h =
      let rest = found_if_reached min_hold ct vs h in
      elim (Bool-cases (is_late min_hold v)) [
        | inr early ↦ rw early rest
        | inl late ↦ elim (Bool-cases (leb ct v.streak)) [
          | inl reached ↦ rw (late, reached) ((λ n. ground arith), (λ c e. cc e))
          | inr short ↦
              rw (late, short)
                ((λ n. let c = rest.0 n in ground arith), (λ c. rest.1 (ground arith)))
        ]
      ]

module _ (c : Comparisons) (match : Match) (conds : List (Condition c.V)) where
  open c use {V}

  module _ (min_hold ct min_hold' ct' : ℕ) where
    segment_trace :
        (ticks : List (Tick V)) (s : Streak) (p p' : Progress V)
        → p.trace ≡ p'.trace
        → (replay_segment c match conds min_hold ct ticks s p).trace
          ≡ (replay_segment c match conds min_hold' ct' ticks s p').trace
    unfolding replay_segment record_visit
    segment_trace [] s p p' e = e
    segment_trace (t ∷ ts) s p p' e =
        let s' = advance c match conds t s in
        segment_trace ts s' (record_visit min_hold ct t s'.streak p)
          (record_visit min_hold' ct' t s'.streak p')
          (ap (λ vs. vs ++ record { tick = t; streak = s'.streak } ∷ []) e)

    segments_trace :
        (segments : List (List (Tick V))) (p p' : Progress V)
        → p.trace ≡ p'.trace
        → (replay_segments c match conds min_hold ct segments p).trace
          ≡ (replay_segments c match conds min_hold' ct' segments p').trace
    unfolding replay_segments
    segments_trace [] p p' e = e
    segments_trace (s ∷ segments) p p' e =
        segments_trace segments (replay_segment c match conds min_hold ct s reset p)
          (replay_segment c match conds min_hold' ct' s reset p') (segment_trace s reset p p' e)

    replay_trace :
        (ticks : List (Tick V))
        → (replay c match conds min_hold ct ticks).trace
          ≡ (replay c match conds min_hold' ct' ticks).trace
    unfolding replay
    replay_trace ticks = segments_trace (segments_of ticks) _ _ refl

    -- A candidate with a longer or equal hold and a higher or equal count has the same trace, and
    -- does not fire on a run on which the other does not fire.
    pub stricter_never_fires :
        (ticks : List (Tick V))
        → min_hold ≤ min_hold'
        → ct ≤ ct'
        → (replay c match conds min_hold ct ticks).fires_at ≡ none
        → ((replay c match conds min_hold' ct' ticks).trace
            ≡ (replay c match conds min_hold ct ticks).trace)
          × ((replay c match conds min_hold' ct' ticks).fires_at ≡ none)
    stricter_never_fires ticks h k e =
        let p = replay c match conds min_hold ct ticks in
        let s = replay-IsSummary c match conds min_hold ct ticks in
        let s' = replay-IsSummary c match conds min_hold' ct' ticks in
        (
          sym (replay_trace ticks),
          s'.fires_at_eq
              ∙ subst (λ vs. time_of (find? (would_fire min_hold' ct') vs) ≡ none)
                  (replay_trace ticks)
                  (none_fires min_hold ct min_hold' ct' p.trace h k (sym s.fires_at_eq ∙ e)),
        )

  -- With a count above zero, the success fires exactly if the greatest streak at an evaluating tick
  -- past the hold reaches the count.
  pub fires-if-reached :
      (min_hold ct : ℕ) (ticks : List (Tick V))
      → 0 < ct
      → (replay c match conds min_hold ct ticks).fires_at ≢ none
        ↔ ct ≤ (replay c match conds min_hold ct ticks).max_post
  fires-if-reached min_hold ct ticks h =
      let s = replay-IsSummary c match conds min_hold ct ticks in
      rw (s.fires_at_eq, s.max_post_eq)
        (found_if_reached min_hold ct (replay c match conds min_hold ct ticks).trace h)
