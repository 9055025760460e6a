-- ===== src/Replay/Summary.antt =====
-- What the one pass of the replay sums up is what a search of its trace gives.
use mathlib.Core.List.{append_assoc, append-nil}
use testbed_services.Common.{
  ℕ, Bool, true, false, Option, none, some, List, [], ◌∷◌, ◌++◌, ◌≡◌, refl, sym, ap, ◌∙◌,
  Bool-cases, inl, inr, leb, ◌&&◌, arith, if◌then◌else◌, map, filter, find?, concat, is_none, subst,
}
use testbed_services.Replay.Signals.{Comparisons, Match, Condition}
use testbed_services.Replay.Segments.{segments_of-IsCut}
use testbed_services.Replay.Run.{
  Tick, Streak, Visit, Progress, reset, larger, is_post, is_replayed, record_visit, advance,
  replay_segment, replay_segments, replay, segments_of,
}

abbrev pub maximum : List ℕ → ℕ
maximum [] = 0
maximum (n ∷ ns) = larger n (maximum ns)

larger_assoc : (a b c : ℕ) → larger (larger a b) c ≡ larger a (larger b c)
larger_assoc a b c = ground arith

larger-zero : (a : ℕ) → larger 0 a ≡ a
larger-zero a = ground arith

zero-larger : (a : ℕ) → larger a 0 ≡ a
zero-larger a = ground arith

maximum-snoc : (ns : List ℕ) (n : ℕ) → maximum (ns ++ n ∷ []) ≡ larger (maximum ns) n
maximum-snoc [] n = zero-larger n ∙ sym (larger-zero n)
maximum-snoc (m ∷ ns) n = ap (larger m) (maximum-snoc ns n) ∙ sym (larger_assoc m (maximum ns) n)

map-snoc :
    {A B : Type 0} (f : A → B) (xs : List A) (x : A) → map f (xs ++ x ∷ []) ≡ map f xs ++ f x ∷ []
map-snoc f [] x = refl
map-snoc f (y ∷ xs) x = ap (λ ys. f y ∷ ys) (map-snoc f xs x)

-- the first of those found so far, or the last element if it is one
abbrev first_of : {A : Type 0} → Bool → Option A → A → Option A
first_of b (some y) x = some y
first_of b none x = if b then some x else none

module _ {A : Type 0} (p : A → Bool) where
  abbrev one : A → List A
  one x = if p x then x ∷ [] else []

  filter-snoc : (xs : List A) (x : A) → filter p (xs ++ x ∷ []) ≡ filter p xs ++ one x
  filter-snoc [] x = refl
  filter-snoc (y ∷ xs) x = elim (Bool-cases (p y)) [
    | inl e ↦ rw e (ap (λ ys. y ∷ ys) (filter-snoc xs x))
    | inr e ↦ rw e (filter-snoc xs x)
  ]

  find-snoc : (xs : List A) (x : A) → find? p (xs ++ x ∷ []) ≡ first_of (p x) (find? p xs) x
  find-snoc [] x = refl
  find-snoc (y ∷ xs) x = elim (Bool-cases (p y)) [
    | inl e ↦ rw e refl
    | inr e ↦ rw e (find-snoc xs x)
  ]

module _ {V : Type 0} where
  abbrev pub streak_of : Visit V → ℕ
  streak_of v = v.streak

  abbrev pub tick_of : Visit V → Tick V
  tick_of v = v.tick

  abbrev pub is_late : ℕ → Visit V → Bool
  is_late min_hold v = is_post min_hold v.tick

  -- a visit at which the success would fire
  abbrev pub would_fire : ℕ → ℕ → Visit V → Bool
  would_fire min_hold ct v = is_post min_hold v.tick && leb ct v.streak

  abbrev pub time_of : Option (Visit V) → Option ℕ
  time_of none = none
  time_of (some v) = some v.tick.elapsed_sec

  pub record IsSummary (min_hold ct : ℕ) (ticks : List (Tick V)) (p : Progress V) : Type 0 where
    pub ticks_eq : map tick_of p.trace ≡ ticks
    pub max_any_eq : p.max_any ≡ maximum (map streak_of p.trace)
    pub max_post_eq : p.max_post ≡ maximum (map streak_of (filter (is_late min_hold) p.trace))
    pub fires_at_eq : p.fires_at ≡ time_of (find? (would_fire min_hold ct) p.trace)

  module _ (min_hold ct : ℕ) where
    post_step :
        (q : Visit V → Bool) (vs : List (Visit V)) (v : Visit V) (m : ℕ)
        → m ≡ maximum (map streak_of (filter q vs))
        → (if q v then larger m v.streak else m) ≡ maximum (map streak_of (filter q (vs ++ v ∷ [])))
    post_step q vs v m h =
        (elim (Bool-cases (q v)) [
          | inl e ↦ rw e (
              ap (λ x. larger x v.streak) h
              ∙ sym (maximum-snoc (map streak_of (filter q vs)) v.streak)
              ∙ ap maximum (sym (map-snoc streak_of (filter q vs) v)))
          | inr e ↦ rw e (h ∙ ap (λ l. maximum (map streak_of l)) (sym (append-nil (filter q vs))))
        ])
        ∙ ap (λ l. maximum (map streak_of l)) (sym (filter-snoc q vs v))

    chosen :
        (late reached : Bool) (o : Option (Visit V)) (v : Visit V)
        → (if late && reached && is_none (time_of o) then some v.tick.elapsed_sec else time_of o)
          ≡ time_of (first_of (late && reached) o v)
    chosen true true none v = refl
    chosen true true (some u) v = refl
    chosen true false none v = refl
    chosen true false (some u) v = refl
    chosen false reached none v = refl
    chosen false reached (some u) v = refl

    fires_step :
        (vs : List (Visit V)) (v : Visit V) (f : Option ℕ)
        → f ≡ time_of (find? (would_fire min_hold ct) vs)
        → (if is_late min_hold v && leb ct v.streak && is_none f
            then some v.tick.elapsed_sec
            else f)
          ≡ time_of (find? (would_fire min_hold ct) (vs ++ v ∷ []))
    fires_step vs v f h =
        ap
          (λ f.
            if is_late min_hold v && leb ct v.streak && is_none f
            then some v.tick.elapsed_sec
            else f)
          h
        ∙ chosen (is_late min_hold v) (leb ct v.streak) (find? (would_fire min_hold ct) vs) v
        ∙ ap time_of (sym (find-snoc (would_fire min_hold ct) vs v))

    record_visit-IsSummary :
        (ticks : List (Tick V)) (t : Tick V) (n : ℕ) (p : Progress V)
        → IsSummary min_hold ct ticks p
        → IsSummary min_hold ct (ticks ++ t ∷ []) (record_visit min_hold ct t n p)
    unfolding record_visit
    record_visit-IsSummary ticks t n p s =
        let v : Visit V = record { tick = t; streak = n } in
        record {
          ticks_eq = map-snoc tick_of p.trace v ∙ ap (λ ts. ts ++ t ∷ []) s.ticks_eq;
          max_any_eq =
              ap (λ m. larger m n) s.max_any_eq
              ∙ sym (maximum-snoc (map streak_of p.trace) n)
              ∙ ap maximum (sym (map-snoc streak_of p.trace v));
          max_post_eq = post_step (is_late min_hold) p.trace v p.max_post s.max_post_eq;
          fires_at_eq = fires_step p.trace v p.fires_at s.fires_at_eq;
        }

module _ (c : Comparisons) (match : Match) (conds : List (Condition c.V)) (min_hold ct : ℕ) where
  open c use {V}

  segment-IsSummary :
      (segment earlier : List (Tick V)) (s : Streak) (p : Progress V)
      → IsSummary min_hold ct earlier p
      → IsSummary min_hold ct
          (earlier ++ segment)
          (replay_segment c match conds min_hold ct segment s p)
  unfolding replay_segment
  segment-IsSummary [] earlier s p h =
      subst (λ ts. IsSummary min_hold ct ts p) (sym (append-nil earlier)) h
  segment-IsSummary (t ∷ ts) earlier s p h =
      let s' = advance c match conds t s in
      let p' = record_visit min_hold ct t s'.streak p in
      subst (λ all. IsSummary min_hold ct all (replay_segment c match conds min_hold ct ts s' p'))
        (append_assoc earlier (t ∷ []) ts)
        (segment-IsSummary ts (earlier ++ t ∷ []) s' p'
          (record_visit-IsSummary min_hold ct earlier t s'.streak p h))

  segments-IsSummary :
      (segments : List (List (Tick V))) (earlier : List (Tick V)) (p : Progress V)
      → IsSummary min_hold ct earlier p
      → IsSummary min_hold ct
          (earlier ++ concat segments)
          (replay_segments c match conds min_hold ct segments p)
  unfolding replay_segments
  segments-IsSummary [] earlier p h =
      subst (λ ts. IsSummary min_hold ct ts p) (sym (append-nil earlier)) h
  segments-IsSummary (segment ∷ segments) earlier p h =
      let p' = replay_segment c match conds min_hold ct segment reset p in
      subst
        (λ all. IsSummary min_hold ct all (replay_segments c match conds min_hold ct segments p'))
        (append_assoc earlier segment (concat segments))
        (segments-IsSummary segments (earlier ++ segment) p'
          (segment-IsSummary segment earlier reset p h))

  -- The trace has one entry for each settling or evaluating tick, in order; `max_any` is the
  -- greatest streak in it, `max_post` the greatest at an evaluating tick past the hold, and
  -- `fires_at` the time of the first such tick whose streak has reached the count.
  pub replay-IsSummary :
      (ticks : List (Tick V))
      → IsSummary min_hold ct
          (filter (λ t. is_replayed t.phase) ticks)
          (replay c match conds min_hold ct ticks)
  unfolding replay
  replay-IsSummary ticks =
      subst (λ all. IsSummary min_hold ct all (replay c match conds min_hold ct ticks))
        (segments_of-IsCut ticks).kept
        (segments-IsSummary (segments_of ticks) []
          (record { trace = []; max_any = 0; max_post = 0; fires_at = none })
          (record { ticks_eq = refl; max_any_eq = refl; max_post_eq = refl; fires_at_eq = refl }))
