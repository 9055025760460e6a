-- ===== src/Replay/Segments.antt =====
-- How the replay cuts the ticks of a run into the rungs of the ladder.
use mathlib.Core.List.{append_assoc, append-nil}
use testbed_services.Common.{
  ℕ, ◌≤◌, ◌<◌, true, false, Option, none, some, List, [], ◌∷◌, ◌++◌, ◌≡◌, refl, sym, ap, ◌∙◌,
  filter, head?, last?, last-snoc, head-append, Linked, Linked-snoc, concat, All, All-append,
  Bool-cases, inl, inr, subst, arith,
}
use testbed_services.Replay.Run.{Tick, is_replayed, is_rewind, cut, segments_of}

concat-snoc :
    {A : Type 0} (xss : List (List A)) (ys : List A) → concat (xss ++ ys ∷ []) ≡ concat xss ++ ys
concat-snoc [] ys = append-nil ys
concat-snoc (xs ∷ xss) ys = rw (concat-snoc xss ys) (sym (append_assoc xs (concat xss) ys))

no_last : {A : Type 0} (a : A) → none ≡ some a → ⊥
no_last a e = cc e

module _ {V : Type 0} where
  -- In a segment the elapsed time never falls.
  abbrev pub Rises : Tick V → Tick V → Type 0
  Rises t u = t.elapsed_sec ≤ u.elapsed_sec

  -- The first tick of a segment is earlier than the last one of the segment before.
  pub record Rewinds (s u : List (Tick V)) : Type 0 where
    pub last_tick : Tick V
    pub first_tick : Tick V
    pub last_eq : last? s ≡ some last_tick
    pub first_eq : head? u ≡ some first_tick
    pub rewound : first_tick.elapsed_sec < last_tick.elapsed_sec

  pub record IsCut (ticks : List (Tick V)) (segments : List (List (Tick V))) : Type 0 where
    pub kept : concat segments ≡ ticks
    pub rising : All (Linked Rises) segments
    pub maximal : Linked Rewinds segments

  abbrev elapsed_of : Option (Tick V) → Option ℕ
  elapsed_of none = none
  elapsed_of (some t) = some t.elapsed_sec

  -- what holds of the loop's variables
  record IsCutting (segments : List (List (Tick V))) (current : List (Tick V)) (previous : Option ℕ)
      : Type 0 where
    rising : All (Linked Rises) segments
    maximal : Linked Rewinds segments
    current_rising : Linked Rises current
    previous_eq : previous ≡ elapsed_of (last? current)
    after : (s : List (Tick V)) → last? segments ≡ some s → Rewinds s current

  cut-kept :
      (segments : List (List (Tick V))) (current : List (Tick V)) (previous : Option ℕ)
      (ticks : List (Tick V))
      → concat (cut segments current previous ticks) ≡ concat segments ++ (current ++ ticks)
  unfolding cut
  cut-kept segments current previous [] =
      concat-snoc segments current ∙ ap (λ ts. concat segments ++ ts) (sym (append-nil current))
  cut-kept segments current previous (tick ∷ ticks) =
      elim (Bool-cases (is_rewind previous tick.elapsed_sec)) [
        | inl r ↦ rw r (
            cut-kept (segments ++ current ∷ []) (tick ∷ []) (some tick.elapsed_sec) ticks
            ∙ ap (λ ts. ts ++ tick ∷ ticks) (concat-snoc segments current)
            ∙ append_assoc (concat segments) current (tick ∷ ticks))
        | inr r ↦ rw r (
            cut-kept segments (current ++ tick ∷ []) (some tick.elapsed_sec) ticks
            ∙ ap (λ ts. concat segments ++ ts) (append_assoc current (tick ∷ []) ticks))
      ]

  single_snoc :
      (s : List (List (Tick V))) (current : List (Tick V))
      → All (Linked Rises) s
      → Linked Rises current
      → All (Linked Rises) (s ++ current ∷ [])
  single_snoc s current h k = All-append (Linked Rises) s (current ∷ []) h (k, tt)

  -- the time before a tick, if it is no rewind, is at most the tick's
  not_rewind :
      (current : List (Tick V)) (previous : Option ℕ) (tick y : Tick V)
      → previous ≡ elapsed_of (last? current)
      → is_rewind previous tick.elapsed_sec ≡ false
      → last? current ≡ some y
      → Rises y tick
  unfolding is_rewind
  not_rewind current none tick y e r l = absurd (no_last y.elapsed_sec (e ∙ ap elapsed_of l))
  not_rewind current (some p) tick y e r l =
      let same : some p ≡ some y.elapsed_sec = e ∙ ap elapsed_of l in
      let eq : p ≡ y.elapsed_sec = cc same in ground arith

  rewind-Rewinds :
      (current : List (Tick V)) (previous : Option ℕ) (last : Option (Tick V)) (tick : Tick V)
      → last? current ≡ last
      → previous ≡ elapsed_of last
      → is_rewind previous tick.elapsed_sec ≡ true
      → Rewinds current (tick ∷ [])
  unfolding is_rewind
  rewind-Rewinds current none last tick l e r = absurd (cc r)
  rewind-Rewinds current (some p) none tick l e r = absurd (no_last p (sym e))
  rewind-Rewinds current (some p) (some t) tick l e r = record {
    last_tick = t;
    first_tick = tick;
    last_eq = l;
    first_eq = refl;
    rewound = let eq : p ≡ t.elapsed_sec = cc e in ground arith;
  }

  after_rewind :
      (segments : List (List (Tick V))) (current : List (Tick V)) (previous : Option ℕ)
      (tick : Tick V)
      → IsCutting segments current previous
      → is_rewind previous tick.elapsed_sec ≡ true
      → IsCutting (segments ++ current ∷ []) (tick ∷ []) (some tick.elapsed_sec)
  after_rewind segments current previous tick c r = record {
    rising = single_snoc segments current c.rising c.current_rising;
    maximal = Linked-snoc Rewinds segments current c.maximal c.after;
    current_rising = tt;
    previous_eq = refl;
    after = λ s l.
        subst (λ x. Rewinds x (tick ∷ [])) (cc (l, last-snoc segments current))
          (rewind-Rewinds current previous (last? current) tick refl c.previous_eq r);
  }

  after_tick :
      (segments : List (List (Tick V))) (current : List (Tick V)) (previous : Option ℕ)
      (tick : Tick V)
      → IsCutting segments current previous
      → is_rewind previous tick.elapsed_sec ≡ false
      → IsCutting segments (current ++ tick ∷ []) (some tick.elapsed_sec)
  after_tick segments current previous tick c r = record {
    rising = c.rising;
    maximal = c.maximal;
    current_rising =
        Linked-snoc Rises current tick c.current_rising
          (λ y l. not_rewind current previous tick y c.previous_eq r l);
    previous_eq = sym (ap elapsed_of (last-snoc current tick));
    after = λ s l.
        let a = c.after s l in
        record {
          last_tick = a.last_tick;
          first_tick = a.first_tick;
          last_eq = a.last_eq;
          first_eq = head-append current (tick ∷ []) a.first_tick a.first_eq;
          rewound = a.rewound;
        };
  }

  -- the segments of the whole loop
  cut-IsCut :
      (segments : List (List (Tick V))) (current : List (Tick V)) (previous : Option ℕ)
      (ticks : List (Tick V))
      → IsCutting segments current previous
      → All (Linked Rises) (cut segments current previous ticks)
        × Linked Rewinds (cut segments current previous ticks)
  unfolding cut
  cut-IsCut segments current previous [] c = (
    single_snoc segments current c.rising c.current_rising,
    Linked-snoc Rewinds segments current c.maximal c.after,
  )
  cut-IsCut segments current previous (tick ∷ ticks) c =
      elim (Bool-cases (is_rewind previous tick.elapsed_sec)) [
        | inl r ↦ rw r (
            cut-IsCut (segments ++ current ∷ []) (tick ∷ []) (some tick.elapsed_sec) ticks
              (after_rewind segments current previous tick c r))
        | inr r ↦ rw r (
            cut-IsCut segments (current ++ tick ∷ []) (some tick.elapsed_sec) ticks
              (after_tick segments current previous tick c r))
      ]

  -- The segments hold exactly the settling and evaluating ticks, in their order; in each the
  -- elapsed time never falls, and each next one begins with a fall, so that no two could be one.
  pub segments_of-IsCut :
      (ticks : List (Tick V)) → IsCut (filter (λ t. is_replayed t.phase) ticks) (segments_of ticks)
  unfolding segments_of
  segments_of-IsCut ticks =
      let replayed = filter (λ t. is_replayed t.phase) ticks in
      let c = cut-IsCut [] [] none replayed (record {
        rising = tt;
        maximal = tt;
        current_rising = tt;
        previous_eq = refl;
        after = λ s l. absurd (no_last s l);
      }) in
      record { kept = cut-kept [] [] none replayed; rising = c.0; maximal = c.1 }
