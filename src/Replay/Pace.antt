-- ===== src/Replay/Pace.antt =====
-- How fast a streak can grow.
use native.Mathlib.Nat.{suc-mul, mul-le-mul_right}
use testbed_services.Common.{
  ℕ, ◌+◌, ◌*◌, ◌≤◌, Bool, true, Option, none, some, List, [], ◌∷◌, ◌++◌, ◌≡◌, refl, sym, ap, ◌∙◌,
  Bool-cases, inl, inr, arith, filter, find?, concat, subst, All, Linked, rev_onto, head?,
  if◌then◌else◌,
}
use testbed_services.Replay.Signals.{Comparisons, Match, Condition}
use testbed_services.Replay.Run.{Tick, Visit, is_replayed, replay, segments_of}
use testbed_services.Replay.Segments.{segments_of-IsCut, Rises}
use testbed_services.Replay.Evidence.{
  Confirmed, first, next, again, unknown, Explained, replay-Explained, spacing,
}
use testbed_services.Replay.Summary.{would_fire, time_of, replay-IsSummary}

All-right : {A : Type 0} (P : A → Type 0) (xs ys : List A) → All P (xs ++ ys) → All P ys
All-right P [] ys h = h
All-right P (x ∷ xs) ys h = All-right P xs ys h.1

All-left : {A : Type 0} (P : A → Type 0) (xs ys : List A) → All P (xs ++ ys) → All P xs
All-left P [] ys h = tt
All-left P (x ∷ xs) ys h = (h.0, All-left P xs ys h.1)

-- the part of a concatenation
All-among :
    {A : Type 0} (P : A → Type 0) (before : List (List A)) (xs : List A) (after : List (List A))
    → All P (concat (before ++ xs ∷ after))
    → All P xs
All-among P [] xs after h = All-left P xs (concat after) h
All-among P (ys ∷ before) xs after h =
    All-among P before xs after (All-right P ys (concat (before ++ xs ∷ after)) h)

All-rev :
    {A : Type 0} (P : A → Type 0) (xs ys : List A) → All P (rev_onto xs ys) → All P xs × All P ys
All-rev P [] ys h = (tt, h)
All-rev P (x ∷ xs) ys h = let r = All-rev P xs (x ∷ ys) h in ((r.1.0, r.0), r.1.1)

abbrev taken_or : {A : Type 0} → (A → Bool) → List A → A → Bool → Option A
taken_or p xs y b = if b then some y else find? p xs

All-found :
    {A : Type 0} (P : A → Type 0) (p : A → Bool) (xs : List A) (x : A)
    → All P xs
    → find? p xs ≡ some x
    → P x × (p x ≡ true)
All-found P p [] x h e = absurd (cc e)
All-found P p (y ∷ xs) x h e = elim (Bool-cases (p y)) [
  | inl t ↦
      let taken : some y ≡ some x = subst (λ b. taken_or p xs y b ≡ some x) t e in
      let same : y ≡ x = cc taken in subst (λ z. P z × (p z ≡ true)) same (h.0, t)
  | inr f ↦ All-found P p xs x h.1 (subst (λ b. taken_or p xs y b ≡ some x) f e)
]

module _ {V : Type 0} where
  abbrev Falls : Tick V → Tick V → Type 0
  Falls t u = u.elapsed_sec ≤ t.elapsed_sec

  found_at :
      (o : Option (Visit V)) (e : ℕ)
      → time_of o ≡ some e
      → (v : Visit V) × (o ≡ some v) × (v.tick.elapsed_sec ≡ e)
  found_at none e h = absurd (cc h)
  found_at (some v) e h = (v, refl, cc h)

  would_fire-eq :
      (min_hold ct : ℕ) (v : Visit V)
      → would_fire min_hold ct v ≡ true
      → (ct ≤ v.streak) × (min_hold ≤ v.tick.elapsed_sec)
  would_fire-eq min_hold ct v h = (ground arith, ground arith)

  Linked-tail : (x : Tick V) (xs : List (Tick V)) → Linked Rises (x ∷ xs) → Linked Rises xs
  Linked-tail x [] h = tt
  Linked-tail x (y ∷ ys) h = h.1

  Linked-drop :
      (seen later : List (Tick V)) → Linked Rises (rev_onto seen later) → Linked Rises later
  Linked-drop [] later h = h
  Linked-drop (x ∷ seen) later h = Linked-tail x later (Linked-drop seen (x ∷ later) h)

  Linked-rev : (seen later : List (Tick V)) → Linked Rises (rev_onto seen later) → Linked Falls seen
  Linked-rev [] later h = tt
  Linked-rev (x ∷ []) later h = tt
  Linked-rev (x ∷ y ∷ seen) later h =
      ((Linked-drop seen (y ∷ x ∷ later) h).0, Linked-rev (y ∷ seen) (x ∷ later) h)

module _ (c : Comparisons) (match : Match) (conds : List (Condition c.V)) where
  open c use {V}

  no_ticks :
      (seen : List (Tick V)) (n mark : ℕ) → Confirmed c match conds seen n mark → seen ≡ [] → ⊥
  no_ticks seen n mark (first t rest v) e = cc e
  no_ticks seen n mark (next t rest m k v s h) e = cc e
  no_ticks seen n mark (again t rest m k v s h) e = cc e
  no_ticks seen n mark (unknown t rest m k v s h) e = cc e

  -- the last confirmation is not after the last tick that was seen
  latest :
      (seen : List (Tick V)) (n mark : ℕ)
      → Confirmed c match conds seen n mark
      → Linked Falls seen
      → (u : Tick V) → head? seen ≡ some u
      → mark ≤ u.elapsed_sec
  latest seen n mark (first t rest v) f u e =
      let same : t ≡ u = cc e in omega (arith, ap (λ x. x.elapsed_sec) same)
  latest seen n mark (next t rest m k v s h) f u e =
      let same : t ≡ u = cc e in omega (arith, ap (λ x. x.elapsed_sec) same)
  latest seen n mark (again t [] m k v s h) f u e = absurd (no_ticks [] m k h refl)
  latest seen n mark (again t (y ∷ ys) m k v s h) f u e =
      let same : t ≡ u = cc e in
      omega (arith, ap (λ x. x.elapsed_sec) same, latest (y ∷ ys) m k h f.1 y refl, f.0)
  latest seen n mark (unknown t [] m k v s h) f u e = absurd (no_ticks [] m k h refl)
  latest seen n mark (unknown t (y ∷ ys) m k v s h) f u e =
      let same : t ≡ u = cc e in
      omega (arith, ap (λ x. x.elapsed_sec) same, latest (y ∷ ys) m k h f.1 y refl, f.0)

  module _ (i : ℕ) where
    abbrev pub Spaced : Tick V → Type 0
    Spaced t = i ≤ spacing c match conds t

    spaced :
        (seen : List (Tick V)) (n mark : ℕ)
        → Confirmed c match conds seen n mark
        → All Spaced seen
        → n * i ≤ mark + i
    spaced seen n mark (first t rest v) a = omega (arith, suc-mul 0 i)
    spaced seen n mark (next t rest m k v s h) a =
        omega (arith, suc-mul m i, spaced rest m k h a.1, s, a.0)
    spaced seen n mark (again t rest m k v s h) a = spaced rest m k h a.1
    spaced seen n mark (unknown t rest m k v s h) a = spaced rest m k h a.1

    visit_pace :
        (ticks : List (Tick V)) (v : Visit V)
        → All Spaced (filter (λ t. is_replayed t.phase) ticks)
        → Explained c match conds (segments_of ticks) v
        → v.streak * i ≤ v.tick.elapsed_sec + i
    visit_pace ticks v a x =
        let cut = segments_of-IsCut ticks in
        let all = subst (All Spaced) (sym cut.kept ∙ ap concat x.among) a in
        let of_segment = All-among Spaced x.before x.segment x.after all in
        let of_seen =
          (All-rev Spaced (v.tick ∷ x.seen) x.later (subst (All Spaced) x.split of_segment)).0 in
        let rising =
          (All-right (Linked Rises) x.before (x.segment ∷ x.after)
            (subst (All (Linked Rises)) x.among cut.rising)).0 in
        let falls = Linked-rev (v.tick ∷ x.seen) x.later (subst (Linked Rises) x.split rising) in
        elim x.streak_eq [
          | inl z ↦ rw z (omega arith)
          | inr (mark, h) ↦ omega (
            arith,
            spaced (v.tick ∷ x.seen) v.streak mark h of_seen,
            latest (v.tick ∷ x.seen) v.streak mark h falls v.tick refl,
          )
        ]

    -- If each settling or evaluating tick asks for a spacing of at least `i`, the success that
    -- fires at `e` has run for its count less one times `i`: `(ct - 1) * i` is at most `e`.
    pub fires_at_pace :
        (min_hold ct : ℕ) (ticks : List (Tick V)) (e : ℕ)
        → All Spaced (filter (λ t. is_replayed t.phase) ticks)
        → (replay c match conds min_hold ct ticks).fires_at ≡ some e
        → (ct * i ≤ e + i) × (min_hold ≤ e)
    fires_at_pace min_hold ct ticks e a f =
        let p = replay c match conds min_hold ct ticks in
        let s = replay-IsSummary c match conds min_hold ct ticks in
        let (v, found, time) =
          found_at (find? (would_fire min_hold ct) p.trace) e (sym s.fires_at_eq ∙ f) in
        let (explained, fired) =
          All-found (Explained c match conds (segments_of ticks)) (would_fire min_hold ct) p.trace v
            (replay-Explained c match conds min_hold ct ticks) found in
        let (reached, late) = would_fire-eq min_hold ct v fired in
        (
          omega (arith, visit_pace ticks v a explained, mul-le-mul_right i reached, time),
          omega (arith, late, time),
        )
