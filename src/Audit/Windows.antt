-- ===== src/Audit/Windows.antt =====
-- The ticks in which a gate decided a run.
use testbed_services.Common.{
  ℕ, suc, ◌+◌, ◌≤◌, ◌<◌, String, str_eq, false, Option, none, some, List, [], ◌∷◌, ◌++◌, ◌≡◌, refl,
  sym, ap, ◌∙◌, Bool-cases, inl, inr, All, length, rev_onto, leb, ltb, arith, last?, get_or, subst,
}
use testbed_services.Audit.Results.{>>=-eq-ok}
use testbed_services.Audit.Runs.{ok, audit_error, no_reached_tick, AuditTick}
use testbed_services.Audit.Gates.{
  streak, Window, reached, walk_back, time_at, window_of, verdict_window,
}

time_at-eq : (o : Option String) (t : String) → time_at o ≡ ok t → o ≡ some t
unfolding time_at
time_at-eq none t h = absurd (cc h)
time_at-eq (some s) t h = elim (Bool-cases (str_eq s "")) [
  | inl e ↦ absurd (cc (rw e at h))
  | inr e ↦ ap some (cc (rw e at h))
]

module _ {V : Type 0} (gate : String) (consecutive : ℕ) where
  -- the streak of a tick is below the count
  abbrev pub IsBelow : AuditTick V → Type 0
  IsBelow t = streak gate t < consecutive

  abbrev pub IsPositive : AuditTick V → Type 0
  IsPositive t = 0 < streak gate t

  -- The ticks before the window are none, or end in one with no streak.
  abbrev pub Breaks : List (AuditTick V) → Type 0
  Breaks [] = Unit
  Breaks (t ∷ earlier) = streak gate t ≡ 0

  -- The window's ticks, newest first after its last one, and the run's ticks around it.
  pub record IsWindow (ticks : List (AuditTick V)) (w : Window) : Type 0 where
    pub before : List (AuditTick V)
    pub inside : List (AuditTick V)
    pub start : AuditTick V
    pub end : AuditTick V
    pub after : List (AuditTick V)
    pub split : ticks ≡ rev_onto before (rev_onto inside (end ∷ after))
    pub span_eq : w.span ≡ suc (length inside)
    pub start_eq : start ≡ get_or (last? inside) end
    pub start_time : start.at ≡ some w.start_at
    pub end_time : end.at ≡ some w.end_at
    pub reaches : consecutive ≤ streak gate end
    pub first_reached : All IsBelow before × All IsBelow inside
    pub positive : All IsPositive inside
    pub begins : Breaks before

  -- what `reached` finds
  record IsReached (ticks seen : List (AuditTick V)) (found : AuditTick V × List (AuditTick V))
      : Type 0 where
    rest : List (AuditTick V)
    ticks_eq : rev_onto seen ticks ≡ rev_onto found.1 (found.0 ∷ rest)
    at_least : consecutive ≤ streak gate found.0
    below : All IsBelow found.1

  reached-IsReached :
      (seen ticks : List (AuditTick V)) (found : AuditTick V × List (AuditTick V))
      → All IsBelow seen
      → reached gate consecutive seen ticks ≡ ok found
      → IsReached ticks seen found
  unfolding reached
  reached-IsReached seen [] found b h = absurd (cc h)
  reached-IsReached seen (t ∷ ts) found b h = elim (Bool-cases (leb consecutive (streak gate t))) [
    | inl y ↦
        let same : (t, seen) ≡ found = cc (rw y at h) in
        subst (IsReached (t ∷ ts) seen) same
          (record { rest = ts; ticks_eq = refl; at_least = ground arith; below = b })
    | inr n ↦
        let r = reached-IsReached (t ∷ seen) ts found (ground arith, b) (rw n at h) in
        record { rest = r.rest; ticks_eq = r.ticks_eq; at_least = r.at_least; below = r.below }
  ]

  -- what `walk_back` gives from a tick on
  record IsWalk (start : AuditTick V) (span : ℕ) (seen : List (AuditTick V)) (x : AuditTick V × ℕ)
      : Type 0 where
    inside : List (AuditTick V)
    before : List (AuditTick V)
    seen_eq : seen ≡ inside ++ before
    span_eq : x.1 ≡ length inside + span
    start_eq : x.0 ≡ get_or (last? inside) start
    positive : All IsPositive inside
    begins : Breaks before

  last_default :
      (u a b : AuditTick V) (us : List (AuditTick V))
      → get_or (last? (u ∷ us)) a ≡ get_or (last? (u ∷ us)) b
  last_default u a b [] = refl
  last_default u a b (v ∷ vs) = last_default v a b vs

  last_or :
      (t start : AuditTick V) (inside : List (AuditTick V))
      → get_or (last? inside) t ≡ get_or (last? (t ∷ inside)) start
  last_or t start [] = refl
  last_or t start (u ∷ us) = last_default u t start us

  walk_back-IsWalk :
      (start : AuditTick V) (span : ℕ) (seen : List (AuditTick V))
      → IsWalk start span seen (walk_back gate start span seen)
  unfolding walk_back
  walk_back-IsWalk start span [] = record {
    inside = [];
    before = [];
    seen_eq = refl;
    span_eq = omega arith;
    start_eq = refl;
    positive = tt;
    begins = tt;
  }
  walk_back-IsWalk start span (t ∷ ts) = elim (Bool-cases (ltb 0 (streak gate t))) [
    | inl y ↦ rw y (
        let r = walk_back-IsWalk t (suc span) ts in
        record {
          inside = t ∷ r.inside;
          before = r.before;
          seen_eq = ap (λ l. t ∷ l) r.seen_eq;
          span_eq = omega (arith, r.span_eq);
          start_eq = r.start_eq ∙ last_or t start r.inside;
          positive = (ground arith, r.positive);
          begins = r.begins;
        })
    | inr n ↦ rw n (record {
      inside = [];
      before = t ∷ ts;
      seen_eq = refl;
      span_eq = omega arith;
      start_eq = refl;
      positive = tt;
      begins = ground arith;
    })
  ]

  rev_onto-append :
      (xs ys zs : List (AuditTick V)) → rev_onto (xs ++ ys) zs ≡ rev_onto ys (rev_onto xs zs)
  rev_onto-append [] ys zs = refl
  rev_onto-append (x ∷ xs) ys zs = rev_onto-append xs ys (x ∷ zs)

  All-split :
      (P : AuditTick V → Type 0) (xs ys : List (AuditTick V))
      → All P (xs ++ ys)
      → All P xs × All P ys
  All-split P [] ys h = (tt, h)
  All-split P (x ∷ xs) ys h = let r = All-split P xs ys h.1 in ((h.0, r.0), r.1)

  window_of-eq :
      (x : AuditTick V × ℕ) (end : AuditTick V) (w : Window)
      → window_of x end ≡ ok w
      → (w.span ≡ x.1) × (x.0.at ≡ some w.start_at) × (end.at ≡ some w.end_at)
  unfolding window_of
  window_of-eq (start, span) end w h =
      let s = >>=-eq-ok (time_at start.at) _ w h in
      let e = >>=-eq-ok (time_at end.at) _ w s.2 in
      let made : record { start_at = s.0; end_at = e.0; span = span } ≡ w = cc e.2 in
      (
        ap (λ v. v.span) (sym made),
        time_at-eq start.at s.0 s.1 ∙ ap (λ v. some v.start_at) made,
        time_at-eq end.at e.0 e.1 ∙ ap (λ v. some v.end_at) made,
      )

  -- A window that is found ends at the first tick whose streak reaches the count, and goes back over
  -- all ticks with a streak, to the first one or to one after a tick without; its span counts its
  -- ticks, and its times are those of its first and last.
  pub verdict_window-IsWindow :
      (ticks : List (AuditTick V)) (w : Window)
      → verdict_window gate consecutive ticks ≡ ok w
      → IsWindow ticks w
  unfolding verdict_window
  verdict_window-IsWindow ticks w h =
      let f = >>=-eq-ok (reached gate consecutive [] ticks) _ w h in
      let found = f.0 in
      let r = reached-IsReached [] ticks found tt f.1 in
      let k = walk_back-IsWalk found.0 1 found.1 in
      let times = window_of-eq (walk_back gate found.0 1 found.1) found.0 w f.2 in
      let below = All-split IsBelow k.inside k.before (subst (All IsBelow) k.seen_eq r.below) in
      record {
        before = k.before;
        inside = k.inside;
        start = (walk_back gate found.0 1 found.1).0;
        end = found.0;
        after = r.rest;
        split =
            r.ticks_eq
            ∙ ap (λ seen. rev_onto seen (found.0 ∷ r.rest)) k.seen_eq
            ∙ rev_onto-append k.inside k.before (found.0 ∷ r.rest);
        span_eq = omega (arith, times.0, k.span_eq);
        start_eq = k.start_eq;
        start_time = times.1;
        end_time = times.2;
        reaches = r.at_least;
        first_reached = (below.1, below.0);
        positive = k.positive;
        begins = k.begins;
      }

  -- Without a tick that reaches the count there is no window.
  pub reached-none :
      (seen ticks : List (AuditTick V))
      → All IsBelow ticks
      → reached gate consecutive seen ticks ≡ audit_error no_reached_tick
  unfolding reached
  reached-none seen [] h = refl
  reached-none seen (t ∷ ts) h =
      let below : leb consecutive (streak gate t) ≡ false = ground arith in
      rw below (reached-none (t ∷ seen) ts h.1)
