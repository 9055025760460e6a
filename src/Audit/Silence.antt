-- ===== src/Audit/Silence.antt =====
-- What the silence of a target rests on: `activity_shift`.
use testbed_services.Common.{
  String, Bool, true, false, not, ◌&&◌, List, [], ◌∷◌, ◌≡◌, ◌≢◌, refl, sym, ap, ◌∙◌, ◌⊎◌, inl, inr,
  Bool-cases, All, map, filter, all, if◌then◌else◌,
}
use testbed_services.Audit.Host.{AuditHost}
use testbed_services.Audit.Shift.{
  ShiftStatus, target_silenced, target_collapsed_recovery_unknown, target_erring, no_services,
  no_targets, too_quiet, no_load_after, no_shift, Activity, min_baseline, target_rows,
  post_has_load, names, is_empty, shift_status,
}

module _ {A : Type 0} where
  is_empty-false : (xs : List A) → not (is_empty xs) ≡ true → xs ≢ []
  is_empty-false [] h k = absurd (cc h)
  is_empty-false (x ∷ xs) h k = absurd (cc k)

  map-empty : {B : Type 0} (f : A → B) (xs : List A) → map f xs ≡ [] → xs ≡ []
  map-empty f [] h = refl
  map-empty f (x ∷ xs) h = absurd (cc h)

  is_empty-true : (xs : List A) → not (is_empty xs) ≡ false → xs ≡ []
  is_empty-true [] h = refl
  is_empty-true (x ∷ xs) h = absurd (cc h)

  filter-none : (p : A → Bool) (xs : List A) → filter p xs ≡ [] → All (λ x. p x ≡ false) xs
  filter-none p [] h = tt
  filter-none p (x ∷ xs) h = elim (Bool-cases (p x)) [
    | inl y ↦ absurd (cc (rw y at h))
    | inr n ↦ (n, filter-none p xs (rw n at h))
  ]

  filter-filter :
      (p q : A → Bool) (xs : List A) → filter q (filter p xs) ≡ filter (λ x. p x && q x) xs
  filter-filter p q [] = refl
  filter-filter p q (x ∷ xs) = elim (Bool-cases (p x)) [
    | inl y ↦ rw y (elim (Bool-cases (q x)) [
      | inl z ↦ rw z (ap (λ l. x ∷ l) (filter-filter p q xs))
      | inr z ↦ rw z (filter-filter p q xs)
    ])
    | inr n ↦ rw n (filter-filter p q xs)
  ]

module _ (host : AuditHost) where
  abbrev is_silent : Activity host → Bool
  is_silent v = v.is_target && (v.collapsed && v.recovered)

  abbrev is_fallen : Activity host → Bool
  is_fallen v = v.is_target && v.collapsed

  abbrev is_erring : Activity host → Bool
  is_erring v = v.is_target && v.error_spike

  abbrev is_quiet : Activity host → Bool
  is_quiet v = host.lt v.pre_rpm (min_baseline host)

  -- The names are those of the rows that pass the test, and there is one.
  abbrev pub Named : (Activity host → Bool) → List (Activity host) → List String → Type 0
  Named p rows xs = (xs ≡ names host (filter p rows)) × (xs ≢ [])

  -- no row passes the test
  abbrev pub Nobody : (Activity host → Bool) → List (Activity host) → Type 0
  Nobody p rows = All (λ v. p v ≡ false) rows

  -- What each status says of the rows.
  abbrev pub Says : List (Activity host) → ShiftStatus → Type 0
  Says rows (target_silenced xs) = Named is_silent rows xs
  Says rows (target_collapsed_recovery_unknown xs) =
      Nobody is_silent rows × Named is_fallen rows xs × (post_has_load host rows ≡ false)
  Says rows (target_erring xs) =
      Nobody is_silent rows
      × (Nobody is_fallen rows ⊎ (post_has_load host rows ≡ true))
      × Named is_erring rows xs
  Says rows no_targets = Nobody (λ v. v.is_target) rows
  Says rows too_quiet =
      Nobody is_silent rows
      × Nobody is_erring rows
      × (target_rows host rows ≢ [])
      × (all is_quiet (target_rows host rows) ≡ true)
  Says rows no_load_after =
      Nobody is_fallen rows
      × Nobody is_erring rows
      × (all is_quiet (target_rows host rows) ≡ false)
      × (post_has_load host rows ≡ false)
  Says rows no_shift =
      Nobody is_silent rows
      × Nobody is_erring rows
      × (all is_quiet (target_rows host rows) ≡ false)
      × (post_has_load host rows ≡ true)
  Says rows no_services = ⊥

  -- what the names of a second test on the targets' rows are, or that there is none
  names-Named :
      (q : Activity host → Bool) (rows : List (Activity host))
      → not (is_empty (names host (filter q (target_rows host rows)))) ≡ true
      → Named (λ v. v.is_target && q v) rows (names host (filter q (target_rows host rows)))
  names-Named q rows h = (
    ap (names host) (filter-filter (λ v. v.is_target) q rows),
    is_empty-false (names host (filter q (target_rows host rows))) h,
  )

  names-Nobody :
      (q : Activity host → Bool) (rows : List (Activity host))
      → not (is_empty (names host (filter q (target_rows host rows)))) ≡ false
      → Nobody (λ v. v.is_target && q v) rows
  names-Nobody q rows h =
      let none_left =
        map-empty (λ v. v.service) (filter q (target_rows host rows))
          (is_empty-true (names host (filter q (target_rows host rows))) h) in
      filter-none (λ v. v.is_target && q v) rows
        (sym (filter-filter (λ v. v.is_target) q rows) ∙ none_left)

  -- the names of the targets that pass a test
  abbrev targets_that : (Activity host → Bool) → List (Activity host) → List String
  targets_that q rows = names host (filter q (target_rows host rows))

  abbrev remaining : List (Activity host) → ShiftStatus
  remaining rows =
      if is_empty (target_rows host rows)
      then no_targets
      else if all is_quiet (target_rows host rows)
      then too_quiet
      else if not (post_has_load host rows)
      then no_load_after
      else no_shift

  abbrev unless_erring : List (Activity host) → ShiftStatus
  unless_erring rows =
      if not (is_empty (targets_that (λ v. v.error_spike) rows))
      then target_erring (targets_that (λ v. v.error_spike) rows)
      else remaining rows

  remaining-Says :
      (rows : List (Activity host))
      → Nobody is_silent rows
      → Nobody is_fallen rows ⊎ (post_has_load host rows ≡ true)
      → Nobody is_erring rows
      → Says rows (remaining rows)
  remaining-Says rows s f e = elim (Bool-cases (is_empty (target_rows host rows))) [
    | inl y ↦
        rw y
          (filter-none (λ v. v.is_target) rows (is_empty-true (target_rows host rows) (rw y refl)))
    | inr n ↦ rw n (elim (Bool-cases (all is_quiet (target_rows host rows))) [
      | inl q ↦ rw q (s, e, is_empty-false (target_rows host rows) (rw n refl), q)
      | inr q ↦ rw q (elim f [
        | inl none_fell ↦ elim (Bool-cases (post_has_load host rows)) [
          | inl l ↦ rw l (s, e, q, l)
          | inr l ↦ rw l (none_fell, e, q, l)
        ]
        | inr l ↦ rw l (s, e, q, l)
      ])
    ])
  ]

  unless_erring-Says :
      (rows : List (Activity host))
      → Nobody is_silent rows
      → Nobody is_fallen rows ⊎ (post_has_load host rows ≡ true)
      → Says rows (unless_erring rows)
  unless_erring-Says rows s f =
      elim (Bool-cases (not (is_empty (targets_that (λ v. v.error_spike) rows)))) [
        | inl y ↦ rw y (s, f, names-Named (λ v. v.error_spike) rows y)
        | inr n ↦ rw n (remaining-Says rows s f (names-Nobody (λ v. v.error_spike) rows n))
      ]

  abbrev unless_fallen : List (Activity host) → ShiftStatus
  unless_fallen rows =
      if not (is_empty (targets_that (λ v. v.collapsed) rows)) && not (post_has_load host rows)
      then target_collapsed_recovery_unknown (targets_that (λ v. v.collapsed) rows)
      else unless_erring rows

  unless_fallen-Says :
      (rows : List (Activity host)) → Nobody is_silent rows → Says rows (unless_fallen rows)
  unless_fallen-Says rows s =
      elim (Bool-cases (not (is_empty (targets_that (λ v. v.collapsed) rows)))) [
        | inl y ↦ rw y (elim (Bool-cases (post_has_load host rows)) [
          | inl l ↦ let later = unless_erring-Says rows s (inr l) in rw l (rw l at later)
          | inr l ↦ rw l (s, names-Named (λ v. v.collapsed) rows y, l)
        ])
        | inr n ↦ rw n (unless_erring-Says rows s (inl (names-Nobody (λ v. v.collapsed) rows n)))
      ]

  -- The status of a shift says of the rows what it names: it names all targets that collapsed and
  -- recovered if there are any, then those that collapsed if no load came after, then those with a
  -- spike of errors; the others say why no target is named.
  pub shift_status-Says : (rows : List (Activity host)) → Says rows (shift_status host rows)
  unfolding shift_status
  shift_status-Says rows =
      elim (Bool-cases (not (is_empty (targets_that (λ v. v.collapsed && v.recovered) rows)))) [
        | inl y ↦ rw y (names-Named (λ v. v.collapsed && v.recovered) rows y)
        | inr n ↦
            rw n (unless_fallen-Says rows (names-Nobody (λ v. v.collapsed && v.recovered) rows n))
      ]
