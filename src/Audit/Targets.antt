-- ===== src/Audit/Targets.antt =====
-- The services that an audit takes for the targets of an injection.
use text.Mathlib.Text.{starts_with}
use testbed_services.Common.{
  String, str_eq, eq_iff, eq_refl, Bool, true, false, not, ◌||◌, Option, none, some, List, [], ◌∷◌,
  ◌≡◌, ◌≢◌, refl, sym, ap, ◌∙◌, Bool-cases, Option-cases, inl, inr, All, All-filter, All-map, arith,
  subst, str_append,
}
use testbed_services.Common.Texts.{All-add, is_in, add, discard, before_first, after_prefix}
use testbed_services.Audit.Runs.{ok}
use testbed_services.Audit.Names.{
  AnswerKey, candidates_of, services_of, without, to_apm_service, injection_targets, renamed,
  in_domain, if_known, of_domain, name_prefixes, domain_apm_prefix,
}

is_in-add : (x y : String) (xs : List String) → is_in x xs ≡ true → is_in x (add y xs) ≡ true
unfolding add
is_in-add x y xs h = elim (Bool-cases (is_in y xs)) [
  | inl old ↦ rw old h
  | inr new ↦ rw new (ground arith)
]

is_in-add_self : (x : String) (xs : List String) → is_in x (add x xs) ≡ true
unfolding add
is_in-add_self x xs = elim (Bool-cases (is_in x xs)) [
  | inl old ↦ rw old old
  | inr new ↦ rw (new, eq_refl x) refl
]

is_in-discard :
    (x entry : String) (xs : List String)
    → entry ≢ x
    → is_in x xs ≡ true
    → is_in x (discard entry xs) ≡ true
is_in-discard x entry [] n h = h
is_in-discard x entry (y ∷ ys) n h = elim (Bool-cases (str_eq y entry)) [
  | inl e ↦
      let y_is : y ≡ entry = (eq_iff y entry).0 e in
      rw e (elim (Bool-cases (str_eq y x)) [
        | inl f ↦ absurd (n (sym y_is ∙ (eq_iff y x).0 f))
        | inr f ↦ is_in-discard x entry ys n (rw f at h)
      ])
  | inr e ↦ rw e (elim (Bool-cases (str_eq y x)) [
    | inl f ↦ rw f refl
    | inr f ↦ rw f (is_in-discard x entry ys n (rw f at h))
  ])
]

if_known-some :
    (known : List String) (name s : String) → if_known known name ≡ some s → is_in s known ≡ true
if_known-some known name s h = elim (Bool-cases (is_in name known)) [
  | inl y ↦ let same : name ≡ s = cc (rw y at h) in subst (λ x. is_in x known ≡ true) same y
  | inr n ↦ absurd (cc (rw n at h))
]

renamed-IsKnown :
    (base prefix : String) (known : List String) (ps : List String) (s : String)
    → renamed base prefix known ps ≡ some s
    → is_in s known ≡ true
unfolding renamed
renamed-IsKnown base prefix known [] s h = absurd (cc h)
renamed-IsKnown base prefix known (p ∷ ps) s h = elim (Bool-cases (starts_with base p)) [
  | inl y ↦ if_known-some known (str_append prefix (after_prefix base p)) s (rw y at h)
  | inr n ↦ renamed-IsKnown base prefix known ps s (rw n at h)
]

in_domain-IsKnown :
    (base : String) (known : List String) (prefix : Option String) (s : String)
    → in_domain base known prefix ≡ some s
    → is_in s known ≡ true
unfolding in_domain
in_domain-IsKnown base known none s h = absurd (cc h)
in_domain-IsKnown base known (some prefix) s h = renamed-IsKnown base prefix known name_prefixes s h

to_apm_service-IsKnown :
    (name : String) (domain : Option String) (known : List String) (s : String)
    → to_apm_service name domain known ≡ some s
    → is_in s known ≡ true
unfolding to_apm_service
to_apm_service-IsKnown name domain known s h =
    elim (Bool-cases (is_in (before_first name ":") known)) [
      | inl y ↦
          let same : before_first name ":" ≡ s = cc (rw y at h) in
          subst (λ x. is_in x known ≡ true) same y
      | inr n ↦
          in_domain-IsKnown (before_first name ":") known (of_domain domain domain_apm_prefix) s
            (rw n at h)
    ]

or_true : (a : Bool) → (a || true) ≡ true
or_true true = refl
or_true false = refl

not_entry : (entry e s : String) → entry ≡ e → not (str_eq s entry) ≡ true → s ≢ e
not_entry entry e s same h k = ground (arith, eq_iff s entry)

module _ (meta : AnswerKey) (known : List String) where
  -- A service that a candidate of the answer key names.
  pub record IsNamed (s : String) : Type 0 where
    pub observed : is_in s known ≡ true
    pub candidate : String
    pub is_candidate : is_in candidate (candidates_of meta) ≡ true
    pub names_it : to_apm_service candidate meta.domain known ≡ some s

  services_of-IsNamed :
      (candidates : List String)
      → All (λ c. is_in c (candidates_of meta) ≡ true) candidates
      → All IsNamed (services_of candidates meta.domain known)
  unfolding services_of
  services_of-IsNamed [] h = tt
  services_of-IsNamed (c ∷ cs) h = elim (Option-cases (to_apm_service c meta.domain known)) [
    | inl e ↦ rw e (services_of-IsNamed cs h.1)
    | inr (s, e) ↦ rw e (
        All-add IsNamed s (services_of cs meta.domain known)
          (record {
            observed = to_apm_service-IsKnown c meta.domain known s e;
            candidate = c;
            is_candidate = h.0;
            names_it = e;
          })
          (services_of-IsNamed cs h.1))
  ]

  services_of_complete :
      (candidates : List String) (c s : String)
      → is_in c candidates ≡ true
      → to_apm_service c meta.domain known ≡ some s
      → is_in s (services_of candidates meta.domain known) ≡ true
  unfolding services_of
  services_of_complete [] c s h e = absurd (cc h)
  services_of_complete (d ∷ ds) c s h e = elim (Bool-cases (str_eq d c)) [
    | inl same ↦
        let d_is : d ≡ c = (eq_iff d c).0 same in
        rw (d_is, e) (is_in-add_self s (services_of ds meta.domain known))
    | inr other ↦
        let later = services_of_complete ds c s (rw other at h) e in
        elim (Option-cases (to_apm_service d meta.domain known)) [
          | inl n ↦ rw n later
          | inr (t, n) ↦ rw n (is_in-add s t (services_of ds meta.domain known) later)
        ]
  ]

  all_in : (xs : List String) → All (λ c. is_in c xs ≡ true) xs
  all_in [] = tt
  all_in (x ∷ xs) =
      (rw (eq_refl x) refl, All-map (λ c h. rw h (or_true (str_eq x c))) xs (all_in xs))

  -- What the targets are, for an entry service that may be missing.
  pub record IsTargets (entry : Option String) (targets : List String) : Type 0 where
    pub named : All IsNamed targets
    pub no_entry : (e : String) → entry ≡ some e → All (λ s. s ≢ e) targets
    pub complete :
        (c s : String)
        → is_in c (candidates_of meta) ≡ true
        → to_apm_service c meta.domain known ≡ some s
        → entry ≢ some s
        → is_in s targets ≡ true

  without-IsTargets :
      (entry : Option String)
      → IsTargets entry (without entry (services_of (candidates_of meta) meta.domain known))
  without-IsTargets none = record {
    named = services_of-IsNamed (candidates_of meta) (all_in (candidates_of meta));
    no_entry = λ e h. absurd (cc h);
    complete = λ c s h e n. services_of_complete (candidates_of meta) c s h e;
  }
  without-IsTargets (some entry) =
      let all = services_of (candidates_of meta) meta.domain known in
      let kept =
        All-filter IsNamed (λ y. not (str_eq y entry)) all
          (services_of-IsNamed (candidates_of meta) (all_in (candidates_of meta))) in
      record {
        named = All-map (λ s h. h.0) (discard entry all) kept;
        no_entry = λ e h. All-map (λ s k. not_entry entry e s (cc h) k.1) (discard entry all) kept;
        complete = λ c s h e n.
            is_in-discard s entry all (λ same. n (ap some same))
              (services_of_complete (candidates_of meta) c s h e);
      }

  -- The targets of a scenario with an answer key are exactly the observed services that its
  -- candidates name, less the entry service.
  pub injection_targets-IsTargets :
      (entry : Option String) (targets : List String)
      → injection_targets (some meta) known entry ≡ ok targets
      → IsTargets entry targets
  unfolding injection_targets
  injection_targets-IsTargets entry targets h =
      let same : without entry (services_of (candidates_of meta) meta.domain known) ≡ targets =
        cc h in
      subst (IsTargets entry) same (without-IsTargets entry)
