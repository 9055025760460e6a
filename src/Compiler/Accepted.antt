-- ===== src/Compiler/Accepted.antt =====
-- What a validated registry guarantees to `compile_plan`.
use testbed_services.Common.{
  String, str_eq, Bool, true, false, not, ◌||◌, some, List, [], ◌∷◌, ◌≡◌, refl, ap, inl, inr,
  Bool-cases, All, subst, arith, eq_iff,
}
use testbed_services.Compiler.Assembly.{at_key, is_member}
use testbed_services.Compiler.ContractDocs.{
  Refusal, Validation, valid, refused, ◌>>◌, require, each, ProfileDoc, Contracts, keys,
  executor_missing, unknown_location, unknown_query, inexact_parameters,
}
use testbed_services.Compiler.Contracts.{is_exact, check_profile, map_values}

pub >>-valid : (a b : Validation) → (a >> b) ≡ valid → (a ≡ valid) × (b ≡ valid)
>>-valid valid b h = (refl, h)
>>-valid (refused e) b h = absurd (cc h)

pub require-true : (b : Bool) (e : Refusal) → require b e ≡ valid → b ≡ true
require-true true e h = refl
require-true false e h = absurd (cc h)

pub each-All :
    {A : Type 0} (check : A → Validation) (xs : List A)
    → each check xs ≡ valid
    → All (λ x. check x ≡ valid) xs
unfolding each
each-All check [] h = tt
each-All check (x ∷ xs) h =
    let r = >>-valid (check x) (each check xs) h in (r.0, each-All check xs r.1)

module _ {A : Type 0} where
  pub at_key-member :
      (key : String) (rows : List (String × A))
      → is_member key (keys rows) ≡ true
      → (a : A) × (at_key key rows ≡ some a)
  unfolding at_key
  at_key-member key [] h = absurd (cc h)
  at_key-member key ((k, a) ∷ rows) h = elim (Bool-cases (str_eq k key)) [
    | inl y ↦ (a, rw y refl)
    | inr n ↦ let r = at_key-member key rows (rw n at h) in (r.0, rw n r.1)
  ]

  pub at_key-map_values :
      {B : Type 0} (f : A → B) (key : String) (rows : List (String × A)) (a : A)
      → at_key key rows ≡ some a
      → at_key key (map_values f rows) ≡ some (f a)
  unfolding at_key
  at_key-map_values f key [] a h = absurd (cc h)
  at_key-map_values f key ((k, b) ∷ rows) a h = elim (Bool-cases (str_eq k key)) [
    | inl y ↦ let same : b ≡ a = cc (rw y at h) in rw y (ap (λ x. some (f x)) same)
    | inr n ↦ rw n (at_key-map_values f key rows a (rw n at h))
  ]

  pub at_key-All :
      (P : String × A → Type 0) (key : String) (rows : List (String × A)) (a : A)
      → All P rows
      → at_key key rows ≡ some a
      → P (key, a)
  unfolding at_key
  at_key-All P key [] a h k = absurd (cc k)
  at_key-All P key ((k, b) ∷ rows) a h e = elim (Bool-cases (str_eq k key)) [
    | inl y ↦
        let same : b ≡ a = cc (rw y at e) in
        let key_is : k ≡ key = (eq_iff k key).0 y in
        let at_it = subst (λ x. P (k, x)) same h.0 in subst (λ x. P (x, a)) key_is at_it
    | inr n ↦ at_key-All P key rows a h.1 (rw n at e)
  ]

pub All-member :
    (p : String → Bool) (x : String) (xs : List String)
    → All (λ y. p y ≡ true) xs
    → is_member x xs ≡ true
    → p x ≡ true
All-member p x [] h k = absurd (cc k)
All-member p x (y ∷ xs) h k = elim (Bool-cases (str_eq y x)) [
  | inl e ↦ let same : y ≡ x = (eq_iff y x).0 e in subst (λ z. p z ≡ true) same h.0
  | inr n ↦ All-member p x xs h.1 (rw n at k)
]

pub All-required :
    {A : Type 0} (p : A → Bool) (e : Refusal) (xs : List A)
    → each (λ x. require (p x) e) xs ≡ valid
    → All (λ x. p x ≡ true) xs
unfolding each
All-required p e [] h = tt
All-required p e (x ∷ xs) h =
    let r = >>-valid (require (p x) e) (each (λ y. require (p y) e) xs) h in
    (require-true (p x) e r.0, All-required p e xs r.1)

module _ (docs : Contracts) where
  -- What each profile and each scenario of validated documents satisfies.
  pub record IsBacked (profile : ProfileDoc docs.J) : Type 0 where
    pub executor_is_file : docs.is_file profile.executor ≡ true
    pub known_locations :
        All (λ l. is_member l (keys docs.locations) ≡ true) profile.allowed_locations
    pub known_queries : All (λ q. is_member q (keys docs.queries) ≡ true) profile.default_queries
    pub exact :
        profile.live_supported ≡ true → is_exact docs profile profile.allowed_scenarios ≡ true

  pub check_profile-IsBacked :
      (row : String × ProfileDoc docs.J) → check_profile docs row ≡ valid → IsBacked row.1
  check_profile-IsBacked (profile_id, profile) h =
      let a =
        >>-valid (require (docs.is_file profile.executor) (executor_missing profile_id)) _ h in
      let b = >>-valid (each _ profile.allowed_locations) _ a.1 in
      let c = >>-valid (each _ profile.default_queries) _ b.1 in
      let d =
        >>-valid
          (require (not profile.live_supported || is_exact docs profile profile.allowed_scenarios)
            (inexact_parameters profile_id))
          _ c.1 in
      let either =
        require-true (not profile.live_supported || is_exact docs profile profile.allowed_scenarios)
          (inexact_parameters profile_id) d.0 in
      record {
        executor_is_file =
            require-true (docs.is_file profile.executor) (executor_missing profile_id) a.0;
        known_locations =
            All-required (λ l. is_member l (keys docs.locations)) (unknown_location profile_id)
              profile.allowed_locations b.0;
        known_queries =
            All-required (λ q. is_member q (keys docs.queries)) (unknown_query profile_id)
              profile.default_queries c.0;
        exact = λ live. ground arith;
      }
