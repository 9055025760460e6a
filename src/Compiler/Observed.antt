-- ===== src/Compiler/Observed.antt =====
-- The query ids of a plan are registered queries.
use testbed_services.Common.{
  String, str_eq, true, Bool-cases, some, List, [], ◌∷◌, ◌≡◌, refl, inl, inr, Option-cases, All,
  All-map,
}
use testbed_services.Common.Texts.{add, All-add, All-sorted}
use testbed_services.Compiler.Assembly.{at_key, is_member}
use testbed_services.Compiler.ContractDocs.{valid, CatalogRow, Contracts, keys}
use testbed_services.Compiler.Contracts.{validate_contracts}
use testbed_services.Compiler.ControllerDocs.{ObservationDoc, ControllerDoc, ControllersDoc}
use testbed_services.Compiler.Controllers.{validate_controllers}
use testbed_services.Compiler.Queries.{
  update, queries_of, observed_queries, profile_queries, query_ids,
}
use testbed_services.Compiler.Accepted.{at_key-All, IsBacked}
use testbed_services.Compiler.Assembles.{IsContract, validate_contracts-IsContract}
use testbed_services.Compiler.Signals.{IsApproved}
use testbed_services.Compiler.Bound.{validate_controllers-IsBoundTo}

module _ (P : String → Type 0) where
  All-update : (ids xs : List String) → All P ids → All P xs → All P (update ids xs)
  unfolding update
  All-update ids [] h k = h
  All-update ids (x ∷ xs) h k = All-update (add x ids) xs (All-add P x ids k.0 h) k.1

key-member :
    {A : Type 0} (key : String) (rows : List (String × A)) (a : A)
    → at_key key rows ≡ some a
    → is_member key (keys rows) ≡ true
unfolding at_key
key-member key [] a h = absurd (cc h)
key-member key ((k, b) ∷ rows) a h = elim (Bool-cases (str_eq k key)) [
  | inl y ↦ rw y refl
  | inr n ↦ rw n (key-member key rows a (rw n at h))
]

module _ (docs : Contracts) where
  abbrev pub IsRegistered : String → Type 0
  IsRegistered query_id = is_member query_id (keys docs.queries) ≡ true

  queries_of-IsRegistered :
      IsContract docs → (p : String) → All IsRegistered (queries_of (at_key p docs.profiles))
  queries_of-IsRegistered c p = elim (Option-cases (at_key p docs.profiles)) [
    | inl e ↦ rw e tt
    | inr (d, e) ↦
        rw e (at_key-All (λ r. IsBacked docs r.1) p docs.profiles d c.backed e).known_queries
  ]

  profile_queries-IsRegistered :
      IsContract docs
      → (ids ps : List String) → All IsRegistered ids
      → All IsRegistered (profile_queries docs ids ps)
  unfolding profile_queries
  profile_queries-IsRegistered c ids [] h = h
  profile_queries-IsRegistered c ids (p ∷ ps) h =
      profile_queries-IsRegistered c (update ids (queries_of (at_key p docs.profiles))) ps (
        All-update IsRegistered ids (queries_of (at_key p docs.profiles)) h
          (queries_of-IsRegistered c p))

  observed_queries-IsRegistered :
      (observations : List ObservationDoc)
      → All (IsApproved docs) observations
      → All IsRegistered (observed_queries (some observations))
  observed_queries-IsRegistered [] h = tt
  observed_queries-IsRegistered (o ∷ os) h =
      let known = key-member h.0.query_id docs.queries h.0.query h.0.query_eq in
      rw h.0.id_eq (known, observed_queries-IsRegistered os h.1)

  -- With a valid registry and valid controllers, each query id that the plan of a row of the catalog
  -- lists, from its profiles and from the observations of a controller, is a registered query.
  pub query_ids-IsRegistered :
      (doc : ControllersDoc docs.J) (row : CatalogRow)
      → validate_contracts docs ≡ valid
      → validate_controllers docs doc ≡ valid
      → All
          (λ (entry : String × ControllerDoc docs.J).
            All IsRegistered (query_ids docs row (some entry.1.observations)))
          doc.controllers
  unfolding query_ids
  query_ids-IsRegistered doc row h k =
      let c = validate_contracts-IsContract docs h in
      All-map
        (λ entry b. All-sorted IsRegistered _ (
          All-update IsRegistered (profile_queries docs [] row.profiles)
            (observed_queries (some entry.1.observations))
            (profile_queries-IsRegistered c [] row.profiles tt)
            (observed_queries-IsRegistered entry.1.observations b.laddered.observations)))
        doc.controllers (validate_controllers-IsBoundTo docs doc k).1
