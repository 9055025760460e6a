-- ===== src/Compiler/Assembles.antt =====
-- A plan of a validated registry is assembled, or a profile may not use the location.
use testbed_services.Common.{String, Bool, true, Option, some, ◌≡◌, ap, ◌⊎◌, inl, All, All-map}
use testbed_services.Compiler.Assembly.{
  Controller, Registry, Compiling, done, failed, location_refused, or_key_error, is_member,
}
use testbed_services.Compiler.ContractDocs.{
  valid, require, each, same_set, required_adapters, adapters_differ, ProfileDoc, CatalogRow,
  Contracts, keys, is_some_member, unknown_alias, unknown_profile,
}
use testbed_services.Compiler.Contracts.{
  check_location, check_query, check_profile, check_scenario, validate_contracts, registry_of,
}
use testbed_services.Compiler.Accepted.{
  >>-valid, require-true, each-All, All-required, IsBacked, check_profile-IsBacked,
}

-- The value is there, or the error is a location that a profile may not use.
abbrev pub OrLocation : {A : Type 0} → Compiling A → Type 0
OrLocation {A} o = ((a : A) × (o ≡ done a)) ⊎ ((p : String) × (o ≡ failed (location_refused p)))

module _ (docs : Contracts) where
  -- What validated documents satisfy: their profiles are backed, and the rows of the catalog name
  -- known locations and profiles.
  pub record IsContract : Type 0 where
    pub adapters_exact : same_set docs.adapters required_adapters ≡ true
    pub locations_valid : All (λ l. check_location docs l ≡ valid) docs.locations
    pub queries_valid : All (λ q. check_query docs q ≡ valid) docs.queries
    pub backed : All (λ (row : String × ProfileDoc docs.J). IsBacked docs row.1) docs.profiles
    pub known_aliases :
        All
          (λ (row : CatalogRow). is_some_member row.injection_location (keys docs.aliases) ≡ true)
          docs.scenarios
    pub known_profiles :
        All
          (λ (row : CatalogRow). All (λ p. is_member p (keys docs.profiles) ≡ true) row.profiles)
          docs.scenarios

  alias_of_row :
      (row : CatalogRow)
      → check_scenario docs row ≡ valid
      → is_some_member row.injection_location (keys docs.aliases) ≡ true
  alias_of_row row h =
      require-true (is_some_member row.injection_location (keys docs.aliases))
        (unknown_alias row.id) (>>-valid _ (each _ row.profiles) h).0

  profiles_of_row :
      (row : CatalogRow)
      → check_scenario docs row ≡ valid
      → All (λ p. is_member p (keys docs.profiles) ≡ true) row.profiles
  profiles_of_row row h =
      All-required (λ p. is_member p (keys docs.profiles)) (unknown_profile row.id) row.profiles
        (>>-valid
          (require (is_some_member row.injection_location (keys docs.aliases))
            (unknown_alias row.id))
          _ h).1

  pub validate_contracts-IsContract : validate_contracts docs ≡ valid → IsContract
  unfolding validate_contracts
  validate_contracts-IsContract h =
      let a = >>-valid (require (same_set docs.adapters required_adapters) adapters_differ) _ h in
      let b = >>-valid (each (check_location docs) docs.locations) _ a.1 in
      let c = >>-valid (each (check_query docs) docs.queries) _ b.1 in
      let d = >>-valid (each (check_profile docs) docs.profiles) _ c.1 in
      let rows = each-All (check_scenario docs) docs.scenarios d.1 in
      record {
        adapters_exact =
            require-true (same_set docs.adapters required_adapters) adapters_differ a.0;
        locations_valid = each-All (check_location docs) docs.locations b.0;
        queries_valid = each-All (check_query docs) docs.queries c.0;
        backed =
            All-map (check_profile-IsBacked docs) docs.profiles
              (each-All (check_profile docs) docs.profiles d.0);
        known_aliases = All-map alias_of_row docs.scenarios rows;
        known_profiles = All-map profiles_of_row docs.scenarios rows;
      }

  module _ (empty : docs.J) (truthy : docs.J → Bool) (sha256 : String → String) (row : CatalogRow)
      (controller : Controller docs.J) where
    abbrev tables : Registry
    tables = registry_of docs empty truthy sha256

    -- a key that is there
    found-OrLocation :
        {A : Type 0} (key : String) (o : Option A) (a : A)
        → o ≡ some a
        → OrLocation (or_key_error key o)
    found-OrLocation key o a h = inl (a, ap (or_key_error key) h)
