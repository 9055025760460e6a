-- ===== src/Compiler/Queries.antt =====
-- `observation_query_ids` of compile_plan in scripts/scenarios/compile-plan.py.
use testbed_services.Common.{String, Option, none, some, List, [], ◌∷◌, map}
use testbed_services.Common.Texts.{add, sorted}
use testbed_services.Compiler.Assembly.{at_key}
use testbed_services.Compiler.ContractDocs.{ProfileDoc, CatalogRow, Contracts}
use testbed_services.Compiler.ControllerDocs.{ObservationDoc, texts_of}

-- `ids.update(xs)`
unfoldable pub update : List String → List String → List String
unfolding add
update ids [] = ids
update ids (x ∷ xs) = update (add x ids) xs

-- the queries of a profile, which is there where the instances were made
abbrev pub queries_of : {J : Type 0} → Option (ProfileDoc J) → List String
queries_of none = []
queries_of (some profile) = profile.default_queries

-- the queries of a controller's observations, if it may run live; each has one once validated
abbrev pub observed_queries : Option (List ObservationDoc) → List String
observed_queries none = []
observed_queries (some observations) = texts_of (map (λ o. o.query_id) observations)

module _ (docs : Contracts) where
  -- the loop over `scenario["profiles"]`
  unfoldable pub profile_queries : List String → List String → List String
  unfolding at_key update
  profile_queries ids [] = ids
  profile_queries ids (p ∷ ps) =
      profile_queries (update ids (queries_of (at_key p docs.profiles))) ps

  unfoldable pub query_ids : CatalogRow → Option (List ObservationDoc) → List String
  unfolding profile_queries update sorted
  query_ids row observations =
      sorted (update (profile_queries [] row.profiles) (observed_queries observations))
