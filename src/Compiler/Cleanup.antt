-- ===== src/Compiler/Cleanup.antt =====
-- The order of the plan and of its cleanup is the one that the validated manifest states.
use mathlib.Core.List.{reverse_aux}
use testbed_services.Common.{
  ℕ, suc, String, Option, some, List, [], ◌∷◌, map, reverse, ◌≡◌, refl, sym, ap, ◌∙◌,
}
use testbed_services.Compiler.Assembly.{
  Scenario, Controller, Registry, PlanInstance, done, instance_at, assemble,
}
use testbed_services.Compiler.ContractDocs.{valid, CatalogRow}
use testbed_services.Compiler.Contracts.{scenario_of}
use testbed_services.Compiler.Manifests.{
  ManifestDoc, RegisteredDoc, ManifestHost, cleanup_order, validate_manifest,
}
use testbed_services.Compiler.Bindings.{IsBound, Follows, assemble-Follows}
use testbed_services.Compiler.Manifested.{validate_manifest-Agrees}

map-reverse_aux :
    {A B : Type 0} (f : A → B) (xs acc : List A)
    → map f (reverse_aux xs acc) ≡ reverse_aux (map f xs) (map f acc)
map-reverse_aux f [] acc = refl
map-reverse_aux f (x ∷ xs) acc = map-reverse_aux f xs (x ∷ acc)

module _ (registry : Registry) (scenario : Scenario) (controller : Controller registry.J) where
  IsBound-id :
      (n : ℕ) (p : String) (b : PlanInstance registry.J)
      → IsBound registry scenario controller n p b
      → b.row.profile_id ≡ p
  unfolding instance_at
  IsBound-id n p b x = ap (λ y. y.row.profile_id) (sym x.fields_eq)

  Follows-ids :
      (n : ℕ) (ps : List String) (bs : List (PlanInstance registry.J))
      → Follows registry scenario controller n ps bs
      → map (λ b. b.row.profile_id) bs ≡ ps
  Follows-ids n [] [] f = refl
  Follows-ids n [] (b ∷ bs) f = absurd f
  Follows-ids n (p ∷ ps) [] f = absurd f
  Follows-ids n (p ∷ ps) (b ∷ bs) f = cc (IsBound-id n p b f.0, Follows-ids (suc n) ps bs f.1)

-- For an accepted manifest of a row of the catalog, the plan of the row has its instances in the
-- order of the manifest's run, and its cleanup order is that of the manifest's cleanup.
pub cleanup_order-reverse :
    (registry : Registry) (row : CatalogRow) (controller : Controller registry.J)
    (bs : List (PlanInstance registry.J)) (host : ManifestHost) (manifest : ManifestDoc host.J)
    (registered : Option (RegisteredDoc host.J))
    → assemble registry (scenario_of row) controller ≡ done bs
    → validate_manifest host row manifest registered ≡ valid
    → (manifest.run_refs ≡ some (map (λ b. b.row.profile_id) bs))
      × (manifest.cleanup_refs ≡ some (cleanup_order bs))
cleanup_order-reverse registry row controller bs host manifest registered h k =
    let agrees = validate_manifest-Agrees host row manifest registered k in
    let ids =
      Follows-ids registry (scenario_of row) controller 0 row.profiles bs
        (assemble-Follows registry (scenario_of row) controller bs h) in
    (
      agrees.run_eq ∙ ap some (sym ids),
      agrees.cleanup_eq
          ∙ ap (λ ps. some (reverse ps)) (sym ids)
          ∙ ap some (sym (map-reverse_aux (λ b. b.row.profile_id) bs [])),
    )
