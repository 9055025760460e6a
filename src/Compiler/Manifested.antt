-- ===== src/Compiler/Manifested.antt =====
-- What a validated manifest says, and that its cleanup is in the order of the plan:
-- `validate_manifest`.
use testbed_services.Common.{
  both, String, Bool, true, false, not, ◌&&◌, Option, none, some, map, reverse, ◌≡◌, refl, is_none,
}
use testbed_services.Compiler.Assembly.{at_key}
use testbed_services.Compiler.ContractDocs.{Refusal, valid, require, CatalogRow, is_text}
use testbed_services.Compiler.ControllerDocs.{is_flag, is_texts, same_text}
use testbed_services.Compiler.Manifests.{
  ManifestController, ManifestDoc, RegisteredDoc, ManifestHost, profile_ref, is_ready,
  expected_gate_state, or_none, is_expected, check_expected, check_manifest_controller, is_identity,
  is_injection, is_action, is_gate, validate_manifest,
}
use testbed_services.Compiler.Accepted.{>>-valid, require-true}
use testbed_services.Compiler.Signals.{is_text-eq, is_texts-eq, same_text-eq}

three : (a b c : Bool) → (a && b && c) ≡ true → (a ≡ true) × (b ≡ true) × (c ≡ true)
three true true c h = (refl, refl, h)
three true false c h = absurd (cc h)
three false b c h = absurd (cc h)

is_flag-eq : (o : Option Bool) (b : Bool) → is_flag o b ≡ true → o ≡ some b
is_flag-eq none b h = absurd (cc h)
is_flag-eq (some true) true h = refl
is_flag-eq (some true) false h = absurd (cc h)
is_flag-eq (some false) true h = absurd (cc h)
is_flag-eq (some false) false h = refl

module _ (host : ManifestHost) where
  -- The controller of a scenario that has none registered is off; that of one that has is the
  -- registered one, with the keys of its binding apart.
  abbrev pub ControllerIs :
      CatalogRow → ManifestController host.J → Option (RegisteredDoc host.J) → Type 0
  ControllerIs row controller none =
      (controller.profile_kind ≡ some row.load_mode) × (controller.live_enabled ≡ some false)
  ControllerIs row controller (some registered) =
      (p : host.J) × (c : host.J) × (a : host.J) × (at_key "primary_ref" registered.profile
        ≡ some p)
      × (at_key "companion_refs" registered.profile ≡ some c)
      × (at_key "approved_profile_id" registered.profile ≡ some a)
      × (is_expected host controller registered p c a ≡ true)

  -- A manifest that agrees with its row of the catalog and its registered controller.
  pub record Agrees (row : CatalogRow) (manifest : ManifestDoc host.J)
      (registered : Option (RegisteredDoc host.J)) : Type 0 where
    pub id_eq : manifest.id ≡ some row.id
    pub slug_eq : manifest.slug ≡ some row.slug
    pub readiness_eq : manifest.readiness ≡ some row.readiness
    pub location_eq : manifest.location ≡ row.injection_location
    pub profiles_eq : manifest.profile_refs ≡ some (map profile_ref row.profiles)
    pub plan_eq : manifest.plan_refs ≡ some row.profiles
    pub run_eq : manifest.run_refs ≡ some row.profiles
    pub cleanup_eq : manifest.cleanup_refs ≡ some (reverse row.profiles)
    pub controller_is : ControllerIs row manifest.controller registered
    pub state_eq : manifest.gate.state ≡ some (expected_gate_state row)
    pub required_eq : manifest.gate.required ≡ some (not (is_ready row))
    pub description_eq : manifest.gate.description ≡ some (or_none (host.strip row.prerequisite))
    pub live_eq : manifest.gate.live_allowed ≡ some (not (is_none registered))

  check_expected-keys :
      (slug : String) (controller : ManifestController host.J) (registered : RegisteredDoc host.J)
      (p c a : Option host.J)
      → check_expected host slug controller registered p c a ≡ valid
      → (x : host.J) × (y : host.J) × (z : host.J) × (p ≡ some x)
        × (c ≡ some y)
        × (a ≡ some z)
        × (is_expected host controller registered x y z ≡ true)
  unfolding check_expected
  check_expected-keys slug controller registered none c a h = absurd (cc h)
  check_expected-keys slug controller registered (some p) none a h = absurd (cc h)
  check_expected-keys slug controller registered (some p) (some c) none h = absurd (cc h)
  check_expected-keys slug controller registered (some p) (some c) (some a) h = (
    p,
    c,
    a,
    refl,
    refl,
    refl,
    require-true (is_expected host controller registered p c a)
        (Refusal.registered_controller_mismatch slug) h,
  )

  check_manifest_controller-ControllerIs :
      (row : CatalogRow) (controller : ManifestController host.J)
      (registered : Option (RegisteredDoc host.J))
      → check_manifest_controller host row controller registered ≡ valid
      → ControllerIs row controller registered
  unfolding check_manifest_controller
  check_manifest_controller-ControllerIs row controller none h =
      let kind = is_text controller.profile_kind row.load_mode in
      let off = is_flag controller.live_enabled false in
      let r =
        both kind off
          (require-true (kind && off) (Refusal.catalog_controller_mismatch row.slug) h) in
      (
        is_text-eq controller.profile_kind row.load_mode r.0,
        is_flag-eq controller.live_enabled false r.1,
      )
  check_manifest_controller-ControllerIs row controller (some registered) h =
      let a =
        >>-valid (require registered.has_dispatcher_mode (Refusal.missing_key "dispatcher_mode")) _
          h in
      let b =
        >>-valid (require registered.has_live_enabled (Refusal.missing_key "live_enabled")) _ a.1 in
      check_expected-keys row.slug controller registered (at_key "primary_ref" registered.profile)
        (at_key "companion_refs" registered.profile)
        (at_key "approved_profile_id" registered.profile) b.1

  pub validate_manifest-Agrees :
      (row : CatalogRow) (manifest : ManifestDoc host.J)
      (registered : Option (RegisteredDoc host.J))
      → validate_manifest host row manifest registered ≡ valid
      → Agrees row manifest registered
  unfolding validate_manifest
  validate_manifest-Agrees row manifest registered h =
      let slug = row.slug in
      let a =
        >>-valid (require (is_identity host row manifest) (Refusal.identity_mismatch slug)) _ h in
      let b =
        >>-valid (require (is_injection host row manifest) (Refusal.injection_mismatch slug)) _
          a.1 in
      let c =
        >>-valid (require (is_action host row manifest) (Refusal.action_mismatch slug)) _ b.1 in
      let d = >>-valid (check_manifest_controller host row manifest.controller registered) _ c.1 in
      let gate_ok = is_gate host row manifest.gate (not (is_none registered)) in
      let i =
        three (is_text manifest.id row.id) (is_text manifest.slug row.slug)
          (is_text manifest.readiness row.readiness)
          (require-true (is_identity host row manifest) (Refusal.identity_mismatch slug) a.0) in
      let j =
        both (same_text manifest.location row.injection_location)
          (is_texts manifest.profile_refs (map profile_ref row.profiles))
          (require-true (is_injection host row manifest) (Refusal.injection_mismatch slug) b.0) in
      let k =
        three (is_texts manifest.plan_refs row.profiles) (is_texts manifest.run_refs row.profiles)
          (is_texts manifest.cleanup_refs (reverse row.profiles))
          (require-true (is_action host row manifest) (Refusal.action_mismatch slug) c.0) in
      let description = or_none (host.strip row.prerequisite) in
      let g =
        both
          (is_text manifest.gate.state (expected_gate_state row)
            && is_flag manifest.gate.required (not (is_ready row))
            && is_text manifest.gate.description description)
          (is_flag manifest.gate.live_allowed (not (is_none registered)))
          (require-true gate_ok (Refusal.prerequisite_mismatch slug) d.1) in
      let s =
        three (is_text manifest.gate.state (expected_gate_state row))
          (is_flag manifest.gate.required (not (is_ready row)))
          (is_text manifest.gate.description description) g.0 in
      record {
        id_eq = is_text-eq manifest.id row.id i.0;
        slug_eq = is_text-eq manifest.slug row.slug i.1;
        readiness_eq = is_text-eq manifest.readiness row.readiness i.2;
        location_eq = same_text-eq manifest.location row.injection_location j.0;
        profiles_eq = is_texts-eq manifest.profile_refs (map profile_ref row.profiles) j.1;
        plan_eq = is_texts-eq manifest.plan_refs row.profiles k.0;
        run_eq = is_texts-eq manifest.run_refs row.profiles k.1;
        cleanup_eq = is_texts-eq manifest.cleanup_refs (reverse row.profiles) k.2;
        controller_is =
            check_manifest_controller-ControllerIs row manifest.controller registered d.0;
        state_eq = is_text-eq manifest.gate.state (expected_gate_state row) s.0;
        required_eq = is_flag-eq manifest.gate.required (not (is_ready row)) s.1;
        description_eq = is_text-eq manifest.gate.description description s.2;
        live_eq = is_flag-eq manifest.gate.live_allowed (not (is_none registered)) g.1;
      }
