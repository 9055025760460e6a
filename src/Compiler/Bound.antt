-- ===== src/Compiler/Bound.antt =====
-- What a validated controller is bound to, and how it can end: `validate_controllers`.
use testbed_services.Common.{
  both, String, str_eq, true, false, not, ◌&&◌, Option, none, some, List, [], ◌∷◌, map, any, ◌≡◌,
  refl, All, All-map, eq_iff, arith,
}
use testbed_services.Compiler.Assembly.{at_key}
use testbed_services.Compiler.ContractDocs.{
  valid, Refusal, require, ProfileDoc, CatalogRow, Contracts, keys, is_subset, is_text,
}
use testbed_services.Compiler.ControllerDocs.{
  ControllerLevel, ControllerDoc, ControllersDoc, is_texts, catalog_row, texts_of, any_items,
  all_items, is_policy, baseline_checks, covers,
}
use testbed_services.Compiler.Controllers.{
  has_gate, check_observations, check_sets, check_gates, check_mode, check_ladder_of,
  check_registered, check_binding, check_bound, check_controller, validate_controllers,
}
use testbed_services.Compiler.Accepted.{>>-valid, require-true, each-All}
use testbed_services.Compiler.Signals.{
  is_text-eq, is_texts-eq, IsApproved, check_observations-IsApproved,
}
use testbed_services.Compiler.Ladders.{LadderIs, check_mode-LadderIs, HasSets, check_sets-HasSets}

module _ (docs : Contracts) (doc : ControllersDoc docs.J) where
  -- The gates that end a run whatever the scenario: entry loss aborts it, readiness of a pod never
  -- does, and recovery wants both.
  pub record IsGated (c : ControllerDoc docs.J) : Type 0 where
    pub no_pod_abort : any (λ i. is_text i.observation "pod_ready") (any_items c.abort) ≡ false
    pub entry_abort : has_gate docs (any_items c.abort) "entry_status" doc.zero_value ≡ true
    pub health_recovery : has_gate docs (all_items c.recovery) "target_health" doc.ok_value ≡ true
    pub pod_recovery : has_gate docs (all_items c.recovery) "pod_ready" doc.true_value ≡ true
    pub policy : is_policy c.capture ≡ true

  check_gates-IsGated :
      (id : String) (c : ControllerDoc docs.J) → check_gates docs doc id c ≡ valid → IsGated c
  unfolding check_gates
  check_gates-IsGated id c h =
      let pod = any (λ i. is_text i.observation "pod_ready") (any_items c.abort) in
      let entry = has_gate docs (any_items c.abort) "entry_status" doc.zero_value in
      let health = has_gate docs (all_items c.recovery) "target_health" doc.ok_value in
      let ready = has_gate docs (all_items c.recovery) "pod_ready" doc.true_value in
      let a = >>-valid (require (not pod) (Refusal.abort_by_pod id)) _ h in
      let b = >>-valid (require entry (Refusal.no_abort_gate id)) _ a.1 in
      let d = >>-valid (require (health && ready) (Refusal.no_recovery_gate id)) _ b.1 in
      let r =
        both health ready (require-true (health && ready) (Refusal.no_recovery_gate id) d.0) in
      let no_pod = require-true (not pod) (Refusal.abort_by_pod id) a.0 in
      record {
        no_pod_abort = ground arith;
        entry_abort = require-true entry (Refusal.no_abort_gate id) b.0;
        health_recovery = r.0;
        pod_recovery = r.1;
        policy = require-true (is_policy c.capture) (Refusal.capture_mismatch id) d.1;
      }

  -- What stands behind the profiles of a controller, from its primary profile on.
  pub record IsLaddered (id : String) (c : ControllerDoc docs.J) (primary : String) : Type 0 where
    pub profile : ProfileDoc docs.J
    pub profile_eq : at_key primary docs.profiles ≡ some profile
    pub first : ControllerLevel docs.J
    pub more : List (ControllerLevel docs.J)
    pub levels_eq : c.profile.levels ≡ some (first ∷ more)
    pub ladder : LadderIs docs id c primary profile (first ∷ more)
    pub observations : All (IsApproved docs) c.observations
    pub sets : HasSets docs c
    pub gates : IsGated c

  check_ladder_of-IsLaddered :
      (id : String) (c : ControllerDoc docs.J) (primary : String) (profile : ProfileDoc docs.J)
      (levels : Option (List (ControllerLevel docs.J)))
      → at_key primary docs.profiles ≡ some profile
      → c.profile.levels ≡ levels
      → check_ladder_of docs doc id c primary profile levels ≡ valid
      → IsLaddered id c primary
  unfolding check_ladder_of
  check_ladder_of-IsLaddered id c primary profile none p l h = absurd (cc h)
  check_ladder_of-IsLaddered id c primary profile (some []) p l h = absurd (cc h)
  check_ladder_of-IsLaddered id c primary profile (some (first ∷ more)) p l h =
      let a = >>-valid (check_mode docs id c primary profile (first ∷ more)) _ h in
      let b = >>-valid (check_observations docs id c.observations) _ a.1 in
      let ids = texts_of (map (λ o. o.id) c.observations) in
      let d = >>-valid (check_sets docs id c ids) _ b.1 in
      let approved = check_observations-IsApproved docs id c.observations b.0 in
      record {
        profile = profile;
        profile_eq = p;
        first = first;
        more = more;
        levels_eq = l;
        ladder = check_mode-LadderIs docs id c primary profile (first ∷ more) a.0;
        observations = approved;
        sets = check_sets-HasSets docs id c approved d.0;
        gates = check_gates-IsGated id c d.1;
      }

  check_registered-IsLaddered :
      (id : String) (c : ControllerDoc docs.J) (primary : String) (o : Option (ProfileDoc docs.J))
      → at_key primary docs.profiles ≡ o
      → check_registered docs doc id c primary o ≡ valid
      → IsLaddered id c primary
  unfolding check_registered
  check_registered-IsLaddered id c primary none p h = absurd (cc h)
  check_registered-IsLaddered id c primary (some profile) p h =
      check_ladder_of-IsLaddered id c primary profile c.profile.levels p refl h

  -- A controller of a ready scenario, under trusted dispatch, with the scenario's own profiles.
  pub record IsBoundTo (id : String) (c : ControllerDoc docs.J) : Type 0 where
    pub row : CatalogRow
    pub row_eq : catalog_row id docs.scenarios ≡ some row
    pub ready : row.readiness ≡ "ready"
    pub trusted : c.dispatcher_mode ≡ some "trusted"
    pub live : c.live_enabled ≡ true
    pub ticks : c.tick_interval ≡ some "15s"
    pub settling : c.settle_after_change ≡ some "30s"
    pub clean : c.clean_window ≡ some "30m"
    pub checks : is_subset baseline_checks c.required_checks ≡ true
    pub primary : String
    pub companions : List String
    pub profiles_eq : row.profiles ≡ primary ∷ companions
    pub primary_eq : c.profile.primary_ref ≡ some primary
    pub companions_eq : c.profile.companion_refs ≡ some companions
    pub laddered : IsLaddered id c primary

  -- the profiles of a scenario, the first of which is the primary one
  record HasPrimary (id : String) (c : ControllerDoc docs.J) (profiles : List String) : Type 0 where
    primary : String
    companions : List String
    profiles_eq : profiles ≡ primary ∷ companions
    primary_eq : c.profile.primary_ref ≡ some primary
    companions_eq : c.profile.companion_refs ≡ some companions
    laddered : IsLaddered id c primary

  check_binding-HasPrimary :
      (id : String) (c : ControllerDoc docs.J) (profiles : List String)
      → check_binding docs doc id c profiles ≡ valid
      → HasPrimary id c profiles
  unfolding check_binding
  check_binding-HasPrimary id c [] h = absurd (cc h)
  check_binding-HasPrimary id c (primary ∷ companions) h =
      let first = is_text c.profile.primary_ref primary in
      let rest = is_texts c.profile.companion_refs companions in
      let a = >>-valid (require (first && rest) (Refusal.binding_mismatch id)) _ h in
      let r = both first rest (require-true (first && rest) (Refusal.binding_mismatch id) a.0) in
      record {
        primary = primary;
        companions = companions;
        profiles_eq = refl;
        primary_eq = is_text-eq c.profile.primary_ref primary r.0;
        companions_eq = is_texts-eq c.profile.companion_refs companions r.1;
        laddered = check_registered-IsLaddered id c primary (at_key primary docs.profiles) refl a.1;
      }

  check_bound-IsBoundTo :
      (id : String) (c : ControllerDoc docs.J) (o : Option CatalogRow)
      → catalog_row id docs.scenarios ≡ o
      → check_bound docs doc id c o ≡ valid
      → IsBoundTo id c
  unfolding check_bound
  check_bound-IsBoundTo id c none e h = absurd (cc h)
  check_bound-IsBoundTo id c (some row) e h =
      let trust = is_text c.dispatcher_mode "trusted" && c.live_enabled in
      let base = is_text c.clean_window "30m" && is_subset baseline_checks c.required_checks in
      let a = >>-valid (require (str_eq row.readiness "ready") (Refusal.not_ready id)) _ h in
      let b = >>-valid (require trust (Refusal.not_trusted id)) _ a.1 in
      let t =
        >>-valid (require (is_text c.tick_interval "15s") (Refusal.ticks_unbounded id)) _ b.1 in
      let s =
        >>-valid (require (is_text c.settle_after_change "30s") (Refusal.settling_unbounded id)) _
          t.1 in
      let w = >>-valid (require base (Refusal.baseline_open id)) _ s.1 in
      let trusts =
        both (is_text c.dispatcher_mode "trusted") c.live_enabled
          (require-true trust (Refusal.not_trusted id) b.0) in
      let bases =
        both (is_text c.clean_window "30m") (is_subset baseline_checks c.required_checks)
          (require-true base (Refusal.baseline_open id) w.0) in
      let p = check_binding-HasPrimary id c row.profiles w.1 in
      record {
        row = row;
        row_eq = e;
        ready =
            (eq_iff row.readiness "ready").0
              (require-true (str_eq row.readiness "ready") (Refusal.not_ready id) a.0);
        trusted = is_text-eq c.dispatcher_mode "trusted" trusts.0;
        live = trusts.1;
        ticks =
            is_text-eq c.tick_interval "15s"
              (require-true (is_text c.tick_interval "15s") (Refusal.ticks_unbounded id) t.0);
        settling = is_text-eq c.settle_after_change "30s" (
            require-true (is_text c.settle_after_change "30s") (Refusal.settling_unbounded id) s.0);
        clean = is_text-eq c.clean_window "30m" bases.0;
        checks = bases.1;
        primary = p.primary;
        companions = p.companions;
        profiles_eq = p.profiles_eq;
        primary_eq = p.primary_eq;
        companions_eq = p.companions_eq;
        laddered = p.laddered;
      }

  pub validate_controllers-IsBoundTo :
      validate_controllers docs doc ≡ valid
      → (covers doc.live_scenario_ids (keys doc.controllers) ≡ true)
        × All (λ (row : String × ControllerDoc docs.J). IsBoundTo row.0 row.1) doc.controllers
  unfolding validate_controllers
  validate_controllers-IsBoundTo h =
      let a =
        >>-valid
          (require (covers doc.live_scenario_ids (keys doc.controllers)) Refusal.live_ids_differ) _
          h in
      (
        require-true (covers doc.live_scenario_ids (keys doc.controllers)) Refusal.live_ids_differ
            a.0,
        All-map (λ row e. of_row row e) doc.controllers
            (each-All (check_controller docs doc) doc.controllers a.1),
      )
    where
      of_row :
          (row : String × ControllerDoc docs.J)
          → check_controller docs doc row ≡ valid
          → IsBoundTo row.0 row.1
      of_row (id, c) e = check_bound-IsBoundTo id c (catalog_row id docs.scenarios) refl e
