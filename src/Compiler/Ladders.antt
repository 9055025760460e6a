-- ===== src/Compiler/Ladders.antt =====
-- The levels and the condition sets of a validated controller: `check_mode` and `check_sets`.
use testbed_services.Common.{
  both, String, true, ◌&&◌, Option, none, some, List, map, ◌≡◌, refl, ◌⊎◌, inl, inr, Bool-cases,
  All, is_none,
}
use testbed_services.Compiler.Assembly.{at_key}
use testbed_services.Compiler.ContractDocs.{valid, Refusal, require, ProfileDoc, Contracts, is_text}
use testbed_services.Compiler.ControllerDocs.{
  SetDoc, absent, no_object, object, ControllerLevel, ControllerDoc, texts_of, check_set,
  check_escalate, is_one, rungs_for,
}
use testbed_services.Compiler.Controllers.{
  same_value, same_ladder, first_parameters, check_evaluation, check_calibration, check_sets,
  check_mode,
}
use testbed_services.Compiler.Accepted.{>>-valid, require-true}
use testbed_services.Compiler.Signals.{
  is_text-eq, IsApproved, IsConditionSet, check_set-IsConditionSet,
}

is_none-eq : {A : Type 0} (o : Option A) → is_none o ≡ true → o ≡ none
is_none-eq none h = refl
is_none-eq (some a) h = absurd (cc h)

module _ (docs : Contracts) where
  -- The levels of a controller that evaluates are one level with the approved parameters of the
  -- primary profile; those of one that calibrates are the profile's rungs for the scenario.
  abbrev pub LadderIs :
      String
      → ControllerDoc docs.J
      → String
      → ProfileDoc docs.J
      → List (ControllerLevel docs.J)
      → Type 0
  LadderIs id c primary profile levels =
      ((c.mode ≡ some "evaluation")
        × (is_one levels ≡ true)
        × (c.profile.approved_profile_id ≡ some primary)
        × (same_value docs (first_parameters docs levels) (at_key id profile.scenario_parameters)
            ≡ true))
      ⊎ ((c.mode ≡ some "calibration")
          × (c.profile.approved_profile_id ≡ none)
          × (same_ladder docs levels (rungs_for (at_key id profile.scenario_levels)) ≡ true))

  pub check_mode-LadderIs :
      (id : String) (c : ControllerDoc docs.J) (primary : String) (profile : ProfileDoc docs.J)
      (levels : List (ControllerLevel docs.J))
      → check_mode docs id c primary profile levels ≡ valid
      → LadderIs id c primary profile levels
  unfolding check_mode check_evaluation check_calibration
  check_mode-LadderIs id c primary profile levels h =
      elim (Bool-cases (is_text c.mode "evaluation")) [
        | inl y ↦
            let a =
              >>-valid
                (require (is_text c.profile.kind "fixed" && is_one levels)
                  (Refusal.not_one_level id))
                _ (rw y at h) in
            let one = both (is_text c.profile.kind "fixed") (is_one levels) (
              require-true (is_text c.profile.kind "fixed" && is_one levels)
                (Refusal.not_one_level id) a.0) in
            let b =
              >>-valid
                (require (is_text c.profile.approved_profile_id primary) (Refusal.not_approved id))
                _ a.1 in
            inl (
              is_text-eq c.mode "evaluation" y,
              one.1,
              is_text-eq c.profile.approved_profile_id primary (
                  require-true (is_text c.profile.approved_profile_id primary)
                    (Refusal.not_approved id) b.0),
              require-true
                  (same_value docs (first_parameters docs levels)
                    (at_key id profile.scenario_parameters))
                  (Refusal.parameters_not_approved id) b.1,
            )
        | inr n ↦ elim (Bool-cases (is_text c.mode "calibration")) [
          | inl y ↦
              let t =
                is_text c.profile.kind "adaptive_ladder" && is_none c.profile.approved_profile_id in
              let a = >>-valid (require t (Refusal.bad_calibration id)) _ (rw (n, y) at h) in
              let none_approved =
                both (is_text c.profile.kind "adaptive_ladder")
                  (is_none c.profile.approved_profile_id)
                  (require-true t (Refusal.bad_calibration id) a.0) in
              inr (
                is_text-eq c.mode "calibration" y,
                is_none-eq c.profile.approved_profile_id none_approved.1,
                require-true
                    (same_ladder docs levels (rungs_for (at_key id profile.scenario_levels)))
                    (Refusal.ladder_differs id) a.1,
              )
          | inr m ↦ absurd (cc (rw (n, m) at h))
        ]
      ]

  -- No escalation where a controller evaluates, and one whose signals are observed where not.
  abbrev pub EscalationIs : ControllerDoc docs.J → Type 0
  EscalationIs c =
      ((c.mode ≡ some "evaluation") × (c.escalate ≡ absent))
      ⊎ IsConditionSet docs c.observations c.escalate

  -- The condition sets of a controller, whose signals are observed.
  pub record HasSets (c : ControllerDoc docs.J) : Type 0 where
    pub success : IsConditionSet docs c.observations c.success
    pub escalation : EscalationIs c
    pub abort : IsConditionSet docs c.observations c.abort
    pub must_rule_out : IsConditionSet docs c.observations c.must_rule_out
    pub recovery : IsConditionSet docs c.observations c.recovery

  check_escalate-absent :
      (id : String) (available : List String) (set : SetDoc docs.J)
      → check_escalate true id available set ≡ valid
      → set ≡ absent
  unfolding check_escalate
  check_escalate-absent id available absent h = refl
  check_escalate-absent id available no_object h = absurd (cc h)
  check_escalate-absent id available (object conditions) h = absurd (cc h)

  escalation :
      (id : String) (c : ControllerDoc docs.J)
      → All (IsApproved docs) c.observations
      → check_escalate
          (is_text c.mode "evaluation")
          id
          (texts_of (map (λ o. o.id) c.observations))
          c.escalate
        ≡ valid
      → EscalationIs c
  unfolding check_escalate
  escalation id c a h = elim (Bool-cases (is_text c.mode "evaluation")) [
    | inl y ↦ inl (
      is_text-eq c.mode "evaluation" y,
      check_escalate-absent id (texts_of (map (λ o. o.id) c.observations)) c.escalate (rw y at h),
    )
    | inr n ↦
        inr (check_set-IsConditionSet docs id "escalate" c.observations c.escalate a (rw n at h))
  ]

  pub check_sets-HasSets :
      (id : String) (c : ControllerDoc docs.J)
      → All (IsApproved docs) c.observations
      → check_sets docs id c (texts_of (map (λ o. o.id) c.observations)) ≡ valid
      → HasSets c
  unfolding check_sets
  check_sets-HasSets id c a h =
      let ids = texts_of (map (λ o. o.id) c.observations) in
      let s = >>-valid (check_set id ids "success" c.success) _ h in
      let e = >>-valid (check_escalate (is_text c.mode "evaluation") id ids c.escalate) _ s.1 in
      let b = >>-valid (check_set id ids "abort" c.abort) _ e.1 in
      let m = >>-valid (check_set id ids "must_rule_out" c.must_rule_out) _ b.1 in
      record {
        success = check_set-IsConditionSet docs id "success" c.observations c.success a s.0;
        escalation = escalation id c a e.0;
        abort = check_set-IsConditionSet docs id "abort" c.observations c.abort a b.0;
        must_rule_out =
            check_set-IsConditionSet docs id "must_rule_out" c.observations c.must_rule_out a m.0;
        recovery = check_set-IsConditionSet docs id "recovery" c.observations c.recovery a m.1;
      }
