-- ===== src/Boundary/Authorised.antt =====
-- What `main_for` runs is what the plan and its confirmation allow.
use testbed_services.Common.{
  ℕ, String, str_eq, eq_iff, true, Option, none, some, List, [], ◌∷◌, ◌≡◌, refl, ap, inl, inr,
  Bool-cases, arith,
}
use testbed_services.Plan.{Plan, Instance, confirmation, instances_of}
use testbed_services.Control.Host.{Compilation, failed, compiled}
use testbed_services.Boundary.Live.{
  BoundaryHost, Checked, pass, refuse, ◌>>=◌, Arguments, executed, is_text, sole_row,
  profile_instance, authorize_live, bind_level_parameters, compiled_plan, validated, remote_action,
  launch, main_scenario, main_unbound, main_given, main_for,
}

pub >>=-eq-pass :
    {A B : Type 0} (o : Checked A) (f : A → Checked B) (b : B)
    → (o >>= f) ≡ pass b
    → (a : A) × (o ≡ pass a) × (f a ≡ pass b)
>>=-eq-pass (pass a) f b h = (a, refl, h)
>>=-eq-pass (refuse e) f b h = absurd (cc h)

is_text-eq : (o : Option String) (t : String) → is_text o t ≡ true → o ≡ some t
is_text-eq none t h = absurd (cc h)
is_text-eq (some s) t h = ap some ((eq_iff s t).0 h)

module _ {J : Type 0} where
  -- The plan allows live runs, and the arguments repeat its digest and its confirmation.
  pub record IsLive (plan : Plan J) (digest confirm : Option String) : Type 0 where
    pub allowed : plan.live_allowed ≡ true
    pub digest_eq : digest ≡ some plan.plan_digest
    pub confirm_eq : confirm ≡ some (confirmation plan)

  pub authorize_live-IsLive :
      (plan : Plan J) (digest confirm : Option String) (u : Unit)
      → authorize_live plan digest confirm ≡ pass u
      → IsLive plan digest confirm
  unfolding authorize_live
  authorize_live-IsLive plan digest confirm u h =
      let tests : (plan.live_allowed ≡ true)
          × (is_text digest plan.plan_digest ≡ true)
          × (is_text confirm (confirmation plan) ≡ true) =
        ground arith in
      record {
        allowed = tests.0;
        digest_eq = is_text-eq digest plan.plan_digest tests.1;
        confirm_eq = is_text-eq confirm (confirmation plan) tests.2;
      }

  pub profile_instance-eq :
      (rows : List (Instance J)) (i : Instance J) → sole_row rows ≡ pass i → rows ≡ i ∷ []
  profile_instance-eq [] i h = absurd (cc h)
  profile_instance-eq (j ∷ []) i h = ap (λ r. r ∷ []) (cc h)
  profile_instance-eq (j ∷ k ∷ rows) i h = absurd (cc h)

module _ (host : BoundaryHost) (profile_id : String) (a : Arguments) where
  open host use {J, compile_plan, builder, validator, execute}

  -- What stands behind a process that was run.
  pub record IsExecution (argv : List String) (stdin : String) (code : ℕ) : Type 0 where
    pub live : a.live ≡ true
    pub slug : String
    pub given : a.scenario ≡ some slug
    pub plan : Plan J
    pub compiles : compile_plan slug ≡ compiled plan
    pub authorized : IsLive plan a.plan_digest a.confirm
    pub bound : Plan J
    pub level : Option String
    pub binds :
        bind_level_parameters host plan profile_id a.level_index a.parameters_json
        ≡ pass (bound, level)
    pub instance_of : Instance J
    pub unique : instances_of bound profile_id ≡ instance_of ∷ []
    pub valid : validator plan.scenario_id instance_of.parameters ≡ none
    pub built : builder bound (remote_action a.action) ≡ (argv, stdin)
    pub code_eq : code ≡ execute argv stdin

  compiled_plan-eq :
      (c : Compilation J) (p : Plan J) → compiled_plan host c ≡ pass p → c ≡ compiled p
  unfolding compiled_plan
  compiled_plan-eq (failed m) p h = absurd (cc h)
  compiled_plan-eq (compiled q) p h = ap compiled (cc h)

  validated-eq : (o : Option String) (u : Unit) → validated host o ≡ pass u → o ≡ none
  unfolding validated
  validated-eq none u h = refl
  validated-eq (some m) u h = absurd (cc h)

  launch-eq :
      (plan : Plan J) (built : List String × String) (argv : List String) (stdin : String)
      (code : ℕ)
      → launch host a plan built ≡ pass (executed argv stdin code)
      → (a.live ≡ true)
        × IsLive plan a.plan_digest a.confirm
        × (built ≡ (argv, stdin))
        × (code ≡ execute argv stdin)
  unfolding launch
  launch-eq plan (line, input) argv stdin code h = elim (Bool-cases a.live) [
    | inr n ↦ absurd (cc (rw n at h))
    | inl l ↦
        let (u, ok, r) =
          >>=-eq-pass (authorize_live plan a.plan_digest a.confirm) _ _ (rw l at h) in
        let line_eq : line ≡ argv = cc r in
        let input_eq : input ≡ stdin = cc r in
        (
          l,
          authorize_live-IsLive plan a.plan_digest a.confirm u ok,
          cc (line_eq, input_eq),
          cc (r, line_eq, input_eq),
        )
  ]

  scenario-IsExecution :
      (slug : String) (argv : List String) (stdin : String) (code : ℕ)
      → a.scenario ≡ some slug
      → main_scenario host profile_id a slug ≡ pass (executed argv stdin code)
      → IsExecution argv stdin code
  unfolding main_scenario profile_instance
  scenario-IsExecution slug argv stdin code g h =
      let (plan, c, h1) = >>=-eq-pass (compiled_plan host (compile_plan slug)) _ _ h in
      let (selected, b, h2) =
        >>=-eq-pass (bind_level_parameters host plan profile_id a.level_index a.parameters_json) _ _
          h1 in
      let (i, u, h3) = >>=-eq-pass (sole_row (instances_of selected.0 profile_id)) _ _ h2 in
      let (ok, v, h4) =
        >>=-eq-pass (validated host (validator plan.scenario_id i.parameters)) _ _ h3 in
      let (live, authorized, built, code_eq) =
        launch-eq plan (builder selected.0 (remote_action a.action)) argv stdin code h4 in
      record {
        live = live;
        slug = slug;
        given = g;
        plan = plan;
        compiles = compiled_plan-eq (compile_plan slug) plan c;
        authorized = authorized;
        bound = selected.0;
        level = selected.1;
        binds = b;
        instance_of = i;
        unique = profile_instance-eq (instances_of selected.0 profile_id) i u;
        valid = validated-eq (validator plan.scenario_id i.parameters) ok v;
        built = built;
        code_eq = code_eq;
      }

  unbound-runs-nothing :
      (argv : List String) (stdin : String) (code : ℕ)
      → main_unbound host a ≡ pass (executed argv stdin code)
      → ⊥
  unfolding main_unbound
  unbound-runs-nothing argv stdin code h = elim (Bool-cases a.live) [
    | inl l ↦ cc (l, h)
    | inr l ↦ cc (l, h)
  ]

  given-IsExecution :
      (o : Option String) (argv : List String) (stdin : String) (code : ℕ)
      → a.scenario ≡ o
      → main_given host profile_id a o ≡ pass (executed argv stdin code)
      → IsExecution argv stdin code
  unfolding main_given
  given-IsExecution none argv stdin code g h = absurd (unbound-runs-nothing argv stdin code h)
  given-IsExecution (some slug) argv stdin code g h = elim (Bool-cases (str_eq slug "")) [
    | inl e ↦ absurd (unbound-runs-nothing argv stdin code (rw e at h))
    | inr e ↦ scenario-IsExecution slug argv stdin code g (rw e at h)
  ]

  -- A process that `main_for` has run was asked for live: the scenario compiles to a plan that
  -- allows live runs and whose digest and confirmation the arguments repeat; its command comes from
  -- the builder on the plan with the level's parameters bound, and the validator accepts those.
  pub main_for-IsExecution :
      (argv : List String) (stdin : String) (code : ℕ)
      → main_for host profile_id a ≡ pass (executed argv stdin code)
      → IsExecution argv stdin code
  unfolding main_for
  main_for-IsExecution argv stdin code h = given-IsExecution a.scenario argv stdin code refl h
