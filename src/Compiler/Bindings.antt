-- ===== src/Compiler/Bindings.antt =====
-- What the instances of a compiled plan are.
use testbed_services.Common.{
  ℕ, suc, String, Bool, true, ◌&&◌, Option, none, some, List, [], ◌∷◌, ◌≡◌, refl, sym, ap, ◌∙◌, inl,
  inr, Bool-cases, all, arith, All, subst,
}
use testbed_services.Compiler.Assembly.{
  ProfileEntry, Scenario, Controller, Registry, PlanInstance, Compiling, done, failed, ◌>>=◌,
  at_key, or_key_error, is_member, allowed_location, live_allowed, parameters_of, supports_live,
  location_of, instance_at, compile_instance, compile_instances, assemble,
}

>>=-eq-done :
    {A B : Type 0} (o : Compiling A) (f : A → Compiling B) (b : B)
    → (o >>= f) ≡ done b
    → (a : A) × (o ≡ done a) × (f a ≡ done b)
>>=-eq-done (done a) f b h = (a, refl, h)
>>=-eq-done (failed e) f b h = absurd (cc h)

or_key_error-eq :
    {A : Type 0} (key : String) (o : Option A) (a : A) → or_key_error key o ≡ done a → o ≡ some a
or_key_error-eq key none a h = absurd (cc h)
or_key_error-eq key (some b) a h = ap some (cc h)

conjuncts :
    (a b c d : Bool)
    → ((a && b && c) && d) ≡ true
    → (a ≡ true) × (b ≡ true) × (c ≡ true) × (d ≡ true)
conjuncts a b c d h = ground arith

module _ (registry : Registry) (scenario : Scenario) (controller : Controller registry.J) where
  open registry use {J, profiles, locations, aliases}

  -- An instance with the registry's entries that stand behind it.
  pub record IsBound (sequence : ℕ) (profile_id : String) (b : PlanInstance J) : Type 0 where
    pub profile : ProfileEntry J
    pub registered : at_key profile_id profiles ≡ some profile
    pub location : String
    pub resolved : Bool
    pub allowed : is_member location profile.allowed_locations ≡ true
    pub located : at_key location locations ≡ some resolved
    pub fields_eq :
        instance_at registry scenario controller sequence profile_id profile location resolved ≡ b

  allowed_location-eq :
      (profile_id : String) (profile : ProfileEntry J) (o : Option String) (location : String)
      → allowed_location profile_id profile o ≡ done location
      → is_member location profile.allowed_locations ≡ true
  unfolding allowed_location
  allowed_location-eq profile_id profile none location h = absurd (cc h)
  allowed_location-eq profile_id profile (some l) location h =
      elim (Bool-cases (is_member l profile.allowed_locations)) [
        | inl y ↦
            let same : l ≡ location = cc (rw y at h) in
            ap (λ x. is_member x profile.allowed_locations) (sym same) ∙ y
        | inr n ↦ absurd (cc (rw n at h))
      ]

  compile_instance-IsBound :
      (scenario_location : String) (sequence : ℕ) (profile_id : String) (b : PlanInstance J)
      → compile_instance registry scenario controller scenario_location sequence profile_id ≡ done b
      → IsBound sequence profile_id b
  unfolding compile_instance
  compile_instance-IsBound scenario_location sequence profile_id b h =
      let (profile, r, h1) =
        >>=-eq-done (or_key_error profile_id (at_key profile_id profiles)) _ b h in
      let (location, l, h2) =
        >>=-eq-done
          (allowed_location profile_id profile
            (location_of registry scenario controller profile scenario_location))
          _ b h1 in
      let (resolved, k, h3) =
        >>=-eq-done (or_key_error location (at_key location locations)) _ b h2 in
      record {
        profile = profile;
        registered = or_key_error-eq profile_id (at_key profile_id profiles) profile r;
        location = location;
        resolved = resolved;
        allowed = allowed_location-eq profile_id profile _ location l;
        located = or_key_error-eq location (at_key location locations) resolved k;
        fields_eq = cc h3;
      }

  -- The instances follow the scenario's profiles, numbered from `n`.
  abbrev pub Follows : ℕ → List String → List (PlanInstance J) → Type 0
  Follows n [] [] = Unit
  Follows n [] (b ∷ bs) = ⊥
  Follows n (p ∷ ps) [] = ⊥
  Follows n (p ∷ ps) (b ∷ bs) = IsBound n p b × Follows (suc n) ps bs

  compile_instances-Follows :
      (scenario_location : String) (n : ℕ) (ps : List String) (bs : List (PlanInstance J))
      → compile_instances registry scenario controller scenario_location n ps ≡ done bs
      → Follows n ps bs
  unfolding compile_instances
  compile_instances-Follows scenario_location n [] [] h = tt
  compile_instances-Follows scenario_location n [] (b ∷ bs) h = absurd (cc h)
  compile_instances-Follows scenario_location n (p ∷ ps) bs h =
      let (b, one, h1) =
        >>=-eq-done (compile_instance registry scenario controller scenario_location n p) _ bs h in
      let (rest, others, h2) =
        >>=-eq-done (compile_instances registry scenario controller scenario_location (suc n) ps) _
          bs h1 in
      let same : (b ∷ rest) ≡ bs = cc h2 in
      subst (Follows n (p ∷ ps)) same (
        compile_instance-IsBound scenario_location n p b one,
        compile_instances-Follows scenario_location (suc n) ps rest others,
      )

  -- A profile of the scenario that may run live.
  pub record MayRun (profile_id : String) : Type 0 where
    pub profile : ProfileEntry J
    pub location : String
    pub registered : at_key profile_id profiles ≡ some profile
    pub supported : profile.live_supported ≡ true
    pub listed : is_member scenario.id profile.allowed_scenarios ≡ true
    pub parameterised : registry.truthy (parameters_of registry scenario controller profile) ≡ true
    pub allowed : is_member location profile.allowed_locations ≡ true
    pub resolved : at_key location locations ≡ some true

  instance-MayRun :
      (n : ℕ) (p : String) (b : PlanInstance J)
      → IsBound n p b
      → (b.live_supported && b.resolved) ≡ true
      → MayRun p
  unfolding instance_at supports_live
  instance-MayRun n p b x h =
      let live = subst (λ y. (y.live_supported && y.resolved) ≡ true) (sym x.fields_eq) h in
      let (first, listed, truth, last) =
        conjuncts x.profile.live_supported (is_member scenario.id x.profile.allowed_scenarios)
          (registry.truthy (parameters_of registry scenario controller x.profile)) x.resolved
          live in
      record {
        profile = x.profile;
        location = x.location;
        registered = x.registered;
        supported = first;
        listed = listed;
        parameterised = truth;
        allowed = x.allowed;
        resolved = x.located ∙ ap some last;
      }

  all-MayRun :
      (n : ℕ) (ps : List String) (bs : List (PlanInstance J))
      → Follows n ps bs
      → all (λ b. b.live_supported && b.resolved) bs ≡ true
      → All MayRun ps
  all-MayRun n [] [] f h = tt
  all-MayRun n [] (b ∷ bs) f h = absurd f
  all-MayRun n (p ∷ ps) [] f h = absurd f
  all-MayRun n (p ∷ ps) (b ∷ bs) f h =
      (instance-MayRun n p b f.0 (ground arith), all-MayRun (suc n) ps bs f.1 (ground arith))

  pub assemble-Follows :
      (bs : List (PlanInstance J))
      → assemble registry scenario controller ≡ done bs
      → Follows 0 scenario.profiles bs
  unfolding assemble
  assemble-Follows bs h =
      let (location, l, h1) =
        >>=-eq-done
          (or_key_error scenario.injection_location (at_key scenario.injection_location aliases)) _
          bs h in
      compile_instances-Follows location 0 scenario.profiles bs h1

  -- An assembled plan that allows live runs is of a ready scenario with a complete controller, and
  -- each of its profiles is registered as live, lists the scenario, has parameters for it, and
  -- stands at an allowed and resolved location.
  pub live_allowed-MayRun :
      (bs : List (PlanInstance J))
      → assemble registry scenario controller ≡ done bs
      → live_allowed scenario controller bs ≡ true
      → (scenario.ready ≡ true) × (controller.complete ≡ true) × All MayRun scenario.profiles
  unfolding live_allowed
  live_allowed-MayRun bs h live = (
    ground arith,
    ground arith,
    all-MayRun 0 scenario.profiles bs (assemble-Follows bs h) (ground arith),
  )
