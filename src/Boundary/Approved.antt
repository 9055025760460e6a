-- ===== src/Boundary/Approved.antt =====
-- The parameter sets that the registry approves for a scenario.
use testbed_services.Common.{
  Bool, true, false, ◌||◌, List, [], ◌∷◌, ◌++◌, ◌≡◌, refl, sym, ap, ◌∙◌, Bool-cases, inl, inr, any,
  String,
}
use testbed_services.Plan.{Level}
use testbed_services.Boundary.Live.{
  BoundaryHost, Profile, of_scenario, levels_or_none, default_set, add_rungs,
  approved_parameter_sets,
}

or_assoc : (a b c : Bool) → ((a || b) || c) ≡ (a || (b || c))
or_assoc true b c = refl
or_assoc false b c = refl

-- one more test after a sum of tests that it implies
absorb : (a b c : Bool) → (b ≡ true → a ≡ true) → (a || c) ≡ (a || (b || c))
absorb true b c h = refl
absorb false true c h = absurd (cc (h refl))
absorb false false c h = refl

or_false : (a : Bool) → (a || false) ≡ a
or_false true = refl
or_false false = refl

any-snoc :
    {A : Type 0} (p : A → Bool) (xs : List A) (x : A) → any p (xs ++ x ∷ []) ≡ (any p xs || p x)
any-snoc p [] x = or_false (p x)
any-snoc p (y ∷ ys) x = ap (λ b. p y || b) (any-snoc p ys x) ∙ sym (or_assoc (p y) (any p ys) (p x))

module _ (host : BoundaryHost) where
  open host use {J, equal}

  -- `x in approved`
  abbrev pub is_in : J → List J → Bool
  is_in x approved = any (λ a. equal a x) approved

  -- some rung has the parameters `x`
  abbrev pub on_ladder : J → List (Level J) → Bool
  on_ladder x levels = any (λ l. equal l.parameters x) levels

  module _ (trans : (a b c : J) → equal a b ≡ true → equal b c ≡ true → equal a c ≡ true) where
    is_in_trans :
        (approved : List J) (a x : J)
        → is_in a approved ≡ true
        → equal a x ≡ true
        → is_in x approved ≡ true
    is_in_trans [] a x h e = h
    is_in_trans (b ∷ bs) a x h e = elim (Bool-cases (equal b a)) [
      | inl t ↦ rw (trans b a x t e) refl
      | inr f ↦ elim (Bool-cases (equal b x)) [
        | inl t ↦ rw t refl
        | inr g ↦ rw g (is_in_trans bs a x (rw f at h) e)
      ]
    ]

    add_rungs_lem :
        (approved : List J) (levels : List (Level J)) (x : J)
        → is_in x (add_rungs host approved levels) ≡ (is_in x approved || on_ladder x levels)
    unfolding add_rungs
    add_rungs_lem approved [] x = sym (or_false (is_in x approved))
    add_rungs_lem approved (l ∷ ls) x = elim (Bool-cases (is_in l.parameters approved)) [
      | inl t ↦ rw t (
          add_rungs_lem approved ls x
          ∙ absorb (is_in x approved) (equal l.parameters x) (on_ladder x ls)
              (is_in_trans approved l.parameters x t))
      | inr f ↦ rw f (
          add_rungs_lem (approved ++ l.parameters ∷ []) ls x
          ∙ ap (λ b. b || on_ladder x ls) (any-snoc (λ a. equal a x) approved l.parameters)
          ∙ or_assoc (is_in x approved) (equal l.parameters x) (on_ladder x ls))
    ]

    -- Where equality of JSON values is transitive, a parameter set is among those approved for a
    -- scenario exactly if it is the registry's default for it or that of a rung of its ladder.
    pub approved_parameter_sets_lem :
        (profile : Profile J) (scenario_id : String) (x : J)
        → is_in x (approved_parameter_sets host profile scenario_id) ≡ (
            is_in x (default_set (of_scenario scenario_id profile.scenario_parameters))
            || on_ladder x (levels_or_none (of_scenario scenario_id profile.scenario_levels)))
    unfolding approved_parameter_sets
    approved_parameter_sets_lem profile scenario_id x =
        add_rungs_lem (default_set (of_scenario scenario_id profile.scenario_parameters))
          (levels_or_none (of_scenario scenario_id profile.scenario_levels)) x
