-- ===== src/Boundary/Levels.antt =====
-- What binding a rung of the ladder does to the plan.
use testbed_services.Common.{
  ℕ, String, str_eq, eq_iff, Bool, true, Option, none, some, List, [], ◌∷◌, ◌≡◌, refl, ap, ◌∙◌, ◌⊎◌,
  inl, inr, Bool-cases, map, filter, is_none, get_elem?, arith, subst,
}
use testbed_services.Common.Int.{ℤ, pos, negsuc}
use testbed_services.Plan.{Plan, Instance, Level, instances_of}
use testbed_services.Control.Host.{Parsed, invalid, null, value}
use testbed_services.Boundary.Live.{
  BoundaryHost, pass, both, sole_row, profile_instance, rung_or_refuse, level_at, bind_row,
  bind_level, check_supplied, bind_instance, bind_level_parameters,
}
use testbed_services.Boundary.Authorised.{>>=-eq-pass, profile_instance-eq}

module _ {J : Type 0} where
  -- the instance with the parameters of a rung
  abbrev pub on_level : Instance J → Level J → Instance J
  on_level i level = record i {
    parameters = level.parameters;
    selected_level_id = some level.level_id;
  }

  bind_row-id :
      (profile_id : String) (level : Level J) (row : Instance J)
      → (bind_row profile_id level row).profile_id ≡ row.profile_id
  unfolding bind_row
  bind_row-id profile_id level row = elim (Bool-cases (str_eq row.profile_id profile_id)) [
    | inl e ↦ rw e refl
    | inr e ↦ rw e refl
  ]

  filter-bind :
      (profile_id other : String) (level : Level J) (rows : List (Instance J))
      → filter (λ row. str_eq row.profile_id other) (map (bind_row profile_id level) rows)
        ≡ map (bind_row profile_id level) (filter (λ row. str_eq row.profile_id other) rows)
  unfolding bind_row
  filter-bind profile_id other level [] = refl
  filter-bind profile_id other level (row ∷ rows) =
      elim (Bool-cases (str_eq row.profile_id other)) [
        | inl e ↦
            rw (bind_row-id profile_id level row, e)
              (ap (λ l. bind_row profile_id level row ∷ l)
                (filter-bind profile_id other level rows))
        | inr e ↦ rw (bind_row-id profile_id level row, e) (filter-bind profile_id other level rows)
      ]

  -- `filter` keeps only what passes its test
  head_passes :
      (p : Instance J → Bool) (rows : List (Instance J)) (i : Instance J)
      → filter p rows ≡ i ∷ []
      → p i ≡ true
  head_passes p [] i h = absurd (cc h)
  head_passes p (row ∷ rows) i h = elim (Bool-cases (p row)) [
    | inl e ↦ let same : row ≡ i = cc (rw e at h) in subst (λ x. p x ≡ true) same e
    | inr e ↦ head_passes p rows i (rw e at h)
  ]

  bound_instances :
      (plan : Plan J) (profile_id : String) (i : Instance J) (level : Level J)
      → instances_of plan profile_id ≡ i ∷ []
      → instances_of (bind_level plan profile_id level) profile_id ≡ on_level i level ∷ []
  unfolding instances_of bind_level bind_row
  bound_instances plan profile_id i level h =
      filter-bind profile_id profile_id level plan.profile_instances
      ∙ ap (map (bind_row profile_id level)) h
      ∙ rw (head_passes (λ row. str_eq row.profile_id profile_id) plan.profile_instances i h) refl

module _ (host : BoundaryHost) (plan : Plan host.J) (profile_id : String) where
  open host use {J, loads, dumps, equal}

  -- The rung that was bound: the index is in the ladder of the profile's only instance, the raw
  -- text is the canonical encoding of its parameters, and the plan is changed in that instance.
  pub record IsRung (index : Option ℤ) (raw : Option String) (bound : Plan J)
      (selected : Option String) : Type 0 where
    pub instance_of : Instance J
    pub unique : instances_of plan profile_id ≡ instance_of ∷ []
    pub position : ℕ
    pub index_eq : index ≡ some (pos position)
    pub level : Level J
    pub level_eq : get_elem? instance_of.approved_levels position ≡ some level
    pub text : String
    pub raw_eq : raw ≡ some text
    pub supplied : J
    pub parsed : loads text ≡ value supplied
    pub canonical : text ≡ dumps supplied
    pub same : equal supplied level.parameters ≡ true
    pub selected_eq : selected ≡ some level.level_id
    pub bound_eq : bound ≡ bind_level plan profile_id level
    pub bound_unique : instances_of bound profile_id ≡ on_level instance_of level ∷ []

  -- Nothing was given, and nothing is bound.
  pub record IsDefault (index : Option ℤ) (raw : Option String) (bound : Plan J)
      (selected : Option String) : Type 0 where
    pub no_index : index ≡ none
    pub no_raw : raw ≡ none
    pub instance_of : Instance J
    pub unique : instances_of plan profile_id ≡ instance_of ∷ []
    pub bound_eq : bound ≡ plan
    pub selected_eq : selected ≡ instance_of.selected_level_id

  rung-eq :
      (o : Option (Level J)) (level : Level J) → rung_or_refuse o ≡ pass level → o ≡ some level
  unfolding rung_or_refuse
  rung-eq none level h = absurd (cc h)
  rung-eq (some x) level h = ap some (cc h)

  level_at-eq :
      (levels : List (Level J)) (index : ℤ) (level : Level J)
      → level_at levels index ≡ pass level
      → (n : ℕ) × (index ≡ pos n) × (get_elem? levels n ≡ some level)
  unfolding level_at
  level_at-eq [] index level h = absurd (cc h)
  level_at-eq (l ∷ ls) (negsuc i) level h = absurd (cc h)
  level_at-eq (l ∷ ls) (pos i) level h = (i, refl, rung-eq (get_elem? (l ∷ ls) i) level h)

  check_supplied-eq :
      (raw : String) (p : Parsed J) (level : Level J) (u : Unit)
      → check_supplied host raw p level ≡ pass u
      → (j : J) × (p ≡ value j) × (raw ≡ dumps j) × (equal j level.parameters ≡ true)
  unfolding check_supplied
  check_supplied-eq raw invalid level u h = absurd (cc h)
  check_supplied-eq raw null level u h = elim (Bool-cases (str_eq raw "null")) [
    | inl e ↦ absurd (cc (rw e at h))
    | inr e ↦ absurd (cc (rw e at h))
  ]
  check_supplied-eq raw (value j) level u h =
      (j, refl, ground (arith, eq_iff raw (dumps j)), ground arith)

  bind_instance-cases :
      (i : Instance J) (index : Option ℤ) (raw : Option String) (bound : Plan J)
      (selected : Option String)
      → instances_of plan profile_id ≡ i ∷ []
      → both (is_none index) (is_none raw) ≡ true
      → bind_instance host plan profile_id i index raw ≡ pass (bound, selected)
      → IsDefault index raw bound selected ⊎ IsRung index raw bound selected
  unfolding bind_instance
  bind_instance-cases i none (some t) bound selected e b h = absurd (cc b)
  bind_instance-cases i (some n) none bound selected e b h = absurd (cc b)
  bind_instance-cases i none none bound selected e b h =
      let same_plan : bound ≡ plan = cc h in
      let same_level : selected ≡ i.selected_level_id = cc h in
      inl (record {
        no_index = refl;
        no_raw = refl;
        instance_of = i;
        unique = e;
        bound_eq = same_plan;
        selected_eq = same_level;
      })
  bind_instance-cases i (some index) (some text) bound selected e b h =
      let (level, l, h1) = >>=-eq-pass (level_at i.approved_levels index) _ _ h in
      let (u, c, h2) = >>=-eq-pass (check_supplied host text (loads text) level) _ _ h1 in
      let (n, at, found) = level_at-eq i.approved_levels index level l in
      let (j, parsed, canonical, same) = check_supplied-eq text (loads text) level u c in
      let bound_eq : bound ≡ bind_level plan profile_id level = cc h2 in
      let selected_eq : selected ≡ some level.level_id = cc h2 in
      inr (record {
        instance_of = i;
        unique = e;
        position = n;
        index_eq = ap some at;
        level = level;
        level_eq = found;
        text = text;
        raw_eq = refl;
        supplied = j;
        parsed = parsed;
        canonical = canonical;
        same = same;
        selected_eq = selected_eq;
        bound_eq = bound_eq;
        bound_unique =
            ap (λ p. instances_of p profile_id) bound_eq
            ∙ bound_instances plan profile_id i level e;
      })

  -- Parameters that are bound without a refusal are either the plan's own, when neither an index
  -- nor a text was given, or those of a rung of the ladder that the index and the canonical text
  -- both name.
  pub bind_level_parameters-cases :
      (index : Option ℤ) (raw : Option String) (bound : Plan J) (selected : Option String)
      → bind_level_parameters host plan profile_id index raw ≡ pass (bound, selected)
      → IsDefault index raw bound selected ⊎ IsRung index raw bound selected
  unfolding bind_level_parameters profile_instance
  bind_level_parameters-cases index raw bound selected h =
      elim (Bool-cases (both (is_none index) (is_none raw))) [
        | inr n ↦ absurd (cc (rw n at h))
        | inl y ↦
            let (i, u, h1) =
              >>=-eq-pass (sole_row (instances_of plan profile_id)) _ _ (rw y at h) in
            bind_instance-cases i index raw bound selected
              (profile_instance-eq (instances_of plan profile_id) i u) y h1
      ]
