-- ===== src/Compiler/Signals.antt =====
-- What the signals of a validated controller stand for: `check_observations` and `check_set`.
use testbed_services.Common.{
  both, ℕ, suc, String, str_eq, true, false, not, ◌&&◌, Option, none, some, List, [], ◌∷◌, map, all,
  ◌≡◌, refl, sym, ap, ◌∙◌, inl, inr, Bool-cases, Option-cases, All, subst, get_elem?, eq_iff, arith,
}
use testbed_services.Compiler.Assembly.{at_key, is_member}
use testbed_services.Compiler.ContractDocs.{
  valid, Refusal, require, each, QueryDoc, Contracts, keys, is_text, is_some_member, has_text,
  is_distinct,
}
use testbed_services.Compiler.ControllerDocs.{
  ConditionDoc, ConditionSet, SetDoc, absent, no_object, object, ObservationDoc, same_text,
  same_texts, is_texts, texts_of, query_of, adapter_of, refs_in, only_one, check_items, check_set,
}
use testbed_services.Compiler.Controllers.{check_reference, check_observations}
use testbed_services.Compiler.Accepted.{
  >>-valid, require-true, each-All, All-required, at_key-member,
}

pub is_text-eq : (o : Option String) (s : String) → is_text o s ≡ true → o ≡ some s
is_text-eq none s h = absurd (cc h)
is_text-eq (some t) s h = ap some ((eq_iff t s).0 h)

pub same_text-eq : (o p : Option String) → same_text o p ≡ true → o ≡ p
same_text-eq none none h = refl
same_text-eq none (some s) h = absurd (cc h)
same_text-eq (some s) p h = sym (is_text-eq p s h)

same_texts-eq : (xs ys : List String) → same_texts xs ys ≡ true → xs ≡ ys
unfolding same_texts
same_texts-eq [] [] h = refl
same_texts-eq [] (y ∷ ys) h = absurd (cc h)
same_texts-eq (x ∷ xs) [] h = absurd (cc h)
same_texts-eq (x ∷ xs) (y ∷ ys) h =
    let r = both (str_eq x y) (same_texts xs ys) h in
    let x_is : x ≡ y = (eq_iff x y).0 r.0 in cc (x_is, same_texts-eq xs ys r.1)

pub is_texts-eq : (o : Option (List String)) (ys : List String) → is_texts o ys ≡ true → o ≡ some ys
is_texts-eq none ys h = absurd (cc h)
is_texts-eq (some xs) ys h = ap some (same_texts-eq xs ys h)

is_some_member-some :
    (o : Option String) (xs : List String)
    → is_some_member o xs ≡ true
    → (s : String) × (o ≡ some s) × (is_member s xs ≡ true)
is_some_member-some none xs h = absurd (cc h)
is_some_member-some (some s) xs h = (s, refl, h)

module _ (docs : Contracts) where
  -- An observation without query text that asks an approved query by its own adapter.
  pub record IsApproved (o : ObservationDoc) : Type 0 where
    pub query_id : String
    pub query : QueryDoc
    pub id_eq : o.query_id ≡ some query_id
    pub query_eq : at_key query_id docs.queries ≡ some query
    pub adapter_eq : o.adapter ≡ query.adapter
    pub no_text : o.has_query_text ≡ false

  -- A signal of a condition stands for an approved observation.
  pub record IsObserved (observations : List ObservationDoc) (signal : Option String) : Type 0 where
    pub id : String
    pub signal_eq : signal ≡ some id
    pub index : ℕ
    pub observation : ObservationDoc
    pub at_index : get_elem? observations index ≡ some observation
    pub has_id : observation.id ≡ some id
    pub approved : IsApproved observation

  reference-IsApproved :
      (e : Refusal) (o : ObservationDoc)
      → check_reference docs o ≡ valid
      → same_text o.adapter (adapter_of (query_of o.query_id docs.queries)) ≡ true
      → IsApproved o
  reference-IsApproved e o h k =
      let r = >>-valid (require (not o.has_query_text) Refusal.raw_query_text) _ h in
      let no_text = require-true (not o.has_query_text) Refusal.raw_query_text r.0 in
      let q = is_some_member-some o.query_id (keys docs.queries) (
        require-true (is_some_member o.query_id (keys docs.queries)) Refusal.unknown_query_id
          r.1) in
      let found = at_key-member q.0 docs.queries q.2 in
      record {
        query_id = q.0;
        query = found.0;
        id_eq = q.1;
        query_eq = found.1;
        adapter_eq =
            same_text-eq o.adapter (adapter_of (query_of o.query_id docs.queries)) k
            ∙ ap (λ x. adapter_of (query_of x docs.queries)) q.1
            ∙ ap adapter_of found.1;
        no_text = ground arith;
      }

  observations-IsApproved :
      (e : Refusal) (observations : List ObservationDoc)
      → All (λ o. check_reference docs o ≡ valid) observations
      → All
          (λ o. same_text o.adapter (adapter_of (query_of o.query_id docs.queries)) ≡ true)
          observations
      → All IsApproved observations
  observations-IsApproved e [] h k = tt
  observations-IsApproved e (o ∷ os) h k =
      (reference-IsApproved e o h.0 k.0, observations-IsApproved e os h.1 k.1)

  pub check_observations-IsApproved :
      (id : String) (observations : List ObservationDoc)
      → check_observations docs id observations ≡ valid
      → All IsApproved observations
  unfolding check_observations
  check_observations-IsApproved id observations h =
      let a = >>-valid (each (check_reference docs) observations) _ h in
      let b =
        >>-valid
          (require
            (is_distinct (map (λ o. o.id) observations) && all (λ o. has_text o.id) observations)
            (Refusal.ids_not_unique id))
          _ a.1 in
      observations-IsApproved (Refusal.adapter_mismatch id) observations
        (each-All (check_reference docs) observations a.0)
        (All-required (λ o. same_text o.adapter (adapter_of (query_of o.query_id docs.queries)))
          (Refusal.adapter_mismatch id) observations b.1)

  -- an observation with the id among the approved ones
  observed :
      (observations : List ObservationDoc) (id : String)
      → All IsApproved observations
      → is_member id (texts_of (map (λ o. o.id) observations)) ≡ true
      → IsObserved observations (some id)
  observed [] id h k = absurd (cc k)
  observed (o ∷ os) id h k = elim (Option-cases o.id) [
    | inl e ↦ later o os id (observed os id h.1 (rw e at k))
    | inr (s, e) ↦ elim (Bool-cases (str_eq s id)) [
      | inl y ↦ record {
        id = id;
        signal_eq = refl;
        index = 0;
        observation = o;
        at_index = refl;
        has_id = e ∙ ap some ((eq_iff s id).0 y);
        approved = h.0;
      }
      | inr n ↦ later o os id (observed os id h.1 (rw (e, n) at k))
    ]
  ]
    where
      later :
          (p : ObservationDoc) (ps : List ObservationDoc) (id : String)
          → IsObserved ps (some id)
          → IsObserved (p ∷ ps) (some id)
      later p ps id r = record {
        id = r.id;
        signal_eq = r.signal_eq;
        index = suc r.index;
        observation = r.observation;
        at_index = r.at_index;
        has_id = r.has_id;
        approved = r.approved;
      }

  -- the signals of some items
  refs-IsObserved :
      (observations : List ObservationDoc) (items : List (ConditionDoc docs.J))
      → All IsApproved observations
      → refs_in (texts_of (map (λ o. o.id) observations)) items ≡ true
      → All (λ i. IsObserved observations i.observation) items
  refs-IsObserved observations [] h k = tt
  refs-IsObserved observations (i ∷ items) h k =
      let ids = texts_of (map (λ o. o.id) observations) in
      let r = both (is_some_member i.observation ids) (refs_in ids items) k in
      let s = is_some_member-some i.observation ids r.0 in
      (
        subst (IsObserved observations) (sym s.1) (observed observations s.0 h s.2),
        refs-IsObserved observations items h r.1,
      )

  -- A condition set with some items, in one list, whose signals are observed.
  pub record IsConditionSet (observations : List ObservationDoc) (set : SetDoc docs.J)
      : Type 0 where
    pub conditions : ConditionSet docs.J
    pub set_eq : set ≡ object conditions
    pub first : ConditionDoc docs.J
    pub more : List (ConditionDoc docs.J)
    pub items_eq : only_one conditions.all_of conditions.any_of ≡ first ∷ more
    pub signals : All (λ i. IsObserved observations i.observation) (first ∷ more)

  check_items-first :
      (bad unbound : Refusal) (available : List String) (items : List (ConditionDoc docs.J))
      → check_items bad unbound available items ≡ valid
      → (first : ConditionDoc docs.J) × (more : List (ConditionDoc docs.J)) × (items ≡ first ∷ more)
        × (refs_in available (first ∷ more) ≡ true)
  unfolding check_items
  check_items-first bad unbound available [] h = absurd (cc h)
  check_items-first bad unbound available (c ∷ items) h =
      (c, items, refl, require-true (refs_in available (c ∷ items)) unbound h)

  pub check_set-IsConditionSet :
      (id name : String) (observations : List ObservationDoc) (set : SetDoc docs.J)
      → All IsApproved observations
      → check_set id (texts_of (map (λ o. o.id) observations)) name set ≡ valid
      → IsConditionSet observations set
  unfolding check_set
  check_set-IsConditionSet id name observations absent a h = absurd (cc h)
  check_set-IsConditionSet id name observations no_object a h = absurd (cc h)
  check_set-IsConditionSet id name observations (object conditions) a h =
      let r =
        check_items-first (Refusal.bad_conditions id name) (Refusal.unbound_signals id name)
          (texts_of (map (λ o. o.id) observations)) (only_one conditions.all_of conditions.any_of)
          h in
      record {
        conditions = conditions;
        set_eq = refl;
        first = r.0;
        more = r.1;
        items_eq = r.2;
        signals = refs-IsObserved observations (r.0 ∷ r.1) a r.3;
      }
