-- ===== src/Audit/Classified.antt =====
-- What each status of `causal_check` says of the traces.
use testbed_services.Common.{
  ℕ, ◌+◌, ◌-◌, ◌*◌, ◌≤◌, ◌<◌, String, true, false, Option, none, some, List, [], ◌∷◌, ◌≡◌, refl,
  ◌⊎◌, inl, inr, ◌↔◌, Bool-cases, ltb, ◌==◌, head?, subst, arith,
}
use testbed_services.Audit.Runs.{ok}
use testbed_services.Audit.Results.{>>=-eq-ok}
use testbed_services.Audit.Host.{AuditHost, FailedRow, HealthRow, Traces, queried, parse}
use testbed_services.Audit.Shift.{minute}
use testbed_services.Audit.Ratio.{
  min_trace_sample, is_absent, is_present, is_proportionate, Counted, Ratio, no_target_services,
  no_rows, no_failed_traces, small_sample, causality_via_breaker, causality_absent,
  causality_present, causality_partial, counted, absent_or_breaker, larger_ratio, Question,
  bound_at, target_activity, explain, classify, classify_row, check_window, check_targets,
  causal_check,
}

-- The counts of the failed traces and of those that touch a target, confident from 60 on.
pub record IsCounted (total touching : ℕ) (c : Counted) : Type 0 where
  pub failed_eq : c.failed_traces ≡ total
  pub touching_eq : c.traces_touching_target ≡ touching
  pub confidence : (c.confident ≡ true) ↔ (60 ≤ total)

counted-IsCounted : (total touching : ℕ) → IsCounted total touching (counted total touching)
counted-IsCounted total touching = record {
  failed_eq = refl;
  touching_eq = refl;
  confidence = (λ h. ground arith, λ h. ground arith);
}

-- The targets fail at a rate that can explain the entry's failures: at least 5 % of them.
abbrev pub Explains : HealthRow → Type 0
Explains h = (0 < h.errors) × (h.entry_failures ≤ 20 * h.errors)

abbrev pub DoesNotExplain : HealthRow → Type 0
DoesNotExplain h = (h.errors ≡ 0) ⊎ (20 * h.errors < h.entry_failures)

proportionate-Explains :
    (h : HealthRow) → is_proportionate h.errors h.entry_failures ≡ true → Explains h
proportionate-Explains h e = (ground arith, ground arith)

proportionate-DoesNotExplain :
    (h : HealthRow) → is_proportionate h.errors h.entry_failures ≡ false → DoesNotExplain h
proportionate-DoesNotExplain h e = ground arith

-- What a status says of the two counts, `Health` being what is known of the targets' health.
abbrev pub Says : (HealthRow → Type 0) → (total touching : ℕ) → Ratio → Type 0
Says Health total touching no_target_services = ⊥
Says Health total touching no_rows = ⊥
Says Health total touching no_failed_traces = total ≡ 0
Says Health total touching (small_sample t k) =
    (t ≡ total) × (k ≡ touching) × (0 < total) × (total < 10)
Says Health total touching (causality_via_breaker c h) =
    (c ≡ record (counted total touching) { confident = false })
    × (10 ≤ total)
    × (20 * touching ≤ total)
    × Health h
    × Explains h
Says Health total touching (causality_absent c h) =
    IsCounted total touching c
    × (10 ≤ total)
    × (20 * touching ≤ total)
    × Health h
    × DoesNotExplain h
Says Health total touching (causality_present c) =
    IsCounted total touching c × (10 ≤ total) × (total ≤ 2 * touching)
Says Health total touching (causality_partial c) =
    IsCounted total touching c × (10 ≤ total) × (total < 20 * touching) × (2 * touching < total)

module _ (Health : HealthRow → Type 0) (total touching : ℕ) where
  absent_or_breaker-Says :
      (h : HealthRow)
      → 10 ≤ total
      → 20 * touching ≤ total
      → Health h
      → Says Health total touching (absent_or_breaker total touching h)
  unfolding absent_or_breaker
  absent_or_breaker-Says h n a k = elim (Bool-cases (is_proportionate h.errors h.entry_failures)) [
    | inl y ↦ rw y (refl, n, a, k, proportionate-Explains h y)
    | inr z ↦ rw z (counted-IsCounted total touching, n, a, k, proportionate-DoesNotExplain h z)
  ]

  larger_ratio-Says :
      10 ≤ total → total < 20 * touching → Says Health total touching (larger_ratio total touching)
  unfolding larger_ratio
  larger_ratio-Says n a = elim (Bool-cases (is_present touching total)) [
    | inl y ↦ rw y (counted-IsCounted total touching, n, ground arith)
    | inr z ↦ rw z (counted-IsCounted total touching, n, a, ground arith)
  ]

module _ (host : AuditHost) (traces : Traces) (q : Question) where
  -- The health of the targets during the injection, or during the window where a bound is missing.
  pub record IsHealth (from to : String) (h : HealthRow) : Type 0 where
    pub lo : String
    pub hi : String
    pub lo_eq : bound_at host traces q q.injection_from from ≡ ok lo
    pub hi_eq : bound_at host traces q q.injection_to to ≡ ok hi
    pub health_eq : target_activity host traces q lo hi ≡ ok h

  classify-Says :
      (from to : String) (total touching : ℕ) (r : Ratio)
      → classify host traces q from to total touching ≡ ok r
      → Says (IsHealth from to) total touching r
  unfolding classify explain
  classify-Says from to total touching r h = elim (Bool-cases (total == 0)) [
    | inl z ↦
        let made : no_failed_traces ≡ r = cc (rw z at h) in
        subst (Says (IsHealth from to) total touching) made (ground arith)
    | inr z ↦ elim (Bool-cases (ltb total min_trace_sample)) [
      | inl s ↦
          let made : small_sample total touching ≡ r = cc (rw (z, s) at h) in
          subst (Says (IsHealth from to) total touching) made
            (refl, refl, ground arith, ground arith)
      | inr s ↦ elim (Bool-cases (is_absent touching total)) [
        | inl a ↦
            let given = rw (z, s, a) at h in
            let lo = >>=-eq-ok (bound_at host traces q q.injection_from from) _ r given in
            let hi = >>=-eq-ok (bound_at host traces q q.injection_to to) _ r lo.2 in
            let k = >>=-eq-ok (target_activity host traces q lo.0 hi.0) _ r hi.2 in
            let made : absent_or_breaker total touching k.0 ≡ r = cc k.2 in
            let health : IsHealth from to k.0 = record {
              lo = lo.0;
              hi = hi.0;
              lo_eq = lo.1;
              hi_eq = hi.1;
              health_eq = k.1;
            } in
            subst (Says (IsHealth from to) total touching) made (
              absent_or_breaker-Says (IsHealth from to) total touching k.0 (ground arith)
                (ground arith) health)
        | inr a ↦
            let made : larger_ratio total touching ≡ r = cc (rw (z, s, a) at h) in
            subst (Says (IsHealth from to) total touching) made
              (larger_ratio-Says (IsHealth from to) total touching (ground arith) (ground arith))
      ]
    ]
  ]

  abbrev pub SaysOfRow : (from to : String) → Option FailedRow → Ratio → Type 0
  SaysOfRow from to none r = r ≡ no_rows
  SaysOfRow from to (some row) r =
      Says (IsHealth from to) row.failed_traces row.traces_touching_target r

  -- The failed traces of the window were counted, and the status says of the counts what it names.
  pub record IsAsked (r : Ratio) : Type 0 where
    pub start : ℕ
    pub end : ℕ
    pub start_eq : parse host q.start_at ≡ ok start
    pub end_eq : parse host q.end_at ≡ ok end
    pub found : List FailedRow
    pub found_eq :
        queried (
          traces.failures
            (host.stamp start)
            (host.stamp end)
            q.entry_service
            (host.stamp (start - 2 * minute))
            (host.stamp (end + 2 * minute))
            q.targets)
        ≡ ok found
    pub answer : SaysOfRow (host.stamp start) (host.stamp end) (head? found) r

  -- Without targets nothing is asked.
  abbrev pub Answers : List String → Ratio → Type 0
  Answers [] r = r ≡ no_target_services
  Answers (t ∷ targets) r = IsAsked r

  classify_row-SaysOfRow :
      (from to : String) (o : Option FailedRow) (r : Ratio)
      → classify_row host traces q from to o ≡ ok r
      → SaysOfRow from to o r
  unfolding classify_row
  classify_row-SaysOfRow from to none r h = cc h
  classify_row-SaysOfRow from to (some row) r h =
      classify-Says from to row.failed_traces row.traces_touching_target r h

  check_targets-Answers :
      (targets : List String) (r : Ratio)
      → check_targets host traces q targets ≡ ok r
      → Answers targets r
  unfolding check_targets check_window
  check_targets-Answers [] r h = cc h
  check_targets-Answers (t ∷ targets) r h =
      let a = >>=-eq-ok (parse host q.start_at) _ r h in
      let b = >>=-eq-ok (parse host q.end_at) _ r a.2 in
      let f =
        >>=-eq-ok
          (queried (
            traces.failures (host.stamp a.0) (host.stamp b.0) q.entry_service
              (host.stamp (a.0 - 2 * minute)) (host.stamp (b.0 + 2 * minute)) q.targets))
          _ r b.2 in
      record {
        start = a.0;
        end = b.0;
        start_eq = a.1;
        end_eq = b.1;
        found = f.0;
        found_eq = f.1;
        answer = classify_row-SaysOfRow (host.stamp a.0) (host.stamp b.0) (head? f.0) r f.2;
      }

  -- A status that the check returns says of the counted traces what it names: present from 50 %
  -- and partial above 5 %, both from 10 failed traces on; at most 5 % is absent, unless the targets
  -- fail at a rate that explains the entry's failures, which is a breaker and never confident; the
  -- others need 60 failed traces to be confident.
  pub causal_check-Answers : (r : Ratio) → causal_check host traces q ≡ ok r → Answers q.targets r
  unfolding causal_check
  causal_check-Answers r h = check_targets-Answers q.targets r h
