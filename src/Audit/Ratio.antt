-- ===== src/Audit/Ratio.antt =====
-- `causal_check` and `_target_activity` of scripts/scenarios/audit-run-causality.py: the share of
-- the failed traces that touch a target. A quotient of two counts is compared with a threshold
-- without rounding, which is what floats do for counts below 2^40.
use testbed_services.Common.{
  ℕ, ◌+◌, ◌-◌, ◌*◌, String, Bool, false, ◌&&◌, ◌||◌, Option, none, some, List, [], ◌∷◌, ltb, leb,
  ◌==◌, head?, if◌then◌else◌,
}
use testbed_services.Audit.Runs.{Audited, ok, ◌>>=◌}
use testbed_services.Audit.Host.{AuditHost, FailedRow, HealthRow, Traces, queried, parse}
use testbed_services.Audit.Shift.{minute}

abbrev pub min_trace_sample : ℕ
min_trace_sample = 10

abbrev pub confident_sample : ℕ
confident_sample = 60

-- `touching / total <= 0.05` and `touching / total >= 0.50`
abbrev pub is_absent : ℕ → ℕ → Bool
is_absent touching total = leb (touching * 20) total

abbrev pub is_present : ℕ → ℕ → Bool
is_present touching total = leb total (touching * 2)

-- `proportionate`
abbrev pub is_proportionate : ℕ → ℕ → Bool
is_proportionate errors entry_failures =
    ltb 0 errors && (entry_failures == 0 || leb entry_failures (errors * 20))

-- The counts behind a ratio. Its confidence is high if `confident`.
pub record Counted : Type 0 where
  pub failed_traces : ℕ
  pub traces_touching_target : ℕ
  pub confident : Bool

-- The statuses of the check, with what each rests on.
pub data Ratio : Type 0 where
  no_target_services no_rows no_failed_traces : Ratio
  small_sample : (total touching : ℕ) → Ratio
  causality_via_breaker causality_absent : Counted → HealthRow → Ratio
  causality_present causality_partial : Counted → Ratio

abbrev pub counted : ℕ → ℕ → Counted
counted total touching = record {
  failed_traces = total;
  traces_touching_target = touching;
  confident = leb confident_sample total;
}

-- `_target_activity` on the rows of its query
abbrev pub health_of : Option HealthRow → HealthRow
health_of none = record { spans = 0; errors = 0; entry_failures = 0 }
health_of (some row) = row

-- a small ratio, with the health of the targets: a breaker, whose confidence is always low, or none
unfoldable pub absent_or_breaker : ℕ → ℕ → HealthRow → Ratio
absent_or_breaker total touching h =
    if is_proportionate h.errors h.entry_failures
    then causality_via_breaker (record (counted total touching) { confident = false }) h
    else causality_absent (counted total touching) h

unfoldable pub larger_ratio : ℕ → ℕ → Ratio
larger_ratio total touching =
    if is_present touching total
    then causality_present (counted total touching)
    else causality_partial (counted total touching)

-- the arguments of `causal_check`
pub record Question : Type 0 where
  pub start_at : String
  pub end_at : String
  pub entry_service : String
  pub targets : List String
  pub injection_from : Option String
  pub injection_to : Option String

module _ (host : AuditHost) (traces : Traces) (q : Question) where
  open host use {stamp}

  -- `_parse(bound).strftime(…) if bound else window`
  unfoldable pub bound_at : Option String → String → Audited String
  bound_at none window = ok window
  bound_at (some value) window = do t ← parse host value; ok (stamp t)

  unfoldable pub target_activity : (lo hi : String) → Audited HealthRow
  target_activity lo hi = do
    found ← queried (traces.health q.targets lo hi q.entry_service)
    ok (health_of (head? found))

  -- the branch of a ratio of at most 5 %
  unfoldable pub explain : (from to : String) → ℕ → ℕ → Audited Ratio
  unfolding bound_at target_activity absent_or_breaker
  explain from to total touching = do
    lo ← bound_at q.injection_from from
    hi ← bound_at q.injection_to to
    h ← target_activity lo hi
    ok (absent_or_breaker total touching h)

  -- the classification of the counts
  unfoldable pub classify : (from to : String) → ℕ → ℕ → Audited Ratio
  unfolding explain larger_ratio
  classify from to total touching =
      if total == 0
      then ok no_failed_traces
      else if ltb total min_trace_sample
      then ok (small_sample total touching)
      else if is_absent touching total
      then explain from to total touching
      else ok (larger_ratio total touching)

  unfoldable pub classify_row : (from to : String) → Option FailedRow → Audited Ratio
  unfolding classify
  classify_row from to none = ok no_rows
  classify_row from to (some row) = classify from to row.failed_traces row.traces_touching_target

  unfoldable pub check_window : (start end : ℕ) → Audited Ratio
  unfolding classify_row
  check_window start end = do
    found ← queried (
        traces.failures (stamp start) (stamp end) q.entry_service (stamp (start - 2 * minute))
          (stamp (end + 2 * minute)) q.targets)
    classify_row (stamp start) (stamp end) (head? found)

  unfoldable pub check_targets : List String → Audited Ratio
  unfolding check_window
  check_targets [] = ok no_target_services
  check_targets (t ∷ targets) = do
    start ← parse host q.start_at
    end ← parse host q.end_at
    check_window start end

  unfoldable pub causal_check : Audited Ratio
  unfolding check_targets
  causal_check = check_targets q.targets
