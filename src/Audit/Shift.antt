-- ===== src/Audit/Shift.antt =====
-- `activity_shift` of scripts/scenarios/audit-run-causality.py: whether the targets of an injection
-- fell silent when it began and came back when it ended.
use testbed_services.Common.{
  ℕ, ◌+◌, ◌-◌, ◌*◌, String, str_eq, Bool, true, false, not, ◌&&◌, Option, none, some, List, [], ◌∷◌,
  map, filter, all, find?, last?, if◌then◌else◌,
}
use testbed_services.Common.Texts.{is_in, add, sorted}
use testbed_services.Audit.Runs.{Audited, ok, ◌>>=◌}
use testbed_services.Audit.Host.{AuditHost, ActivityRow, Traces, queried, parse}

-- The status of the check, with the services that it names, or why there is none.
pub data ShiftStatus : Type 0 where
  target_silenced target_collapsed_recovery_unknown target_erring : List String → ShiftStatus
  no_services no_targets too_quiet no_load_after no_shift : ShiftStatus

abbrev pub second : ℕ
second = 1000000

abbrev pub minute : ℕ
minute = 60 * second

abbrev pub is_empty : {A : Type 0} → List A → Bool
is_empty [] = true
is_empty (x ∷ xs) = false

module _ (host : AuditHost) where
  open host use {F, near, mul, div, lt, le, per_minute, stamp}

  -- `per_service[svc]`; its role is `target` or `entry`. `share` is the part of the entry's traffic
  -- before, during and after, which the report rounds.
  pub record Activity : Type 0 where
    pub service : String
    pub is_target : Bool
    pub pre_rpm : F
    pub during_rpm : F
    pub post_rpm : F
    pub pre_err_rpm : F
    pub during_err_rpm : F
    pub share_of_entry : Option (F × F × F)
    pub collapsed : Bool
    pub recovered : Bool
    pub surged : Bool
    pub error_spike : Bool

  -- one window's rows, with its times
  pub record Measured : Type 0 where
    pub lo : ℕ
    pub hi : ℕ
    pub found : List ActivityRow

  abbrev pub at_least : F → F → Bool
  at_least a b = le b a

  abbrev pub positive : F → Bool
  positive a = lt (near 0 1) a

  -- `max(a, b)`
  abbrev pub larger_of : F → F → F
  larger_of a b = if lt a b then b else a

  -- The row of a service, `measured[svc]`: a later one replaces an earlier one.
  unfoldable pub row_of : String → List ActivityRow → Option ActivityRow
  row_of svc found = last? (filter (λ r. str_eq r.service_name svc) found)

  -- `at(svc, win, "rpm")` and `at(svc, win, "err_rpm")`
  unfoldable pub rate_of : Measured → Option ActivityRow → F
  rate_of w none = near 0 1
  rate_of w (some r) = per_minute r.spans w.lo w.hi

  unfoldable pub error_rate_of : Measured → Option ActivityRow → F
  error_rate_of w none = near 0 1
  error_rate_of w (some r) = per_minute r.errors w.lo w.hi

  unfoldable pub rpm : String → Measured → F
  unfolding rate_of row_of
  rpm svc w = rate_of w (row_of svc w.found)

  unfoldable pub err_rpm : String → Measured → F
  unfolding error_rate_of row_of
  err_rpm svc w = error_rate_of w (row_of svc w.found)

  -- `entry_rpm`, of an entry service that may be missing
  abbrev pub entry_rate : Option String → Measured → F
  entry_rate none w = near 0 1
  entry_rate (some entry) w = rpm entry w

  abbrev pub min_baseline : F
  min_baseline = near 20 1

  -- `collapsed` and `recovered`, on shares or on rates
  unfoldable pub is_collapsed : (pre from to : F) → Bool
  is_collapsed pre from to = at_least pre min_baseline && le to (mul from (near 20 100))

  unfoldable pub is_recovered : (from to : F) → Bool
  is_recovered from to = positive from && at_least to (mul from (near 50 100))

  -- `share`: whether a target's rates are divided by the entry's
  unfoldable pub share_of : Bool → (entry rates : F × F × F) → Option (F × F × F)
  share_of is_target (e0, e1, e2) (pre, during, post) =
      if is_target && (positive e0 && positive e1 && positive e2)
      then some (div pre e0, div during e1, div post e2)
      else none

  -- what `collapsed` and `recovered` are read from
  abbrev pub compared : F × F × F → Option (F × F × F) → F × F × F
  compared rates none = rates
  compared rates (some share) = share

  -- one entry of `per_service`
  unfoldable pub activity_of :
      Option String → List String → (pre during post : Measured) → String → Activity
  unfolding rpm err_rpm is_collapsed is_recovered share_of
  activity_of entry targets pre during post svc =
      let rates : F × F × F = (rpm svc pre, rpm svc during, rpm svc post) in
      let share =
        share_of (is_in svc targets)
          (entry_rate entry pre, entry_rate entry during, entry_rate entry post) rates in
      let levels = compared rates share in
      record {
        service = svc;
        is_target = is_in svc targets;
        pre_rpm = rpm svc pre;
        during_rpm = rpm svc during;
        post_rpm = rpm svc post;
        pre_err_rpm = err_rpm svc pre;
        during_err_rpm = err_rpm svc during;
        share_of_entry = share;
        collapsed = is_collapsed (rpm svc pre) levels.0 levels.1;
        recovered = is_recovered levels.0 levels.2;
        surged = positive (rpm svc pre) && at_least (rpm svc during) (mul (rpm svc pre) (near 2 1));
        error_spike =
            lt (larger_of (mul (err_rpm svc pre) (near 3 1)) (near 1 1)) (err_rpm svc during);
      }

  abbrev pub target_rows : List Activity → List Activity
  target_rows per_service = filter (λ v. v.is_target) per_service

  -- `post_has_load`, from the first entry row
  abbrev pub keeps_load : Option Activity → Bool
  keeps_load none = true
  keeps_load (some v) = at_least v.post_rpm (mul v.pre_rpm (near 20 100))

  unfoldable pub post_has_load : List Activity → Bool
  post_has_load per_service = keeps_load (find? (λ v. not v.is_target) per_service)

  abbrev pub names : List Activity → List String
  names = map (λ v. v.service)

  unfoldable pub shift_status : List Activity → ShiftStatus
  unfolding post_has_load
  shift_status per_service =
      let targets = target_rows per_service in
      let silent = names (filter (λ v. v.collapsed && v.recovered) targets) in
      let collapsed_only = names (filter (λ v. v.collapsed) targets) in
      let erring = names (filter (λ v. v.error_spike) targets) in
      if not (is_empty silent)
      then target_silenced silent
      else if not (is_empty collapsed_only) && not (post_has_load per_service)
      then target_collapsed_recovery_unknown collapsed_only
      else if not (is_empty erring)
      then target_erring erring
      else if is_empty targets
      then no_targets
      else if all (λ v. lt v.pre_rpm min_baseline) targets
      then too_quiet
      else if not (post_has_load per_service)
      then no_load_after
      else no_shift

  -- What the check returns: the status and, unless no service can be observed, the rows.
  pub record Shift : Type 0 where
    pub status : ShiftStatus
    pub services : List Activity

  -- `sorted(set(targets) | {entry_service})`
  unfoldable pub observed_services : List String → Option String → List String
  unfolding add sorted
  observed_services targets none = sorted targets
  observed_services targets (some entry) = sorted (add entry targets)

  unfoldable pub measure : Traces → List String → ℕ → ℕ → Audited Measured
  measure traces services lo hi = do
    found ← queried (traces.activity (stamp lo) (stamp hi) services)
    ok (record { lo = lo; hi = hi; found = found })

  -- the windows and the rows of at least one service
  unfoldable pub shift_between :
      Traces → List String → Option String → List String → ℕ → ℕ → Audited Shift
  unfolding measure shift_status
  shift_between traces targets entry services t1 t2 = do
    pre ← measure traces services (t1 - 5 * minute) (t1 - 5 * second)
    during ← measure traces services t1 t2
    post ← measure traces services (t2 + 30 * second) (t2 + 30 * second + 5 * minute)
    let per_service = map (activity_of entry targets pre during post) services
    ok (record { status = shift_status per_service; services = per_service })

  unfoldable pub shift_of :
      Traces → List String → Option String → (from to : String) → List String → Audited Shift
  unfolding shift_between
  shift_of traces targets entry from to [] = ok (record { status = no_services; services = [] })
  shift_of traces targets entry from to (s ∷ services) = do
    t1 ← parse host from
    t2 ← parse host to
    shift_between traces targets entry (s ∷ services) t1 t2

  unfoldable pub activity_shift :
      Traces → List String → Option String → (from to : String) → Audited Shift
  unfolding shift_of observed_services
  activity_shift traces targets entry from to =
      shift_of traces targets entry from to (observed_services targets entry)
