-- ===== src/Dispatcher/Recovery.antt =====
-- The explicit cleanup of a dirty state, and what an active state that was left behind admits.
use testbed_services.Common.{
  ℕ, String, str_eq, true, false, List, [], ◌++◌, reverse, ◌≡◌, refl, inl, inr, Bool-cases, any,
  all, ◌||◌,
}
use testbed_services.Plan.{Plan}
use testbed_services.Dispatcher.Host.{
  Host, Verb, InvokeError, cleanup, recovery, active, StateDoc, document, Applied, names, Raised,
  dispatch_error, not_dirty, lock_held, refused, unknown_action, adaptive, not_clean, Result, ok,
  err, World, Report,
}
use testbed_services.Dispatcher.Calls.{
  Request, Outcome, pass, refuse, profile_ids, preflight_all, verified_plan,
}
use testbed_services.Dispatcher.Dispatch.{
  clean_state, recovered_report, explicit_cleanup, live_run, branch, locked, dispatch, next_fence,
  equals, is_dirty, read_state,
}
use testbed_services.Dispatcher.Order.{calls, push_all, tag}

-- The profiles that a state file lists as applied, `state.get("applied", [])`.
abbrev pub applied_list : Applied → List String
applied_list Applied.absent = []
applied_list Applied.other = []
applied_list (names ids) = ids

module _ (host : Host) (r : Request) where
  open host use {J, Env}

  -- A dirty state of this scenario and digest, whose profiles the verified plan has.
  pub record IsClaimed (w : World Env) (p : Plan J) (state : StateDoc) : Type 0 where
    pub verified : verified_plan host r w.env ≡ pass p
    pub readable : read_state w.file ≡ ok state
    pub was_dirty : is_dirty state.status ≡ true
    pub same_scenario : equals state.scenario r.slug ≡ true
    pub same_digest : equals state.plan_digest r.digest ≡ true
    pub known : all (λ i. any (str_eq i) (profile_ids p)) (applied_list state.applied) ≡ true

  -- the calls of the two loops over `ids`
  abbrev pub undoing : List String → List (String × Verb)
  undoing ids = tag cleanup (reverse ids) ++ tag recovery (reverse ids)

  -- A cleanup that returned.
  pub record IsRecovered (w v : World Env) (report : Report) : Type 0 where
    pub compiled : Plan J
    pub state : StateDoc
    pub claim : IsClaimed w compiled state
    pub warnings : List InvokeError
    pub report_eq :
        report
        ≡ recovered_report r compiled (next_fence state) (applied_list state.applied) warnings
    pub file_eq : v.file ≡ document (clean_state (next_fence state))
    pub calls_eq :
        calls v.trace
        ≡ push_all
            (undoing (applied_list state.applied))
            (calls (preflight_all host r (next_fence state) false compiled w).1.trace)

  -- How an explicit cleanup ends: recovered, or with the file as it was.
  abbrev pub CleanupEnd : World Env → Result Report × World Env → Type 0
  CleanupEnd w (ok report, v) = IsRecovered w v report
  CleanupEnd w (err e, v) = v.file ≡ w.file

  module _ (p : Plan J) (state : StateDoc) (w : World Env) (claim : IsClaimed w p state) where
    abbrev fence : ℕ
    fence = next_fence state

    abbrev ids : List String
    ids = applied_list state.applied

    abbrev base : List (String × Verb)
    base = push_all (undoing ids) (calls (preflight_all host r fence false p w).1.trace)

  active_branch :
      (action : String) (p : Plan J) (state : StateDoc) (w : World Env)
      → state.status ≡ active
      → (e : Raised) × (branch host r action p (ok state) w ≡ (err e, w))
  unfolding branch live_run explicit_cleanup
  active_branch action p state w h = elim (Bool-cases (str_eq action "run")) [
    | inr n ↦ (dispatch_error not_dirty, rw (n, h))
    | inl y ↦ elim (Bool-cases (equals p.load_mode "adaptive")) [
      | inl a ↦ (dispatch_error adaptive, rw (y, a))
      | inr a ↦ (dispatch_error (not_clean active), rw (y, a, h))
    ]
  ]

  active_locked :
      (action : String) (o : Outcome (Plan J)) (state : StateDoc) (w : World Env)
      → read_state w.file ≡ ok state
      → state.status ≡ active
      → (e : Raised) × (locked host r action o w ≡ (err e, w))
  unfolding locked
  active_locked action (refuse e) state w k h = (dispatch_error (refused e), refl)
  active_locked action (pass p) state w k h = rw k (active_branch action p state w h)

  -- Once the state file says `active`, as a write that raised in the middle of a run leaves it,
  -- every dispatch, of either action and under any plan, is refused and changes nothing.
  pub active_refuses :
      (action : String) (state : StateDoc) (w : World Env)
      → read_state w.file ≡ ok state
      → state.status ≡ active
      → (e : Raised) × (dispatch host r action w ≡ (err e, w))
  unfolding dispatch
  active_refuses action state w k h =
      elim (Bool-cases (str_eq action "run" || str_eq action "cleanup")) [
        | inr n ↦ (dispatch_error unknown_action, rw n)
        | inl y ↦ elim (Bool-cases (host.lock_free w.env)) [
          | inr held ↦ (dispatch_error lock_held, rw (y, held))
          | inl free ↦ rw (y, free) (active_locked action _ state w k h)
        ]
      ]
