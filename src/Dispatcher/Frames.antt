-- ===== src/Dispatcher/Frames.antt =====
-- What every executor call and every write of the state file keeps, a dispatch keeps.
use testbed_services.Common.{
  ℕ, String, Bool, true, false, Option, none, some, List, [], ◌∷◌, ◌++◌, reverse, arith,
}
use testbed_services.Plan.{Plan}
use testbed_services.Dispatcher.Host.{
  Host, Reply, Verb, run, preflight, cleanup, recovery, InvokeError, StateDoc, Applied, names,
  Raised, Result, ok, err, World, DispatchError, dispatch_error, os_error, attribute_error,
}
use testbed_services.Dispatcher.Calls.{
  Request, Outcome, pass, refuse, invoke, invoke_each, preflight_all, recover, cleanup_and_recover,
  write_state, profile_ids, verified_plan,
}
use testbed_services.Dispatcher.Dispatch.{
  next_round, run_profiles, run_checked, Progress, raise_after, report_after, conclude, roll_back,
  started, live_run, cleaned, reset_state, recover_dirty, claimed, explicit_cleanup, branch, locked,
  dispatch, active_state, next_fence, read_state,
}

module _ (host : Host) (r : Request) where
  open host use {J, Env}

  -- A preorder on worlds that single calls and writes respect.
  pub record IsFrame (R : World Env → World Env → Type 0) : Type 0 where
    pub same : (w : World Env) → R w w
    pub chain : (u v w : World Env) → R u v → R v w → R u w
    pub by_invoke :
        (fence : ℕ) (verb : Verb) (profile_id : String) (w : World Env)
        → R w (invoke host r fence verb profile_id w).1
    pub by_write : (doc : StateDoc) (w : World Env) → R w (write_state host doc w).1

  module _ {R : World Env → World Env → Type 0} (f : IsFrame R) where
    invoke_each-frame :
        (fence : ℕ) (verb : Verb) (ids : List String) (w : World Env)
        → R w (invoke_each host r fence verb ids w).1
    unfolding invoke_each
    invoke_each-frame fence verb [] w = f.same w
    invoke_each-frame fence verb (i ∷ ids) w =
        f.chain _ _ _ (f.by_invoke fence verb i w) (invoke_each-frame fence verb ids _)

    preflight_all-frame :
        (fence : ℕ) (strict : Bool) (p : Plan J) (w : World Env)
        → R w (preflight_all host r fence strict p w).1
    unfolding preflight_all
    preflight_all-frame fence strict p w = invoke_each-frame fence preflight (profile_ids p) w

    recover-frame :
        (fence : ℕ) (ids : List String) (w : World Env) (x : List InvokeError × World Env)
        → R w x.1
        → R w (recover host r fence ids x).1
    unfolding recover
    recover-frame fence ids w ([], v) h =
        f.chain _ _ _ h (invoke_each-frame fence recovery (reverse ids) v)
    recover-frame fence ids w (e ∷ es, v) h = h

    cleanup_and_recover-frame :
        (fence : ℕ) (ids : List String) (w : World Env)
        → R w (cleanup_and_recover host r fence ids w).1
    unfolding cleanup_and_recover
    cleanup_and_recover-frame fence ids w =
        recover-frame fence ids w _ (invoke_each-frame fence cleanup (reverse ids) w)

    next_round-frame :
        (applied done : List String) (w : World Env) (invoked : Outcome Reply × World Env)
        (written : Result Unit × World Env) (more : Progress × World Env)
        → R w invoked.1
        → R w written.1
        → R w more.1
        → R w (next_round host applied done invoked written more).1
    unfolding next_round
    next_round-frame applied done w (refuse e, v) written more a b c = a
    next_round-frame applied done w (pass reply, v) (err e, u) more a b c = b
    next_round-frame applied done w (pass reply, v) (ok _, u) more a b c = c

    run_profiles-frame :
        (fence : ℕ) (state : StateDoc) (applied ids : List String) (w : World Env)
        → R w (run_profiles host r fence state applied ids w).1
    unfolding run_profiles
    run_profiles-frame fence state applied [] w = f.same w
    run_profiles-frame fence state applied (i ∷ ids) w =
        let a = f.by_invoke fence run i w in
        let done = applied ++ i ∷ [] in
        let b = f.chain _ _ _ a (f.by_write (record state { applied = names done }) _) in
        next_round-frame applied done w _ _ _ a b
          (f.chain _ _ _ b (run_profiles-frame fence state done ids _))

    run_checked-frame :
        (fence : ℕ) (state : StateDoc) (ids : List String) (w : World Env)
        (x : Result (List InvokeError) × World Env)
        → R w x.1
        → R w (run_checked host r fence state ids x).1
    unfolding run_checked
    run_checked-frame fence state ids w (ok _, v) h =
        f.chain _ _ _ h (run_profiles-frame fence state [] ids v)
    run_checked-frame fence state ids w (err e, v) h = h

    module _ (p : Plan J) (fence : ℕ) (w : World Env) where
      raise_after-frame :
          (e : Raised) (x : Result Unit × World Env)
          → R w x.1
          → R w (raise_after host r p fence e x).1
      unfolding raise_after
      raise_after-frame e (ok _, v) h = h
      raise_after-frame e (err o, v) h = h

      report_after-frame :
          (primary : Option DispatchError) (x : Result Unit × World Env)
          → R w x.1
          → R w (report_after host r p fence primary x).1
      unfolding report_after
      report_after-frame none (ok _, v) h = h
      report_after-frame (some e) (ok _, v) h = h
      report_after-frame primary (err o, v) h = h

      cleaned-frame :
          (ids : List String) (warnings : List InvokeError) (x : Result Unit × World Env)
          → R w x.1
          → R w (cleaned host r p fence ids warnings x).1
      unfolding cleaned
      cleaned-frame ids warnings (ok _, v) h = h
      cleaned-frame ids warnings (err e, v) h = h

      conclude-frame :
          (primary : Option DispatchError) (applied : List String) (x : Result Unit × World Env)
          → R w x.1
          → R w (conclude host r p fence primary applied x).1
      unfolding conclude
      conclude-frame primary applied (ok _, v) h =
          report_after-frame primary _ (f.chain _ _ _ h (f.by_write _ v))
      conclude-frame primary applied (err (dispatch_error e), v) h =
          raise_after-frame _ _ (f.chain _ _ _ h (f.by_write _ v))
      conclude-frame primary applied (err os_error, v) h = h
      conclude-frame primary applied (err attribute_error, v) h = h

      roll_back-frame : (x : Progress × World Env) → R w x.1 → R w (roll_back host r p fence x).1
      unfolding roll_back
      roll_back-frame ((applied, ok _), v) h =
          conclude-frame none applied _
            (f.chain _ _ _ h (cleanup_and_recover-frame fence applied v))
      roll_back-frame ((applied, err (dispatch_error e)), v) h =
          conclude-frame (some e) applied _
            (f.chain _ _ _ h (cleanup_and_recover-frame fence applied v))
      roll_back-frame ((applied, err os_error), v) h = h
      roll_back-frame ((applied, err attribute_error), v) h = h

      started-frame : (x : Result Unit × World Env) → R w x.1 → R w (started host r p fence x).1
      unfolding started
      started-frame (err e, v) h = h
      started-frame (ok _, v) h =
          roll_back-frame _
            (run_checked-frame fence _ _ w _ (f.chain _ _ _ h (preflight_all-frame fence true p v)))

      live_run-frame : (state : StateDoc) → R w (live_run host r p fence state w).1
      unfolding live_run
      live_run-frame state =
          let a = write_state host (active_state r p fence) w in
          ground (arith, f.same w, started-frame a (f.by_write (active_state r p fence) w))

      reset_state-frame :
          (ids : List String) (warnings : List InvokeError) (x : Result Unit × World Env)
          → R w x.1
          → R w (reset_state host r p fence ids warnings x).1
      unfolding reset_state
      reset_state-frame ids warnings (err e, v) h = h
      reset_state-frame ids warnings (ok _, v) h =
          cleaned-frame ids warnings _ (f.chain _ _ _ h (f.by_write _ v))

      recover_dirty-frame :
          (ids : List String) (x : Result (List InvokeError) × World Env)
          → R w x.1
          → R w (recover_dirty host r p fence ids x).1
      unfolding recover_dirty
      recover_dirty-frame ids (err e, v) h = h
      recover_dirty-frame ids (ok warnings, v) h =
          reset_state-frame ids warnings _ (f.chain _ _ _ h (cleanup_and_recover-frame fence ids v))

      claimed-frame : (found : Applied) → R w (claimed host r p fence found w).1
      unfolding claimed
      claimed-frame Applied.absent = recover_dirty-frame [] _ (preflight_all-frame fence false p w)
      claimed-frame Applied.other = f.same w
      claimed-frame (names ids) =
          let a = preflight_all host r fence false p w in
          ground (arith, f.same w, recover_dirty-frame ids a (preflight_all-frame fence false p w))

      explicit_cleanup-frame : (state : StateDoc) → R w (explicit_cleanup host r p fence state w).1
      unfolding explicit_cleanup
      explicit_cleanup-frame state = ground (arith, f.same w, claimed-frame state.applied)

    branch-frame :
        (action : String) (p : Plan J) (x : Result StateDoc) (w : World Env)
        → R w (branch host r action p x w).1
    unfolding branch
    branch-frame action p (err e) w = f.same w
    branch-frame action p (ok state) w = ground (
      arith,
      live_run-frame p (next_fence state) w state,
      explicit_cleanup-frame p (next_fence state) w state,
    )

    locked-frame :
        (action : String) (x : Outcome (Plan J)) (w : World Env) → R w (locked host r action x w).1
    unfolding locked
    locked-frame action (refuse e) w = f.same w
    locked-frame action (pass p) w = branch-frame action p (read_state w.file) w

    pub dispatch-frame : (action : String) (w : World Env) → R w (dispatch host r action w).1
    unfolding dispatch
    dispatch-frame action w =
        ground (arith, f.same w, locked-frame action (verified_plan host r w.env) w)
