-- ===== src/Dispatcher/Complete.antt =====
-- What a run that returns has called, in order, and what it leaves behind.
use mathlib.Core.List.{append-nil, append_assoc}
use testbed_services.Common.{
  ℕ, String, true, none, some, List, [], ◌∷◌, ◌++◌, reverse, ◌≡◌, refl, sym, ap, ◌∙◌, inl, inr,
  Bool-cases,
}
use testbed_services.Plan.{Plan}
use testbed_services.Dispatcher.Host.{
  Host, Reply, Verb, run, preflight, cleanup, recovery, InvokeError, StateDoc, document, names,
  DispatchError, Raised, dispatch_error, os_error, attribute_error, Result, ok, err, World, Report,
}
use testbed_services.Dispatcher.Calls.{
  Request, Outcome, pass, refuse, profile_ids, invoke, invoke_each, preflight_all, write_state,
}
use testbed_services.Dispatcher.Dispatch.{
  clean_state, complete_report, next_round, run_profiles, run_checked, Progress, raise_after,
  report_after, conclude, roll_back, started, live_run, branch, locked, dispatch, next_fence,
  active_state, equals, is_clean,
}
use testbed_services.Dispatcher.Files.{RunEnd}
use testbed_services.Dispatcher.RunEnds.{IsAdmitted, RunOutcome, dispatch_run_ends}
use testbed_services.Dispatcher.Order.{
  calls, push_all, push_all-append, tag, session, Passes, invoke-Passes, invoke_each-Clears,
  Returns, strictly-Returns, cleanup_and_recover-Returns, calls-write_state,
}

module _ (host : Host) (r : Request) where
  open host use {J, Env}

  -- Where the loop over `run` ends normally it has applied and called every profile, in order.
  abbrev RunsAll : List String → List (String × Verb) → Progress × World Env → Type 0
  RunsAll expected trace ((applied, ok _), v) = (applied ≡ expected) × (calls v.trace ≡ trace)
  RunsAll expected trace ((applied, err e), v) = Unit

  next_round-RunsAll :
      (applied done expected : List String) (middle trace : List (String × Verb))
      (invoked : Outcome Reply × World Env) (written : Result Unit × World Env)
      (more : Progress × World Env)
      → Passes host r middle invoked
      → calls written.1.trace ≡ calls invoked.1.trace
      → (calls written.1.trace ≡ middle → RunsAll expected trace more)
      → RunsAll expected trace (next_round host applied done invoked written more)
  unfolding next_round
  next_round-RunsAll applied done expected middle trace (refuse e, v) written more h k m = tt
  next_round-RunsAll applied done expected middle trace (pass a, v) (err e, u) more h k m = tt
  next_round-RunsAll applied done expected middle trace (pass a, v) (ok _, u) more h k m = m (k ∙ h)

  run_profiles-RunsAll :
      (fence : ℕ) (state : StateDoc) (applied ids expected : List String)
      (trace : List (String × Verb)) (w : World Env)
      → applied ++ ids ≡ expected
      → calls w.trace ≡ trace
      → RunsAll expected
          (push_all (tag run ids) trace)
          (run_profiles host r fence state applied ids w)
  unfolding run_profiles
  run_profiles-RunsAll fence state applied [] expected trace w e h =
      (sym (append-nil applied) ∙ e, h)
  run_profiles-RunsAll fence state applied (i ∷ ids) expected trace w e h =
      let invoked = invoke host r fence run i w in
      let done = applied ++ i ∷ [] in
      let written = write_state host (record state { applied = names done }) invoked.1 in
      next_round-RunsAll applied done expected ((i, run) ∷ calls w.trace) _ invoked written _
        (invoke-Passes host r fence run i w) (calls-write_state host r _ invoked.1)
        (λ k.
          run_profiles-RunsAll fence state done ids expected ((i, run) ∷ trace) written.1
            (append_assoc applied (i ∷ []) ids ∙ e) (k ∙ ap (λ t. (i, run) ∷ t) h))

  run_checked-RunsAll :
      (fence : ℕ) (state : StateDoc) (ids : List String) (trace : List (String × Verb))
      (x : Result (List InvokeError) × World Env)
      → Returns host r trace x
      → RunsAll ids (push_all (tag run ids) trace) (run_checked host r fence state ids x)
  unfolding run_checked
  run_checked-RunsAll fence state ids trace (ok _, v) h =
      run_profiles-RunsAll fence state [] ids ids trace v refl h
  run_checked-RunsAll fence state ids trace (err e, v) h = tt

  module _ (p : Plan J) (fence : ℕ) where
    abbrev backwards : List String → List (String × Verb) → List (String × Verb)
    backwards ids trace =
        push_all (tag recovery (reverse ids)) (push_all (tag cleanup (reverse ids)) trace)

    raised-Returns :
        (trace : List (String × Verb)) (e : Raised) (x : Result Unit × World Env)
        → Returns host r trace (raise_after host r p fence e x)
    unfolding raise_after
    raised-Returns trace e (ok _, v) = tt
    raised-Returns trace e (err o, v) = tt

    report_after-Returns :
        (trace : List (String × Verb)) (x : Result Unit × World Env)
        → calls x.1.trace ≡ trace
        → Returns host r trace (report_after host r p fence none x)
    unfolding report_after
    report_after-Returns trace (ok _, v) h = h
    report_after-Returns trace (err o, v) h = tt

    conclude-Returns :
        (applied : List String) (trace : List (String × Verb)) (x : Result Unit × World Env)
        → Returns host r trace x
        → Returns host r trace (conclude host r p fence none applied x)
    unfolding conclude
    conclude-Returns applied trace (ok _, v) h =
        report_after-Returns trace _ (calls-write_state host r _ v ∙ h)
    conclude-Returns applied trace (err (dispatch_error e), v) h = raised-Returns trace _ _
    conclude-Returns applied trace (err os_error, v) h = tt
    conclude-Returns applied trace (err attribute_error, v) h = tt

    -- With a primary error the run never returns.
    report_some :
        (e : DispatchError) (trace : List (String × Verb)) (x : Result Unit × World Env)
        → Returns host r trace (report_after host r p fence (some e) x)
    unfolding report_after
    report_some e trace (ok _, v) = tt
    report_some e trace (err o, v) = tt

    conclude-some :
        (e : DispatchError) (applied : List String) (trace : List (String × Verb))
        (x : Result Unit × World Env)
        → Returns host r trace (conclude host r p fence (some e) applied x)
    unfolding conclude
    conclude-some e applied trace (ok _, v) = report_some e trace _
    conclude-some e applied trace (err (dispatch_error o), v) = raised-Returns trace _ _
    conclude-some e applied trace (err os_error, v) = tt
    conclude-some e applied trace (err attribute_error, v) = tt

    roll_back-Returns :
        (ids : List String) (trace : List (String × Verb)) (x : Progress × World Env)
        → RunsAll ids trace x
        → Returns host r (backwards ids trace) (roll_back host r p fence x)
    unfolding roll_back
    roll_back-Returns ids trace ((applied, ok _), v) (same, h) =
        conclude-Returns applied _ _
          (rw (← same) (cleanup_and_recover-Returns host r fence applied trace v h))
    roll_back-Returns ids trace ((applied, err (dispatch_error e)), v) h =
        conclude-some e applied _ _
    roll_back-Returns ids trace ((applied, err os_error), v) h = tt
    roll_back-Returns ids trace ((applied, err attribute_error), v) h = tt

    preflight_all-Returns :
        (trace : List (String × Verb)) (w : World Env)
        → calls w.trace ≡ trace
        → Returns host r
            (push_all (tag preflight (profile_ids p)) trace)
            (preflight_all host r fence true p w)
    unfolding preflight_all
    preflight_all-Returns trace w h =
        strictly-Returns host r _ (invoke_each host r fence preflight (profile_ids p) w)
          (invoke_each-Clears host r fence preflight (profile_ids p) trace w h)

    started-Returns :
        (trace : List (String × Verb)) (x : Result Unit × World Env)
        → calls x.1.trace ≡ trace
        → Returns host r (push_all (session (profile_ids p)) trace) (started host r p fence x)
    unfolding started
    started-Returns trace (err e, v) h = tt
    started-Returns trace (ok _, v) h =
        let ids = profile_ids p in
        let base = push_all (tag preflight ids) trace in
        rw
          (
            push_all-append (tag preflight ids),
            push_all-append (tag run ids),
            push_all-append (tag cleanup (reverse ids)),
          )
          (roll_back-Returns ids (push_all (tag run ids) base) _ (
            run_checked-RunsAll fence (active_state r p fence) ids base _
              (preflight_all-Returns trace v h)))

    live_run-Returns :
        (state : StateDoc) (w : World Env)
        → Returns host r
            (push_all (session (profile_ids p)) (calls w.trace))
            (live_run host r p fence state w)
    unfolding live_run
    live_run-Returns state w = elim (Bool-cases (equals p.load_mode "adaptive")) [
      | inl a ↦ rw a tt
      | inr a ↦ elim (Bool-cases (is_clean state.status)) [
        | inr b ↦ rw (a, b) tt
        | inl b ↦ rw (a, b) (started-Returns (calls w.trace) _ (calls-write_state host r _ w))
      ]
    ]

  -- A run that returned: what it was admitted by, its report, the file, and every call it made.
  pub record IsComplete (w v : World Env) (report : Report) : Type 0 where
    pub compiled : Plan J
    pub state : StateDoc
    pub admitted : IsAdmitted host r w compiled state
    pub report_eq : report ≡ complete_report r compiled (next_fence state)
    pub file_eq : v.file ≡ document (clean_state (next_fence state))
    pub calls_eq : calls v.trace ≡ push_all (session (profile_ids compiled)) (calls w.trace)

  abbrev Completes : World Env → Result Report × World Env → Type 0
  Completes w (ok report, v) = IsComplete w v report
  Completes w (err e, v) = Unit

  completed_run :
      (p : Plan J) (state : StateDoc) (w : World Env) (x : Result Report × World Env)
      → IsAdmitted host r w p state
      → RunEnd host r p (next_fence state) w.file x
      → Returns host r (push_all (session (profile_ids p)) (calls w.trace)) x
      → Completes w x
  completed_run p state w (err e, v) a b c = tt
  completed_run p state w (ok report, v) a b c = record {
    compiled = p;
    state = state;
    admitted = a;
    report_eq = b.0;
    file_eq = b.1;
    calls_eq = c;
  }

  admitted-Returns :
      (w : World Env) (p : Plan J) (state : StateDoc)
      → IsAdmitted host r w p state
      → Returns host r
          (push_all (session (profile_ids p)) (calls w.trace))
          (dispatch host r "run" w)
  unfolding dispatch locked branch
  admitted-Returns w p state a = elim (Bool-cases (host.lock_free w.env)) [
    | inr held ↦ rw held tt
    | inl free ↦ rw (free, a.verified, a.readable) (live_run-Returns p (next_fence state) state w)
  ]

  outcome-Completes :
      (w : World Env) (x : Result Report × World Env)
      → RunOutcome host r w x
      → ((p : Plan J) (state : StateDoc)
          → IsAdmitted host r w p state
          → Returns host r (push_all (session (profile_ids p)) (calls w.trace)) x)
      → Completes w x
  outcome-Completes w x (inl (e, h)) k = rw h tt
  outcome-Completes w x (inr (p, state, a, h)) k = completed_run p state w x a h (k p state a)

  dispatch-Completes : (w : World Env) → Completes w (dispatch host r "run" w)
  dispatch-Completes w = outcome-Completes w _ (dispatch_run_ends host r w) (admitted-Returns w)

  -- A run that returns a report was admitted, reports the profiles of its plan at the next fence,
  -- leaves the file clean at that fence, and has made exactly these executor calls, in this order:
  -- a preflight of every profile, a run of every profile, a cleanup of every profile backwards, and
  -- a recovery of every profile backwards.
  pub dispatch-IsComplete :
      (w v : World Env) (report : Report)
      → dispatch host r "run" w ≡ (ok report, v)
      → IsComplete w v report
  dispatch-IsComplete w v report h = rw h at (dispatch-Completes w)
