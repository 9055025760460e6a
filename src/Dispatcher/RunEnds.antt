-- ===== src/Dispatcher/RunEnds.antt =====
-- How a live run ends: the report or the error, and what the state file then holds.
use testbed_services.Common.{
  ℕ, String, true, false, Option, none, some, List, [], ◌∷◌, ◌≡◌, refl, ◌∙◌, ◌⊎◌, inl, inr,
  Bool-cases,
}
use testbed_services.Plan.{Plan}
use testbed_services.Dispatcher.Host.{
  Host, InvokeError, StateDoc, Stored, document, DispatchError, Raised, dispatch_error, os_error,
  attribute_error, adaptive, not_clean, refused, lock_held, Result, ok, err, World, Report,
}
use testbed_services.Dispatcher.Calls.{
  Request, Outcome, pass, refuse, profile_ids, preflight_all, strictly, recover,
  cleanup_and_recover, incomplete, verified_plan,
}
use testbed_services.Dispatcher.Dispatch.{
  clean_state, active_state, dirty_state, run_checked, Progress, joined, raise_after, report_after,
  conclude, roll_back, started, live_run, branch, locked, dispatch, next_fence, read_state, equals,
  is_clean,
}
use testbed_services.Dispatcher.Files.{
  preflight_all-file, cleanup_and_recover-file, Written, write_state-Written, progressing, RunEnd,
  LoopEnd, run_profiles-LoopEnd,
}

-- `_cleanup_and_recover` raises nothing but `DispatchError`.
abbrev pub RaisesDispatch : {A Env : Type 0} → Result A × World Env → Type 0
RaisesDispatch (err os_error, v) = ⊥
RaisesDispatch (err attribute_error, v) = ⊥
RaisesDispatch (e, v) = Unit

module _ (host : Host) (r : Request) where
  open host use {J, Env}

  incomplete-RaisesDispatch :
      (es : List InvokeError) (v : World Env) → RaisesDispatch (incomplete host es, v)
  incomplete-RaisesDispatch [] v = tt
  incomplete-RaisesDispatch (e ∷ es) v = tt

  strictly-RaisesDispatch :
      (es : List InvokeError) (v : World Env) → RaisesDispatch (strictly host true es, v)
  strictly-RaisesDispatch [] v = tt
  strictly-RaisesDispatch (e ∷ es) v = tt

  recover-RaisesDispatch :
      (fence : ℕ) (ids : List String) (x : List InvokeError × World Env)
      → RaisesDispatch (recover host r fence ids x)
  unfolding recover
  recover-RaisesDispatch fence ids ([], v) = incomplete-RaisesDispatch _ _
  recover-RaisesDispatch fence ids (e ∷ es, v) = tt

  cleanup_and_recover-RaisesDispatch :
      (fence : ℕ) (ids : List String) (w : World Env)
      → RaisesDispatch (cleanup_and_recover host r fence ids w)
  unfolding cleanup_and_recover
  cleanup_and_recover-RaisesDispatch fence ids w = recover-RaisesDispatch fence ids _

  module _ (p : Plan J) (fence : ℕ) (old : Stored) where
    preflight_all-RaisesDispatch :
        (v : World Env) → RaisesDispatch (preflight_all host r fence true p v)
    unfolding preflight_all
    preflight_all-RaisesDispatch v = strictly-RaisesDispatch _ _

    run_checked-LoopEnd :
        (x : Result (List InvokeError) × World Env)
        → x.1.file ≡ document (active_state r p fence)
        → RaisesDispatch x
        → LoopEnd host r p fence
            (run_checked host r fence (active_state r p fence) (profile_ids p) x)
    unfolding run_checked active_state
    run_checked-LoopEnd (ok _, v) h s =
        run_profiles-LoopEnd host r p fence [] (profile_ids p) [] v h
    run_checked-LoopEnd (err (dispatch_error e), v) h s = ([], h)
    run_checked-LoopEnd (err os_error, v) h s = absurd s
    run_checked-LoopEnd (err attribute_error, v) h s = absurd s

    report_after-RunEnd :
        (primary : Option DispatchError) (shown : List String) (before : Stored)
        (x : Result Unit × World Env)
        → before ≡ document (progressing host r p fence shown)
        → Written host r (clean_state fence) before x
        → RunEnd host r p fence old (report_after host r p fence primary x)
    unfolding report_after
    report_after-RunEnd none shown before (ok _, v) b h = (refl, h)
    report_after-RunEnd (some e) shown before (ok _, v) b h = inl h
    report_after-RunEnd none shown before (err os_error, v) b h = inr (shown, h ∙ b)
    report_after-RunEnd (some e) shown before (err os_error, v) b h = inr (shown, h ∙ b)
    report_after-RunEnd primary shown before (err (dispatch_error e), v) b h = absurd h
    report_after-RunEnd primary shown before (err attribute_error, v) b h = absurd h

    raise_after-RunEnd :
        (e failure : DispatchError) (applied shown : List String) (before : Stored)
        (x : Result Unit × World Env)
        → before ≡ document (progressing host r p fence shown)
        → Written host r (dirty_state host r p fence applied failure) before x
        → RunEnd host r p fence old (raise_after host r p fence (dispatch_error e) x)
    unfolding raise_after
    raise_after-RunEnd e failure applied shown before (ok _, v) b h = inr (applied, failure, h)
    raise_after-RunEnd e failure applied shown before (err os_error, v) b h = inr (shown, h ∙ b)
    raise_after-RunEnd e failure applied shown before (err (dispatch_error o), v) b h = absurd h
    raise_after-RunEnd e failure applied shown before (err attribute_error, v) b h = absurd h

    conclude-RunEnd :
        (primary : Option DispatchError) (applied shown : List String) (x : Result Unit × World Env)
        → x.1.file ≡ document (progressing host r p fence shown)
        → RaisesDispatch x
        → RunEnd host r p fence old (conclude host r p fence primary applied x)
    unfolding conclude
    conclude-RunEnd primary applied shown (ok _, v) b h =
        report_after-RunEnd primary shown v.file _ b (write_state-Written host r _ v)
    conclude-RunEnd primary applied shown (err (dispatch_error e), v) b h =
        raise_after-RunEnd (joined primary e) e applied shown v.file _ b
          (write_state-Written host r _ v)
    conclude-RunEnd primary applied shown (err os_error, v) b h = absurd h
    conclude-RunEnd primary applied shown (err attribute_error, v) b h = absurd h

    roll_back-RunEnd :
        (x : Progress × World Env)
        → LoopEnd host r p fence x
        → RunEnd host r p fence old (roll_back host r p fence x)
    unfolding roll_back
    roll_back-RunEnd ((applied, ok _), v) (shown, h) =
        conclude-RunEnd none applied shown _ (cleanup_and_recover-file host r fence applied v ∙ h)
          (cleanup_and_recover-RaisesDispatch fence applied v)
    roll_back-RunEnd ((applied, err (dispatch_error e)), v) (shown, h) =
        conclude-RunEnd (some e) applied shown _
          (cleanup_and_recover-file host r fence applied v ∙ h)
          (cleanup_and_recover-RaisesDispatch fence applied v)
    roll_back-RunEnd ((applied, err os_error), v) (shown, h) = inr (shown, h)
    roll_back-RunEnd ((applied, err attribute_error), v) h = absurd h

    started-RunEnd :
        (x : Result Unit × World Env)
        → Written host r (active_state r p fence) old x
        → RunEnd host r p fence old (started host r p fence x)
    unfolding started
    started-RunEnd (ok _, v) h = roll_back-RunEnd _ (
        run_checked-LoopEnd _ (preflight_all-file host r p fence true v ∙ h)
          (preflight_all-RaisesDispatch v))
    started-RunEnd (err os_error, v) h = inl h
    started-RunEnd (err (dispatch_error e), v) h = absurd h
    started-RunEnd (err attribute_error, v) h = absurd h

  -- What a run is allowed by: the plan is verified, the state is readable and clean, and the
  -- scenario is not adaptive.
  pub record IsAdmitted (w : World Env) (p : Plan J) (state : StateDoc) : Type 0 where
    pub verified : verified_plan host r w.env ≡ pass p
    pub readable : read_state w.file ≡ ok state
    pub not_adaptive : equals p.load_mode "adaptive" ≡ false
    pub was_clean : is_clean state.status ≡ true

  -- Refused with nothing done, or admitted and ended in one of the ways of `RunEnd`.
  abbrev pub RunOutcome : World Env → Result Report × World Env → Type 0
  RunOutcome w x =
      ((e : Raised) × (x ≡ (err e, w)))
      ⊎ ((p : Plan J) × (state : StateDoc) × IsAdmitted w p state
          × RunEnd host r p (next_fence state) w.file x)

  live_run-RunOutcome :
      (p : Plan J) (state : StateDoc) (w : World Env)
      → verified_plan host r w.env ≡ pass p
      → read_state w.file ≡ ok state
      → RunOutcome w (live_run host r p (next_fence state) state w)
  unfolding live_run
  live_run-RunOutcome p state w v s = elim (Bool-cases (equals p.load_mode "adaptive")) [
    | inl a ↦ inl (dispatch_error adaptive, rw a)
    | inr a ↦ elim (Bool-cases (is_clean state.status)) [
      | inr b ↦ inl (dispatch_error (not_clean state.status), rw (a, b))
      | inl b ↦ inr (
        p,
        state,
        record { verified = v; readable = s; not_adaptive = a; was_clean = b },
        rw (a, b)
            (started-RunEnd p (next_fence state) w.file _
              (write_state-Written host r (active_state r p (next_fence state)) w)),
      )
    ]
  ]

  locked-RunOutcome :
      (o : Outcome (Plan J)) (s : Result StateDoc) (w : World Env)
      → verified_plan host r w.env ≡ o
      → read_state w.file ≡ s
      → RunOutcome w (locked host r "run" o w)
  unfolding locked branch
  locked-RunOutcome (refuse e) s w h k = inl (dispatch_error (refused e), refl)
  locked-RunOutcome (pass p) (err e) w h k = inl (e, rw k)
  locked-RunOutcome (pass p) (ok state) w h k = rw k (live_run-RunOutcome p state w h k)

  pub dispatch_run_ends : (w : World Env) → RunOutcome w (dispatch host r "run" w)
  unfolding dispatch
  dispatch_run_ends w = elim (Bool-cases (host.lock_free w.env)) [
    | inr held ↦ inl (dispatch_error lock_held, rw held)
    | inl free ↦ rw free (locked-RunOutcome _ _ w refl refl)
  ]
