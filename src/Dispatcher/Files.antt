-- ===== src/Dispatcher/Files.antt =====
-- The state file after a live run, on every path through `dispatch`.
use testbed_services.Common.{
  ℕ, String, Bool, true, false, List, [], ◌∷◌, ◌++◌, reverse, ◌≡◌, refl, ◌∙◌, ◌⊎◌, get_or,
}
use testbed_services.Plan.{Plan}
use testbed_services.Dispatcher.Host.{
  Host, Reply, Verb, run, preflight, cleanup, recovery, InvokeError, StateDoc, Stored, missing,
  unreadable, not_an_object, document, names, DispatchError, dispatch_error, os_error,
  attribute_error, Result, ok, err, World, Report,
}
use testbed_services.Dispatcher.Calls.{
  Request, Outcome, pass, refuse, profile_ids, prepare, perform, perform_prepared, invoke,
  invoke_each, preflight_all, recover, cleanup_and_recover, replaced, write_state,
}
use testbed_services.Dispatcher.Dispatch.{
  clean_state, active_state, dirty_state, complete_report, next_round, run_profiles, Progress,
}

-- The fence that a state file stands for, `state.get("fence", 0)`.
abbrev pub fence_of : Stored → ℕ
fence_of missing = 0
fence_of unreadable = 0
fence_of not_an_object = 0
fence_of (document doc) = get_or doc.fence 0

module _ (host : Host) (r : Request) where
  open host use {J, Env}

  perform_prepared-file :
      (fence : ℕ) (profile_id : String) (verb : Verb) (w : World Env) (o : Outcome String)
      → (perform_prepared host r fence profile_id verb w o).1.file ≡ w.file
  unfolding perform_prepared perform
  perform_prepared-file fence profile_id verb w (refuse e) = refl
  perform_prepared-file fence profile_id verb w (pass path) = refl

  pub invoke-file :
      (fence : ℕ) (verb : Verb) (profile_id : String) (w : World Env)
      → (invoke host r fence verb profile_id w).1.file ≡ w.file
  unfolding invoke
  invoke-file fence verb profile_id w =
      perform_prepared-file fence profile_id verb w (prepare host r profile_id w.env)

  pub invoke_each-file :
      (fence : ℕ) (verb : Verb) (ids : List String) (w : World Env)
      → (invoke_each host r fence verb ids w).1.file ≡ w.file
  unfolding invoke_each
  invoke_each-file fence verb [] w = refl
  invoke_each-file fence verb (i ∷ ids) w =
      invoke_each-file fence verb ids _ ∙ invoke-file fence verb i w

  pub preflight_all-file :
      (p : Plan J) (fence : ℕ) (strict : Bool) (w : World Env)
      → (preflight_all host r fence strict p w).1.file ≡ w.file
  unfolding preflight_all
  preflight_all-file p fence strict w = invoke_each-file fence preflight (profile_ids p) w

  recover-file :
      (fence : ℕ) (ids : List String) (x : List InvokeError × World Env)
      → (recover host r fence ids x).1.file ≡ x.1.file
  unfolding recover
  recover-file fence ids ([], v) = invoke_each-file fence recovery (reverse ids) v
  recover-file fence ids (e ∷ es, v) = refl

  pub cleanup_and_recover-file :
      (fence : ℕ) (ids : List String) (w : World Env)
      → (cleanup_and_recover host r fence ids w).1.file ≡ w.file
  unfolding cleanup_and_recover
  cleanup_and_recover-file fence ids w =
      recover-file fence ids _ ∙ invoke_each-file fence cleanup (reverse ids) w

  -- what a write leaves behind, by whether it raised
  abbrev pub Written : StateDoc → Stored → Result Unit × World Env → Type 0
  Written doc old (ok _, v) = v.file ≡ document doc
  Written doc old (err os_error, v) = v.file ≡ old
  Written doc old (err e, v) = ⊥

  replaced-Written :
      (doc : StateDoc) (w : World Env) (x : Bool × Env) → Written doc w.file (replaced host doc w x)
  unfolding replaced
  replaced-Written doc w (true, env) = refl
  replaced-Written doc w (false, env) = refl

  pub write_state-Written :
      (doc : StateDoc) (w : World Env) → Written doc w.file (write_state host doc w)
  unfolding write_state
  write_state-Written doc w = replaced-Written doc w (host.write w.env)

  module _ (p : Plan J) (fence : ℕ) where
    -- the active document, with some list of applied profiles
    abbrev pub progressing : List String → StateDoc
    progressing applied = record (active_state r p fence) { applied = names applied }

    -- How a run that got past its guards has ended, by its result and the file, which was `old`.
    abbrev pub RunEnd : Stored → Result Report × World Env → Type 0
    RunEnd old (ok report, v) =
        (report ≡ complete_report r p fence) × (v.file ≡ document (clean_state fence))
    RunEnd old (err (dispatch_error e), v) =
        (v.file ≡ document (clean_state fence))
        ⊎ ((applied : List String) × (failure : DispatchError) × (v.file
              ≡ document (dirty_state host r p fence applied failure)))
    RunEnd old (err os_error, v) =
        (v.file ≡ old) ⊎ ((applied : List String) × (v.file ≡ document (progressing applied)))
    RunEnd old (err attribute_error, v) = ⊥

    -- The same for the loop over `run`.
    abbrev pub LoopEnd : Progress × World Env → Type 0
    LoopEnd ((applied, err attribute_error), v) = ⊥
    LoopEnd (progress, v) = (shown : List String) × (v.file ≡ document (progressing shown))

    next_round-LoopEnd :
        (applied done shown : List String) (invoked : Outcome Reply × World Env)
        (written : Result Unit × World Env) (more : Progress × World Env)
        → invoked.1.file ≡ document (progressing shown)
        → Written (progressing done) invoked.1.file written
        → (written.1.file ≡ document (progressing done) → LoopEnd more)
        → LoopEnd (next_round host applied done invoked written more)
    unfolding next_round
    next_round-LoopEnd applied done shown (refuse e, v) written more a b c = (shown, a)
    next_round-LoopEnd applied done shown (pass _, v) (ok _, u) more a b c = c b
    next_round-LoopEnd applied done shown (pass _, v) (err os_error, u) more a b c = (shown, b ∙ a)
    next_round-LoopEnd applied done shown (pass _, v) (err (dispatch_error e), u) more a b c =
        absurd b
    next_round-LoopEnd applied done shown (pass _, v) (err attribute_error, u) more a b c = absurd b

    pub run_profiles-LoopEnd :
        (applied ids shown : List String) (w : World Env)
        → w.file ≡ document (progressing shown)
        → LoopEnd (run_profiles host r fence (active_state r p fence) applied ids w)
    unfolding run_profiles
    run_profiles-LoopEnd applied [] shown w h = (shown, h)
    run_profiles-LoopEnd applied (i ∷ ids) shown w h =
        let done = applied ++ i ∷ [] in
        next_round-LoopEnd applied done shown _ _ _ (invoke-file fence run i w ∙ h)
          (write_state-Written _ _) (run_profiles-LoopEnd done ids done _)
