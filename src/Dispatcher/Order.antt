-- ===== src/Dispatcher/Order.antt =====
-- The order of the executor calls of a run that completes.
use testbed_services.Common.{
  ℕ, String, Bool, true, false, List, [], ◌∷◌, ◌++◌, map, reverse, ◌≡◌, refl, ap, ◌∙◌,
}
use testbed_services.Dispatcher.Host.{
  Host, Reply, Verb, run, preflight, cleanup, recovery, InvokeError, StateDoc, Result, ok, err,
  Event, called, saved, World,
}
use testbed_services.Dispatcher.Calls.{
  Request, Outcome, pass, refuse, prepare, perform, perform_prepared, note, invoke, invoke_each,
  strictly, recover, cleanup_and_recover, incomplete, replaced, write_state,
}

-- The executor calls of a trace, newest first, as profile and verb.
abbrev pub calls : {Env : Type 0} → List (Event Env) → List (String × Verb)
calls [] = []
calls (called env profile_id verb line ∷ trace) = (profile_id, verb) ∷ calls trace
calls (saved doc ∷ trace) = calls trace

-- A trace, newest first, after each of `xs` has happened in turn.
abbrev pub push_all {ℓ} : {A : Type ℓ} → List A → List A → List A
push_all [] trace = trace
push_all (x ∷ xs) trace = push_all xs (x ∷ trace)

pub push_all-append {ℓ} :
    {A : Type ℓ} (xs ys trace : List A)
    → push_all (xs ++ ys) trace ≡ push_all ys (push_all xs trace)
push_all-append [] ys trace = refl
push_all-append (x ∷ xs) ys trace = push_all-append xs ys (x ∷ trace)

abbrev pub tag : Verb → List String → List (String × Verb)
tag verb = map (λ i. (i, verb))

-- The calls of a complete run: every preflight, every run, then cleanups and recoveries backwards.
abbrev pub session : List String → List (String × Verb)
session ids =
    tag preflight ids ++ (tag run ids ++ (tag cleanup (reverse ids) ++ tag recovery (reverse ids)))

module _ (host : Host) (r : Request) where
  open host use {J, Env}

  abbrev pub Passes : {A : Type 0} → List (String × Verb) → Outcome A × World Env → Type 0
  Passes trace (pass a, v) = calls v.trace ≡ trace
  Passes trace (refuse e, v) = Unit

  judged-Passes :
      (trace : List (String × Verb)) (x : Outcome Reply × World Env)
      → calls x.1.trace ≡ trace
      → Passes trace x
  judged-Passes trace (pass a, v) h = h
  judged-Passes trace (refuse e, v) h = tt

  perform_prepared-Passes :
      (fence : ℕ) (profile_id : String) (verb : Verb) (w : World Env) (o : Outcome String)
      → Passes
          ((profile_id, verb) ∷ calls w.trace)
          (perform_prepared host r fence profile_id verb w o)
  unfolding perform_prepared perform
  perform_prepared-Passes fence profile_id verb w (refuse e) = tt
  perform_prepared-Passes fence profile_id verb w (pass path) =
      judged-Passes _ (perform host r fence profile_id verb w path) refl

  pub invoke-Passes :
      (fence : ℕ) (verb : Verb) (i : String) (w : World Env)
      → Passes ((i, verb) ∷ calls w.trace) (invoke host r fence verb i w)
  unfolding invoke
  invoke-Passes fence verb i w = perform_prepared-Passes fence i verb w (prepare host r i w.env)

  -- What holds of the calls where no failure was noted.
  abbrev pub Clears : List (String × Verb) → List InvokeError × World Env → Type 0
  Clears trace ([], v) = calls v.trace ≡ trace
  Clears trace (e ∷ es, v) = Unit

  note-Clears :
      (trace middle : List (String × Verb)) (x : Outcome Reply × World Env)
      (y : List InvokeError × World Env)
      → Passes middle x
      → (calls x.1.trace ≡ middle → Clears trace y)
      → Clears trace (note host x.0 y.0, y.1)
  note-Clears trace middle (pass a, v) y h k = k h
  note-Clears trace middle (refuse e, v) y h k = tt

  pub invoke_each-Clears :
      (fence : ℕ) (verb : Verb) (ids : List String) (trace : List (String × Verb)) (w : World Env)
      → calls w.trace ≡ trace
      → Clears (push_all (tag verb ids) trace) (invoke_each host r fence verb ids w)
  unfolding invoke_each
  invoke_each-Clears fence verb [] trace w h = h
  invoke_each-Clears fence verb (i ∷ ids) trace w h =
      note-Clears _ _ (invoke host r fence verb i w)
        (invoke_each host r fence verb ids (invoke host r fence verb i w).1)
        (invoke-Passes fence verb i w)
        (λ k.
          invoke_each-Clears fence verb ids ((i, verb) ∷ trace) _ (k ∙ ap (λ t. (i, verb) ∷ t) h))

  -- What holds of the calls where nothing was raised.
  abbrev pub Returns : {A : Type 0} → List (String × Verb) → Result A × World Env → Type 0
  Returns trace (ok a, v) = calls v.trace ≡ trace
  Returns trace (err e, v) = Unit

  pub strictly-Returns :
      (trace : List (String × Verb)) (x : List InvokeError × World Env)
      → Clears trace x
      → Returns trace (strictly host true x.0, x.1)
  strictly-Returns trace ([], v) h = h
  strictly-Returns trace (e ∷ es, v) h = tt

  incomplete-Returns :
      (trace : List (String × Verb)) (x : List InvokeError × World Env)
      → Clears trace x
      → Returns trace (incomplete host x.0, x.1)
  incomplete-Returns trace ([], v) h = h
  incomplete-Returns trace (e ∷ es, v) h = tt

  recover-Returns :
      (fence : ℕ) (ids : List String) (trace : List (String × Verb))
      (x : List InvokeError × World Env)
      → Clears trace x
      → Returns (push_all (tag recovery (reverse ids)) trace) (recover host r fence ids x)
  unfolding recover
  recover-Returns fence ids trace ([], v) h =
      incomplete-Returns _ _ (invoke_each-Clears fence recovery (reverse ids) trace v h)
  recover-Returns fence ids trace (e ∷ es, v) h = tt

  pub cleanup_and_recover-Returns :
      (fence : ℕ) (ids : List String) (trace : List (String × Verb)) (w : World Env)
      → calls w.trace ≡ trace
      → Returns
          (push_all (tag recovery (reverse ids)) (push_all (tag cleanup (reverse ids)) trace))
          (cleanup_and_recover host r fence ids w)
  unfolding cleanup_and_recover
  cleanup_and_recover-Returns fence ids trace w h =
      recover-Returns fence ids _ _ (invoke_each-Clears fence cleanup (reverse ids) trace w h)

  calls-replaced :
      (doc : StateDoc) (w : World Env) (x : Bool × Env)
      → calls (replaced host doc w x).1.trace ≡ calls w.trace
  unfolding replaced
  calls-replaced doc w (true, env) = refl
  calls-replaced doc w (false, env) = refl

  pub calls-write_state :
      (doc : StateDoc) (w : World Env) → calls (write_state host doc w).1.trace ≡ calls w.trace
  unfolding write_state
  calls-write_state doc w = calls-replaced doc w (host.write w.env)
