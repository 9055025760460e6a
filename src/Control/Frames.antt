-- ===== src/Control/Frames.antt =====
-- What waiting for the lock, an authorised call and the write of the control file keep, `execute`
-- keeps.
use testbed_services.Common.{
  ℕ, zero, suc, String, ◌||◌, Option, none, some, List, ◌≡◌, refl, Bool-cases, inl, inr,
}
use testbed_services.Capsule.{Reply, raised, completed, Verb, preflight, run, recovery}
use testbed_services.Control.Host.{
  ControlHost, Action, apply, cleanup, other, Operation, Answer, Response, ControlState, Outcome,
  pass, refuse, ControlWorld,
}
use testbed_services.Control.Checks.{is_apply, Bound, authorise}
use testbed_services.Control.Execute.{
  relock, unlock, call_executor, store, recovered, verify_recovery, after_cleanup, after_run,
  mutate, reverified, reverify, after_preflight, with_line, operate, answered, loaded, admitted,
  accepted, execute, same_identity, request_of, succeeded, lookup, base_line, guarded,
}

module _ (host : ControlHost) (op : Operation) where
  open host use {J, Env, clock}

  pub record IsFrame (R : ControlWorld Env → ControlWorld Env → Type 0) : Type 0 where
    pub same : (w : ControlWorld Env) → R w w
    pub chain : (u v w : ControlWorld Env) → R u v → R v w → R u w
    pub by_relock : (w : ControlWorld Env) → R w (relock host w)
    pub by_unlock : (w : ControlWorld Env) → R w (unlock host w)
    pub by_call :
        (verb : Verb) (b : Bound J) (common : List String) (checked : Env) (w : ControlWorld Env)
        → authorise host op checked ≡ pass b
        → (verb ≡ run → w.env ≡ checked)
        → R w (call_executor host verb b.path common checked w).1
    pub by_store :
        (state : ControlState) (response : Response) (w : ControlWorld Env)
        → R w (store host op state response w).1

  module _ {R : ControlWorld Env → ControlWorld Env → Type 0} (f : IsFrame R) where
    unlocked :
        (verb : Verb) (b : Bound J) (common : List String) (w : ControlWorld Env)
        → authorise host op w.env ≡ pass b
        → (verb ≡ run → ⊥)
        → R w (call_executor host verb b.path common w.env (unlock host w)).1
    unlocked verb b common w h n =
        f.chain _ _ _ (f.by_unlock w)
          (f.by_call verb b common w.env (unlock host w) h (λ e. absurd (n e)))

    recovered-frame :
        (state : ControlState) (now : ℕ) (u : ControlWorld Env) (x : Reply × ControlWorld Env)
        → R u x.1
        → R u (recovered host op state now x).1
    unfolding recovered
    recovered-frame state now u (raised m, w) h = h
    recovered-frame state now u (completed zero out error, w) h =
        f.chain _ _ _ h (f.by_store state _ w)
    recovered-frame state now u (completed (suc c) out error, w) h =
        f.chain _ _ _ h (f.by_store state _ w)

    verify_recovery-frame :
        (state : ControlState) (now : ℕ) (o : Outcome (Bound J)) (w : ControlWorld Env)
        → authorise host op w.env ≡ o
        → R w (verify_recovery host op state now o w).1
    unfolding verify_recovery
    verify_recovery-frame state now (refuse e) w h = f.same w
    verify_recovery-frame state now (pass b) w h =
        recovered-frame state now w _ (unlocked recovery b (base_line host op) w h (λ e. cc))

    after_cleanup-frame :
        (state : ControlState) (u : ControlWorld Env) (x : Reply × ControlWorld Env)
        → R u x.1
        → R u (after_cleanup host op state x).1
    unfolding after_cleanup
    after_cleanup-frame state u (raised m, w) h = h
    after_cleanup-frame state u (completed (suc c) out error, w) h =
        f.chain _ _ _ h (f.by_store state _ w)
    after_cleanup-frame state u (completed zero out error, w) h = f.chain _ _ _ h (
        f.chain _ _ _ (f.by_relock w)
          (verify_recovery-frame state (clock w.env) _ (relock host w) refl))

    after_run-frame :
        (state : ControlState) (started : ℕ) (u : ControlWorld Env) (x : Reply × ControlWorld Env)
        → R u x.1
        → R u (after_run host op state started x).1
    unfolding after_run
    after_run-frame state started u (raised m, w) h = h
    after_run-frame state started u (completed (suc c) out error, w) h = h
    after_run-frame state started u (completed zero out error, w) h =
        f.chain _ _ _ h (f.by_store state _ w)

    mutate-frame :
        (action : Action) (state : ControlState) (common : List String) (b : Bound J)
        (w : ControlWorld Env)
        → authorise host op w.env ≡ pass b
        → R w (mutate host op action state common b w).1
    unfolding mutate
    mutate-frame apply state common b w h =
        after_run-frame state (clock w.env) w _ (f.by_call run b common w.env w h (λ e. refl))
    mutate-frame cleanup state common b w h =
        after_cleanup-frame state w _ (unlocked Verb.cleanup b common w h (λ e. cc))
    mutate-frame other state common b w h =
        after_cleanup-frame state w _ (unlocked Verb.cleanup b common w h (λ e. cc))

    reverified-frame :
        (state : ControlState) (common : List String) (o : Outcome (Bound J)) (w : ControlWorld Env)
        → authorise host op w.env ≡ o
        → R w (reverified host op state common o w).1
    unfolding reverified
    reverified-frame state common (refuse e) w h = f.same w
    reverified-frame state common (pass b) w h = mutate-frame op.action state common b w h

    reverify-frame :
        (state : ControlState) (common : List String) (w : ControlWorld Env)
        → R w (reverify host op state common w).1
    unfolding reverify
    reverify-frame state common w =
        f.chain _ _ _ (f.by_relock w) (reverified-frame state common _ (relock host w) refl)

    pub after_preflight-frame :
        (state : ControlState) (common : List String) (u : ControlWorld Env)
        (x : Reply × ControlWorld Env)
        → R u x.1
        → R u (after_preflight host op state common x).1
    unfolding after_preflight
    after_preflight-frame state common u (raised m, w) h = h
    after_preflight-frame state common u (completed zero out error, w) h =
        f.chain _ _ _ h (reverify-frame state common w)
    after_preflight-frame state common u (completed (suc c) out error, w) h =
        elim (Bool-cases (is_apply op.action)) [
          | inl a ↦ rw a h
          | inr a ↦ rw a (f.chain _ _ _ h (reverify-frame state common w))
        ]

    with_line-frame :
        (state : ControlState) (b : Bound J) (o : Outcome (List String)) (w : ControlWorld Env)
        → authorise host op w.env ≡ pass b
        → R w (with_line host op state b o w).1
    unfolding with_line
    with_line-frame state b (refuse e) w h = f.same w
    with_line-frame state b (pass common) w h =
        after_preflight-frame state common w _ (unlocked preflight b common w h (λ e. cc))

    operate-frame :
        (state : ControlState) (b : Bound J) (w : ControlWorld Env)
        → authorise host op w.env ≡ pass b
        → R w (operate host op state b w).1
    unfolding operate
    operate-frame state b w h = with_line-frame state b _ w h

    answered-frame :
        (state : ControlState) (b : Bound J) (o : Option Answer) (w : ControlWorld Env)
        → authorise host op w.env ≡ pass b
        → R w (answered host op state b o w).1
    unfolding answered
    answered-frame state b none w h = operate-frame state b w h
    answered-frame state b (some a) w h =
        elim (Bool-cases (same_identity a.request (request_of op))) [
          | inr n ↦ rw n (f.same w)
          | inl y ↦ elim (Bool-cases (is_apply op.action || succeeded a.response)) [
            | inl t ↦ rw (y, t) (f.same w)
            | inr t ↦ rw (y, t) (operate-frame state b w h)
          ]
        ]

    loaded-frame :
        (b : Bound J) (o : Outcome ControlState) (w : ControlWorld Env)
        → authorise host op w.env ≡ pass b
        → R w (loaded host op b o w).1
    unfolding loaded
    loaded-frame b (refuse e) w h = f.same w
    loaded-frame b (pass state) w h =
        answered-frame state b (lookup op.idempotency_key state.results) w h

    admitted-frame :
        (o : Outcome (Bound J)) (w : ControlWorld Env)
        → authorise host op w.env ≡ o
        → R w (admitted host op o w).1
    unfolding admitted
    admitted-frame (refuse e) w h = f.same w
    admitted-frame (pass b) w h = loaded-frame b _ w h

    accepted-frame : (o : Outcome Unit) (w : ControlWorld Env) → R w (accepted host op o w).1
    unfolding accepted
    accepted-frame (refuse e) w = f.same w
    accepted-frame (pass _) w =
        f.chain _ _ _ (f.by_relock w) (admitted-frame _ (relock host w) refl)

    pub execute-frame : (w : ControlWorld Env) → R w (execute host op w).1
    unfolding execute
    execute-frame w = accepted-frame (guarded op) w
