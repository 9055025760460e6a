-- ===== src/Control/Retry.antt =====
-- A cleanup that failed is not final: its key calls the executor again.
use mathlib.Core.List.{append_assoc}
use testbed_services.Common.{Bool, true, false, List, [], ◌∷◌, ◌++◌, ◌≡◌, refl, sym, ap, some}
use testbed_services.Plan.{Instance}
use testbed_services.Capsule.{preflight}
use testbed_services.Control.Host.{
  File, ControlHost, Action, cleanup, Operation, Answer, Response, ControlState, pass, Call,
  ControlWorld,
}
use testbed_services.Control.Checks.{is_apply, Bound, authorise, load_file}
use testbed_services.Control.Execute.{
  relock, unlock, call_executor, store, written, operate, with_line, common_line, base_line,
  answered, loaded, admitted, accepted, execute, same_identity, request_of, succeeded, lookup,
  no_results, guarded,
}
use testbed_services.Control.Frames.{IsFrame, after_preflight-frame}

module _ (host : ControlHost) where
  open host use {Env, J}

  -- `v` has the calls of `u`, and later ones.
  pub record Grows (u v : ControlWorld Env) : Type 0 where
    pub later : List (Call Env)
    pub trace_eq : v.trace ≡ later ++ u.trace

  Grows-trans : (u v w : ControlWorld Env) → Grows u v → Grows v w → Grows u w
  Grows-trans u v w a b = record {
    later = b.later ++ a.later;
    trace_eq = rw (b.trace_eq, a.trace_eq) (sym (append_assoc b.later a.later u.trace));
  }

  store-trace :
      (op : Operation) (response : Response) (w : ControlWorld Env) (f : File ControlState)
      (x : Bool × Env)
      → (written host op response w f x).1.trace ≡ w.trace
  unfolding written
  store-trace op response w f (true, env) = refl
  store-trace op response w f (false, env) = refl

  Grows-frame : (op : Operation) → IsFrame host op Grows
  unfolding call_executor store
  Grows-frame op = record {
    same = λ w. record { later = []; trace_eq = refl };
    chain = Grows-trans;
    by_relock = λ w. record { later = []; trace_eq = refl };
    by_unlock = λ w. record { later = []; trace_eq = refl };
    by_call = λ verb b common checked w h atomic. record { later = _ ∷ []; trace_eq = refl };
    by_store = λ state response w. record {
      later = [];
      trace_eq = store-trace op response w _ (host.write w.env);
    };
  }

  -- The key of `op` holds a cleanup with the same identity that did not succeed, and `op` passes
  -- the checks of `execute` in the environment that the coordinator's lock gives.
  pub record IsRetry (op : Operation) (w : ControlWorld Env) : Type 0 where
    pub is_cleanup : op.action ≡ cleanup
    pub allowed : guarded op ≡ pass tt
    pub bound : Bound J
    pub authorised : authorise host op (relock host w).env ≡ pass bound
    pub state : ControlState
    pub readable : load_file no_results w.file ≡ pass state
    pub answer : Answer
    pub stored : lookup op.idempotency_key state.results ≡ some answer
    pub same_request : same_identity answer.request (request_of op) ≡ true
    pub unsuccessful : succeeded answer.response ≡ false

  -- the preflight call that a retry makes first
  abbrev pub first_call : (op : Operation) (w : ControlWorld Env) → Bound J → Call Env
  first_call op w b = record {
    env = (unlock host (relock host w)).env;
    checked = (relock host w).env;
    verb = preflight;
    line = b.path ∷ "preflight" ∷ base_line host op;
  }

  not_apply : (op : Operation) → op.action ≡ cleanup → is_apply op.action ≡ false
  not_apply op e = ap is_apply e

  cleanup_line :
      (op : Operation) (i : Instance J) (a : Action)
      → a ≡ cleanup
      → common_line host op i a ≡ pass (base_line host op)
  unfolding common_line
  cleanup_line op i a e = rw e refl

  fresh_call :
      (op : Operation) (w : ControlWorld Env) (b : Bound J) (state : ControlState)
      → (later : List (Call Env)) × ((with_line host op state b
            (pass (base_line host op))
            (relock host w)).1.trace
          ≡ later ++ first_call op w b ∷ w.trace)
  unfolding with_line call_executor
  fresh_call op w b state =
      let x =
        call_executor host preflight b.path (base_line host op) (relock host w).env
          (unlock host (relock host w)) in
      let g =
        after_preflight-frame host op (Grows-frame op) state (base_line host op) x.1 x
          ((Grows-frame op).same x.1) in
      (g.later, g.trace_eq)

  -- A retry does not return the stored answer: it makes a preflight call of the executor that was
  -- authorised just then, with the fixed command line, before anything else.
  pub failed_cleanup_retries :
      (op : Operation) (w : ControlWorld Env) (r : IsRetry op w)
      → (later : List (Call Env)) × ((execute host op w).1.trace
          ≡ later ++ first_call op w r.bound ∷ w.trace)
  unfolding execute accepted admitted loaded answered operate
  failed_cleanup_retries op w r =
      rw
        (
          r.allowed,
          r.authorised,
          r.readable,
          r.stored,
          r.same_request,
          r.unsuccessful,
          not_apply op r.is_cleanup,
          cleanup_line op r.bound.bound_instance op.action r.is_cleanup,
        )
        (fresh_call op w r.bound r.state)
