-- ===== src/Control/Idempotence.antt =====
-- An idempotency key that has answered an apply never injects a second time.
use testbed_services.Common.{
  subst, String, str_eq, eq_refl, Bool, true, false, ◌&&◌, some, List, [], ◌∷◌, ◌≡◌, refl, sym, ap,
  ◌∙◌, inl, inr, arith, Bool-cases,
}
use testbed_services.Control.Host.{
  File, ControlHost, Action, apply, cleanup, other, Operation, ControlRequest, Answer, Response,
  ControlState, Outcome, pass, refuse, ControlWorld,
}
use testbed_services.Control.Checks.{is_apply, Bound, load_file}
use testbed_services.Control.Execute.{
  Result, relock, answered, loaded, admitted, accepted, execute, same_identity, request_of, lookup,
  insert, no_results, guarded, action_eq,
}
use testbed_services.Control.Ends.{Ends, IsReplay, IsNew, execute-Ends, answer_of}

&&-true-left : (a b : Bool) → (a && b) ≡ true → a ≡ true
&&-true-left true b h = refl
&&-true-left false b h = h

&&-true-right : (a b : Bool) → (a && b) ≡ true → b ≡ true
&&-true-right true b h = h
&&-true-right false b h = absurd (cc h)

action_eq-apply : (a : Action) → action_eq a apply ≡ true → a ≡ apply
action_eq-apply apply h = refl
action_eq-apply cleanup h = absurd (cc h)
action_eq-apply other h = absurd (cc h)

answers_apply : (a b : Action) → a ≡ apply → action_eq a b ≡ true → is_apply b ≡ true
answers_apply a apply e h = refl
answers_apply a cleanup e h = absurd (cc (ap (λ x. action_eq x cleanup) e, h))
answers_apply a other e h = absurd (cc (ap (λ x. action_eq x other) e, h))

same_identity-action :
    (a b : ControlRequest) → same_identity a b ≡ true → action_eq a.action b.action ≡ true
unfolding same_identity
same_identity-action a b h = ground arith

lookup-insert :
    (key : String) (a : Answer) (rows : List (String × Answer))
    → lookup key (insert key a rows) ≡ some a
unfolding lookup insert
lookup-insert key a [] = rw (eq_refl key) refl
lookup-insert key a ((k, b) ∷ rows) = elim (Bool-cases (str_eq k key)) [
  | inl e ↦ rw (e, eq_refl key) refl
  | inr e ↦ rw (e, e) (lookup-insert key a rows)
]

-- The key's stored answer, to an apply.
pub record Holds (key : String) (response : Response) (file : File ControlState) : Type 0 where
  pub state : ControlState
  pub answer : Answer
  pub readable : load_file no_results file ≡ pass state
  pub stored : lookup key state.results ≡ some answer
  pub of_apply : answer.request.action ≡ apply
  pub response_eq : answer.response ≡ response

module _ (host : ControlHost) where
  open host use {Env, J}

  module _ (op : Operation) (w : ControlWorld Env) where
    abbrev Leaves : Result host → Type 0
    Leaves (refuse e, v) = Unit
    Leaves (pass response, v) = Holds op.idempotency_key response v.file

    replay-Holds :
        (v : ControlWorld Env) (response : Response)
        → op.action ≡ apply
        → IsReplay host op w v response
        → Holds op.idempotency_key response v.file
    unfolding request_of
    replay-Holds v response a r = record {
      state = r.state;
      answer = r.answer;
      readable = rw (r.nothing_done) r.readable;
      stored = r.stored;
      of_apply = action_eq-apply r.answer.request.action (
          ap (action_eq r.answer.request.action) (sym a)
          ∙ same_identity-action r.answer.request (request_of op) r.same_request);
      response_eq = sym r.response_eq;
    }

    new-Holds :
        (v : ControlWorld Env) (response : Response)
        → op.action ≡ apply
        → IsNew host op w v response
        → Holds op.idempotency_key response v.file
    unfolding load_file request_of
    new-Holds v response a n = record {
      state = _;
      answer = answer_of host op response;
      readable = ap (load_file no_results) n.file_eq;
      stored = lookup-insert op.idempotency_key (answer_of host op response) n.state.results;
      of_apply = a;
      response_eq = refl;
    }

    Ends-Leaves : (x : Result host) → op.action ≡ apply → Ends host op w x → Leaves x
    Ends-Leaves (refuse e, v) a h = tt
    Ends-Leaves (pass response, v) a (inl r) = replay-Holds v response a r
    Ends-Leaves (pass response, v) a (inr n) = new-Holds v response a n

  -- A later operation that calls nothing, and gives no other response than `response`.
  abbrev pub Answers : Response → ControlWorld Env → Result host → Type 0
  Answers response u (refuse e, x) = x.trace ≡ u.trace
  Answers response u (pass again, x) = (again ≡ response) × (x.trace ≡ u.trace)

  module _ (op : Operation) (response : Response) (u : ControlWorld Env) where
    answered-Answers :
        (state : ControlState) (b : Bound J) (a : Answer)
        → a.request.action ≡ apply
        → a.response ≡ response
        → Answers response u (answered host op state b (some a) (relock host u))
    unfolding answered request_of
    answered-Answers state b a is h = elim (Bool-cases (same_identity a.request (request_of op))) [
      | inr n ↦ rw n refl
      | inl y ↦
          rw
            (
              y,
              answers_apply a.request.action op.action is
                  (same_identity-action a.request (request_of op) y),
            )
            (h, refl)
    ]

    loaded-Answers :
        (b : Bound J) (o : Outcome ControlState)
        → Holds op.idempotency_key response u.file
        → load_file no_results u.file ≡ o
        → Answers response u (loaded host op b o (relock host u))
    unfolding loaded
    loaded-Answers b (refuse e) h k = refl
    loaded-Answers b (pass state) h k =
        let same : pass h.state ≡ pass state = sym h.readable ∙ k in
        let found : lookup op.idempotency_key state.results ≡ some h.answer = cc (same, h.stored) in
        rw found (answered-Answers state b h.answer h.of_apply h.response_eq)

    admitted-Answers :
        (o : Outcome (Bound J))
        → Holds op.idempotency_key response u.file
        → Answers response u (admitted host op o (relock host u))
    unfolding admitted
    admitted-Answers (refuse e) h = refl
    admitted-Answers (pass b) h = loaded-Answers b _ h refl

    accepted-Answers :
        (o : Outcome Unit)
        → Holds op.idempotency_key response u.file
        → Answers response u (accepted host op o u)
    unfolding accepted
    accepted-Answers (refuse e) h = refl
    accepted-Answers (pass _) h = admitted-Answers _ h

  -- Once an apply has returned a response, an operation of any kind that comes with the same
  -- idempotency key, while the control file is as it was left, calls no executor, and returns that
  -- response if it returns.
  pub execute_injects_once :
      (op again : Operation) (w u v : ControlWorld Env) (response : Response)
      → op.action ≡ apply
      → execute host op w ≡ (pass response, v)
      → again.idempotency_key ≡ op.idempotency_key
      → u.file ≡ v.file
      → Answers response u (execute host again u)
  unfolding execute
  execute_injects_once op again w u v response a returned same_key same_file =
      let held =
        subst (Leaves op w) returned
          (Ends-Leaves op w (execute host op w) a (execute-Ends host op w)) in
      accepted-Answers again response u (guarded again) (
        subst (λ k. Holds k response u.file) (sym same_key)
          (subst (λ f. Holds op.idempotency_key response f) (sym same_file) held))
