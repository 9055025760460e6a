-- ===== src/Control/Ends.antt =====
-- How an operation ends: what it has called, and what the control file then holds.
use testbed_services.Common.{
  ℕ, zero, suc, String, Bool, true, false, ◌||◌, Option, none, some, List, [], ◌∷◌, ◌≡◌, refl, ap,
  ◌⊎◌, inl, inr, Bool-cases,
}
use testbed_services.Capsule.{Reply, raised, completed, Verb, preflight, run, recovery}
use testbed_services.Control.Host.{
  File, object, ControlHost, Action, apply, cleanup, other, Operation, Answer, Response, applied,
  cleaned, ControlState, Outcome, pass, refuse, Call, ControlWorld,
}
use testbed_services.Control.Checks.{is_apply, Bound, load_file}
use testbed_services.Control.Execute.{
  Result, relock, call_executor, written, store, recovered, verify_recovery, after_cleanup,
  after_run, mutate, reverified, reverify, after_preflight, with_line, operate, answered, loaded,
  admitted, accepted, execute, same_identity, request_of, succeeded, lookup, insert, no_results,
  guarded,
}

-- The verbs of a trace, newest first.
abbrev pub verbs : {Env : Type 0} → List (Call Env) → List Verb
verbs [] = []
verbs (c ∷ cs) = c.verb ∷ verbs cs

-- The calls behind a response that is new, on top of `base`.
abbrev pub Shape : List Verb → Response → List Verb → Type 0
Shape base (applied t) vs = vs ≡ run ∷ preflight ∷ base
Shape base (cleaned true ended reason) vs = vs ≡ recovery ∷ Verb.cleanup ∷ preflight ∷ base
Shape base (cleaned false ended reason) vs =
    (vs ≡ Verb.cleanup ∷ preflight ∷ base) ⊎ (vs ≡ recovery ∷ Verb.cleanup ∷ preflight ∷ base)

module _ (host : ControlHost) (op : Operation) where
  open host use {J, Env, clock}

  abbrev pub answer_of : Response → Answer
  answer_of response = record { request = request_of op; response = response }

  -- the file with the answer stored under the operation's key
  abbrev pub with_answer : ControlState → Response → File ControlState
  with_answer state response =
      object (record { results = insert op.idempotency_key (answer_of response) state.results })

  module _ (state : ControlState) (base : List Verb) (old : File ControlState) where
    abbrev Done : Result host → Type 0
    Done (refuse e, v) = v.file ≡ old
    Done (pass response, v) =
        (v.file ≡ with_answer state response) × Shape base response (verbs v.trace)

    written-Done :
        (response : Response) (w : ControlWorld Env) (x : Bool × Env)
        → w.file ≡ old
        → Shape base response (verbs w.trace)
        → Done (written host op response w (with_answer state response) x)
    unfolding written
    written-Done response w (true, env) h s = (refl, s)
    written-Done response w (false, env) h s = h

    store-Done :
        (response : Response) (w : ControlWorld Env)
        → w.file ≡ old
        → Shape base response (verbs w.trace)
        → Done (store host op state response w)
    unfolding store
    store-Done response w h s = written-Done response w (host.write w.env) h s

    recovered-Done :
        (now : ℕ) (x : Reply × ControlWorld Env)
        → x.1.file ≡ old
        → verbs x.1.trace ≡ recovery ∷ Verb.cleanup ∷ preflight ∷ base
        → Done (recovered host op state now x)
    unfolding recovered
    recovered-Done now (raised m, w) h s = h
    recovered-Done now (completed zero out error, w) h s = store-Done _ w h s
    recovered-Done now (completed (suc c) out error, w) h s = store-Done _ w h (inr s)

    verify_recovery-Done :
        (now : ℕ) (o : Outcome (Bound J)) (w : ControlWorld Env)
        → w.file ≡ old
        → verbs w.trace ≡ Verb.cleanup ∷ preflight ∷ base
        → Done (verify_recovery host op state now o w)
    unfolding verify_recovery call_executor
    verify_recovery-Done now (refuse e) w h s = h
    verify_recovery-Done now (pass b) w h s = recovered-Done now _ h (ap (λ vs. recovery ∷ vs) s)

    after_cleanup-Done :
        (x : Reply × ControlWorld Env)
        → x.1.file ≡ old
        → verbs x.1.trace ≡ Verb.cleanup ∷ preflight ∷ base
        → Done (after_cleanup host op state x)
    unfolding after_cleanup
    after_cleanup-Done (raised m, w) h s = h
    after_cleanup-Done (completed (suc c) out error, w) h s = store-Done _ w h (inl s)
    after_cleanup-Done (completed zero out error, w) h s =
        verify_recovery-Done (clock w.env) _ (relock host w) h s

    after_run-Done :
        (started : ℕ) (x : Reply × ControlWorld Env)
        → x.1.file ≡ old
        → verbs x.1.trace ≡ run ∷ preflight ∷ base
        → Done (after_run host op state started x)
    unfolding after_run
    after_run-Done started (raised m, w) h s = h
    after_run-Done started (completed (suc c) out error, w) h s = h
    after_run-Done started (completed zero out error, w) h s = store-Done _ w h s

    mutate-Done :
        (action : Action) (common : List String) (b : Bound J) (w : ControlWorld Env)
        → w.file ≡ old
        → verbs w.trace ≡ preflight ∷ base
        → Done (mutate host op action state common b w)
    unfolding mutate call_executor
    mutate-Done apply common b w h s = after_run-Done (clock w.env) _ h (ap (λ vs. run ∷ vs) s)
    mutate-Done cleanup common b w h s = after_cleanup-Done _ h (ap (λ vs. Verb.cleanup ∷ vs) s)
    mutate-Done other common b w h s = after_cleanup-Done _ h (ap (λ vs. Verb.cleanup ∷ vs) s)

    reverified-Done :
        (common : List String) (o : Outcome (Bound J)) (w : ControlWorld Env)
        → w.file ≡ old
        → verbs w.trace ≡ preflight ∷ base
        → Done (reverified host op state common o w)
    unfolding reverified
    reverified-Done common (refuse e) w h s = h
    reverified-Done common (pass b) w h s = mutate-Done op.action common b w h s

    after_preflight-Done :
        (common : List String) (x : Reply × ControlWorld Env)
        → x.1.file ≡ old
        → verbs x.1.trace ≡ preflight ∷ base
        → Done (after_preflight host op state common x)
    unfolding after_preflight reverify
    after_preflight-Done common (raised m, w) h s = h
    after_preflight-Done common (completed zero out error, w) h s =
        reverified-Done common _ (relock host w) h s
    after_preflight-Done common (completed (suc c) out error, w) h s =
        elim (Bool-cases (is_apply op.action)) [
          | inl a ↦ rw a h
          | inr a ↦ rw a (reverified-Done common _ (relock host w) h s)
        ]

    with_line-Done :
        (b : Bound J) (o : Outcome (List String)) (w : ControlWorld Env)
        → w.file ≡ old
        → verbs w.trace ≡ base
        → Done (with_line host op state b o w)
    unfolding with_line call_executor
    with_line-Done b (refuse e) w h s = h
    with_line-Done b (pass common) w h s =
        after_preflight-Done common _ h (ap (λ vs. preflight ∷ vs) s)

    pub operate-Done :
        (b : Bound J) (w : ControlWorld Env)
        → w.file ≡ old
        → verbs w.trace ≡ base
        → Done (operate host op state b w)
    unfolding operate
    operate-Done b w h s = with_line-Done b _ w h s

  -- The stored answer to this operation, which is given again.
  pub record IsReplay (w v : ControlWorld Env) (response : Response) : Type 0 where
    pub state : ControlState
    pub answer : Answer
    pub readable : load_file no_results w.file ≡ pass state
    pub stored : lookup op.idempotency_key state.results ≡ some answer
    pub same_request : same_identity answer.request (request_of op) ≡ true
    pub final : (is_apply op.action || succeeded answer.response) ≡ true
    pub response_eq : response ≡ answer.response
    pub nothing_done : v ≡ relock host w

  -- A new answer, with the calls behind it.
  pub record IsNew (w v : ControlWorld Env) (response : Response) : Type 0 where
    pub state : ControlState
    pub readable : load_file no_results w.file ≡ pass state
    pub file_eq : v.file ≡ with_answer state response
    pub shape : Shape (verbs w.trace) response (verbs v.trace)

  abbrev pub Ends : ControlWorld Env → Result host → Type 0
  Ends w (refuse e, v) = v.file ≡ w.file
  Ends w (pass response, v) = IsReplay w v response ⊎ IsNew w v response

  Done-Ends :
      (state : ControlState) (w : ControlWorld Env) (x : Result host)
      → load_file no_results w.file ≡ pass state
      → Done state (verbs w.trace) w.file x
      → Ends w x
  Done-Ends state w (refuse e, v) r d = d
  Done-Ends state w (pass response, v) r d =
      inr (record { state = state; readable = r; file_eq = d.0; shape = d.1 })

  answered-Ends :
      (state : ControlState) (b : Bound J) (o : Option Answer) (w : ControlWorld Env)
      → load_file no_results w.file ≡ pass state
      → lookup op.idempotency_key state.results ≡ o
      → Ends w (answered host op state b o (relock host w))
  unfolding answered
  answered-Ends state b none w r k =
      Done-Ends state w _ r (operate-Done state _ _ b (relock host w) refl refl)
  answered-Ends state b (some a) w r k =
      elim (Bool-cases (same_identity a.request (request_of op))) [
        | inr n ↦ rw n refl
        | inl y ↦ elim (Bool-cases (is_apply op.action || succeeded a.response)) [
          | inl t ↦
              rw (y, t)
                (inl (record {
                  state = state;
                  answer = a;
                  readable = r;
                  stored = k;
                  same_request = y;
                  final = t;
                  response_eq = refl;
                  nothing_done = refl;
                }))
          | inr t ↦
              rw (y, t) (Done-Ends state w _ r (operate-Done state _ _ b (relock host w) refl refl))
        ]
      ]

  loaded-Ends :
      (b : Bound J) (o : Outcome ControlState) (w : ControlWorld Env)
      → load_file no_results w.file ≡ o
      → Ends w (loaded host op b o (relock host w))
  unfolding loaded
  loaded-Ends b (refuse e) w h = refl
  loaded-Ends b (pass state) w h = answered-Ends state b _ w h refl

  admitted-Ends :
      (o : Outcome (Bound J)) (w : ControlWorld Env) → Ends w (admitted host op o (relock host w))
  unfolding admitted
  admitted-Ends (refuse e) w = refl
  admitted-Ends (pass b) w = loaded-Ends b _ w refl

  accepted-Ends : (o : Outcome Unit) (w : ControlWorld Env) → Ends w (accepted host op o w)
  unfolding accepted
  accepted-Ends (refuse e) w = refl
  accepted-Ends (pass _) w = admitted-Ends _ w

  -- An operation that raises leaves the control file as it was. One that returns has either
  -- answered with the response that is stored for the same request, and called nothing; or it has
  -- stored a new response under its key after exactly the calls of that response: preflight and run
  -- of an apply, preflight, cleanup and recovery of a cleanup that succeeded, and the same or only
  -- the first two of a cleanup that did not.
  pub execute-Ends : (w : ControlWorld Env) → Ends w (execute host op w)
  unfolding execute
  execute-Ends w = accepted-Ends (guarded op) w
