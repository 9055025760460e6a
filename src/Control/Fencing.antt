-- ===== src/Control/Fencing.antt =====
-- Every executor call of an operation is fenced: its plan, its executor and its lease are proved in
-- the environment in which it is made.
use mathlib.Core.List.{append_assoc}
use testbed_services.Common.{
  String, str_append, eq_iff, Bool, true, false, List, [], ◌∷◌, ◌++◌, ◌≡◌, refl, sym, ap, ◌∙◌, All,
  All-append, arith,
}
use testbed_services.Plan.{Plan, Instance, instances_of}
use testbed_services.Capsule.{Verb, run, verb_name}
use testbed_services.Control.Host.{
  Coordinator, File, missing, unreadable, not_an_object, object, Compilation, failed, compiled,
  ControlHost, Operation, ControlState, Response, pass, Call, ControlWorld,
}
use testbed_services.Control.Checks.{
  Bound, authorise, authorised_plan, only_instance, trusted_path, verify_lease, load_file,
  no_coordinator,
}
use testbed_services.Control.Execute.{call_executor, store, written, execute}
use testbed_services.Control.Frames.{IsFrame, execute-frame}
use testbed_services.Control.Leases.{>>=-eq-pass, MayAct, check_lease-MayAct}

-- The coordinator's state that a file stands for; a missing file is an empty object.
abbrev pub state_of : File Coordinator → Coordinator
state_of missing = no_coordinator
state_of unreadable = no_coordinator
state_of not_an_object = no_coordinator
state_of (object c) = c

load_file-eq :
    (f : File Coordinator) (c : Coordinator) → load_file no_coordinator f ≡ pass c → c ≡ state_of f
unfolding load_file
load_file-eq missing c h = cc
load_file-eq unreadable c h = cc
load_file-eq not_an_object c h = cc
load_file-eq (object d) c h = cc

module _ {J : Type 0} where
  pub authorised_plan-eq :
      (digest confirmation : String) (c : Compilation J) (p : Plan J)
      → authorised_plan digest confirmation c ≡ pass p
      → (c ≡ compiled p)
        × (p.live_allowed ≡ true)
        × (p.plan_digest ≡ digest)
        × (confirmation ≡ str_append "LIVE:" (str_append p.scenario_id (str_append ":" digest)))
  unfolding authorised_plan
  authorised_plan-eq digest confirmation (failed m) p h = cc
  authorised_plan-eq digest confirmation (compiled q) p h = ground (
    arith,
    eq_iff q.plan_digest digest,
    eq_iff confirmation (str_append "LIVE:" (str_append q.scenario_id (str_append ":" digest))),
  )

  only_instance-eq :
      (is : List (Instance J)) (i : Instance J) → only_instance is ≡ pass i → is ≡ i ∷ []
  unfolding only_instance
  only_instance-eq [] i h = cc
  only_instance-eq (j ∷ []) i h = cc
  only_instance-eq (j ∷ k ∷ more) i h = cc

module _ (host : ControlHost) (op : Operation) where
  open host use {
    J, Env, compile_plan, resolve, relative_to_root, runnable, sha256, coordinator, clock,
  }

  -- In the environment in which the call was last checked the scenario compiles to a live plan with the digest and the
  -- confirmation of the operation, the profile has exactly one instance in it, whose executor lies
  -- in the root, can be run and has the plan's hash; the coordinator's state allows the action to
  -- the operation's run and fencing token; the command line starts with
  -- that executor; and a call of `run` is made in that same environment, the lock still held.
  pub record IsFenced (c : Call Env) : Type 0 where
    pub plan_of : Plan J
    pub compiles : compile_plan op.slug c.checked ≡ compiled plan_of
    pub allowed : plan_of.live_allowed ≡ true
    pub same_digest : plan_of.plan_digest ≡ op.digest
    pub same_confirmation :
        op.confirmation
        ≡ str_append "LIVE:" (str_append plan_of.scenario_id (str_append ":" op.digest))
    pub instance_of : Instance J
    pub unique : instances_of plan_of op.profile_id ≡ instance_of ∷ []
    pub inside : relative_to_root (resolve instance_of.executor c.checked) c.checked ≡ true
    pub can_run : runnable (resolve instance_of.executor c.checked) c.checked ≡ true
    pub same_hash :
        sha256 (resolve instance_of.executor c.checked) c.checked ≡ instance_of.executor_sha256
    pub leased :
        MayAct op.action op plan_of.scenario_id (state_of (coordinator c.checked)) (clock c.checked)
    pub atomic : c.verb ≡ run → c.env ≡ c.checked
    pub arguments : List String
    pub line_eq : c.line ≡ resolve instance_of.executor c.checked ∷ verb_name c.verb ∷ arguments

  -- what has been added to the trace, all of it fenced
  pub record Adds (w v : ControlWorld Env) : Type 0 where
    pub added : List (Call Env)
    pub trace_eq : v.trace ≡ added ++ w.trace
    pub each : All IsFenced added

  trusted_path-eq :
      (i : Instance J) (env : Env) (path : String)
      → trusted_path host i env ≡ pass path
      → (path ≡ resolve i.executor env)
        × (relative_to_root (resolve i.executor env) env ≡ true)
        × (runnable (resolve i.executor env) env ≡ true)
        × (sha256 (resolve i.executor env) env ≡ i.executor_sha256)
  unfolding trusted_path
  trusted_path-eq i env path h =
      ground (arith, eq_iff (sha256 (resolve i.executor env) env) i.executor_sha256)

  verify_lease-MayAct :
      (scenario_id : String) (env : Env) (u : Unit)
      → verify_lease host op scenario_id env ≡ pass u
      → MayAct op.action op scenario_id (state_of (coordinator env)) (clock env)
  unfolding verify_lease
  verify_lease-MayAct scenario_id env u h =
      let (c, loaded, checked) = >>=-eq-pass (load_file no_coordinator (coordinator env)) _ u h in
      rw (← load_file-eq (coordinator env) c loaded)
        (check_lease-MayAct op scenario_id c (clock env) op.action u checked)

  authorise-IsFenced :
      (verb : Verb) (b : Bound J) (arguments : List String) (now env : Env)
      → authorise host op env ≡ pass b
      → (verb ≡ run → now ≡ env)
      → IsFenced (record {
        env = now;
        checked = env;
        verb = verb;
        line = b.path ∷ verb_name verb ∷ arguments;
      })
  unfolding authorise
  authorise-IsFenced verb b arguments now env h atomic =
      let (p, planned, h1) =
        >>=-eq-pass (authorised_plan op.digest op.confirmation (compile_plan op.slug env)) _ b h in
      let (i, bound, h2) = >>=-eq-pass (only_instance (instances_of p op.profile_id)) _ b h1 in
      let (path, trusted, h3) = >>=-eq-pass (trusted_path host i env) _ b h2 in
      let (u, leased, h4) = >>=-eq-pass (verify_lease host op p.scenario_id env) _ b h3 in
      let (compiles, allowed, digest, confirmed) =
        authorised_plan-eq op.digest op.confirmation (compile_plan op.slug env) p planned in
      let (at, inside, can_run, same) = trusted_path-eq i env path trusted in
      let b_path : b.path ≡ path = cc h4 in
      record {
        plan_of = p;
        compiles = compiles;
        allowed = allowed;
        same_digest = digest;
        same_confirmation = confirmed;
        instance_of = i;
        unique = only_instance-eq _ i bound;
        inside = inside;
        can_run = can_run;
        same_hash = same;
        leased = verify_lease-MayAct p.scenario_id env u leased;
        atomic = atomic;
        arguments = arguments;
        line_eq = ap (λ t. t ∷ verb_name verb ∷ arguments) (b_path ∙ at);
      }

  Adds-trans : (u v w : ControlWorld Env) → Adds u v → Adds v w → Adds u w
  Adds-trans u v w a b = record {
    added = b.added ++ a.added;
    trace_eq = rw (b.trace_eq, a.trace_eq) (sym (append_assoc b.added a.added u.trace));
    each = All-append IsFenced b.added a.added b.each a.each;
  }

  nothing : (w v : ControlWorld Env) → v.trace ≡ w.trace → Adds w v
  nothing w v h = record { added = []; trace_eq = h; each = tt }

  store-trace :
      (state : ControlState) (response : Response) (w : ControlWorld Env) (f : File ControlState)
      (x : Bool × Env)
      → (written host op response w f x).1.trace ≡ w.trace
  unfolding written
  store-trace state response w f (true, env) = refl
  store-trace state response w f (false, env) = refl

  Adds-frame : IsFrame host op Adds
  unfolding call_executor store
  Adds-frame = record {
    same = λ w. nothing w w refl;
    chain = Adds-trans;
    by_relock = λ w. nothing w _ refl;
    by_unlock = λ w. nothing w _ refl;
    by_call = λ verb b common checked w h atomic. record {
      added =
          record {
            env = w.env;
            checked = checked;
            verb = verb;
            line = b.path ∷ verb_name verb ∷ common;
          }
          ∷ [];
      trace_eq = refl;
      each = (authorise-IsFenced verb b common w.env checked h atomic, tt);
    };
    by_store = λ state response w. nothing w _ (store-trace state response w _ (host.write w.env));
  }

  -- Whatever an operation does, each executor call that it makes, of any verb, was checked under the
  -- coordinator's lock, in an environment in which the scenario compiles to a live plan with the
  -- digest and confirmation, its executor has the plan's hash, and the lease allows the action: an
  -- apply needs its own live active lease and no cleanup claim. A call of `run` is made in the very
  -- environment of that check.
  pub execute-IsFenced : (w : ControlWorld Env) → Adds w (execute host op w).1
  execute-IsFenced w = execute-frame host op Adds-frame w
