-- ===== src/Dispatcher/Safety.antt =====
-- Every executor call of a dispatch is authorised by the plan as it compiles at that moment.
use testbed_services.Common.{
  ℕ, String, eq_iff, Bool, true, false, ◌≡◌, refl, sym, ap, List, [], ◌∷◌, ◌++◌, arith, All,
  All-append,
}
use mathlib.Core.List.{append_assoc}
use testbed_services.Plan.{Plan, Instance, confirmation, instances_of}
use testbed_services.Dispatcher.Host.{
  Compiled, failed, plan, Verb, Host, StateDoc, Event, called, saved, World,
}
use testbed_services.Dispatcher.Calls.{
  Request, Outcome, pass, refuse, ◌>>=◌, verify, sole, verified_plan, executor, prepare, argv,
  perform, perform_prepared, replaced, invoke, write_state,
}
use testbed_services.Dispatcher.Dispatch.{dispatch}
use testbed_services.Dispatcher.Frames.{IsFrame, dispatch-frame}

>>=-eq-pass :
    {A B : Type 0} (m : Outcome A) (f : A → Outcome B) (b : B)
    → (m >>= f) ≡ pass b
    → (a : A) × (m ≡ pass a) × (f a ≡ pass b)
>>=-eq-pass (pass a) f b h = (a, refl, h)
>>=-eq-pass (refuse e) f b h = cc

-- The plan is the one that was confirmed, and it allows live execution.
pub record IsConfirmed {J : Type 0} (r : Request) (p : Plan J) : Type 0 where
  pub allowed : p.live_allowed ≡ true
  pub same_digest : r.digest ≡ p.plan_digest
  pub same_confirmation : r.confirmation ≡ confirmation p

module _ {J : Type 0} (r : Request) where
  pub verify-IsConfirmed :
      (c : Compiled J) (p : Plan J) → verify r c ≡ pass p → (c ≡ plan p) × IsConfirmed r p
  unfolding verify
  verify-IsConfirmed (failed m) p h = cc
  verify-IsConfirmed (plan q) p h =
      ground (arith, eq_iff r.digest q.plan_digest, eq_iff r.confirmation (confirmation q))

  sole-eq-pass :
      (profile_id : String) (is : List (Instance J)) (i : Instance J)
      → sole profile_id is ≡ pass i
      → is ≡ i ∷ []
  unfolding sole
  sole-eq-pass profile_id [] i h = cc
  sole-eq-pass profile_id (j ∷ []) i h = cc
  sole-eq-pass profile_id (j ∷ k ∷ more) i h = cc

module _ (host : Host) (r : Request) where
  open host use {J, Env, compile_plan, resolve, relative_to_root, runnable, sha256}

  -- In the environment of the call the scenario compiles to a confirmed plan with exactly one
  -- instance of the profile, whose executor lies in the root, can be run, and has the plan's hash;
  -- the command line is that executor's, for this scenario, digest and confirmation.
  pub record IsAuthorised (env : Env) (profile_id : String) (verb : Verb) (line : List String)
      : Type 0 where
    pub compiled : Plan J
    pub compiles : compile_plan r.slug env ≡ plan compiled
    pub confirmed : IsConfirmed r compiled
    pub instance_of : Instance J
    pub unique : instances_of compiled profile_id ≡ instance_of ∷ []
    pub inside : relative_to_root (resolve instance_of.executor env) env ≡ true
    pub can_run : runnable (resolve instance_of.executor env) env ≡ true
    pub same_hash : sha256 (resolve instance_of.executor env) env ≡ instance_of.executor_sha256
    pub same_line : line ≡ argv host r verb (resolve instance_of.executor env)

  abbrev pub IsSafe : Event Env → Type 0
  IsSafe (called env profile_id verb line) = IsAuthorised env profile_id verb line
  IsSafe (saved doc) = Unit

  -- what has been added to the trace, all of it safe
  pub record Adds (w v : World Env) : Type 0 where
    pub added : List (Event Env)
    pub trace_eq : v.trace ≡ added ++ w.trace
    pub each : All IsSafe added

  executor-eq-pass :
      (i : Instance J) (env : Env) (path : String)
      → executor host i env ≡ pass path
      → (path ≡ resolve i.executor env)
        × (relative_to_root (resolve i.executor env) env ≡ true)
        × (runnable (resolve i.executor env) env ≡ true)
        × (sha256 (resolve i.executor env) env ≡ i.executor_sha256)
  unfolding executor
  executor-eq-pass i env path h =
      ground (arith, eq_iff (sha256 (resolve i.executor env) env) i.executor_sha256)

  prepare-IsAuthorised :
      (profile_id : String) (verb : Verb) (env : Env) (path : String)
      → prepare host r profile_id env ≡ pass path
      → IsAuthorised env profile_id verb (argv host r verb path)
  unfolding prepare verified_plan
  prepare-IsAuthorised profile_id verb env path h =
      let (p, verified, rest) = >>=-eq-pass (verify r (compile_plan r.slug env)) _ path h in
      let (i, bound, run) = >>=-eq-pass (sole profile_id (instances_of p profile_id)) _ path rest in
      let (compiles, confirmed) = verify-IsConfirmed r (compile_plan r.slug env) p verified in
      let (at, inside, can_run, same) = executor-eq-pass i env path run in
      record {
        compiled = p;
        compiles = compiles;
        confirmed = confirmed;
        instance_of = i;
        unique = sole-eq-pass r profile_id _ i bound;
        inside = inside;
        can_run = can_run;
        same_hash = same;
        same_line = ap (argv host r verb) at;
      }

  perform_prepared-Adds :
      (fence : ℕ) (profile_id : String) (verb : Verb) (w : World Env) (o : Outcome String)
      → prepare host r profile_id w.env ≡ o
      → Adds w (perform_prepared host r fence profile_id verb w o).1
  unfolding perform_prepared perform
  perform_prepared-Adds fence profile_id verb w (refuse e) h = record {
    added = [];
    trace_eq = refl;
    each = tt;
  }
  perform_prepared-Adds fence profile_id verb w (pass path) h = record {
    added = called w.env profile_id verb (argv host r verb path) ∷ [];
    trace_eq = refl;
    each = (prepare-IsAuthorised profile_id verb w.env path h, tt);
  }

  Adds-trans : (u v w : World Env) → Adds u v → Adds v w → Adds u w
  Adds-trans u v w a b = record {
    added = b.added ++ a.added;
    trace_eq = rw (b.trace_eq, a.trace_eq) (sym (append_assoc b.added a.added u.trace));
    each = All-append IsSafe b.added a.added b.each a.each;
  }

  replaced-Adds :
      (doc : StateDoc) (w : World Env) (x : Bool × Env) → Adds w (replaced host doc w x).1
  unfolding replaced
  replaced-Adds doc w (true, env) = record {
    added = saved doc ∷ [];
    trace_eq = refl;
    each = (tt, tt);
  }
  replaced-Adds doc w (false, env) = record { added = []; trace_eq = refl; each = tt }

  Adds-frame : IsFrame host r Adds
  unfolding invoke write_state
  Adds-frame = record {
    same = λ w. record { added = []; trace_eq = refl; each = tt };
    chain = Adds-trans;
    by_invoke = λ fence verb profile_id w. perform_prepared-Adds fence profile_id verb w _ refl;
    by_write = λ doc w. replaced-Adds doc w (host.write w.env);
  }

  -- Whatever a dispatch adds to the trace, and however it ends, each executor call in it was made
  -- in an environment in which the scenario compiles to a live plan with the requested digest and
  -- confirmation, the profile has exactly one instance in that plan, and the executor lies in the
  -- trusted root, can be run and has the hash of the plan.
  pub dispatch-IsSafe : (action : String) (w : World Env) → Adds w (dispatch host r action w).1
  dispatch-IsSafe action w = dispatch-frame host r Adds-frame action w
