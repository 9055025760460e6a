-- ===== src/Boundary/Agreement.antt =====
-- The executor's own authorisation agrees with that of the programs that call it.
use testbed_services.Common.{String, eq_refl, true, some, ◌≡◌, refl, sym}
use testbed_services.Plan.{Plan, confirmation}
use testbed_services.Dispatcher.Host.{Compiled}
use testbed_services.Dispatcher.Calls.{Request, verify, pass as verified}
use testbed_services.Dispatcher.Safety.{verify-IsConfirmed}
use testbed_services.Control.Host.{Compilation, pass as authorised}
use testbed_services.Control.Checks.{authorised_plan}
use testbed_services.Control.Fencing.{authorised_plan-eq}
use testbed_services.Boundary.Live.{pass, authorize_live}

module _ {J : Type 0} where
  -- the tests of `authorize_live`, when they hold
  authorize_live-passes :
      (p : Plan J) (digest confirm : String)
      → p.live_allowed ≡ true
      → digest ≡ p.plan_digest
      → confirm ≡ confirmation p
      → authorize_live p (some digest) (some confirm) ≡ pass tt
  unfolding authorize_live confirmation
  authorize_live-passes p digest confirm a d c =
      rw (a, d, c, eq_refl p.plan_digest, eq_refl (confirmation p)) refl

  -- A plan that the dispatcher has verified for a request is authorised by the executor, when it is
  -- called with the request's digest and confirmation.
  pub verify-authorize_live :
      (r : Request) (c : Compiled J) (p : Plan J)
      → verify r c ≡ verified p
      → authorize_live p (some r.digest) (some r.confirmation) ≡ pass tt
  verify-authorize_live r c p h =
      let (compiles, ok) = verify-IsConfirmed r c p h in
      authorize_live-passes p r.digest r.confirmation ok.allowed ok.same_digest ok.same_confirmation

  -- A plan that the controller has found authorised is authorised by the executor, when it is
  -- called with the operation's digest and confirmation.
  pub authorised_plan-authorize_live :
      (digest confirm : String) (c : Compilation J) (p : Plan J)
      → authorised_plan digest confirm c ≡ authorised p
      → authorize_live p (some digest) (some confirm) ≡ pass tt
  unfolding confirmation
  authorised_plan-authorize_live digest confirm c p h =
      let (compiles, allowed, same_digest, confirmed) = authorised_plan-eq digest confirm c p h in
      authorize_live-passes p digest confirm allowed (sym same_digest) (rw same_digest confirmed)
