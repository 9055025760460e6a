-- ===== src/Control/Leases.antt =====
-- What `_verify_lease` of scripts/scenarios/profile-control.py establishes when it does not raise.
use testbed_services.Common.{
  ℕ, ◌<◌, String, eq_iff, Bool, true, false, not, ◌&&◌, some, ◌≡◌, refl, ◌⊎◌, inl, inr,
  if◌then◌else◌, Bool-cases, Option-cases, arith,
}
use testbed_services.Common.Int.{ℤ, int_eq_iff}
use testbed_services.Control.Host.{
  Expiry, never, malformed, at, Lease, Claim, absent, claim, Coordinator, Action, apply, cleanup,
  other, Operation, no_lease, Outcome, pass, refuse,
}
use testbed_services.Control.Checks.{
  ◌>>=◌, is_cleanup, check_lease, check_active, check_expiry, check_claim, holds, is_held,
  claim_matches, is_claimed, deny,
}

pub >>=-eq-pass :
    {A B : Type 0} (m : Outcome A) (f : A → Outcome B) (b : B)
    → (m >>= f) ≡ pass b
    → (a : A) × (m ≡ pass a) × (f a ≡ pass b)
>>=-eq-pass (pass a) f b h = (a, refl, h)
>>=-eq-pass (refuse e) f b h = cc

-- The lease is the operation's own.
pub record IsOwn (op : Operation) (scenario_id : String) (lease : Lease) : Type 0 where
  pub same_run : lease.run_id ≡ op.run_id
  pub same_token : lease.fencing_token ≡ op.fencing_token
  pub same_scenario : lease.scenario_id ≡ scenario_id

-- The lease has no expiry, or has not expired at `now`.
abbrev pub IsLive : Expiry → ℕ → Type 0
IsLive never now = Unit
IsLive malformed now = ⊥
IsLive (at expires) now = now < expires

-- What an apply needs: the active lease is the operation's own, it is live, and nothing claims a
-- cleanup.
pub record MayApply (op : Operation) (scenario_id : String) (c : Coordinator) (now : ℕ)
    : Type 0 where
  pub lease : Lease
  pub active : c.active_lease ≡ some lease
  pub own : IsOwn op scenario_id lease
  pub live : IsLive lease.expires_at now
  pub unclaimed : c.cleanup_claim ≡ absent

-- What a cleanup needs: the active lease is the operation's own, a cleanup claim, if there is one,
-- is the operation's, and without a claim the lease is live; or the dirty run is the operation's.
abbrev pub MayCleanUp : Operation → String → Coordinator → ℕ → Type 0
MayCleanUp op scenario_id c now =
    ((lease : Lease) × (c.active_lease ≡ some lease)
      × IsOwn op scenario_id lease
      × (((c.cleanup_claim ≡ absent) × IsLive lease.expires_at now)
          ⊎ (c.cleanup_claim ≡ claim op.run_id op.fencing_token)))
    ⊎ ((lease : Lease) × (c.dirty_run ≡ some lease) × IsOwn op scenario_id lease)

-- An apply needs the first, and any other action the second.
abbrev pub MayAct : Action → Operation → String → Coordinator → ℕ → Type 0
MayAct apply = MayApply
MayAct cleanup = MayCleanUp
MayAct other = MayApply

holds-IsOwn :
    (op : Operation) (scenario_id : String) (lease : Lease)
    → holds lease op.run_id op.fencing_token scenario_id ≡ true
    → IsOwn op scenario_id lease
holds-IsOwn op scenario_id lease h =
    let a : lease.run_id ≡ op.run_id = ground (arith, eq_iff lease.run_id op.run_id) in
    let b : lease.fencing_token ≡ op.fencing_token =
      ground (arith, int_eq_iff lease.fencing_token op.fencing_token) in
    let c : lease.scenario_id ≡ scenario_id =
      ground (arith, eq_iff lease.scenario_id scenario_id) in
    record { same_run = a; same_token = b; same_scenario = c }

check_expiry-IsLive :
    (e : Expiry) (now : ℕ) (allow_dirty matching : Bool) (u : Unit)
    → check_expiry e now allow_dirty matching ≡ pass u
    → IsLive e now ⊎ ((allow_dirty ≡ true) × (matching ≡ true))
unfolding check_expiry
check_expiry-IsLive never now a m u h = inl tt
check_expiry-IsLive malformed now a m u h = cc
check_expiry-IsLive (at t) now true true u h = inr (refl, refl)
check_expiry-IsLive (at t) now true false u h = inl (ground arith)
check_expiry-IsLive (at t) now false m u h = inl (ground arith)

claim_matches-eq :
    (c : Claim) (run_id : String) (token : ℤ)
    → claim_matches c run_id token ≡ true
    → c ≡ claim run_id token
claim_matches-eq absent run_id token h = cc
claim_matches-eq Claim.other run_id token h = cc
claim_matches-eq (claim r t) run_id token h = ground (arith, eq_iff r run_id, int_eq_iff t token)

unclaimed-eq : (c : Claim) → is_claimed c ≡ false → c ≡ absent
unclaimed-eq absent h = refl
unclaimed-eq Claim.other h = cc
unclaimed-eq (claim r t) h = cc

-- What a test of the active lease has passed.
check_active-pass :
    (lease : Lease) (now : ℕ) (allow_dirty : Bool) (c : Claim) (matching : Bool) (u : Unit)
    → check_active (some lease) now allow_dirty c matching ≡ pass u
    → ((allow_dirty ≡ true) ⊎ (is_claimed c ≡ false))
      × (IsLive lease.expires_at now ⊎ ((allow_dirty ≡ true) × (matching ≡ true)))
      × ((is_claimed c ≡ false) ⊎ ((allow_dirty ≡ false) ⊎ (matching ≡ true)))
unfolding check_active check_claim
check_active-pass lease now allow_dirty c matching u h =
    elim (Bool-cases (not allow_dirty && is_claimed c)) [
      | inl y ↦ cc (rw y at h)
      | inr n ↦
          let (v, checked, rest) =
            >>=-eq-pass (check_expiry lease.expires_at now allow_dirty matching) _ u (rw n at h) in
          (
            ground arith,
            check_expiry-IsLive lease.expires_at now allow_dirty matching v checked,
            ground arith,
          )
    ]

of_false : {A : Type 0} (b : Bool) → (b ≡ true) ⊎ A → b ≡ false → A
of_false b (inl h) k = cc
of_false b (inr a) k = a

module _ (op : Operation) (scenario_id : String) (c : Coordinator) (now : ℕ) where
  active_MayApply :
      (lease : Lease) (u : Unit) (matching : Bool)
      → c.active_lease ≡ some lease
      → IsOwn op scenario_id lease
      → check_active (some lease) now false c.cleanup_claim matching ≡ pass u
      → MayApply op scenario_id c now
  active_MayApply lease u matching e own h =
      let t = check_active-pass lease now false c.cleanup_claim matching u h in
      record {
        lease = lease;
        active = e;
        own = own;
        live = elim t.1 [ inl live ↦ live | inr (a, b) ↦ cc ];
        unclaimed = unclaimed-eq c.cleanup_claim (of_false false t.0 refl);
      }

  check_lease-MayApply :
      (u : Unit)
      → check_lease c now op.run_id op.fencing_token scenario_id false ≡ pass u
      → MayApply op scenario_id c now
  unfolding check_lease
  check_lease-MayApply u h = elim (Option-cases c.active_lease) [
    | inl e ↦ cc (rw e at h)
    | inr (lease, e) ↦ elim (Bool-cases (holds lease op.run_id op.fencing_token scenario_id)) [
      | inr n ↦ cc (rw (e, n) at h)
      | inl y ↦ active_MayApply lease u _ e (holds-IsOwn op scenario_id lease y) (rw (e, y) at h)
    ]
  ]

  -- what the active lease allows a cleanup
  ByActive : Lease → Type 0
  ByActive lease =
      ((c.cleanup_claim ≡ absent) × IsLive lease.expires_at now)
      ⊎ (c.cleanup_claim ≡ claim op.run_id op.fencing_token)

  active_cleanup :
      (lease : Lease) (u : Unit)
      → check_active
          (some lease)
          now
          true
          c.cleanup_claim
          (claim_matches c.cleanup_claim op.run_id op.fencing_token)
        ≡ pass u
      → ByActive lease
  unfolding ByActive
  active_cleanup lease u h =
      let m = claim_matches c.cleanup_claim op.run_id op.fencing_token in
      let t = check_active-pass lease now true c.cleanup_claim m u h in
      elim (Bool-cases m) [
        | inl y ↦ inr (claim_matches-eq c.cleanup_claim op.run_id op.fencing_token y)
        | inr n ↦ inl (
          unclaimed-eq c.cleanup_claim
              (elim t.2 [ inl a ↦ a | inr b ↦ elim b [ inl x ↦ cc | inr y ↦ cc ] ]),
          elim t.1 [ inl live ↦ live | inr (x, y) ↦ cc ],
        )
      ]

  dirty_cleanup :
      (u : Unit)
      → (if is_held c.dirty_run op.run_id op.fencing_token scenario_id
          then pass tt
          else deny no_lease)
        ≡ pass u
      → (lease : Lease) × (c.dirty_run ≡ some lease) × IsOwn op scenario_id lease
  dirty_cleanup u h = elim (Option-cases c.dirty_run) [
    | inl e ↦ cc (rw e at h)
    | inr (lease, e) ↦ elim (Bool-cases (holds lease op.run_id op.fencing_token scenario_id)) [
      | inr n ↦ cc (rw (e, n) at h)
      | inl y ↦ (lease, e, holds-IsOwn op scenario_id lease y)
    ]
  ]

  check_lease-MayCleanUp :
      (u : Unit)
      → check_lease c now op.run_id op.fencing_token scenario_id true ≡ pass u
      → MayCleanUp op scenario_id c now
  unfolding check_lease ByActive
  check_lease-MayCleanUp u h = elim (Option-cases c.active_lease) [
    | inl e ↦ inr (dirty_cleanup u (rw e at h))
    | inr (lease, e) ↦ elim (Bool-cases (holds lease op.run_id op.fencing_token scenario_id)) [
      | inr n ↦ inr (dirty_cleanup u (rw (e, n) at h))
      | inl y ↦
          inl
            (lease, e, holds-IsOwn op scenario_id lease y, active_cleanup lease u (rw (e, y) at h))
    ]
  ]

  pub check_lease-MayAct :
      (action : Action) (u : Unit)
      → check_lease c now op.run_id op.fencing_token scenario_id (is_cleanup action) ≡ pass u
      → MayAct action op scenario_id c now
  check_lease-MayAct apply u h = check_lease-MayApply u h
  check_lease-MayAct cleanup u h = check_lease-MayCleanUp u h
  check_lease-MayAct other u h = check_lease-MayApply u h
