-- ===== src/Audit/Silenced.antt =====
-- The targets that a shift names as silenced: `activity_shift`.
use testbed_services.Common.{ℕ, ◌+◌, ◌-◌, ◌*◌, String, true, Option, List, ◌≡◌, All}
use testbed_services.Common.Texts.{is_in}
use testbed_services.Audit.Runs.{ok}
use testbed_services.Audit.Host.{AuditHost, Traces, parse}
use testbed_services.Audit.Shift.{
  second, minute, Activity, Measured, activity_of, Shift, observed_services, measure,
}

module _ (host : AuditHost) (traces : Traces) (targets : List String) (entry : Option String) where
  -- the three measurements of an injection between two times
  pub record IsMeasured (services : List String) (t1 t2 : ℕ) (pre during post : Measured host)
      : Type 0 where
    pub pre_eq : measure host traces services (t1 - 5 * minute) (t1 - 5 * second) ≡ ok pre
    pub during_eq : measure host traces services t1 t2 ≡ ok during
    pub post_eq :
        measure host traces services (t2 + 30 * second) (t2 + 30 * second + 5 * minute) ≡ ok post

  -- A target that fell silent while the injection lasted: what was measured of it has it collapsed
  -- and recovered.
  pub record IsSilenced (pre during post : Measured host) (x : String) : Type 0 where
    pub is_target : is_in x targets ≡ true
    pub collapsed : (activity_of host entry targets pre during post x).collapsed ≡ true
    pub recovered : (activity_of host entry targets pre during post x).recovered ≡ true

  abbrev IsRow : (pre during post : Measured host) → Activity host → Type 0
  IsRow pre during post v = v ≡ activity_of host entry targets pre during post v.service

  -- what is known of a shift that names silenced targets
  pub record Silenced (from to : String) (xs : List String) : Type 0 where
    pub t1 : ℕ
    pub t2 : ℕ
    pub t1_eq : parse host from ≡ ok t1
    pub t2_eq : parse host to ≡ ok t2
    pub pre : Measured host
    pub during : Measured host
    pub post : Measured host
    pub measured : IsMeasured (observed_services host targets entry) t1 t2 pre during post
    pub all_silenced : All (IsSilenced pre during post) xs
