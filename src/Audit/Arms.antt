-- ===== src/Audit/Arms.antt =====
-- The tick whose control arm a report shows: `audit_run` and `control_arm`.
use testbed_services.Common.{
  ℕ, suc, ◌-◌, ◌<◌, String, true, Option, none, some, List, [], ◌∷◌, ◌≡◌, refl, sym, ap, subst,
  Bool-cases, inl, inr, length, get_elem?, rev_onto, leb, arith, eq_iff,
}
use testbed_services.Audit.Runs.{ok, AuditTick}
use testbed_services.Audit.Gates.{is_outcome, Window, verdict_window}
use testbed_services.Audit.Windows.{verdict_window-IsWindow}
use testbed_services.Audit.Arm.{arm_at, control_arm}
use testbed_services.Audit.Report.{found, index_at, verdict_of_window, end_index}

is_outcome-eq : (o : Option String) (text : String) → is_outcome o text ≡ true → o ≡ some text
is_outcome-eq none text h = absurd (cc h)
is_outcome-eq (some s) text h = ap some ((eq_iff s text).0 h)

eq-is_outcome : (o : Option String) (text : String) → o ≡ some text → is_outcome o text ≡ true
eq-is_outcome none text h = absurd (cc h)
eq-is_outcome (some s) text h = let same : s ≡ text = cc h in (eq_iff s text).1 same

module _ {V : Type 0} (end_at : String) where
  -- The tick at an index has the time.
  pub record IsAt (ticks : List (AuditTick V)) (i : ℕ) : Type 0 where
    pub tick : AuditTick V
    pub tick_eq : get_elem? ticks i ≡ some tick
    pub at_eq : tick.at ≡ some end_at
    pub in_range : i < length ticks

  -- An index is found.
  record IsFound (ticks : List (AuditTick V)) : Type 0 where
    index : ℕ
    index_eq : index_at end_at ticks ≡ some index
    is_at : IsAt ticks index

  IsFound-later :
      (t : AuditTick V) (ticks : List (AuditTick V)) → IsFound ticks → IsFound (t ∷ ticks)
  unfolding index_at
  IsFound-later t ticks f = elim (Bool-cases (is_outcome t.at end_at)) [
    | inl y ↦ record {
      index = 0;
      index_eq = rw y refl;
      is_at = record {
        tick = t;
        tick_eq = refl;
        at_eq = is_outcome-eq t.at end_at y;
        in_range = omega arith;
      };
    }
    | inr n ↦ record {
      index = suc f.index;
      index_eq = rw (n, f.index_eq) refl;
      is_at = record {
        tick = f.is_at.tick;
        tick_eq = f.is_at.tick_eq;
        at_eq = f.is_at.at_eq;
        in_range = omega (arith, f.is_at.in_range);
      };
    }
  ]

  IsFound-head :
      (t : AuditTick V) (ticks : List (AuditTick V)) → t.at ≡ some end_at → IsFound (t ∷ ticks)
  unfolding index_at
  IsFound-head t ticks h = record {
    index = 0;
    index_eq = rw (eq-is_outcome t.at end_at h) refl;
    is_at = record { tick = t; tick_eq = refl; at_eq = h; in_range = omega arith };
  }

  IsFound-rev_onto : (xs ys : List (AuditTick V)) → IsFound ys → IsFound (rev_onto xs ys)
  IsFound-rev_onto [] ys f = f
  IsFound-rev_onto (x ∷ xs) ys f = IsFound-rev_onto xs (x ∷ ys) (IsFound-later x ys f)

module _ {V : Type 0} where
  arm_of_index :
      (ticks : List (AuditTick V)) (i : ℕ) (t : AuditTick V)
      → get_elem? ticks i ≡ some t
      → i < length ticks
      → control_arm ticks (some i) ≡ arm_at (some t)
  unfolding control_arm
  arm_of_index ticks i t h k =
      let first : leb i (length ticks - 1) ≡ true = ground arith in rw (first, h) refl

  -- Where a window is found, its end has an index: the report shows the window, with the control arm
  -- of a tick that has the time of the window's end.
  pub verdict_of_window-IsAt :
      (gate : String) (consecutive : ℕ) (ticks : List (AuditTick V)) (w : Window)
      → verdict_window gate consecutive ticks ≡ ok w
      → (i : ℕ) × (at : IsAt w.end_at ticks i) × (verdict_of_window ticks
            (verdict_window gate consecutive ticks)
          ≡ ok (found w i))
        × (control_arm ticks (end_index (found w i)) ≡ arm_at (some at.tick))
  verdict_of_window-IsAt gate consecutive ticks w h =
      let r = verdict_window-IsWindow gate consecutive ticks w h in
      let f : IsFound w.end_at ticks = subst (IsFound w.end_at) (sym r.split) (
        IsFound-rev_onto w.end_at r.before (rev_onto r.inside (r.end ∷ r.after)) (
          IsFound-rev_onto w.end_at r.inside (r.end ∷ r.after)
            (IsFound-head w.end_at r.end r.after r.end_time))) in
      (
        f.index,
        f.is_at,
        rw (h, f.index_eq) refl,
        arm_of_index ticks f.index f.is_at.tick f.is_at.tick_eq f.is_at.in_range,
      )
