-- ===== src/Replay/Validation.antt =====
-- The verdict of --validate in scripts/scenarios/replay-success-streak.py.
use testbed_services.Common.{
  ℕ, true, false, Option, none, some, List, [], ◌∷◌, ◌≡◌, refl, ◌↔◌, All, Bool-cases, inl, inr,
  arith,
}
use testbed_services.Replay.Run.{Visit, is_mismatch, mismatched, exit_code}

-- The streak that the runner recorded, if it did, is the replayed one.
abbrev pub Recorded : ℕ → Option ℕ → Type 0
Recorded n none = Unit
Recorded n (some recorded) = n ≡ recorded

Recorded-sound : (n : ℕ) (o : Option ℕ) → is_mismatch n o ≡ false → Recorded n o
Recorded-sound n none h = tt
Recorded-sound n (some m) h = ground arith

Recorded-complete : (n : ℕ) (o : Option ℕ) → Recorded n o → is_mismatch n o ≡ true → ⊥
Recorded-complete n none h e = cc e
Recorded-complete n (some m) h e = ground arith

module _ {V : Type 0} where
  abbrev pub Agrees : Visit V → Type 0
  Agrees v = Recorded v.streak v.tick.recorded

  -- With --validate and without --json, the exit code is zero exactly if each streak that the
  -- runner recorded in the trace is the replayed one.
  pub validation_passes :
      (trace : List (Visit V)) → exit_code false true (mismatched trace) ≡ 0 ↔ All Agrees trace
  unfolding exit_code mismatched
  validation_passes [] = ((λ e. tt), (λ h. refl))
  validation_passes (v ∷ vs) = elim (Bool-cases (is_mismatch v.streak v.tick.recorded)) [
    | inl bad ↦
        rw bad
          ((λ e. absurd (cc e)), (λ h. absurd (Recorded-complete v.streak v.tick.recorded h.0 bad)))
    | inr good ↦
        let rest = validation_passes vs in
        rw good ((λ e. (Recorded-sound v.streak v.tick.recorded good, rest.0 e)), (λ h. rest.1 h.1))
  ]
