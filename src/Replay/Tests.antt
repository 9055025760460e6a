-- ===== src/Replay/Tests.antt =====
-- The replay on ten ticks of one signal, which updates each 60 seconds.
use testbed_services.Common.{
  ℕ, ◌≤◌, ◌↔◌, ◌≢◌, Bool, true, false, not, Option, none, some, List, [], ◌∷◌, ◌≡◌, refl, All, leb,
  ltb, ◌==◌, filter, map, arith, ◌+◌, ◌*◌,
}
use testbed_services.Replay.Signals.{
  Comparisons, gte, match_all, Condition, signal_of, bound_of, verdict_of, ops, observed, condition,
  interval, intervals, independence, verdict,
}
use testbed_services.Replay.Run.{
  Phase, settling, evaluating, Tick, Progress, is_replayed, is_rewind, cut, segments_of, hold,
  confirm, updated, record_visit, mismatched, exit_code, advance, replay_segment, replay_segments,
  replay,
}
use testbed_services.Replay.Verdict.{kleene, verdict_of-kleene}
use testbed_services.Replay.Segments.{IsCut, segments_of-IsCut}
use testbed_services.Replay.Evidence.{Explained, replay-Explained}
use testbed_services.Replay.Summary.{streak_of, IsSummary, replay-IsSummary}
use testbed_services.Replay.Candidates.{stricter_never_fires, fires-if-reached}
use testbed_services.Replay.Validation.{Agrees, validation_passes}
use testbed_services.Replay.Pace.{Spaced, fires_at_pace}

abbrev comparisons : Comparisons
comparisons = record {
  V = ℕ;
  is_ge = λ v t. leb t v;
  is_gt = λ v t. ltb t v;
  is_lt = ltb;
  is_le = leb;
  is_eq = λ v t. v == t;
  is_ne = λ v t. not (v == t);
}

abbrev slow : List (Condition ℕ)
slow = record { observation = "p95"; op = gte; value = 500 } ∷ []

abbrev tick : Phase → ℕ → Bool → ℕ → Option ℕ → Tick ℕ
tick phase elapsed usable value recorded = record {
  phase = phase;
  elapsed_sec = elapsed;
  signals = ("p95", record { usable = usable; value = value; update_interval_sec = some 60 }) ∷ [];
  recorded = recorded;
}

-- Two rungs: in the first the signal is lost at 75 seconds, in the second it never reaches 500.
abbrev ticks : List (Tick ℕ)
ticks =
    tick settling 0 true 600 (some 1)
    ∷ tick settling 30 true 600 (some 1)
    ∷ tick evaluating 60 true 700 (some 2)
    ∷ tick evaluating 75 false 0 (some 2)
    ∷ tick evaluating 120 true 700 (some 3)
    ∷ tick settling 0 true 100 (some 0)
    ∷ tick evaluating 60 true 100 none
    ∷ []

run_of : ℕ → ℕ → Progress ℕ
unfolding replay replay_segments replay_segment advance record_visit updated confirm hold
    segments_of cut is_rewind verdict independence intervals interval condition observed ops
    verdict_of bound_of signal_of
run_of min_hold ct = replay comparisons match_all slow min_hold ct ticks

streaks : map streak_of (run_of 60 3).trace ≡ 1 ∷ 1 ∷ 2 ∷ 2 ∷ 3 ∷ 0 ∷ 0 ∷ []
unfolding run_of
streaks = refl

fires : (run_of 60 3).fires_at ≡ some 120
unfolding run_of
fires = refl

agrees : exit_code false true (mismatched (run_of 60 3).trace) ≡ 0
unfolding run_of mismatched exit_code
agrees = refl

verdict_of-kleene_example :
    verdict_of match_all (some true ∷ none ∷ []) ≡ kleene match_all (some true ∷ none ∷ [])
verdict_of-kleene_example = verdict_of-kleene match_all (some true ∷ none ∷ [])

segments_of-IsCut_example : IsCut (filter (λ t. is_replayed t.phase) ticks) (segments_of ticks)
segments_of-IsCut_example = segments_of-IsCut ticks

replay-Explained_example :
    All
      (Explained comparisons match_all slow (segments_of ticks))
      (replay comparisons match_all slow 60 3 ticks).trace
replay-Explained_example = replay-Explained comparisons match_all slow 60 3 ticks

replay-IsSummary_example :
    IsSummary 60 3
      (filter (λ t. is_replayed t.phase) ticks)
      (replay comparisons match_all slow 60 3 ticks)
replay-IsSummary_example = replay-IsSummary comparisons match_all slow 60 3 ticks

stricter_never_fires_example :
    ((run_of 90 5).trace ≡ (run_of 60 4).trace) × ((run_of 90 5).fires_at ≡ none)
unfolding run_of
stricter_never_fires_example =
    stricter_never_fires comparisons match_all slow 60 4 90 5 ticks (omega arith) (omega arith) refl

fires-if-reached_example :
    (replay comparisons match_all slow 60 3 ticks).fires_at ≢ none
    ↔ 3 ≤ (replay comparisons match_all slow 60 3 ticks).max_post
fires-if-reached_example = fires-if-reached comparisons match_all slow 60 3 ticks (omega arith)

All-Spaced : All (Spaced comparisons match_all slow 60) (filter (λ t. is_replayed t.phase) ticks)
unfolding run_of
All-Spaced = (
  omega arith,
  (omega arith, (omega arith, (omega arith, (omega arith, (omega arith, (omega arith, tt)))))),
)

fires_at_pace_example : (3 * 60 ≤ 120 + 60) × (60 ≤ 120)
unfolding run_of
fires_at_pace_example = fires_at_pace comparisons match_all slow 60 60 3 ticks 120 All-Spaced refl

validation_passes_example :
    exit_code false true (mismatched (run_of 60 3).trace) ≡ 0 ↔ All Agrees (run_of 60 3).trace
validation_passes_example = validation_passes (run_of 60 3).trace
