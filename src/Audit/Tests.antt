-- ===== src/Audit/Tests.antt =====
-- A run whose verdict the silence of a target explains, with times in seconds for the tests.
use testbed_services.Common.{
  ℕ, ◌-◌, ◌*◌, String, str_eq, none, some, List, [], ◌∷◌, ◌≡◌, refl, map, if◌then◌else◌, ltb, leb,
}
use testbed_services.Common.Texts.{add, place, sorted}
use testbed_services.Audit.Runs.{ok, document, AuditTick, RunFiles, AuditedRun}
use testbed_services.Audit.Names.{
  AnswerKey, injection_targets, services_of, candidates_of, to_apm_service, in_domain, renamed,
  of_table,
}
use testbed_services.Audit.Gates.{
  Window, verdict_window, reached, walk_back, window_of, time_at, streak_at,
}
use testbed_services.Audit.Host.{AuditHost, rows, ActivityRow, Traces, parse, parse_text, without_z}
use testbed_services.Audit.Shift.{target_silenced, Activity, Shift, activity_of, shift_status}
use testbed_services.Audit.Ratio.{
  Ratio, causality_absent, counted, Question, causal_check, check_targets, check_window,
  classify_row, classify, explain, bound_at, target_activity, absent_or_breaker,
}
use testbed_services.Audit.Arm.{control_arm, arm_at}
use testbed_services.Audit.Report.{
  found, ShiftReport, Report, by_ratio, causality_via_silence, verdict_of_window, end_index,
  audit_all, audit_gate, key_of,
}
use testbed_services.Audit.Targets.{IsTargets, injection_targets-IsTargets}
use testbed_services.Audit.Windows.{IsWindow, verdict_window-IsWindow}
use testbed_services.Audit.Silence.{Says, shift_status-Says}
use testbed_services.Audit.Silenced.{Silenced}
use testbed_services.Audit.Classified.{Answers, causal_check-Answers}
use testbed_services.Audit.Raises.{Raises}
use testbed_services.Audit.Errors.{LacksKey, failure_signals, audit_gate-Raises, audit_all-total}
use testbed_services.Audit.Quote.{quote, joined, literal, doubled}
use testbed_services.Audit.Arms.{IsAt, verdict_of_window-IsAt}

-- seconds after the epoch, of the test's three times
abbrev clock : String → ℕ
clock text = if str_eq text "a" then 940 else if str_eq text "b" then 1000 else 1060

abbrev part_of : ℕ → String
part_of t = if ltb t 999000000 then "before" else if leb t 1060000000 then "during" else "after"

abbrev Fraction : Type 0
Fraction = ℕ × ℕ

-- fractions in place of floats
abbrev host : AuditHost
host = record {
  F = Fraction;
  near = λ n d. (n, d);
  mul = λ a b. (a.0 * b.0, a.1 * b.1);
  div = λ a b. (a.0 * b.1, a.1 * b.0);
  lt = λ a b. ltb (a.0 * b.1) (b.0 * a.1);
  le = λ a b. leb (a.0 * b.1) (b.0 * a.1);
  per_minute = λ n lo hi. (n * 60000000, hi - lo);
  strptime = λ format text. some (clock text * 1000000);
  stamp = part_of;
  lower = λ text. text;
}

abbrev spans_of : String → ℕ → ActivityRow
spans_of name n = record { service_name = name; spans = n; errors = 0 }

abbrev traces : Traces
traces = record {
  activity = λ lo hi services.
      if str_eq lo "during"
      then rows (spans_of "commerce-order" 600 ∷ [])
      else rows (spans_of "commerce-order" 600 ∷ spans_of "commerce-payment" 500 ∷ []);
  failures = λ from to entry lo hi services.
      rows (record { failed_traces = 149; traces_touching_target = 0 } ∷ []);
  health =
      λ services lo hi entry. rows (record { spans = 0; errors = 0; entry_failures = 149 } ∷ []);
}

abbrev tick_at : String → ℕ → AuditTick ℕ
tick_at time streak = record {
  at = some time;
  streaks = ("success", streak) ∷ [];
  signals = record { name = "checkout_5xx_rate_baseline"; value = some 0 } ∷ [];
}

abbrev ticks : List (AuditTick ℕ)
ticks = tick_at "a" 0 ∷ tick_at "b" 1 ∷ tick_at "c" 2 ∷ []

abbrev window : Window
window = record { start_at = "b"; end_at = "c"; span = 2 }

abbrev answer_key : AnswerKey
answer_key = record {
  domain = some "commerce";
  target_id = some "commerce-payment";
  trigger_target_id = some "commerce-order";
  accept = "payment" ∷ [];
  partial = [];
}

abbrev known : List String
known = "commerce-order" ∷ "commerce-payment" ∷ []

abbrev payment : List String
payment = "commerce-payment" ∷ []

abbrev files : RunFiles ℕ
files = record {
  name = "F06-H-run-1";
  ticks = document ticks;
  state = document (record {
    scenario_id = some "F06-H";
    phase = none;
    level_changes = [];
    gates =
        (
          "success",
          record { condition_signals = "checkout_5xx_rate" ∷ []; consecutive_ticks = some 2 },
        )
        ∷ [];
  });
  result = document (record {
    scenario_id = some "F06-H";
    outcome = some "succeeded";
    t1 = some "b";
    t2 = some "c";
  });
  decisions = document (record { reason = none });
}

abbrev metadata : List (String × AnswerKey)
metadata = ("F06-H", answer_key) ∷ []

abbrev question : Question
question = record {
  start_at = "b";
  end_at = "c";
  entry_service = "commerce-order";
  targets = payment;
  injection_from = some "b";
  injection_to = some "c";
}

-- the window of the run
window_found : verdict_window "success" 2 ticks ≡ ok window
unfolding verdict_window reached walk_back window_of time_at streak_at
window_found = refl

verdict_window-IsWindow_example : IsWindow "success" 2 ticks window
verdict_window-IsWindow_example = verdict_window-IsWindow "success" 2 ticks window window_found

verdict_of_window-IsAt_example :
    (i : ℕ) × (at : IsAt "c" ticks i) × (verdict_of_window ticks (verdict_window "success" 2 ticks)
      ≡ ok (found window i))
    × (control_arm ticks (end_index (found window i)) ≡ arm_at (some at.tick))
verdict_of_window-IsAt_example = verdict_of_window-IsAt "success" 2 ticks window window_found

targets_found : injection_targets (some answer_key) known (some "commerce-order") ≡ ok payment
unfolding injection_targets services_of candidates_of to_apm_service in_domain renamed of_table add
targets_found = refl

injection_targets-IsTargets_example : IsTargets answer_key known (some "commerce-order") payment
injection_targets-IsTargets_example =
    injection_targets-IsTargets answer_key known (some "commerce-order") payment targets_found

abbrev busy : List ActivityRow
busy = spans_of "commerce-order" 600 ∷ spans_of "commerce-payment" 500 ∷ []

abbrev silent_rows : List (Activity host)
silent_rows =
    map
      (activity_of host (some "commerce-order") payment
        (record { lo = 700000000; hi = 995000000; found = busy })
        (record { lo = 1000000000; hi = 1060000000; found = spans_of "commerce-order" 600 ∷ [] })
        (record { lo = 1090000000; hi = 1390000000; found = busy }))
      known

abbrev silent_shift : Shift host
silent_shift = record { status = target_silenced payment; services = silent_rows }

shift_status-Says_example : Says host silent_rows (shift_status host silent_rows)
shift_status-Says_example = shift_status-Says host silent_rows

abbrev absent : Ratio
absent = causality_absent (counted 149 0) (record { spans = 0; errors = 0; entry_failures = 149 })

payment_absent : causal_check host traces question ≡ ok absent
unfolding causal_check check_targets check_window classify_row classify explain bound_at
    target_activity absent_or_breaker parse parse_text without_z
payment_absent = refl

causal_check-Answers_example : Answers host traces question payment absent
causal_check-Answers_example = causal_check-Answers host traces question absent payment_absent

abbrev report : Report host ℕ
report = record {
  run_id = "F06-H-run-1";
  scenario_id = some "F06-H";
  gate = some "success";
  signals = "checkout_5xx_rate" ∷ [];
  verdict = found window 2;
  arm = control_arm ticks (some 2);
  shift = some (ShiftReport.shifted silent_shift);
  evidence = causality_via_silence (by_ratio absent) payment;
}

abbrev run : AuditedRun ℕ
run = record {
  run_id = "F06-H-run-1";
  run_result = record {
    scenario_id = some "F06-H";
    outcome = some "succeeded";
    t1 = some "b";
    t2 = some "c";
  };
  run_state = record {
    scenario_id = some "F06-H";
    phase = none;
    level_changes = [];
    gates =
        (
          "success",
          record { condition_signals = "checkout_5xx_rate" ∷ []; consecutive_ticks = some 2 },
        )
        ∷ [];
  };
  run_decisions = record { reason = none };
  run_ticks = ticks;
}

-- The same run without an answer key: its audit ends in that error.
audit_gate-Raises_example :
    Raises
      (LacksKey host [] known
        (some traces)
        (key_of (some "F06-H") [])
        (failure_signals host [] known (some traces) run "success"))
      (λ (r : Report host ℕ). r.run_id ≡ "F06-H-run-1")
      (audit_gate host [] known (some traces) run (some "F06-H") "success")
audit_gate-Raises_example =
    audit_gate-Raises host [] known (some traces) run (some "F06-H") "success"

audit_all-total_example :
    (rs : List (Report host ℕ)) × (audit_all host metadata known (some traces) (files ∷ files ∷ [])
      ≡ ok rs)
    × (map (λ r. r.run_id) rs ≡ "F06-H-run-1" ∷ "F06-H-run-1" ∷ [])
audit_all-total_example =
    audit_all-total host metadata known (some traces) (files ∷ files ∷ [])
      ((tt, tt, tt, tt), ((tt, tt, tt, tt), tt))

quoted_names : quote ("o'clock" ∷ "app" ∷ []) ≡ "'app', 'o''clock'"
unfolding quote joined literal doubled sorted place
quoted_names = refl
