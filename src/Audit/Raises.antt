-- ===== src/Audit/Raises.antt =====
-- What the parts of an audit raise: the reading of a run and the search for its window.
use testbed_services.Common.{
  ℕ, String, str_eq, Option, none, some, List, [], ◌∷◌, ◌≡◌, refl, Bool-cases, inl, inr, head?,
  last?, leb,
}
use testbed_services.Audit.Runs.{
  AuditError, no_answer_key, Audited, ok, audit_error, exception, ◌>>=◌, RunFile, missing,
  unreadable, document, AuditTick, LevelChange, RunState, RunResult, RunFiles, AuditedRun,
  read_document, result_of_changes, result_or_state, load_run,
}
use testbed_services.Audit.Names.{AnswerKey, injection_targets}
use testbed_services.Audit.Gates.{
  streak, Window, time_at, window_of, reached, walk_back, verdict_window,
}
use testbed_services.Audit.Report.{verdict_of_window}

-- A value with a property, or an error of the program that satisfies another: no other exception.
abbrev pub Raises : {A : Type 0} → (AuditError → Type 0) → (A → Type 0) → Audited A → Type 0
Raises E P (ok a) = P a
Raises E P (audit_error e) = E e
Raises E P (exception text) = ⊥

module _ (E : AuditError → Type 0) {A B : Type 0} (P : A → Type 0) (Q : B → Type 0) where
  pub >>=-Raises :
      (o : Audited A) (f : A → Audited B)
      → Raises E P o
      → ((a : A) → P a → Raises E Q (f a))
      → Raises E Q (o >>= f)
  >>=-Raises (ok a) f h k = k a h
  >>=-Raises (audit_error e) f h k = h
  >>=-Raises (exception text) f h k = absurd h

pub any_error :
    {A : Type 0} (E : AuditError → Type 0) (P : A → Type 0) (o : Audited A)
    → Raises E P o
    → Raises (λ e. Unit) P o
any_error E P (ok a) h = h
any_error E P (audit_error e) h = tt
any_error E P (exception text) h = absurd h

abbrev pub Any : AuditError → Type 0
Any e = Unit

abbrev pub Every : {A : Type 0} → A → Type 0
Every a = Unit

-- The file is missing or could be read.
abbrev pub CanRead : {A : Type 0} → RunFile A → Type 0
CanRead missing = Unit
CanRead (unreadable text) = ⊥
CanRead (document a) = Unit

abbrev pub CanReadRun : {V : Type 0} → RunFiles V → Type 0
CanReadRun files =
    CanRead files.ticks × CanRead files.state × CanRead files.result × CanRead files.decisions

read_document-Raises :
    {A : Type 0} (name : String) (file : RunFile A)
    → CanRead file
    → Raises Any Every (read_document name file)
unfolding read_document
read_document-Raises name missing h = tt
read_document-Raises name (unreadable text) h = absurd h
read_document-Raises name (document a) h = tt

result_of_changes-Raises :
    (state : RunState) (first last : Option LevelChange)
    → Raises Any Every (result_of_changes state first last)
unfolding result_of_changes
result_of_changes-Raises state none last = tt
result_of_changes-Raises state (some first) none = tt
result_of_changes-Raises state (some first) (some last) = tt

result_or_state-Raises :
    (state : RunState) (file : RunFile RunResult)
    → CanRead file
    → Raises Any Every (result_or_state state file)
unfolding result_or_state
result_or_state-Raises state missing h =
    result_of_changes-Raises state (head? state.level_changes) (last? state.level_changes)
result_or_state-Raises state (unreadable text) h = absurd h
result_or_state-Raises state (document r) h = tt

time_at-Raises : (o : Option String) → Raises Any Every (time_at o)
unfolding time_at
time_at-Raises none = tt
time_at-Raises (some at) = elim (Bool-cases (str_eq at "")) [ inl e ↦ rw e tt | inr e ↦ rw e tt ]

pub injection_targets-Raises :
    (meta : Option AnswerKey) (known : List String) (entry : Option String)
    → Raises (λ e. (e ≡ no_answer_key) × (meta ≡ none)) Every (injection_targets meta known entry)
unfolding injection_targets
injection_targets-Raises none known entry = (refl, refl)
injection_targets-Raises (some meta) known entry = tt

module _ {V : Type 0} where
  -- what loading a run gives has the run's name
  pub load_run-Raises :
      (files : RunFiles V)
      → CanReadRun files
      → Raises Any (λ (run : AuditedRun V). run.run_id ≡ files.name) (load_run files)
  unfolding load_run
  load_run-Raises files h =
      let Named : AuditedRun V → Type 0 = λ run. run.run_id ≡ files.name in
      >>=-Raises Any Every Named (read_document "ticks.jsonl" files.ticks) _
        (read_document-Raises "ticks.jsonl" files.ticks h.0)
        (λ ticks a.
          >>=-Raises Any Every Named (read_document "state.json" files.state) _
            (read_document-Raises "state.json" files.state h.1)
            (λ state b.
              >>=-Raises Any Every Named (result_or_state state files.result) _
                (result_or_state-Raises state files.result h.2)
                (λ result c.
                  >>=-Raises Any Every Named (read_document "decisions.json" files.decisions) _
                    (read_document-Raises "decisions.json" files.decisions h.3)
                    (λ decisions d. refl))))

  reached-Raises :
      (gate : String) (consecutive : ℕ) (seen ticks : List (AuditTick V))
      → Raises Any Every (reached gate consecutive seen ticks)
  unfolding reached
  reached-Raises gate consecutive seen [] = tt
  reached-Raises gate consecutive seen (t ∷ ts) =
      elim (Bool-cases (leb consecutive (streak gate t))) [
        | inl e ↦ rw e tt
        | inr e ↦ rw e (reached-Raises gate consecutive (t ∷ seen) ts)
      ]

  window_of-Raises : (x : AuditTick V × ℕ) (end : AuditTick V) → Raises Any Every (window_of x end)
  unfolding window_of
  window_of-Raises (start, span) end =
      >>=-Raises Any Every Every (time_at start.at) _ (time_at-Raises start.at)
        (λ a h. >>=-Raises Any Every Every (time_at end.at) _ (time_at-Raises end.at) (λ b k. tt))

  pub verdict_window-Raises :
      (gate : String) (consecutive : ℕ) (ticks : List (AuditTick V))
      → Raises Any Every (verdict_window gate consecutive ticks)
  unfolding verdict_window
  verdict_window-Raises gate consecutive ticks =
      >>=-Raises Any Every Every (reached gate consecutive [] ticks) _
        (reached-Raises gate consecutive [] ticks)
        (λ found h. window_of-Raises (walk_back gate found.0 1 found.1) found.0)

  -- the window's error stays in the report
  pub verdict_of_window-Raises :
      (E : AuditError → Type 0) (ticks : List (AuditTick V)) (o : Audited Window)
      → Raises Any Every o
      → Raises E Every (verdict_of_window ticks o)
  verdict_of_window-Raises E ticks (ok w) h = tt
  verdict_of_window-Raises E ticks (audit_error e) h = tt
  verdict_of_window-Raises E ticks (exception text) h = absurd h
