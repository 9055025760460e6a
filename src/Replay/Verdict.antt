-- ===== src/Replay/Verdict.antt =====
-- The verdict of a tick is Kleene's three-valued conjunction or disjunction of its conditions.
use testbed_services.Common.{
  Bool, true, false, Option, none, some, List, [], ◌∷◌, ◌≡◌, refl, any, is_none, if◌then◌else◌,
  ◌||◌, ap, ◌∙◌,
}
use testbed_services.Replay.Signals.{Match, match_all, match_any, is_true, is_false, verdict_of}

-- Unknown is `none`; what is false in a conjunction decides it, known or not the rest.
abbrev pub kleene_and : Option Bool → Option Bool → Option Bool
kleene_and (some false) b = some false
kleene_and (some true) b = b
kleene_and none (some false) = some false
kleene_and none (some true) = none
kleene_and none none = none

abbrev pub kleene_or : Option Bool → Option Bool → Option Bool
kleene_or (some true) b = some true
kleene_or (some false) b = b
kleene_or none (some true) = some true
kleene_or none (some false) = none
kleene_or none none = none

abbrev pub kleene : Match → List (Option Bool) → Option Bool
kleene match_all [] = some true
kleene match_all (r ∷ rs) = kleene_and r (kleene match_all rs)
kleene match_any [] = some false
kleene match_any (r ∷ rs) = kleene_or r (kleene match_any rs)

-- one more condition in front of those with these two tests
and_step :
    (r : Option Bool) (some_false some_unknown : Bool)
    → (if is_false r || some_false
        then some false
        else if is_none r || some_unknown
        then none
        else some true)
      ≡ kleene_and r (if some_false then some false else if some_unknown then none else some true)
and_step none true u = refl
and_step none false true = refl
and_step none false false = refl
and_step (some true) f u = refl
and_step (some false) f u = refl

or_step :
    (r : Option Bool) (some_true some_unknown : Bool)
    → (if is_true r || some_true
        then some true
        else if is_none r || some_unknown
        then none
        else some false)
      ≡ kleene_or r (if some_true then some true else if some_unknown then none else some false)
or_step none true u = refl
or_step none false true = refl
or_step none false false = refl
or_step (some true) f u = refl
or_step (some false) f u = refl

-- The verdict over the results of the conditions, taken with two scans, is their three-valued
-- conjunction for `all`, and their three-valued disjunction for `any`.
pub verdict_of-kleene :
    (match : Match) (results : List (Option Bool)) → verdict_of match results ≡ kleene match results
unfolding verdict_of
verdict_of-kleene match_all [] = refl
verdict_of-kleene match_any [] = refl
verdict_of-kleene match_all (r ∷ rs) =
    and_step r (any is_false rs) (any is_none rs)
    ∙ ap (kleene_and r) (verdict_of-kleene match_all rs)
verdict_of-kleene match_any (r ∷ rs) =
    or_step r (any is_true rs) (any is_none rs) ∙ ap (kleene_or r) (verdict_of-kleene match_any rs)
