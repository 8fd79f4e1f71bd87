-- ===== src/Tests/RuleRuns.antt =====
-- Runs of src/rules.rs.
use sjbis.Prelude.{◌≡◌, refl, true, [], ◌∷◌, pos, some, arith}
use sjbis.Json.{get, lookup_field}
use sjbis.Models.Enums.{muted}
use sjbis.Models.Data.{Notification}
use sjbis.Rules.Match.{match_rule}
use sjbis.Rules.Evaluate.{Verdict, evaluate, in_force}
use sjbis.Rules.Evaluate.Panics.{Panics, Yields}
use sjbis.Rules.Evaluate.Frame.{Evaluated, evaluate-Evaluated}
use sjbis.Rules.Evaluate.Order.{least_priority_decides}
use sjbis.Json.{Json, field, end}
use sjbis.Tests.Samples.{clock, notice, mute_all, rule_of}

abbrev surface_all : Json
surface_all = Json.obj (field "action" (Json.str "surface") end)

evaluate-Evaluated_example :
    Yields
      (Panics clock 9 (rule_of "rule-1" mute_all (pos 10) ∷ []))
      (Evaluated notice)
      (evaluate clock 9 (rule_of "rule-1" mute_all (pos 10) ∷ []) notice)
evaluate-Evaluated_example =
    evaluate-Evaluated clock 9 (rule_of "rule-1" mute_all (pos 10) ∷ []) notice

in_force_now : in_force clock 9 (rule_of "rule-1" mute_all (pos 10)) ≡ true
unfolding in_force
in_force_now = refl

matches_all : (m : Notification) → match_rule clock mute_all m ≡ true
unfolding match_rule get lookup_field
matches_all m = refl

says_mute : get mute_all "action" ≡ some (Json.str "mute")
unfolding get lookup_field
says_mute = refl

least_priority_decides_example :
    Yields
      (Panics clock 9
        (rule_of "rule-1" mute_all (pos 10) ∷ rule_of "rule-2" surface_all (pos 20) ∷ []))
      (λ (v : Verdict). v.notif.status ≡ muted)
      (evaluate clock 9
        (rule_of "rule-1" mute_all (pos 10) ∷ rule_of "rule-2" surface_all (pos 20) ∷ [])
        notice)
least_priority_decides_example =
    least_priority_decides clock 9 (rule_of "rule-1" mute_all (pos 10)) mute_all []
      (rule_of "rule-2" surface_all (pos 20) ∷ []) notice in_force_now refl matches_all says_mute
      (omega arith, omega arith) tt ((omega arith, (omega arith, omega arith)), tt)
