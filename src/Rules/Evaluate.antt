-- ===== src/Rules/Evaluate.antt =====
-- src/rules.rs: `evaluate`. A duration in a "snooze:" action may panic in chrono, so the result is
-- an `Outcome` (it is never `failed`).
pub mod Panics
pub mod Frame
pub mod Order
use sjbis.Prelude.{
  ℕ, suc, String, Bool, true, false, Option, none, some, List, [], ◌∷◌, ℤ, pos, negsuc, neg_ℕ,
  pos_part, neg_part, ◌&&◌, ◌||◌, not, ◌==◌, str_eq, ltb, leb, ltb_ℤ, leb_ℤ, clamp_ℤ, if◌then◌else◌,
  codes, strip_prefix, parse_int, i32_bound,
}
use sjbis.Json.{Json, get, as_str}
use sjbis.Models.Enums.{open_, muted, is_approval}
use sjbis.Models.Data.{DateTime, Notification, Rule}
use sjbis.Models.Duration.{Chrono, Outcome, done, failed, panicked, parse_deadline}
use sjbis.Rules.Match.{match_rule}

-- `-r.priority`, which wraps at the least `i32`.
unfoldable pub neg_i32 : ℤ → ℤ
neg_i32 (pos n) = neg_ℕ n
neg_i32 (negsuc n) = if suc n == i32_bound then negsuc n else pos (suc n)

unfoldable pub insert_by_priority : Rule → List Rule → List Rule
unfolding neg_i32
insert_by_priority r [] = r ∷ []
insert_by_priority r (s ∷ rules) =
    let rest = insert_by_priority r rules in
    if leb_ℤ (neg_i32 r.priority) (neg_i32 s.priority) then r ∷ s ∷ rules else s ∷ rest

-- `sorted.sort_by_key(|r| -r.priority)`, a stable sort.
unfoldable pub sort_by_priority : List Rule → List Rule
unfolding insert_by_priority
sort_by_priority [] = []
sort_by_priority (r ∷ rules) = insert_by_priority r (sort_by_priority rules)

-- What the loop carries: the notification and the pending automatic answer.
pub record Verdict : Type 0 where
  pub notif : Notification
  pub auto_answer : Option String

-- The next step of the loop, unless a panic ended it.
abbrev pub and_then : Outcome Verdict → (Verdict → Outcome Verdict) → Outcome Verdict
and_then (done v) f = f v
and_then failed f = failed
and_then panicked f = panicked

-- No rule answers an approval ask.
unfoldable pub clear_for_approval : Verdict → Verdict
clear_for_approval v =
    if is_approval v.notif.question_type then record v { auto_answer = none } else v

finish : Outcome Verdict → Outcome Verdict
finish (done v) = done (clear_for_approval v)
finish failed = failed
finish panicked = panicked

module _ (chrono : Chrono) (now : DateTime) where
  reprioritized : String → Notification → Notification
  reprioritized value n = elim (parse_int i32_bound (codes value)) [
    | none ↦ n
    | some z ↦ record n { urgency = clamp_ℤ z (pos 0) (pos 5) }
  ]

  snoozed : Outcome DateTime → Verdict → Outcome Verdict
  snoozed (done d) v = done (record v { notif = record (v.notif) { deadline = some d } })
  snoozed failed v = done v
  snoozed panicked v = panicked

  -- The arms of the `match action`, each on the text behind its prefix, in the source's order.
  on_auto_answer : Option String → Verdict → Verdict
  on_auto_answer none v = v
  on_auto_answer (some text) v = record v { auto_answer = some text }

  on_snooze : Option String → String → Verdict → Outcome Verdict
  unfolding on_auto_answer snoozed
  on_snooze none action v = done (on_auto_answer (strip_prefix "auto_answer:" action) v)
  on_snooze (some dur) action v = snoozed (parse_deadline chrono now dur) v

  on_reprioritize : Option String → String → Verdict → Outcome Verdict
  unfolding on_snooze reprioritized
  on_reprioritize none action v = on_snooze (strip_prefix "snooze:" action) action v
  on_reprioritize (some value) action v = done (record v { notif = reprioritized value v.notif })

  unfoldable pub apply_action : String → Verdict → Outcome Verdict
  unfolding on_reprioritize
  apply_action action v =
      if str_eq action "mute"
      then done (record v { notif = record (v.notif) { status = muted } })
      else if str_eq action "surface"
      then done (record v { notif = record (v.notif) { status = open_ } })
      else on_reprioritize (strip_prefix "reprioritize:" action) action v

  -- `compiled.get("action").and_then(|v| v.as_str())`
  action_of : Json → Option String
  action_of compiled = elim (get compiled "action") [ none ↦ none | some a ↦ as_str a ]

  -- An active rule that has not expired.
  unfoldable pub in_force : Rule → Bool
  in_force r = r.active && (elim r.expires_at [ none ↦ true | some t ↦ not (ltb t now) ])

  perform : Option String → Verdict → Outcome Verdict
  perform none v = done v
  perform (some action) v = apply_action action v

  unfoldable pub apply_compiled : Option Json → Bool → Verdict → Outcome Verdict
  unfolding perform action_of
  apply_compiled none mute v =
      done (if mute then record v { notif = record (v.notif) { status = muted } } else v)
  apply_compiled (some compiled) mute v =
      if match_rule chrono compiled v.notif then perform (action_of compiled) v else done v

  -- The body of the loop.
  unfoldable pub apply_rule : Rule → Verdict → Outcome Verdict
  apply_rule r v = if in_force r then apply_compiled r.compiled r.mute v else done v

  unfoldable pub apply_rules : List Rule → Verdict → Outcome Verdict
  apply_rules [] v = done v
  apply_rules (r ∷ rules) v = and_then (apply_rule r v) (λ w. apply_rules rules w)

  unfoldable pub evaluate : List Rule → Notification → Outcome Verdict
  unfolding finish
  evaluate rules n =
      finish (apply_rules (sort_by_priority rules) (record { notif = n; auto_answer = none }))
