-- ===== src/Rules/Evaluate/Order.antt =====
-- The order in which `evaluate` applies rules: descending priority, so the rule of the least
-- priority is applied last and its action stands.
use sjbis.Prelude.{
  zero, suc, ◌<◌, ◌+◌, ◌≡◌, refl, sym, ap, ◌∙◌, Bool, true, false, none, some, List, [], ◌∷◌, ◌++◌,
  ℤ, pos, negsuc, pos_part, neg_part, arith, if◌then◌else◌, leb_ℤ, i32_bound, Bool-cases, inl, inr,
  All,
}
use mathlib.Core.Path.{fun_ext}
use sjbis.Json.{Json, get, as_str}
use sjbis.Rules.Match.{match_rule}
use sjbis.Models.Enums.{muted}
use sjbis.Models.Data.{DateTime, Notification, Rule}
use sjbis.Models.Duration.{Chrono, Outcome, done, failed, panicked}
use sjbis.Rules.Evaluate.Panics.{
  Panics, Yields, Yields-weaken, Yields-because, sort_by_priority-Panics,
}
use sjbis.Rules.Evaluate.Frame.{Adjusts, Adjusts-refl, apply_rules-Adjusts}
use sjbis.Rules.Evaluate.{
  Verdict, neg_i32, insert_by_priority, sort_by_priority, apply_rule, apply_rules, and_then, finish,
  evaluate, in_force, apply_compiled, clear_for_approval, apply_action, action_of, perform,
}

-- An `i32` above the least one.
abbrev pub IsOrdinary : ℤ → Type 0
IsOrdinary p = (pos_part p < i32_bound) × (neg_part p < i32_bound)

-- `s` has a higher priority than `r`, both being ordinary.
abbrev pub Outranks : Rule → Rule → Type 0
Outranks r s =
    (pos_part r.priority + neg_part s.priority < pos_part s.priority + neg_part r.priority)
    × IsOrdinary s.priority

neg_i32_parts :
    (p : ℤ)
    → IsOrdinary p
    → (pos_part (neg_i32 p) ≡ neg_part p) × (neg_part (neg_i32 p) ≡ pos_part p)
unfolding neg_i32
neg_i32_parts (pos zero) h = (refl, refl)
neg_i32_parts (pos (suc n)) h = (refl, refl)
neg_i32_parts (negsuc n) h = ground arith

outranked_after :
    (r s : Rule)
    → IsOrdinary r.priority
    → Outranks r s
    → leb_ℤ (neg_i32 r.priority) (neg_i32 s.priority) ≡ false
outranked_after r s hr hs =
    ground (arith, neg_i32_parts r.priority hr, neg_i32_parts s.priority hs.1)

outranking_before :
    (r s : Rule)
    → IsOrdinary r.priority
    → Outranks r s
    → leb_ℤ (neg_i32 s.priority) (neg_i32 r.priority) ≡ true
outranking_before r s hr hs =
    ground (arith, neg_i32_parts r.priority hr, neg_i32_parts s.priority hs.1)

All-if :
    (P : Rule → Type 0) (b : Bool) (xs ys : List Rule)
    → All P xs
    → All P ys
    → All P (if b then xs else ys)
All-if P true xs ys hx hy = hx
All-if P false xs ys hx hy = hy

module _ (r : Rule) (ordinary : IsOrdinary r.priority) where
  insert_by_priority-last :
      (rules : List Rule) → All (Outranks r) rules → insert_by_priority r rules ≡ rules ++ (r ∷ [])
  unfolding insert_by_priority
  insert_by_priority-last [] h = refl
  insert_by_priority-last (s ∷ rules) h =
      rw (outranked_after r s ordinary h.0) (ap (λ t. s ∷ t) (insert_by_priority-last rules h.1))

  insert_by_priority-append :
      (s : Rule) (rules : List Rule)
      → Outranks r s
      → insert_by_priority s (rules ++ (r ∷ [])) ≡ insert_by_priority s rules ++ (r ∷ [])
  unfolding insert_by_priority
  insert_by_priority-append s [] h = rw (outranking_before r s ordinary h)
  insert_by_priority-append s (t ∷ rules) h =
      elim (Bool-cases (leb_ℤ (neg_i32 s.priority) (neg_i32 t.priority))) [
        | inl e ↦ rw e
        | inr e ↦ rw e (ap (λ l. t ∷ l) (insert_by_priority-append s rules h))
      ]

  All-insert_by_priority :
      (s : Rule) (rules : List Rule)
      → Outranks r s
      → All (Outranks r) rules
      → All (Outranks r) (insert_by_priority s rules)
  unfolding insert_by_priority
  All-insert_by_priority s [] h hs = (h, tt)
  All-insert_by_priority s (t ∷ rules) h hs =
      All-if (Outranks r) (leb_ℤ (neg_i32 s.priority) (neg_i32 t.priority)) _ _ (h, hs)
        (hs.0, All-insert_by_priority s rules h hs.1)

  All-sort_by_priority :
      (rules : List Rule) → All (Outranks r) rules → All (Outranks r) (sort_by_priority rules)
  unfolding sort_by_priority
  All-sort_by_priority [] h = tt
  All-sort_by_priority (s ∷ rules) h =
      All-insert_by_priority s _ h.0 (All-sort_by_priority rules h.1)

  sort_by_priority-last :
      (before behind : List Rule)
      → All (Outranks r) before
      → All (Outranks r) behind
      → sort_by_priority (before ++ (r ∷ behind)) ≡ sort_by_priority (before ++ behind) ++ (r ∷ [])
  unfolding sort_by_priority
  sort_by_priority-last [] behind hb ha =
      insert_by_priority-last (sort_by_priority behind) (All-sort_by_priority behind ha)
  sort_by_priority-last (s ∷ before) behind hb ha =
      ap (insert_by_priority s) (sort_by_priority-last before behind hb.1 ha)
      ∙ insert_by_priority-append s _ hb.0

and_then_assoc :
    (o : Outcome Verdict) (f g : Verdict → Outcome Verdict)
    → and_then (and_then o f) g ≡ and_then o (λ w. and_then (f w) g)
and_then_assoc (done v) f g = refl
and_then_assoc failed f g = refl
and_then_assoc panicked f g = refl

and_then-done : (o : Outcome Verdict) → and_then o (λ w. done w) ≡ o
and_then-done (done v) = refl
and_then-done failed = refl
and_then-done panicked = refl

clear_for_approval-notif : (v : Verdict) → (clear_for_approval v).notif ≡ v.notif
unfolding clear_for_approval
clear_for_approval-notif v = ground arith

module _ (chrono : Chrono) (now : DateTime) where
  apply_rules-last :
      (rules : List Rule) (r : Rule) (v : Verdict)
      → apply_rules chrono now (rules ++ (r ∷ [])) v
        ≡ and_then (apply_rules chrono now rules v) (λ w. apply_rule chrono now r w)
  unfolding apply_rules
  apply_rules-last [] r v = and_then-done (apply_rule chrono now r v)
  apply_rules-last (s ∷ rules) r v =
      ap (and_then (apply_rule chrono now s v)) (fun_ext (apply_rules-last rules r))
      ∙ sym (and_then_assoc (apply_rule chrono now s v) _ _)

  -- What an always matching "mute" rule in force does.
  Mutes : Rule → Type 0
  Mutes r =
      (v : Verdict)
      → apply_rule chrono now r v ≡ done (record v { notif = record (v.notif) { status = muted } })

  muted_by :
      (r : Rule) (c : Json)
      → in_force chrono now r ≡ true
      → r.compiled ≡ some c
      → ((m : Notification) → match_rule chrono c m ≡ true)
      → get c "action" ≡ some (Json.str "mute")
      → Mutes r
  unfolding Mutes apply_rule apply_compiled apply_action as_str action_of perform
  muted_by r c force compiled matches action v =
      rw (force, compiled, matches v.notif, action, action_of)

  muted_last :
      (Q : Type 0) (o : Outcome Verdict) (r : Rule)
      → Mutes r
      → Yields Q (λ (w : Verdict). Unit {0}) o
      → Yields Q
          (λ (w : Verdict). w.notif.status ≡ muted)
          (finish (and_then o (λ w. apply_rule chrono now r w)))
  unfolding finish Mutes
  muted_last Q (done v) r mutes h =
      rw (mutes v) (ap (λ (m : Notification). m.status) (clear_for_approval-notif _))
  muted_last Q failed r mutes h = h
  muted_last Q panicked r mutes h = h

  Panics-among :
      (r : Rule) (before behind : List Rule)
      → Panics chrono now (before ++ behind)
      → Panics chrono now (before ++ (r ∷ behind))
  Panics-among r [] behind q = inr q
  Panics-among r (s ∷ before) behind (inl own) = inl own
  Panics-among r (s ∷ before) behind (inr rest) = inr (Panics-among r before behind rest)

  total :
      (r : Rule) (before behind : List Rule) (n : Notification)
      → Yields
          (Panics chrono now (before ++ (r ∷ behind)))
          (λ (w : Verdict). Unit {0})
          (apply_rules chrono now
            (sort_by_priority (before ++ behind))
            (record { notif = n; auto_answer = none }))
  total r before behind n =
      Yields-because (Panics chrono now (sort_by_priority (before ++ behind)))
        (Panics chrono now (before ++ (r ∷ behind))) (λ (w : Verdict). Unit {0}) _
        (λ q.
          Panics-among r before behind (sort_by_priority-Panics chrono now (before ++ behind) q))
        (Yields-weaken (Panics chrono now (sort_by_priority (before ++ behind)))
          (λ w. Adjusts n w.notif) _
          (apply_rules-Adjusts n chrono now (sort_by_priority (before ++ behind)) _
            (Adjusts-refl n)))

  -- Where a rule in force that matches everything says "mute" and every other rule has a higher
  -- priority, and none of the priorities is the least `i32`, the notification ends up muted,
  -- whatever the other rules say and wherever the rule stands: the least priority decides, not the
  -- highest. Evaluation panics only if a rule in force says "snooze:" with a text whose deadline
  -- panics.
  pub least_priority_decides :
      (r : Rule) (c : Json) (before behind : List Rule) (n : Notification)
      → in_force chrono now r ≡ true
      → r.compiled ≡ some c
      → ((m : Notification) → match_rule chrono c m ≡ true)
      → get c "action" ≡ some (Json.str "mute")
      → IsOrdinary r.priority
      → All (Outranks r) before
      → All (Outranks r) behind
      → Yields
          (Panics chrono now (before ++ (r ∷ behind)))
          (λ (v : Verdict). v.notif.status ≡ muted)
          (evaluate chrono now (before ++ (r ∷ behind)) n)
  unfolding evaluate
  least_priority_decides r c before behind n force compiled matches action ordinary hb ha =
      rw
        (
          sort_by_priority-last r ordinary before behind hb ha,
          apply_rules-last (sort_by_priority (before ++ behind)) r,
        )
        (muted_last (Panics chrono now (before ++ (r ∷ behind))) _ r
          (muted_by r c force compiled matches action) (total r before behind n))
