-- ===== src/Rules/Evaluate/Frame.antt =====
-- What `evaluate` may change of a notification.
use sjbis.Prelude.{
  String, ◌≡◌, ◌⊎◌, inl, inr, refl, ap, Bool, true, false, Option, none, some, List, [], ◌∷◌, ℤ,
  pos, ◌≤ℤ◌, arith, if◌then◌else◌, clamp_ℤ, Bool-cases, codes, strip_prefix, parse_int, i32_bound,
  str_eq,
}
use sjbis.Json.{Json, get, as_str}
use sjbis.Rules.Match.{match_rule}
use sjbis.Models.Enums.{NotificationStatus, open_, muted, approval, is_approval}
use sjbis.Models.Data.{DateTime, Notification, Rule}
use sjbis.Models.Duration.{Chrono, Outcome, done, failed, panicked, parse_deadline}
use sjbis.Rules.Evaluate.Panics.{
  SnoozePanics, CompiledPanics, Panics, Yields, Yields-because, Yields-if, sort_by_priority-Panics,
}
use sjbis.Rules.Evaluate.{
  Verdict, apply_action, apply_compiled, apply_rule, apply_rules, clear_for_approval, finish,
  evaluate, sort_by_priority, reprioritized, snoozed, on_auto_answer, on_snooze, on_reprioritize,
  perform, action_of, in_force, and_then,
}

-- `v` is the notification `n` with at most its status, its urgency and its deadline changed: the
-- status to muted or open, the urgency to one in 0..5.
pub record Adjusts (n : Notification) (v : Notification) : Type 0 where
  pub frame : v ≡ record n { status = v.status; urgency = v.urgency; deadline = v.deadline }
  pub status : (v.status ≡ n.status) ⊎ ((v.status ≡ muted) ⊎ (v.status ≡ open_))
  pub urgency : (v.urgency ≡ n.urgency) ⊎ ((pos 0 ≤ℤ v.urgency) × (v.urgency ≤ℤ pos 5))

pub Adjusts-refl : (n : Notification) → Adjusts n n
Adjusts-refl n = record { frame = refl; status = inl refl; urgency = inl refl }

clamp_urgency :
    (z : ℤ) → (pos 0 ≤ℤ clamp_ℤ z (pos 0) (pos 5)) × (clamp_ℤ z (pos 0) (pos 5) ≤ℤ pos 5)
unfolding clamp_ℤ
clamp_urgency z = ground arith

module _ (n : Notification) where
  -- The verdict's notification is such an adjustment.
  abbrev pub Keeps : Verdict → Type 0
  Keeps v = Adjusts n v.notif

  with_status :
      (v : Notification) (s : NotificationStatus)
      → (s ≡ muted) ⊎ (s ≡ open_)
      → Adjusts n v
      → Adjusts n (record v { status = s })
  with_status v s which a = record {
    frame = λ i. record (a.frame i) { status = s };
    status = inr which;
    urgency = a.urgency;
  }

  with_deadline :
      (v : Notification) (d : Option DateTime) → Adjusts n v → Adjusts n (record v { deadline = d })
  with_deadline v d a = record {
    frame = λ i. record (a.frame i) { deadline = d };
    status = a.status;
    urgency = a.urgency;
  }

  with_urgency :
      (v : Notification) (z : ℤ)
      → Adjusts n v
      → Adjusts n (record v { urgency = clamp_ℤ z (pos 0) (pos 5) })
  with_urgency v z a = record {
    frame = λ i. record (a.frame i) { urgency = clamp_ℤ z (pos 0) (pos 5) };
    status = a.status;
    urgency = inr (clamp_urgency z);
  }

  module _ (chrono : Chrono) (now : DateTime) where
    reprioritized-Adjusts :
        (value : String) (v : Notification)
        → Adjusts n v
        → Adjusts n (reprioritized chrono now value v)
    unfolding reprioritized
    reprioritized-Adjusts value v a = go (parse_int i32_bound (codes value))
      where
        go :
            (o : Option ℤ)
            → Adjusts n
                (elim o [ none ↦ v | some z ↦ record v { urgency = clamp_ℤ z (pos 0) (pos 5) } ])
        go none = a
        go (some z) = with_urgency v z a

    snoozed-Adjusts :
        (Q : Type 0) (o : Outcome DateTime) (v : Verdict)
        → (o ≡ panicked → Q)
        → Adjusts n v.notif
        → Yields Q Keeps (snoozed chrono now o v)
    unfolding snoozed
    snoozed-Adjusts Q (done d) v q a = with_deadline v.notif (some d) a
    snoozed-Adjusts Q failed v q a = a
    snoozed-Adjusts Q panicked v q a = q refl

    on_auto_answer-Adjusts :
        (o : Option String) (v : Verdict) → Keeps v → Keeps (on_auto_answer chrono now o v)
    unfolding on_auto_answer
    on_auto_answer-Adjusts none v a = a
    on_auto_answer-Adjusts (some text) v a = a

    on_snooze-Adjusts :
        (o : Option String) (action : String) (v : Verdict)
        → strip_prefix "snooze:" action ≡ o
        → Keeps v
        → Yields (SnoozePanics chrono now action) Keeps (on_snooze chrono now o action v)
    unfolding on_snooze
    on_snooze-Adjusts none action v h a =
        on_auto_answer-Adjusts (strip_prefix "auto_answer:" action) v a
    on_snooze-Adjusts (some dur) action v h a =
        snoozed-Adjusts (SnoozePanics chrono now action) (parse_deadline chrono now dur) v
          (λ k. (dur, h, k)) a

    on_reprioritize-Adjusts :
        (o : Option String) (action : String) (v : Verdict)
        → Keeps v
        → Yields (SnoozePanics chrono now action) Keeps (on_reprioritize chrono now o action v)
    unfolding on_reprioritize
    on_reprioritize-Adjusts none action v a =
        on_snooze-Adjusts (strip_prefix "snooze:" action) action v refl a
    on_reprioritize-Adjusts (some value) action v a = reprioritized-Adjusts value v.notif a

    apply_action-Adjusts :
        (action : String) (v : Verdict)
        → Keeps v
        → Yields (SnoozePanics chrono now action) Keeps (apply_action chrono now action v)
    unfolding apply_action
    apply_action-Adjusts action v a =
        let Q = SnoozePanics chrono now action in
        Yields-if Q Keeps (str_eq action "mute") _ _ (with_status v.notif muted (inl refl) a) (
          Yields-if Q Keeps (str_eq action "surface") _ _ (with_status v.notif open_ (inr refl) a)
            (on_reprioritize-Adjusts (strip_prefix "reprioritize:" action) action v a))

    action_found :
        (c : Json) (o : Option Json) (action : String)
        → get c "action" ≡ o
        → (elim o [ none ↦ none | some a ↦ as_str a ]) ≡ some action
        → (a : Json) × (get c "action" ≡ some a) × (as_str a ≡ some action)
    action_found c none action h k = cc
    action_found c (some a) action h k = (a, h, k)

    perform-Adjusts :
        (c : Json) (o : Option String) (v : Verdict)
        → action_of chrono now c ≡ o
        → Keeps v
        → Yields (CompiledPanics chrono now (some c)) Keeps (perform chrono now o v)
    unfolding perform action_of
    perform-Adjusts c none v h a = a
    perform-Adjusts c (some action) v h a =
        let (found, at, text) = action_found c (get c "action") action refl h in
        Yields-because (SnoozePanics chrono now action) (CompiledPanics chrono now (some c)) Keeps
          (apply_action chrono now action v) (λ q. (c, found, action, refl, at, text, q))
          (apply_action-Adjusts action v a)

    apply_compiled-Adjusts :
        (o : Option Json) (mute : Bool) (v : Verdict)
        → Keeps v
        → Yields (CompiledPanics chrono now o) Keeps (apply_compiled chrono now o mute v)
    unfolding apply_compiled
    apply_compiled-Adjusts none true v a = with_status v.notif muted (inl refl) a
    apply_compiled-Adjusts none false v a = a
    apply_compiled-Adjusts (some compiled) mute v a =
        Yields-if (CompiledPanics chrono now (some compiled)) Keeps
          (match_rule chrono compiled v.notif) _ _
          (perform-Adjusts compiled (action_of chrono now compiled) v refl a) a

    in_force-Adjusts :
        (b : Bool) (r : Rule) (rules : List Rule) (v : Verdict)
        → in_force chrono now r ≡ b
        → Keeps v
        → Yields
            (Panics chrono now (r ∷ rules))
            Keeps
            (if b then apply_compiled chrono now r.compiled r.mute v else done v)
    in_force-Adjusts true r rules v force a =
        Yields-because (CompiledPanics chrono now r.compiled) (Panics chrono now (r ∷ rules)) Keeps
          (apply_compiled chrono now r.compiled r.mute v) (λ q. inl (force, q))
          (apply_compiled-Adjusts r.compiled r.mute v a)
    in_force-Adjusts false r rules v force a = a

    apply_rule-Adjusts :
        (r : Rule) (rules : List Rule) (v : Verdict)
        → Keeps v
        → Yields (Panics chrono now (r ∷ rules)) Keeps (apply_rule chrono now r v)
    unfolding apply_rule
    apply_rule-Adjusts r rules v a = in_force-Adjusts (in_force chrono now r) r rules v refl a

    Yields-and_then :
        (Q : Type 0) (o : Outcome Verdict) (f : Verdict → Outcome Verdict)
        → Yields Q Keeps o
        → ((v : Verdict) → Keeps v → Yields Q Keeps (f v))
        → Yields Q Keeps (and_then o f)
    Yields-and_then Q (done v) f a k = k v a
    Yields-and_then Q failed f a k = a
    Yields-and_then Q panicked f a k = a

    pub apply_rules-Adjusts :
        (rules : List Rule) (v : Verdict)
        → Keeps v
        → Yields (Panics chrono now rules) Keeps (apply_rules chrono now rules v)
    unfolding apply_rules
    apply_rules-Adjusts [] v a = a
    apply_rules-Adjusts (r ∷ rules) v a =
        Yields-and_then (Panics chrono now (r ∷ rules)) (apply_rule chrono now r v) _
          (apply_rule-Adjusts r rules v a)
          (λ w b.
            Yields-because (Panics chrono now rules) (Panics chrono now (r ∷ rules)) Keeps
              (apply_rules chrono now rules w) (λ q. inr q) (apply_rules-Adjusts rules w b))

-- What a caller learns of an evaluated notification.
abbrev pub Evaluated : Notification → Verdict → Type 0
Evaluated n v = Adjusts n v.notif × (n.question_type ≡ approval → v.auto_answer ≡ none)

approval_lem : is_approval approval ≡ true
unfolding is_approval
approval_lem = refl

finish-Evaluated :
    (Q : Type 0) (n : Notification) (o : Outcome Verdict)
    → Yields Q (λ (w : Verdict). Adjusts n w.notif) o
    → Yields Q (Evaluated n) (finish o)
unfolding finish clear_for_approval
finish-Evaluated Q n (done v) a = elim (Bool-cases (is_approval v.notif.question_type)) [
  | inl locked ↦ rw (locked, clear_for_approval) (a, λ h. refl)
  | inr free ↦
      rw (free, clear_for_approval)
        (
          a,
          λ h. cc (
            free,
            h,
            ap (λ (m : Notification). is_approval m.question_type) a.frame,
            approval_lem,
          ),
        )
]
finish-Evaluated Q n failed a = a
finish-Evaluated Q n panicked a = a

-- Whatever the rules are, evaluation never fails, and it panics only if one of them is in force and
-- its action is "snooze:" with a text whose deadline panics (as of a duration out of chrono's
-- range). Its result changes nothing of the notification but
-- its status (to muted or open), its urgency (to one in 0..5) and its deadline, and gives an
-- approval ask no automatic answer.
pub evaluate-Evaluated :
    (chrono : Chrono) (now : DateTime) (rules : List Rule) (n : Notification)
    → Yields (Panics chrono now rules) (Evaluated n) (evaluate chrono now rules n)
unfolding evaluate
evaluate-Evaluated chrono now rules n = finish-Evaluated (Panics chrono now rules) n _ (
    Yields-because (Panics chrono now (sort_by_priority rules)) (Panics chrono now rules)
      (λ (w : Verdict). Adjusts n w.notif) _ (sort_by_priority-Panics chrono now rules)
      (apply_rules-Adjusts n chrono now (sort_by_priority rules) _ (Adjusts-refl n)))
