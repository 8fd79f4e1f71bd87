-- ===== src/Triage/Reconcile/Covers.antt =====
-- Each existing item is acted on.
use mathlib.Core.Path.{subst}
use sjbis.Prelude.{
  suc, ap, ◌∙◌, String, ◌≡◌, refl, Bool, true, false, Option, none, some, List, [], ◌∷◌, ◌++◌, ◌||◌,
  if◌then◌else◌, ok, All, any, str_eq, eq_refl, Bool-cases, inl, inr, or_true, true_or, or_right,
}
use sjbis.Triage.Data.{Observation, TriageItem, RefreshStats}
use sjbis.Triage.Reconcile.{
  ReconcileAction, add, update, ReconcilePlan, Numbered, enumerate, has_text, has_index, Progress,
  act, use_index,
}
use sjbis.Triage.Reconcile.Plan.{
  settle, resolve_lost, mark_missing, missing_freshness, reconcile, nothing_done, plan_of, add_one,
  add_unused,
}
use sjbis.Triage.Reconcile.Tally.{acted_id, IsStep}
use sjbis.Triage.Reconcile.Stats.{reconcile-Run}
use sjbis.Triage.Reconcile.Invariant.{match_items_keeps, mark_missing_keeps, settle_keeps}

abbrev names_item : String → Option String → Bool
names_item id none = false
names_item id (some acted) = str_eq acted id

-- One of the actions is on the item.
unfoldable pub acts_on : String → List ReconcileAction → Bool
acts_on id actions = any (λ a. names_item id (acted_id a)) actions

any-append :
    {A : Type 0} (test : A → Bool) (xs ys : List A)
    → any test (xs ++ ys) ≡ (any test xs || any test ys)
unfolding any
any-append test [] ys = refl
any-append test (x ∷ xs) ys = elim (Bool-cases (test x)) [
  | inl hit ↦ rw hit
  | inr miss ↦ rw miss (any-append test xs ys)
]

-- What is marked as handled has been acted on.
abbrev HandledActs : Progress → Type 0
HandledActs p = (id : String) → has_text id p.handled ≡ true → acts_on id p.actions ≡ true

acts_on-earlier :
    (id : String) (actions : List ReconcileAction) (a : ReconcileAction)
    → acts_on id actions ≡ true
    → acts_on id (actions ++ (a ∷ [])) ≡ true
unfolding acts_on
acts_on-earlier id actions a h = rw any-append (true_or _ _ h)

act-HandledActs :
    (id : String) (a : ReconcileAction) (count : RefreshStats → RefreshStats) (p : Progress)
    → IsStep id a count
    → HandledActs p
    → HandledActs (act id a count p)
unfolding act has_text acts_on any
act-HandledActs id a count p step so_far key h = elim (or_true (str_eq id key) _ h) [
  | inl same ↦
      let newest : acts_on key (a ∷ []) ≡ true = rw (step.on, same) in
      rw any-append (or_right (acts_on key p.actions) (acts_on key (a ∷ [])) newest)
  | inr before ↦ acts_on-earlier key p.actions a (so_far key before)
]

add_one-HandledActs : (n : Numbered) (p : Progress) → HandledActs p → HandledActs (add_one n p)
unfolding add_one
add_one-HandledActs (i, o) p so_far key h = acts_on-earlier key p.actions (add o) (so_far key h)

-- What is handled stays handled.
act-handled :
    (key id : String) (a : ReconcileAction) (count : RefreshStats → RefreshStats) (p : Progress)
    → IsStep id a count
    → has_text key p.handled ≡ true
    → has_text key (act id a count p).handled ≡ true
unfolding act has_text any
act-handled key id a count p step h = or_right (str_eq id key) _ h

stays_handled :
    (key : String) (items : List TriageItem) (p : Progress)
    → has_text key p.handled ≡ true
    → has_text key (mark_missing items p).handled ≡ true
unfolding use_index
stays_handled key =
    mark_missing_keeps (λ q. has_text key q.handled ≡ true) (λ i q h. h) (act-handled key)

mark_missing-handled :
    (items : List TriageItem) (p : Progress)
    → All (λ item. has_text item.id (mark_missing items p).handled ≡ true) items
unfolding mark_missing act has_text any
mark_missing-handled [] p = tt
mark_missing-handled (item ∷ items) p = (
  stays_handled item.id items _ (marked (has_text item.id p.handled) refl),
  mark_missing-handled items _,
)
  where
    marked :
        (there : Bool)
        → has_text item.id p.handled ≡ there
        → has_text item.id
            (if there
              then p
              else act item.id
                  (update item.id none missing_freshness)
                  (λ s. record s { missing_count = suc s.missing_count })
                  p).handled
          ≡ true
    marked true h = h
    marked false h = true_or _ _ (eq_refl item.id)

add_unused-handled : (ns : List Numbered) (p : Progress) → (add_unused ns p).handled ≡ p.handled
unfolding add_unused add_one
add_unused-handled [] p = refl
add_unused-handled (n ∷ ns) p = elim (Bool-cases (has_index n.0 p.used)) [
  | inl there ↦ rw (add_unused, there) (add_unused-handled ns p)
  | inr new ↦ rw (add_unused, new) (add_unused-handled ns (add_one n p))
]

All-map :
    (P Q : TriageItem → Type 0)
    → ((item : TriageItem) → P item → Q item)
    → (items : List TriageItem) → All P items
    → All Q items
All-map P Q f [] h = tt
All-map P Q f (item ∷ items) (h, hs) = (f item h, All-map P Q f items hs)

module _ (sha256_hex : String → String) where
  -- A plan acts on each of the existing items.
  pub reconcile-acts_on :
      (existing : List TriageItem) (given : List Observation) {plan : ReconcilePlan}
      → reconcile sha256_hex existing given ≡ ok plan
      → All (λ item. acts_on item.id plan.actions ≡ true) existing
  unfolding plan_of settle use_index has_text any
  reconcile-acts_on existing given planned =
      let run = reconcile-Run sha256_hex existing given planned in
      let ns = enumerate 0 run.observations in
      let matched =
        match_items_keeps HandledActs (λ i q h. h) act-HandledActs sha256_hex ns existing
          nothing_done (λ id h. cc) run.by_ids in
      let settled =
        settle_keeps HandledActs (λ i q h. h) act-HandledActs add_one-HandledActs sha256_hex
          existing ns run.matched matched in
      let marked = mark_missing existing (resolve_lost sha256_hex existing ns run.matched) in
      subst (λ plan. All (λ item. acts_on item.id plan.actions ≡ true) existing) run.planned
        (All-map _ _
          (λ item h. settled item.id (ap (has_text item.id) (add_unused-handled ns marked) ∙ h))
          existing (mark_missing-handled existing _))
