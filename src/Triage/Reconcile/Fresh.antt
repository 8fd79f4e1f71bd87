-- ===== src/Triage/Reconcile/Fresh.antt =====
-- What a plan adds is not there yet.
use mathlib.Core.Path.{subst}
use sjbis.Prelude.{
  ℕ, String, ◌≡◌, refl, false, some, List, [], ◌∷◌, ◌++◌, ok, All, any, Bool-cases, inl, inr,
  or_false, ◌==◌,
}
use sjbis.Triage.Data.{Observation, TriageItem, RefreshStats}
use sjbis.Triage.Observations.Distinct.{validate_and_sort-IsCatalog}
use sjbis.Triage.Reconcile.{
  ReconcileAction, add, update, replace_inline, ReconcilePlan, Numbered, enumerate, has_index,
  Progress, act, use_index,
}
use sjbis.Triage.Reconcile.Plan.{
  settle, reconcile, nothing_done, plan_of, add_one, add_unused, mark_missing, resolve_lost,
}
use sjbis.Triage.Reconcile.Tally.{acted_id, IsStep}
use sjbis.Triage.Reconcile.Used.{IsNew, All-unused-IsNew, match_items-used, by_id-own}
use sjbis.Triage.Reconcile.Stats.{Run, reconcile-Run}
use sjbis.Triage.Reconcile.Invariant.{match_items_keeps, mark_missing_keeps, resolve_lost_keeps}

-- What an action adds is new.
abbrev pub AddsNew : List TriageItem → ReconcileAction → Type 0
AddsNew existing (add o) = IsNew existing o
AddsNew existing (update id path freshness) = Unit
AddsNew existing (replace_inline id o) = Unit

module _ (existing : List TriageItem) (ns : List Numbered) where
  -- What is not used yet is new, and what has been added was.
  record AddsOnlyNew (p : Progress) : Type 0 where
    unused : All (λ n. has_index n.0 p.used ≡ false → IsNew existing n.1) ns
    added : All (AddsNew existing) p.actions

  All-push :
      (actions : List ReconcileAction) (a : ReconcileAction)
      → All (AddsNew existing) actions
      → AddsNew existing a
      → All (AddsNew existing) (actions ++ (a ∷ []))
  All-push [] a h new = (new, tt)
  All-push (b ∷ actions) a (h, hs) new = (h, All-push actions a hs new)

  still_unused :
      (i : ℕ) (used : List ℕ) (ms : List Numbered)
      → All (λ n. has_index n.0 used ≡ false → IsNew existing n.1) ms
      → All (λ n. has_index n.0 (i ∷ used) ≡ false → IsNew existing n.1) ms
  unfolding has_index any
  still_unused i used [] h = tt
  still_unused i used (n ∷ ms) (h, hs) =
      (λ free. h (or_false (i == n.0) _ free).1, still_unused i used ms hs)

  use_index-AddsOnlyNew : (i : ℕ) (p : Progress) → AddsOnlyNew p → AddsOnlyNew (use_index i p)
  unfolding use_index
  use_index-AddsOnlyNew i p h = record {
    unused = still_unused i p.used ns h.unused;
    added = h.added;
  }

  step_adds_nothing :
      (id : String) (a : ReconcileAction) → acted_id a ≡ some id → AddsNew existing a
  step_adds_nothing id (add o) h = cc
  step_adds_nothing id (update acted path freshness) h = tt
  step_adds_nothing id (replace_inline acted o) h = tt

  act-AddsOnlyNew :
      (id : String) (a : ReconcileAction) (count : RefreshStats → RefreshStats) (p : Progress)
      → IsStep id a count
      → AddsOnlyNew p
      → AddsOnlyNew (act id a count p)
  unfolding act
  act-AddsOnlyNew id a count p step h = record {
    unused = h.unused;
    added = All-push p.actions a h.added (step_adds_nothing id a step.on);
  }

  add_unused-AddsOnlyNew :
      (ms : List Numbered) (p : Progress)
      → All (λ n. has_index n.0 p.used ≡ false → IsNew existing n.1) ms
      → AddsOnlyNew p
      → All (AddsNew existing) (add_unused ms p).actions
  unfolding add_unused add_one
  add_unused-AddsOnlyNew [] p new h = h.added
  add_unused-AddsOnlyNew ((i, o) ∷ ms) p (first, new) h = elim (Bool-cases (has_index i p.used)) [
    | inl there ↦ rw (add_unused, there) (add_unused-AddsOnlyNew ms p new h)
    | inr free ↦
        rw (add_unused, free)
          (add_unused-AddsOnlyNew ms (add_one (i, o) p) (still_unused i p.used ms new) record {
            unused = still_unused i p.used ns h.unused;
            added = All-push p.actions (add o) h.added (first free);
          })
  ]

  settle-AddsOnlyNew :
      (sha256_hex : String → String) (p : Progress)
      → AddsOnlyNew p
      → All (AddsNew existing) (settle sha256_hex existing ns p).actions
  unfolding settle
  settle-AddsOnlyNew sha256_hex p h =
      let lost = resolve_lost sha256_hex existing ns p in
      let settled =
        mark_missing_keeps AddsOnlyNew use_index-AddsOnlyNew act-AddsOnlyNew existing lost (
          resolve_lost_keeps AddsOnlyNew use_index-AddsOnlyNew act-AddsOnlyNew sha256_hex existing
            ns p h) in
      add_unused-AddsOnlyNew ns (mark_missing existing lost) settled.unused settled

All-trivial : (os : List Observation) → All (λ o. o ≡ o) os
All-trivial [] = tt
All-trivial (o ∷ os) = (refl, All-trivial os)

module _ (sha256_hex : String → String) (existing : List TriageItem)
    (given : List Observation) where
  Run-AddsOnlyNew :
      {plan : ReconcilePlan} (run : Run sha256_hex existing given plan)
      → AddsOnlyNew existing (enumerate 0 run.observations) run.matched
  unfolding use_index act
  Run-AddsOnlyNew run =
      let ns = enumerate 0 run.observations in
      let catalog =
        validate_and_sort-IsCatalog (λ o. o ≡ o) given (All-trivial given) run.catalogued in
      let covered = match_items-used sha256_hex ns existing nothing_done run.by_ids in
      record {
        unused =
            All-unused-IsNew existing ns ns run.matched.used covered
              (by_id-own 0 run.observations catalog.ids);
        added =
            match_items_keeps (λ q. All (AddsNew existing) q.actions) (λ i q h. h)
              (λ id a count q step h.
                All-push existing ns q.actions a h (step_adds_nothing existing ns id a step.on))
              sha256_hex ns existing nothing_done tt run.by_ids;
      }

  -- A plan adds no item under an id that the queue has.
  pub reconcile-AddsNew :
      {plan : ReconcilePlan}
      → reconcile sha256_hex existing given ≡ ok plan
      → All (AddsNew existing) plan.actions
  unfolding plan_of
  reconcile-AddsNew planned =
      let run = reconcile-Run sha256_hex existing given planned in
      subst (λ plan. All (AddsNew existing) plan.actions) run.planned
        (settle-AddsOnlyNew existing (enumerate 0 run.observations) sha256_hex run.matched
          (Run-AddsOnlyNew run))
