-- ===== src/Triage/Reconcile/Stats.antt =====
-- The statistics of a plan count its actions.
use mathlib.Core.Path.{subst}
use sjbis.Prelude.{
  String, ◌≡◌, refl, sym, ap, ◌∙◌, List, [], ◌∷◌, ◌++◌, ok, from_bind, ok-injective,
}
use sjbis.Triage.Data.{Observation, TriageItem, RefreshStats}
use sjbis.Triage.Observations.{validate_and_sort_observations}
use sjbis.Triage.Reconcile.{
  ReconcileAction, add, ReconcilePlan, Numbered, enumerate, Progress, no_stats, act, use_index,
  match_items,
}
use sjbis.Triage.Reconcile.Plan.{settle, reconcile, nothing_done, plan_of, add_one}
use sjbis.Triage.Reconcile.Tally.{tally, tallied, tally-append, IsStep}
use sjbis.Triage.Reconcile.Invariant.{match_items_keeps, settle_keeps}

-- The run of `reconcile` behind a plan.
pub record Run (sha256_hex : String → String) (existing : List TriageItem)
    (given : List Observation) (plan : ReconcilePlan) : Type 0 where
  pub observations : List Observation
  pub matched : Progress
  pub catalogued : validate_and_sort_observations given ≡ ok observations
  pub by_ids : match_items sha256_hex (enumerate 0 observations) existing nothing_done ≡ ok matched
  pub planned : plan_of (settle sha256_hex existing (enumerate 0 observations) matched) ≡ plan

pub reconcile-Run :
    (sha256_hex : String → String) (existing : List TriageItem) (given : List Observation)
    {plan : ReconcilePlan}
    → reconcile sha256_hex existing given ≡ ok plan
    → Run sha256_hex existing given plan
unfolding reconcile
reconcile-Run sha256_hex existing given =
    from_bind (validate_and_sort_observations given) _ λ observations catalogued.
      from_bind (match_items sha256_hex (enumerate 0 observations) existing nothing_done) _
        λ matched by_ids done. record {
          observations = observations;
          matched = matched;
          catalogued = catalogued;
          by_ids = by_ids;
          planned = ok-injective done;
        }

-- So far the statistics count the actions.
abbrev IsTallied : Progress → Type 0
IsTallied p = p.stats ≡ tally p.actions no_stats

push_tallied :
    (p : Progress) (a : ReconcileAction)
    → IsTallied p
    → tallied a p.stats ≡ tally (p.actions ++ (a ∷ [])) no_stats
push_tallied p a so_far = ap (tallied a) so_far ∙ sym (tally-append p.actions a no_stats)

act-IsTallied :
    (id : String) (a : ReconcileAction) (count : RefreshStats → RefreshStats) (p : Progress)
    → IsStep id a count
    → IsTallied p
    → IsTallied (act id a count p)
unfolding act
act-IsTallied id a count p step so_far = step.counts p.stats ∙ push_tallied p a so_far

add_one-IsTallied : (n : Numbered) (p : Progress) → IsTallied p → IsTallied (add_one n p)
unfolding add_one tallied
add_one-IsTallied (i, o) p so_far = push_tallied p (add o) so_far

module _ (sha256_hex : String → String) where
  -- A plan's statistics are the count of its actions: a current one for each update to current,
  -- each replacement and each addition, and so on for the others; moved for each update to current
  -- whose reason is that the source moved.
  pub reconcile-IsTallied :
      (existing : List TriageItem) (given : List Observation) {plan : ReconcilePlan}
      → reconcile sha256_hex existing given ≡ ok plan
      → plan.stats ≡ tally plan.actions no_stats
  unfolding use_index plan_of tally
  reconcile-IsTallied existing given planned =
      let run = reconcile-Run sha256_hex existing given planned in
      let ns = enumerate 0 run.observations in
      let matched =
        match_items_keeps IsTallied (λ i q h. h) act-IsTallied sha256_hex ns existing nothing_done
          refl run.by_ids in
      subst (λ plan. plan.stats ≡ tally plan.actions no_stats) run.planned
        (settle_keeps IsTallied (λ i q h. h) act-IsTallied add_one-IsTallied sha256_hex existing ns
          run.matched matched)
