-- ===== src/Tests/TriageRuns.antt =====
-- Runs of the import of a review queue.
use sjbis.Prelude.{◌≡◌, ◌↔◌, refl, true, false, none, some, [], ◌∷◌, ok, All, codes}
use sjbis.Triage.Data.{Observation, TriageItem, path_kind, current_freshness, current}
use sjbis.Triage.Glob.{glob_matches}
use sjbis.Triage.Glob.Accepts.{Accepts}
use sjbis.Triage.Glob.Decides.{glob_matches_iff}
use sjbis.Triage.Paths.{split_slash}
use sjbis.Triage.Paths.Canonical.{IsCanonical, IsCanonical-iff}
use sjbis.Triage.Paths.Segments.{is_name}
use sjbis.Triage.Observations.{validate_observation, validate_and_sort_observations}
use sjbis.Triage.Observations.Valid.{IsValid, validate_observation_iff}
use sjbis.Triage.Observations.Distinct.{IsCatalog, validate_and_sort-IsCatalog}
use sjbis.Triage.Reconcile.{ReconcilePlan, update, add, no_stats}
use sjbis.Triage.Reconcile.Plan.{reconcile}
use sjbis.Triage.Reconcile.Tally.{tally}
use sjbis.Triage.Reconcile.Stats.{reconcile-IsTallied}
use sjbis.Triage.Reconcile.Covers.{acts_on, reconcile-acts_on}
use sjbis.Triage.Reconcile.Fresh.{AddsNew, reconcile-AddsNew}

glob_matches_iff_example :
    (glob_matches "docs/**/[a-c]*.md" "docs/x/plan.md" ≡ true)
    ↔ Accepts (codes "docs/**/[a-c]*.md") (codes "docs/x/plan.md")
glob_matches_iff_example = glob_matches_iff "docs/**/[a-c]*.md" "docs/x/plan.md"

glob_deep : glob_matches "docs/**/[a-c]*.md" "docs/x/y/brief.md" ≡ true
unfolding glob_matches
glob_deep = refl

glob_flat : glob_matches "docs/*.md" "docs/x/brief.md" ≡ false
unfolding glob_matches
glob_flat = refl

IsCanonical-iff_example :
    IsCanonical (codes "notes/a.md")
    ↔ All (λ w. is_name w ≡ true) (split_slash (codes "notes/a.md"))
IsCanonical-iff_example = IsCanonical-iff (codes "notes/a.md")

abbrev pub inline_b : Observation
inline_b = record { id = "b"; markdown = "text"; path = none; source = none }

abbrev pub moved_y : Observation
moved_y = record { id = "y"; markdown = "same"; path = some "new.md"; source = none }

validate_observation_iff_example : (validate_observation moved_y ≡ ok tt) ↔ IsValid moved_y
validate_observation_iff_example = validate_observation_iff moved_y

sorted_run : validate_and_sort_observations (inline_b ∷ moved_y ∷ []) ≡ ok (moved_y ∷ inline_b ∷ [])
unfolding validate_and_sort_observations
sorted_run = refl

validate_and_sort-IsCatalog_example : IsCatalog (λ o. o ≡ o) (moved_y ∷ inline_b ∷ [])
validate_and_sort-IsCatalog_example =
    validate_and_sort-IsCatalog (λ o. o ≡ o) (inline_b ∷ moved_y ∷ []) (refl, (refl, tt)) sorted_run

abbrev item_x : TriageItem
item_x = record {
  queue_id = "tq-1";
  id = "x";
  source_kind = path_kind;
  path = some "old.md";
  source = none;
  markdown = "same";
  content_sha256 = "same";
  captured_at = 1;
  freshness = current_freshness;
  latest_revision = none;
}

-- The item `x` is found under another name, and `b` is new.
abbrev plan : ReconcilePlan
plan = record {
  actions =
      update "x" (some "new.md")
        record { state = current; reason = some "source_moved"; candidate_paths = [] }
      ∷ add inline_b
      ∷ [];
  stats = record {
    current_count = 2;
    missing_count = 0;
    changed_count = 0;
    ambiguous_count = 0;
    added = 1;
    moved = 1;
    inline_replaced = 0;
  };
}

plan_run : reconcile (λ s. s) (item_x ∷ []) (inline_b ∷ moved_y ∷ []) ≡ ok plan
unfolding reconcile no_stats
plan_run = refl

reconcile-IsTallied_example : plan.stats ≡ tally plan.actions no_stats
reconcile-IsTallied_example =
    reconcile-IsTallied (λ s. s) (item_x ∷ []) (inline_b ∷ moved_y ∷ []) plan_run

reconcile-acts_on_example : All (λ item. acts_on item.id plan.actions ≡ true) (item_x ∷ [])
reconcile-acts_on_example =
    reconcile-acts_on (λ s. s) (item_x ∷ []) (inline_b ∷ moved_y ∷ []) plan_run

reconcile-AddsNew_example : All (AddsNew (item_x ∷ [])) plan.actions
reconcile-AddsNew_example =
    reconcile-AddsNew (λ s. s) (item_x ∷ []) (inline_b ∷ moved_y ∷ []) plan_run
