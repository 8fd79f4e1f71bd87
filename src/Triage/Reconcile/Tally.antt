-- ===== src/Triage/Reconcile/Tally.antt =====
-- What a list of actions counts for.
use sjbis.Prelude.{
  suc, String, ◌≡◌, refl, Option, none, some, List, [], ◌∷◌, ◌++◌, if◌then◌else◌, str_eq,
}
use sjbis.Triage.Data.{FreshnessState, current, missing, content_changed, ambiguous, RefreshStats}
use sjbis.Triage.Reconcile.{ReconcileAction, add, update, replace_inline, moved_reason}

-- What a freshness counts as: a current item has moved where the reason says so.
unfoldable pub tallied_reason : Option String → RefreshStats → RefreshStats
tallied_reason none s = s
tallied_reason (some reason) s =
    if str_eq reason moved_reason then record s { moved = suc s.moved } else s

unfoldable pub tallied_state : FreshnessState → Option String → RefreshStats → RefreshStats
unfolding tallied_reason
tallied_state current reason s =
    tallied_reason reason (record s { current_count = suc s.current_count })
tallied_state missing reason s = record s { missing_count = suc s.missing_count }
tallied_state content_changed reason s = record s { changed_count = suc s.changed_count }
tallied_state ambiguous reason s = record s { ambiguous_count = suc s.ambiguous_count }

unfoldable pub tallied : ReconcileAction → RefreshStats → RefreshStats
unfolding tallied_state
tallied (add o) s = record s { current_count = suc s.current_count; added = suc s.added }
tallied (update id path freshness) s = tallied_state freshness.state freshness.reason s
tallied (replace_inline id o) s = record s {
  current_count = suc s.current_count;
  inline_replaced = suc s.inline_replaced;
}

-- The statistics after the actions, from `s` on.
unfoldable pub tally : List ReconcileAction → RefreshStats → RefreshStats
unfolding tallied
tally [] s = s
tally (a ∷ as_) s = tally as_ (tallied a s)

pub tally-append :
    (as_ : List ReconcileAction) (a : ReconcileAction) (s : RefreshStats)
    → tally (as_ ++ (a ∷ [])) s ≡ tallied a (tally as_ s)
unfolding tally
tally-append [] a s = refl
tally-append (b ∷ as_) a s = tally-append as_ a (tallied b s)

-- The existing item that an action is on.
abbrev pub acted_id : ReconcileAction → Option String
acted_id (add o) = none
acted_id (update id path freshness) = some id
acted_id (replace_inline id o) = some id

-- The action is on the item `id`, and `count` counts it.
pub record IsStep (id : String) (a : ReconcileAction) (count : RefreshStats → RefreshStats)
    : Type 0 where
  pub on : acted_id a ≡ some id
  pub counts : (s : RefreshStats) → count s ≡ tallied a s
