-- ===== src/Triage/Reconcile.antt =====
-- src/triage/import.rs: `reconcile` and `attachment_action`. A hash set is the list of what was put
-- in; an observation goes with its index. `sha256_hex` is the hash of a text's UTF-8 bytes.
pub mod Plan
pub mod Tally
pub mod Invariant
pub mod Stats
pub mod Covers
pub mod Fresh
pub mod Used
use sjbis.Prelude.{
  ℕ, zero, suc, ◌+◌, String, Bool, true, false, Option, none, some, List, [], ◌∷◌, ◌++◌, ◌&&◌, ◌||◌,
  not, if◌then◌else◌, ◌==◌, str_eq, Result, ok, err, ◌>>=◌, ◌>>◌, ensure, any, select, put_entry,
  get_entry, text_ltb, sort_by,
}
use sjbis.Triage.Data.{
  Observation, TriageItem, SourceKind, path_kind, inline_kind, same_kind, observed_kind, Freshness,
  current, missing, content_changed, ambiguous, RefreshStats,
}
use sjbis.Triage.Observations.{
  ImportError, kind_changed, not_path_backed, hash_mismatch, validate_observation,
  validate_and_sort_observations,
}

pub data ReconcileAction : Type 0 where
  add : Observation → ReconcileAction
  update : String → Option String → Freshness → ReconcileAction
  replace_inline : String → Observation → ReconcileAction

pub record ReconcilePlan : Type 0 where
  pub actions : List ReconcileAction
  pub stats : RefreshStats

abbrev pub Numbered : Type 0
Numbered = ℕ × Observation

-- `iter().enumerate()`, from `k` on.
unfoldable pub enumerate : ℕ → List Observation → List Numbered
enumerate k [] = []
enumerate k (o ∷ os) = (k, o) ∷ enumerate (suc k) os

unfoldable pub later_or : Option Numbered → Bool → Numbered → Option Numbered
later_or (some n) b here = some n
later_or none true here = some here
later_or none false here = none

-- `by_id.get(id)`: of two entries with one key, the map has the later.
unfoldable pub by_id : String → List Numbered → Option Numbered
unfolding later_or
by_id id [] = none
by_id id (n ∷ ns) = later_or (by_id id ns) (str_eq n.1.id id) n

unfoldable pub has_index : ℕ → List ℕ → Bool
has_index i used = any (λ j. j == i) used

unfoldable pub has_text : String → List String → Bool
has_text s texts = any (λ t. str_eq t s) texts

pub record Progress : Type 0 where
  pub used : List ℕ
  pub handled : List String
  pub actions : List ReconcileAction
  pub stats : RefreshStats

unfoldable pub no_stats : RefreshStats
no_stats = record {
  current_count = 0;
  missing_count = 0;
  changed_count = 0;
  ambiguous_count = 0;
  added = 0;
  moved = 0;
  inline_replaced = 0;
}

unfoldable pub same_path : Option String → Option String → Bool
same_path none none = true
same_path none (some b) = false
same_path (some a) none = false
same_path (some a) (some b) = str_eq a b

abbrev pub moved_reason : String
moved_reason = "source_moved"

abbrev pub fresh : Option String → Freshness
fresh reason = record { state = current; reason = reason; candidate_paths = [] }

abbrev pub count_moved : Bool → RefreshStats → RefreshStats
count_moved true s = record s { moved = suc s.moved }
count_moved false s = s

abbrev pub reason_moved : Bool → Option String
reason_moved true = some moved_reason
reason_moved false = none

-- An action on an existing item, counted as `count` says.
unfoldable pub act : String → ReconcileAction → (RefreshStats → RefreshStats) → Progress → Progress
act id a count p = record p {
  handled = id ∷ p.handled;
  actions = p.actions ++ (a ∷ []);
  stats = count p.stats;
}

unfoldable pub use_index : ℕ → Progress → Progress
use_index i p = record p { used = i ∷ p.used }

abbrev pub changed_freshness : Freshness
changed_freshness = record {
  state = content_changed;
  reason = some "source content no longer matches the captured snapshot";
  candidate_paths = [];
}

unfoldable pub path_found :
    TriageItem → Observation → (moved same_content : Bool) → Progress → Progress
unfolding act
path_found item o was_moved true =
    act item.id (update item.id o.path (fresh (reason_moved was_moved)))
      (λ s. count_moved was_moved (record s { current_count = suc s.current_count }))
path_found item o was_moved false =
    act item.id (update item.id o.path changed_freshness)
      (λ s. record s { changed_count = suc s.changed_count })

module _ (sha256_hex : String → String) where
  -- An existing item and the observation of its id, of one kind.
  unfoldable pub found_again : TriageItem → Observation → SourceKind → Progress → Progress
  unfolding act path_found same_path
  found_again item o inline_kind p =
      act item.id (replace_inline item.id o)
        (λ s. record s {
          current_count = suc s.current_count;
          inline_replaced = suc s.inline_replaced;
        })
        p
  found_again item o path_kind p =
      path_found item o (not (same_path item.path o.path))
        (str_eq item.content_sha256 (sha256_hex o.markdown)) p

  unfoldable pub match_item : TriageItem → Option Numbered → Progress → Result ImportError Progress
  unfolding found_again use_index same_kind observed_kind
  match_item item none p = ok p
  match_item item (some (i, o)) p =
      ensure (same_kind item.source_kind (observed_kind o))
        (kind_changed item.id item.source_kind (observed_kind o))
      >> ok (found_again item o item.source_kind (use_index i p))

  -- The first loop: by id.
  unfoldable pub match_items :
      List Numbered → List TriageItem → Progress → Result ImportError Progress
  unfolding match_item by_id
  match_items ns [] p = ok p
  match_items ns (item ∷ items) p =
      match_item item (by_id item.id ns) p >>= λ p'. match_items ns items p'
