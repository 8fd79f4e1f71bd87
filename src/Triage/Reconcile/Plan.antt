-- ===== src/Triage/Reconcile/Plan.antt =====
-- The rest of `reconcile`: the items that no id found, by the hash of their content, and the plan.
use sjbis.Prelude.{
  ℕ, suc, String, Bool, true, false, Option, none, some, List, [], ◌∷◌, ◌++◌, ◌&&◌, not,
  if◌then◌else◌, str_eq, Result, ok, ◌>>=◌, ◌>>◌, ensure, select, put_entry, get_entry, text_ltb,
  sort_by,
}
use sjbis.Triage.Data.{
  Observation, TriageItem, SourceKind, path_kind, inline_kind, observed_kind, Freshness, missing,
  ambiguous,
}
use sjbis.Triage.Observations.{
  ImportError, not_path_backed, hash_mismatch, validate_observation, validate_and_sort_observations,
}
use sjbis.Triage.Reconcile.{
  ReconcileAction, add, update, ReconcilePlan, Numbered, enumerate, has_index, has_text, Progress,
  no_stats, act, use_index, fresh, moved_reason, match_items,
}

unfoldable pub is_path : SourceKind → Bool
is_path path_kind = true
is_path inline_kind = false

unfoldable pub is_missing : List String → TriageItem → Bool
unfolding has_text is_path
is_missing handled item = is_path item.source_kind && not (has_text item.id handled)

-- `or_default().push(a)`
unfoldable pub push : {A : Type 0} → A → Option (List A) → List A
push a none = a ∷ []
push a (some as_) = as_ ++ (a ∷ [])

unfoldable pub missing_by_hash :
    List TriageItem → List (String × List TriageItem) → List (String × List TriageItem)
unfolding put_entry push
missing_by_hash [] m = m
missing_by_hash (item ∷ items) m =
    missing_by_hash items (put_entry item.content_sha256 (push item) m)

unfoldable pub is_unused_path : List ℕ → Numbered → Bool
unfolding has_index is_path observed_kind
is_unused_path used (i, o) = not (has_index i used) && is_path (observed_kind o)

-- `filter_map(|index| observations[*index].path.clone())`
unfoldable pub paths_of : List Numbered → List String
paths_of [] = []
paths_of ((i, o) ∷ ns) =
    let rest = paths_of ns in elim o.path [ none ↦ rest | some path ↦ path ∷ rest ]

-- `dedup()`: of equal neighbours the first stays.
unfoldable pub drop_equal : String → List String → List String
drop_equal s [] = []
drop_equal s (t ∷ ts) = let rest = drop_equal t ts in if str_eq s t then rest else t ∷ rest

unfoldable pub dedup : List String → List String
unfolding drop_equal
dedup [] = []
dedup (s ∷ ss) = s ∷ drop_equal s ss

unfoldable pub candidate_paths_of : List Numbered → List String
unfolding paths_of dedup sort_by text_ltb
candidate_paths_of ns = dedup (sort_by text_ltb (paths_of ns))

unfoldable pub use_all : List Numbered → Progress → Progress
unfolding use_index
use_all [] p = p
use_all ((i, o) ∷ ns) p = use_all ns (use_index i p)

abbrev pub ambiguous_freshness : List String → Freshness
ambiguous_freshness paths = record {
  state = ambiguous;
  reason = some "content hash matched multiple missing items or observed paths";
  candidate_paths = paths;
}

unfoldable pub mark_ambiguous : List String → List TriageItem → Progress → Progress
unfolding act
mark_ambiguous paths [] p = p
mark_ambiguous paths (item ∷ items) p = mark_ambiguous paths items (
    act item.id (update item.id none (ambiguous_freshness paths))
      (λ s. record s { ambiguous_count = suc s.ambiguous_count }) p)

unfoldable pub mark_moved : TriageItem → Numbered → Progress → Progress
unfolding act use_index
mark_moved item (i, o) p =
    act item.id (update item.id o.path (fresh (some moved_reason)))
      (λ s. record s { current_count = suc s.current_count; moved = suc s.moved }) (use_index i p)

-- The missing items of one hash and the observations that have it.
unfoldable pub resolve : List TriageItem → List Numbered → Progress → Progress
unfolding mark_ambiguous mark_moved use_all candidate_paths_of
resolve items [] p = p
resolve (item ∷ []) (n ∷ []) p = mark_moved item n p
resolve [] (n ∷ ns) p = use_all (n ∷ ns) p
resolve (item ∷ []) (n ∷ m ∷ ns) p =
    mark_ambiguous (candidate_paths_of (n ∷ m ∷ ns)) (item ∷ []) (use_all (n ∷ m ∷ ns) p)
resolve (item ∷ other ∷ items) (n ∷ ns) p =
    mark_ambiguous (candidate_paths_of (n ∷ ns)) (item ∷ other ∷ items) (use_all (n ∷ ns) p)

unfoldable pub or_nothing : Option (List Numbered) → List Numbered
or_nothing none = []
or_nothing (some ns) = ns

unfoldable pub resolve_all :
    List (String × List Numbered) → List (String × List TriageItem) → Progress → Progress
unfolding resolve get_entry or_nothing
resolve_all observed [] p = p
resolve_all observed ((hash, items) ∷ m) p =
    resolve_all observed m (resolve items (or_nothing (get_entry hash observed)) p)

abbrev pub missing_freshness : Freshness
missing_freshness = record {
  state = missing;
  reason = some "source was not present in the refreshed import";
  candidate_paths = [];
}

-- `if handled_existing.insert(item.id.clone())`
unfoldable pub mark_missing : List TriageItem → Progress → Progress
unfolding act has_text
mark_missing [] p = p
mark_missing (item ∷ items) p = mark_missing items (
    if has_text item.id p.handled
    then p
    else act item.id (update item.id none missing_freshness)
        (λ s. record s { missing_count = suc s.missing_count }) p)

unfoldable pub add_one : Numbered → Progress → Progress
add_one (i, o) p = record p {
  used = i ∷ p.used;
  actions = p.actions ++ (add o ∷ []);
  stats = record (p.stats) { added = suc p.stats.added; current_count = suc p.stats.current_count };
}

-- `if used.insert(index)`
unfoldable pub add_unused : List Numbered → Progress → Progress
unfolding has_index add_one
add_unused [] p = p
add_unused (n ∷ ns) p = add_unused ns (if has_index n.0 p.used then p else add_one n p)

unfoldable pub plan_of : Progress → ReconcilePlan
plan_of p = record { actions = p.actions; stats = p.stats }

abbrev pub nothing_done : Progress
nothing_done = record { used = []; handled = []; actions = []; stats = no_stats }

module _ (sha256_hex : String → String) where
  unfoldable pub observed_by_hash :
      List Numbered → List (String × List Numbered) → List (String × List Numbered)
  unfolding put_entry push
  observed_by_hash [] m = m
  observed_by_hash ((i, o) ∷ ns) m =
      observed_by_hash ns (put_entry (sha256_hex o.markdown) (push (i, o)) m)

  -- The items that no id found and the observations that are left, by hash.
  unfoldable pub resolve_lost : List TriageItem → List Numbered → Progress → Progress
  unfolding resolve_all missing_by_hash observed_by_hash is_missing is_unused_path select
  resolve_lost existing ns p =
      let lost = missing_by_hash (select (is_missing p.handled) existing) [] in
      let found = observed_by_hash (select (is_unused_path p.used) ns) [] in
      resolve_all found lost p

  -- What follows the match by id.
  unfoldable pub settle : List TriageItem → List Numbered → Progress → Progress
  unfolding resolve_lost mark_missing add_unused
  settle existing ns p = add_unused ns (mark_missing existing (resolve_lost existing ns p))

  unfoldable pub reconcile : List TriageItem → List Observation → Result ImportError ReconcilePlan
  unfolding validate_and_sort_observations enumerate match_items settle plan_of
  reconcile existing given = validate_and_sort_observations given >>= λ observations.
      let ns = enumerate 0 observations in
      match_items sha256_hex ns existing nothing_done >>= λ p. ok (plan_of (settle existing ns p))

  unfoldable pub attachment_action : TriageItem → Observation → Result ImportError ReconcileAction
  unfolding validate_observation is_path observed_kind
  attachment_action item o =
      validate_observation o
      >> ensure (is_path item.source_kind && is_path (observed_kind o)) not_path_backed
      >> ensure (str_eq item.content_sha256 (sha256_hex o.markdown)) (hash_mismatch item.id)
      >> ok (update item.id o.path (fresh (some "explicitly_attached")))
