-- ===== src/Triage/Reconcile/Invariant.antt =====
-- An invariant of the progress that each single step keeps is kept by the loops of `reconcile`.
use sjbis.Prelude.{
  select, ℕ, String, ◌≡◌, refl, Bool, true, false, Option, none, some, List, [], ◌∷◌, ok,
  from_ensure, from_bind, ok-injective, Bool-cases, inl, inr,
}
use mathlib.Core.Path.{subst}
use sjbis.Triage.Data.{
  Observation, TriageItem, SourceKind, path_kind, inline_kind, same_kind, observed_kind,
  RefreshStats,
}
use sjbis.Triage.Reconcile.{
  found_again, path_found, match_items, fresh, moved_reason, match_item, use_index, ReconcileAction,
  update, replace_inline, Numbered, by_id, has_index, has_text, Progress, act, changed_freshness,
}
use sjbis.Triage.Reconcile.Plan.{
  resolve, resolve_all, use_all, mark_ambiguous, mark_moved, mark_missing, add_one, add_unused,
  ambiguous_freshness, missing_freshness, settle, resolve_lost, missing_by_hash, observed_by_hash,
  is_missing, is_unused_path,
}
use sjbis.Triage.Reconcile.Tally.{tallied, tallied_state, tallied_reason, IsStep}

-- A match that succeeds has used the index and acted on the item.
pub match_item_ok :
    (sha256_hex : String → String) (item : TriageItem) (i : ℕ) (o : Observation) (p : Progress)
    {p' : Progress}
    → match_item sha256_hex item (some (i, o)) p ≡ ok p'
    → found_again sha256_hex item o item.source_kind (use_index i p) ≡ p'
unfolding match_item
match_item_ok sha256_hex item i o p =
    from_ensure (same_kind item.source_kind (observed_kind o)) _ _ λ _ same. ok-injective same

module _ (I : Progress → Type 0) (uses : (i : ℕ) (p : Progress) → I p → I (use_index i p))
    (acts : (id : String) (a : ReconcileAction) (count : RefreshStats → RefreshStats) (p : Progress)
      → IsStep id a count
      → I p
      → I (act id a count p)) where
  path_found_keeps :
      (item : TriageItem) (o : Observation) (was_moved same_content : Bool) (p : Progress)
      → I p
      → I (path_found item o was_moved same_content p)
  unfolding path_found tallied tallied_state tallied_reason
  path_found_keeps item o true true p =
      acts item.id (update item.id o.path (fresh (some moved_reason))) _ p
        record { on = refl; counts = λ s. refl }
  path_found_keeps item o false true p =
      acts item.id (update item.id o.path (fresh none)) _ p record { on = refl; counts = λ s. refl }
  path_found_keeps item o was_moved false p =
      acts item.id (update item.id o.path changed_freshness) _ p
        record { on = refl; counts = λ s. refl }

  module _ (sha256_hex : String → String) where
    pub found_again_keeps :
        (item : TriageItem) (o : Observation) (k : SourceKind) (p : Progress)
        → I p
        → I (found_again sha256_hex item o k p)
    unfolding found_again tallied
    found_again_keeps item o inline_kind p =
        acts item.id (replace_inline item.id o) _ p record { on = refl; counts = λ s. refl }
    found_again_keeps item o path_kind p = path_found_keeps item o _ _ p

    match_item_keeps :
        (item : TriageItem) (n : Option Numbered) (p : Progress) {p' : Progress}
        → I p
        → match_item sha256_hex item n p ≡ ok p'
        → I p'
    unfolding match_item
    match_item_keeps item none p so_far h = subst I (ok-injective h) so_far
    match_item_keeps item (some (i, o)) p so_far h =
        subst I (match_item_ok sha256_hex item i o p h)
          (found_again_keeps item o item.source_kind (use_index i p) (uses i p so_far))

    pub match_items_keeps :
        (ns : List Numbered) (items : List TriageItem) (p : Progress) {p' : Progress}
        → I p
        → match_items sha256_hex ns items p ≡ ok p'
        → I p'
    unfolding match_items
    match_items_keeps ns [] p so_far h = subst I (ok-injective h) so_far
    match_items_keeps ns (item ∷ items) p so_far h =
        from_bind (match_item sha256_hex item (by_id item.id ns) p) _
          (λ mid matched rest.
            match_items_keeps ns items mid
              (match_item_keeps item (by_id item.id ns) p so_far matched) rest)
          h

  use_all_keeps : (ns : List Numbered) (p : Progress) → I p → I (use_all ns p)
  unfolding use_all
  use_all_keeps [] p so_far = so_far
  use_all_keeps ((i, o) ∷ ns) p so_far = use_all_keeps ns (use_index i p) (uses i p so_far)

  mark_ambiguous_keeps :
      (paths : List String) (items : List TriageItem) (p : Progress)
      → I p
      → I (mark_ambiguous paths items p)
  unfolding mark_ambiguous tallied tallied_state
  mark_ambiguous_keeps paths [] p so_far = so_far
  mark_ambiguous_keeps paths (item ∷ items) p so_far = mark_ambiguous_keeps paths items _ (
      acts item.id (update item.id none (ambiguous_freshness paths)) _ p
        record { on = refl; counts = λ s. refl } so_far)

  mark_moved_keeps :
      (item : TriageItem) (n : Numbered) (p : Progress) → I p → I (mark_moved item n p)
  unfolding mark_moved tallied tallied_state tallied_reason
  mark_moved_keeps item (i, o) p so_far =
      acts item.id (update item.id o.path (fresh (some moved_reason))) _ (use_index i p)
        record { on = refl; counts = λ s. refl } (uses i p so_far)

  resolve_keeps :
      (items : List TriageItem) (ns : List Numbered) (p : Progress) → I p → I (resolve items ns p)
  unfolding resolve
  resolve_keeps items [] p so_far = so_far
  resolve_keeps (item ∷ []) (n ∷ []) p so_far = mark_moved_keeps item n p so_far
  resolve_keeps [] (n ∷ ns) p so_far = use_all_keeps (n ∷ ns) p so_far
  resolve_keeps (item ∷ []) (n ∷ m ∷ ns) p so_far =
      mark_ambiguous_keeps _ (item ∷ []) _ (use_all_keeps (n ∷ m ∷ ns) p so_far)
  resolve_keeps (item ∷ other ∷ items) (n ∷ ns) p so_far =
      mark_ambiguous_keeps _ (item ∷ other ∷ items) _ (use_all_keeps (n ∷ ns) p so_far)

  resolve_all_keeps :
      (observed : List (String × List Numbered)) (m : List (String × List TriageItem))
      (p : Progress)
      → I p
      → I (resolve_all observed m p)
  unfolding resolve_all
  resolve_all_keeps observed [] p so_far = so_far
  resolve_all_keeps observed ((hash, items) ∷ m) p so_far =
      resolve_all_keeps observed m _ (resolve_keeps items _ p so_far)

  pub mark_missing_keeps : (items : List TriageItem) (p : Progress) → I p → I (mark_missing items p)
  unfolding mark_missing tallied tallied_state
  mark_missing_keeps [] p so_far = so_far
  mark_missing_keeps (item ∷ items) p so_far = elim (Bool-cases (has_text item.id p.handled)) [
    | inl there ↦ rw there (mark_missing_keeps items p so_far)
    | inr new ↦ rw new (
        mark_missing_keeps items _ (
          acts item.id (update item.id none missing_freshness) _ p
            record { on = refl; counts = λ s. refl } so_far))
  ]

  pub resolve_lost_keeps :
      (sha256_hex : String → String) (existing : List TriageItem) (ns : List Numbered)
      (p : Progress)
      → I p
      → I (resolve_lost sha256_hex existing ns p)
  unfolding resolve_lost
  resolve_lost_keeps sha256_hex existing ns p so_far =
      let lost = missing_by_hash (select (is_missing p.handled) existing) [] in
      let found = observed_by_hash sha256_hex (select (is_unused_path p.used) ns) [] in
      resolve_all_keeps found lost p so_far

  module _ (adds : (n : Numbered) (p : Progress) → I p → I (add_one n p)) where
    pub add_unused_keeps : (ns : List Numbered) (p : Progress) → I p → I (add_unused ns p)
    unfolding add_unused
    add_unused_keeps [] p so_far = so_far
    add_unused_keeps (n ∷ ns) p so_far = elim (Bool-cases (has_index n.0 p.used)) [
      | inl there ↦ rw there (add_unused_keeps ns p so_far)
      | inr new ↦ rw new (add_unused_keeps ns (add_one n p) (adds n p so_far))
    ]

    pub settle_keeps :
        (sha256_hex : String → String) (existing : List TriageItem) (ns : List Numbered)
        (p : Progress)
        → I p
        → I (settle sha256_hex existing ns p)
    unfolding settle
    settle_keeps sha256_hex existing ns p so_far =
        let lost = resolve_lost sha256_hex existing ns p in
        add_unused_keeps ns (mark_missing existing lost)
          (mark_missing_keeps existing lost (resolve_lost_keeps sha256_hex existing ns p so_far))
