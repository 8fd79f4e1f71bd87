-- ===== src/Triage/Store/Refresh/Snapshots.antt =====
-- The captured snapshots of path-backed items under `refresh_queue` (src/triage/store.rs).
use mathlib.Core.Path.{subst}
use mathlib.Core.List.{◌++◌, append_assoc, append-nil}
use sjbis.Prelude.{
  String, ◌≡◌, refl, sym, ap, ◌∙◌, Bool, true, false, Option, none, some, List, [], ◌∷◌, not,
  if◌then◌else◌, ok, from_ensure, from_bind, ok-injective, Bool-cases, inl, inr,
}
use sjbis.Models.Data.{DateTime}
use sjbis.Triage.Data.{
  Observation, SourceKind, path_kind, inline_kind, same_kind, Freshness, is_current, RefreshStats,
}
use sjbis.Triage.Reconcile.{ReconcileAction, add, update, replace_inline}
use sjbis.Triage.Reconcile.Plan.{reconcile}
use sjbis.Triage.Store.{ItemRow, Tables, is_queue_item, lift_import}
use sjbis.Triage.Store.Queues.{
  lock_open_queue, touch, on_queue, insert_item, item_row, add_item, has_item, load_items,
}
use sjbis.Triage.Store.Refresh.{
  update_items, with_freshness, update_freshness, ensure_current_path_available, release, replaced,
  apply_update, apply_one, apply_actions, refresh_queue,
}

-- Whose snapshot it is, and what was captured when.
pub record Snapshot : Type 0 where
  pub queue_id : String
  pub id : String
  pub markdown : String
  pub content_sha256 : String
  pub captured_at : DateTime

abbrev with_snapshot : SourceKind → ItemRow → List Snapshot → List Snapshot
with_snapshot inline_kind row rest = rest
with_snapshot path_kind row rest =
    record {
      queue_id = row.queue_id;
      id = row.id;
      markdown = row.markdown;
      content_sha256 = row.content_sha256;
      captured_at = row.captured_at;
    }
    ∷ rest

-- The snapshots of the path-backed items, in the order of the table.
unfoldable pub snapshots : List ItemRow → List Snapshot
snapshots [] = []
snapshots (row ∷ rows) = with_snapshot row.source_kind row (snapshots rows)

-- The snapshots are those of before, and perhaps more after them.
abbrev pub KeepsSnapshots : Tables → Tables → Type 0
KeepsSnapshots t t' = (more : List Snapshot) × (snapshots t'.items ≡ snapshots t.items ++ more)

keeps_none : (t t' : Tables) → snapshots t'.items ≡ snapshots t.items → KeepsSnapshots t t'
keeps_none t t' h = ([], h ∙ sym (append-nil (snapshots t.items)))

keeps_then : (a b c : Tables) → KeepsSnapshots a b → KeepsSnapshots b c → KeepsSnapshots a c
keeps_then a b c (xs, h) (ys, k) =
    (xs ++ ys, k ∙ ap (λ l. l ++ ys) h ∙ append_assoc (snapshots a.items) xs ys)

-- A change of a row that keeps its snapshot.
abbrev Keeps : (ItemRow → ItemRow) → Type 0
Keeps f =
    (row : ItemRow) (rest : List Snapshot)
    → with_snapshot (f row).source_kind (f row) rest ≡ with_snapshot row.source_kind row rest

snapshots-update_items :
    (queue id : String) (f : ItemRow → ItemRow) (rows : List ItemRow)
    → Keeps f
    → snapshots (update_items queue id f rows) ≡ snapshots rows
unfolding snapshots update_items
snapshots-update_items queue id f [] keeps = refl
snapshots-update_items queue id f (row ∷ rows) keeps =
    row_kept (is_queue_item queue id row)
    ∙ ap (with_snapshot row.source_kind row) (snapshots-update_items queue id f rows keeps)
  where
    row_kept :
        (hit : Bool)
        → with_snapshot
            (if hit then f row else row).source_kind
            (if hit then f row else row)
            (snapshots (update_items queue id f rows))
          ≡ with_snapshot row.source_kind row (snapshots (update_items queue id f rows))
    row_kept true = keeps row (snapshots (update_items queue id f rows))
    row_kept false = refl

update_freshness-KeepsSnapshots :
    (queue id : String) (path : Option String) (f : Freshness) (now : DateTime) (t : Tables)
    → KeepsSnapshots t (update_freshness queue id path f now t)
unfolding update_freshness with_freshness
update_freshness-KeepsSnapshots queue id path f now t =
    keeps_none t (update_freshness queue id path f now t)
      (snapshots-update_items queue id (with_freshness path f now) t.items kept)
  where
    kept : Keeps (with_freshness path f now)
    kept row rest = by_kind row.source_kind
      where
        by_kind :
            (k : SourceKind)
            → with_snapshot k (with_freshness path f now row) rest ≡ with_snapshot k row rest
        by_kind path_kind = refl
        by_kind inline_kind = refl

release-KeepsSnapshots :
    (queue : String) (actions : List ReconcileAction) (now : DateTime) (t : Tables)
    → KeepsSnapshots t (release queue actions now t)
unfolding release
release-KeepsSnapshots queue [] now t = keeps_none t t refl
release-KeepsSnapshots queue (add o ∷ actions) now t = release-KeepsSnapshots queue actions now t
release-KeepsSnapshots queue (replace_inline id o ∷ actions) now t =
    release-KeepsSnapshots queue actions now t
release-KeepsSnapshots queue (update id path f ∷ actions) now t =
    elim (Bool-cases (is_current f.state)) [
      | inl stays ↦ rw (release, stays) (release-KeepsSnapshots queue actions now t)
      | inr released ↦
          let mid = update_freshness queue id none f now t in
          rw (release, released)
            (keeps_then t mid (release queue actions now mid)
              (update_freshness-KeepsSnapshots queue id none f now t)
              (release-KeepsSnapshots queue actions now mid))
    ]

snapshots-append :
    (rows : List ItemRow) (row : ItemRow)
    → snapshots (rows ++ (row ∷ [])) ≡ snapshots rows ++ snapshots (row ∷ [])
unfolding snapshots
snapshots-append [] row = refl
snapshots-append (r ∷ rows) row =
    ap (with_snapshot r.source_kind r) (snapshots-append rows row) ∙ by_kind r.source_kind
  where
    by_kind :
        (k : SourceKind)
        → with_snapshot k r (snapshots rows ++ snapshots (row ∷ []))
          ≡ with_snapshot k r (snapshots rows) ++ snapshots (row ∷ [])
    by_kind path_kind = refl
    by_kind inline_kind = refl

module _ (sha256_hex : String → String) where
  -- The statement on an inline item leaves path-backed ones alone.
  replaced-Keeps : (o : Observation) (now : DateTime) → Keeps (replaced sha256_hex o now)
  unfolding replaced same_kind
  replaced-Keeps o now row rest = by_kind row.source_kind refl
    where
      by_kind :
          (k : SourceKind)
          → row.source_kind ≡ k
          → with_snapshot
              (replaced sha256_hex o now row).source_kind
              (replaced sha256_hex o now row)
              rest
            ≡ with_snapshot row.source_kind row rest
      by_kind path_kind h = rw (replaced, h) refl
      by_kind inline_kind h = rw (replaced, h) refl

  insert_item-KeepsSnapshots :
      (queue : String) (o : Observation) (now : DateTime) (t : Tables) {t' : Tables}
      → insert_item sha256_hex queue o now t ≡ ok t'
      → KeepsSnapshots t t'
  unfolding insert_item add_item
  insert_item-KeepsSnapshots queue o now t =
      from_ensure (not (has_item queue o.id t.items)) _ _ λ _ done.
        let row = item_row sha256_hex queue o now in
        let kept : KeepsSnapshots t (add_item row t) =
          (snapshots (row ∷ []), snapshots-append t.items row) in
        subst (KeepsSnapshots t) (ok-injective done) kept

  apply_update-KeepsSnapshots :
      (is_now : Bool) (queue id : String) (path : Option String) (f : Freshness) (now : DateTime)
      (t : Tables) {t' : Tables}
      → apply_update is_now queue id path f now t ≡ ok t'
      → KeepsSnapshots t t'
  unfolding apply_update
  apply_update-KeepsSnapshots true queue id path f now t h =
      from_bind (ensure_current_path_available queue path (some id) t) _
        (λ _ free done.
          subst (KeepsSnapshots t) (ok-injective done)
            (update_freshness-KeepsSnapshots queue id path f now t))
        h
  apply_update-KeepsSnapshots false queue id path f now t h =
      subst (KeepsSnapshots t) (ok-injective h) (keeps_none t t refl)

  apply_one-KeepsSnapshots :
      (queue : String) (a : ReconcileAction) (now : DateTime) (t : Tables) {t' : Tables}
      → apply_one sha256_hex queue a now t ≡ ok t'
      → KeepsSnapshots t t'
  unfolding apply_one
  apply_one-KeepsSnapshots queue (add o) now t h =
      from_bind (ensure_current_path_available queue o.path none t) _
        (λ _ free inserted. insert_item-KeepsSnapshots queue o now t inserted) h
  apply_one-KeepsSnapshots queue (update id path f) now t h =
      apply_update-KeepsSnapshots (is_current f.state) queue id path f now t h
  apply_one-KeepsSnapshots queue (replace_inline id o) now t h =
      let rows = update_items queue id (replaced sha256_hex o now) t.items in
      let kept : KeepsSnapshots t (record t { items = rows }) =
        keeps_none t (record t { items = rows })
          (snapshots-update_items queue id (replaced sha256_hex o now) t.items
            (replaced-Keeps o now)) in
      subst (KeepsSnapshots t) (ok-injective h) kept

  apply_actions-KeepsSnapshots :
      (queue : String) (actions : List ReconcileAction) (now : DateTime) (t : Tables) {t' : Tables}
      → apply_actions sha256_hex queue actions now t ≡ ok t'
      → KeepsSnapshots t t'
  unfolding apply_actions
  apply_actions-KeepsSnapshots queue [] now t h =
      subst (KeepsSnapshots t) (ok-injective h) (keeps_none t t refl)
  apply_actions-KeepsSnapshots queue (a ∷ actions) now t {t'} h =
      from_bind (apply_one sha256_hex queue a now t) _
        (λ mid applied rest.
          keeps_then t mid t' (apply_one-KeepsSnapshots queue a now t applied)
            (apply_actions-KeepsSnapshots queue actions now mid rest))
        h

  -- A refresh keeps what was captured: the snapshots of the path-backed items, which are the text,
  -- its hash and the time of capture, are those of before in the same order, and perhaps new ones
  -- after them, whatever was observed and whatever became of the files.
  pub refresh_queue-KeepsSnapshots :
      (reference : String) (os : List Observation) (now : DateTime) (t : Tables) {t' : Tables}
      {stats : RefreshStats}
      → refresh_queue sha256_hex reference os now t ≡ ok (t', stats)
      → KeepsSnapshots t t'
  unfolding refresh_queue touch on_queue
  refresh_queue-KeepsSnapshots reference os now t =
      from_bind (lock_open_queue reference t) _ λ queue locked.
        from_bind (lift_import (reconcile sha256_hex (load_items queue t) os)) _ λ plan planned.
          from_bind (apply_actions sha256_hex queue plan.actions now _) _ λ filled applied done.
            let freed = release queue plan.actions now t in
            subst (λ answer. KeepsSnapshots t answer.0) (ok-injective done)
              (keeps_then t freed filled (release-KeepsSnapshots queue plan.actions now t)
                (apply_actions-KeepsSnapshots queue plan.actions now freed applied))
