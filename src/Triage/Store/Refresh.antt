-- ===== src/Triage/Store/Refresh.antt =====
-- `refresh_queue` and `attach_item`: the plan of an import is applied to the items of a queue.
pub mod Closed
pub mod Snapshots
use sjbis.Prelude.{
  ℕ, String, Bool, true, false, Option, none, some, List, [], ◌∷◌, ◌++◌, ◌&&◌, not, if◌then◌else◌,
  str_eq, Result, ok, err, ◌>>=◌, ◌>>◌, ensure, ok_or,
}
use sjbis.Models.Data.{DateTime}
use sjbis.Triage.Data.{
  Observation, SourceKind, path_kind, inline_kind, same_kind, Freshness, current_freshness,
  is_current, RefreshStats, TriageItem,
}
use sjbis.Triage.Reconcile.{ReconcileAction, add, update, replace_inline}
use sjbis.Triage.Reconcile.Plan.{reconcile, attachment_action}
use sjbis.Triage.Store.{
  ItemRow, Tables, TriageStoreError, item_not_found, path_taken, corrupt, lift_import, Answer,
  is_queue_item, row_to_item,
}
use sjbis.Triage.Store.Queues.{lock_open_queue, touch, find_item, insert_item, load_items}

-- UPDATE triage_items … WHERE queue_id = $6 AND id = $7
unfoldable pub update_items : String → String → (ItemRow → ItemRow) → List ItemRow → List ItemRow
unfolding is_queue_item
update_items queue id f [] = []
update_items queue id f (row ∷ rows) =
    (if is_queue_item queue id row then f row else row) ∷ update_items queue id f rows

-- `COALESCE($1, source_path)`
unfoldable pub coalesce : Option String → Option String → Option String
coalesce none old = old
coalesce (some path) old = some path

unfoldable pub with_freshness : Option String → Freshness → DateTime → ItemRow → ItemRow
unfolding coalesce
with_freshness path freshness now row = record row {
  path = coalesce path row.path;
  freshness = freshness;
  observed_at = now;
}

unfoldable pub update_freshness :
    String → String → Option String → Freshness → DateTime → Tables → Tables
unfolding update_items with_freshness
update_freshness queue id path freshness now t = record t {
  items = update_items queue id (with_freshness path freshness now) t.items;
}

unfoldable pub has_path : String → Option String → Bool
has_path path none = false
has_path path (some other) = str_eq other path

-- `$3 IS NULL OR id <> $3`
unfoldable pub is_other : Option String → String → Bool
is_other none id = true
is_other (some except) id = not (str_eq id except)

unfoldable pub path_conflict : String → String → Option String → List ItemRow → Option String
unfolding has_path is_current is_other
path_conflict queue path except [] = none
path_conflict queue path except (row ∷ rows) =
    let rest = path_conflict queue path except rows in
    if str_eq row.queue_id queue
      && has_path path row.path
      && is_current row.freshness.state
      && is_other except row.id
    then some row.id
    else rest

unfoldable pub refuse_conflict : String → Option String → Result TriageStoreError Unit
refuse_conflict path none = ok tt
refuse_conflict path (some id) = err (path_taken path id)

unfoldable pub ensure_current_path_available :
    String → Option String → Option String → Tables → Result TriageStoreError Unit
unfolding path_conflict refuse_conflict
ensure_current_path_available queue none except t = ok tt
ensure_current_path_available queue (some path) except t =
    refuse_conflict path (path_conflict queue path except t.items)

-- The first loop: paths of items that are not current are released.
unfoldable pub release : String → List ReconcileAction → DateTime → Tables → Tables
unfolding update_freshness is_current
release queue [] now t = t
release queue (add o ∷ actions) now t = release queue actions now t
release queue (replace_inline id o ∷ actions) now t = release queue actions now t
release queue (update id path freshness ∷ actions) now t =
    release queue actions now
      (if is_current freshness.state then t else update_freshness queue id none freshness now t)

unfoldable pub apply_update :
    Bool
    → String
    → String
    → Option String
    → Freshness
    → DateTime
    → Tables
    → Result TriageStoreError Tables
unfolding ensure_current_path_available update_freshness
apply_update true queue id path freshness now t =
    ensure_current_path_available queue path (some id) t
    >> ok (update_freshness queue id path freshness now t)
apply_update false queue id path freshness now t = ok t

unfoldable pub attach_with :
    String → ItemRow → ReconcileAction → DateTime → Tables → Result TriageStoreError Tables
unfolding ensure_current_path_available update_freshness touch
attach_with queue item (update id path freshness) now t =
    ensure_current_path_available queue path (some item.id) t
    >> ok (touch queue now (update_freshness queue item.id path freshness now t))
attach_with queue item (add o) now t = err corrupt
attach_with queue item (replace_inline id o) now t = err corrupt

module _ (sha256_hex : String → String) where
  -- `SET markdown = …`, on an inline item.
  unfoldable pub replaced : Observation → DateTime → ItemRow → ItemRow
  unfolding same_kind
  replaced o now row =
      if same_kind row.source_kind inline_kind
      then record row {
        markdown = o.markdown;
        content_sha256 = sha256_hex o.markdown;
        source = o.source;
        captured_at = now;
        freshness = current_freshness;
        observed_at = now;
      }
      else row

  unfoldable pub apply_one :
      String → ReconcileAction → DateTime → Tables → Result TriageStoreError Tables
  unfolding ensure_current_path_available insert_item apply_update is_current update_items replaced
  apply_one queue (add o) now t =
      ensure_current_path_available queue o.path none t >> insert_item sha256_hex queue o now t
  apply_one queue (update id path freshness) now t =
      apply_update (is_current freshness.state) queue id path freshness now t
  apply_one queue (replace_inline id o) now t =
      ok (record t { items = update_items queue id (replaced o now) t.items })

  unfoldable pub apply_actions :
      String → List ReconcileAction → DateTime → Tables → Result TriageStoreError Tables
  unfolding apply_one
  apply_actions queue [] now t = ok t
  apply_actions queue (a ∷ actions) now t =
      apply_one queue a now t >>= apply_actions queue actions now

  unfoldable pub refresh_queue : String → List Observation → DateTime → Tables → Answer RefreshStats
  unfolding lock_open_queue load_items reconcile lift_import release apply_actions touch
  refresh_queue reference observations now t = lock_open_queue reference t >>= λ queue.
      lift_import (reconcile sha256_hex (load_items queue t) observations) >>= λ plan.
      apply_actions queue plan.actions now (release queue plan.actions now t) >>= λ t'.
      ok (touch queue now t', plan.stats)

  unfoldable pub attach_item : String → String → Observation → DateTime → Tables → Answer TriageItem
  unfolding lock_open_queue find_item attachment_action lift_import attach_with row_to_item
  attach_item reference id o now t = lock_open_queue reference t >>= λ queue.
      ok_or (find_item queue id t.items) (item_not_found queue id) >>= λ item.
      lift_import (attachment_action sha256_hex (row_to_item t item) o) >>= λ action.
      attach_with queue item action now t >>= λ t'.
      ok_or (find_item queue id t'.items) (item_not_found queue id) >>= λ row.
      ok (t', row_to_item t' row)
