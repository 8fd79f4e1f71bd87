-- ===== src/Triage/Store/Frame.antt =====
-- The operations that leave the history of decisions alone.
use mathlib.Core.Path.{subst}
use sjbis.Prelude.{
  String, ◌≡◌, refl, ap, ◌∙◌, Bool, true, false, not, Option, none, some, List, [], ◌∷◌, ok,
  from_ensure, from_bind, from_ok_or, ok-injective, Bool-cases, inl, inr,
}
use sjbis.Models.Data.{DateTime}
use sjbis.Triage.Data.{
  Observation, Freshness, CreateQueue, QueueStatus, TriageQueue, TriageItem, RefreshStats,
  is_current,
}
use sjbis.Triage.Observations.{validate_and_sort_observations}
use sjbis.Triage.Reconcile.{ReconcileAction, add, update, replace_inline}
use sjbis.Triage.Reconcile.Plan.{reconcile, attachment_action}
use sjbis.Triage.Store.{ItemRow, Tables, QueueRow, lift_import, row_to_item, get_queue}
use sjbis.Triage.Store.Queues.{
  lock_queue, lock_open_queue, touch, on_queue, add_item, add_queue, is_taken, has_item, item_row,
  new_queue, queue_id_of, find_item, read_back, set_queue_status, switch_to, insert_item,
  insert_items, create_queue, load_items, validate_create_request,
}
use sjbis.Triage.Store.Refresh.{
  update_freshness, ensure_current_path_available, release, apply_update, apply_one, apply_actions,
  refresh_queue, attach_with, attach_item,
}

-- The two have the same revisions, and the same event comes next.
pub record SameHistory (t t' : Tables) : Type 0 where
  pub revisions : t'.revisions ≡ t.revisions
  pub next_event : t'.next_event ≡ t.next_event

same : {t : Tables} → SameHistory t t
same = record { revisions = refl; next_event = refl }

then_same : {a b c : Tables} → SameHistory a b → SameHistory b c → SameHistory a c
then_same h k = record {
  revisions = k.revisions ∙ h.revisions;
  next_event = k.next_event ∙ h.next_event;
}

on_queue-SameHistory :
    (id : String) (f : QueueRow → QueueRow) (t : Tables) → SameHistory t (on_queue id f t)
unfolding on_queue
on_queue-SameHistory id f t = record { revisions = refl; next_event = refl }

add_item-SameHistory : (row : ItemRow) (t : Tables) → SameHistory t (add_item row t)
unfolding add_item
add_item-SameHistory row t = record { revisions = refl; next_event = refl }

add_queue-SameHistory : (q : QueueRow) (t : Tables) → SameHistory t (add_queue q t)
unfolding add_queue
add_queue-SameHistory q t = record { revisions = refl; next_event = refl }

touch-SameHistory :
    (queue : String) (now : DateTime) (t : Tables) → SameHistory t (touch queue now t)
unfolding touch on_queue
touch-SameHistory queue now t = record { revisions = refl; next_event = refl }

update_freshness-SameHistory :
    (queue id : String) (path : Option String) (f : Freshness) (now : DateTime) (t : Tables)
    → SameHistory t (update_freshness queue id path f now t)
unfolding update_freshness
update_freshness-SameHistory queue id path f now t = record { revisions = refl; next_event = refl }

read_back_same :
    (id : String) (t : Tables) {t' : Tables} {q : TriageQueue}
    → read_back id t ≡ ok (t', q)
    → t ≡ t'
unfolding read_back
read_back_same id t =
    from_ok_or (get_queue id t) _ _ λ q found done. ap (λ p. p.0) (ok-injective done)

pub set_queue_status-SameHistory :
    (reference : String) (status : QueueStatus) (now : DateTime) (t : Tables) {t' : Tables}
    {q : TriageQueue}
    → set_queue_status reference status now t ≡ ok (t', q)
    → SameHistory t t'
unfolding set_queue_status on_queue
set_queue_status-SameHistory reference status now t =
    from_bind (lock_queue reference t) _ λ q locked done.
      subst (SameHistory t) (read_back_same q.id _ done)
        (on_queue-SameHistory q.id (switch_to status now) t)

release-SameHistory :
    (queue : String) (actions : List ReconcileAction) (now : DateTime) (t : Tables)
    → SameHistory t (release queue actions now t)
unfolding release
release-SameHistory queue [] now t = same
release-SameHistory queue (add o ∷ actions) now t = release-SameHistory queue actions now t
release-SameHistory queue (replace_inline id o ∷ actions) now t =
    release-SameHistory queue actions now t
release-SameHistory queue (update id path f ∷ actions) now t =
    elim (Bool-cases (is_current f.state)) [
      | inl stays ↦ rw (release, stays) (release-SameHistory queue actions now t)
      | inr released ↦
          rw (release, released)
            (then_same (update_freshness-SameHistory queue id none f now t)
              (release-SameHistory queue actions now _))
    ]

module _ (sha256_hex : String → String) where
  insert_item-SameHistory :
      (queue : String) (o : Observation) (now : DateTime) (t : Tables) {t' : Tables}
      → insert_item sha256_hex queue o now t ≡ ok t'
      → SameHistory t t'
  unfolding insert_item
  insert_item-SameHistory queue o now t =
      from_ensure (not (has_item queue o.id t.items)) _ _ λ _ done.
        subst (SameHistory t) (ok-injective done)
          (add_item-SameHistory (item_row sha256_hex queue o now) t)

  insert_items-SameHistory :
      (queue : String) (os : List Observation) (now : DateTime) (t : Tables) {t' : Tables}
      → insert_items sha256_hex queue os now t ≡ ok t'
      → SameHistory t t'
  unfolding insert_items
  insert_items-SameHistory queue [] now t h = subst (SameHistory t) (ok-injective h) same
  insert_items-SameHistory queue (o ∷ os) now t h =
      from_bind (insert_item sha256_hex queue o now t) _
        (λ mid inserted rest.
          then_same (insert_item-SameHistory queue o now t inserted)
            (insert_items-SameHistory queue os now mid rest))
        h

  pub create_queue-SameHistory :
      (request : CreateQueue) (nanoid : String) (now : DateTime) (t : Tables) {t' : Tables}
      {q : TriageQueue}
      → create_queue sha256_hex request nanoid now t ≡ ok (t', q)
      → SameHistory t t'
  unfolding create_queue
  create_queue-SameHistory request nanoid now t =
      from_bind (validate_create_request request) _ λ _ valid.
        from_bind (lift_import (validate_and_sort_observations request.items)) _ λ items sorted.
          let id = queue_id_of nanoid in
          let begun = add_queue (new_queue request id now) t in
          from_ensure (not (is_taken id request.name t.queues)) _ _ λ _.
            from_bind (insert_items sha256_hex id items now begun) _ λ filled inserted back.
              subst (SameHistory t) (read_back_same id filled back) (
                then_same (add_queue-SameHistory (new_queue request id now) t)
                  (insert_items-SameHistory id items now begun inserted))

  apply_update-SameHistory :
      (is_now : Bool) (queue id : String) (path : Option String) (f : Freshness) (now : DateTime)
      (t : Tables) {t' : Tables}
      → apply_update is_now queue id path f now t ≡ ok t'
      → SameHistory t t'
  unfolding apply_update
  apply_update-SameHistory true queue id path f now t h =
      from_bind (ensure_current_path_available queue path (some id) t) _
        (λ _ free done.
          subst (SameHistory t) (ok-injective done)
            (update_freshness-SameHistory queue id path f now t))
        h
  apply_update-SameHistory false queue id path f now t h =
      subst (SameHistory t) (ok-injective h) same

  apply_one-SameHistory :
      (queue : String) (a : ReconcileAction) (now : DateTime) (t : Tables) {t' : Tables}
      → apply_one sha256_hex queue a now t ≡ ok t'
      → SameHistory t t'
  unfolding apply_one
  apply_one-SameHistory queue (add o) now t h =
      from_bind (ensure_current_path_available queue o.path none t) _
        (λ _ free inserted. insert_item-SameHistory queue o now t inserted) h
  apply_one-SameHistory queue (update id path f) now t h =
      apply_update-SameHistory (is_current f.state) queue id path f now t h
  apply_one-SameHistory queue (replace_inline id o) now t h =
      subst (SameHistory t) (ok-injective h) record { revisions = refl; next_event = refl }

  apply_actions-SameHistory :
      (queue : String) (actions : List ReconcileAction) (now : DateTime) (t : Tables) {t' : Tables}
      → apply_actions sha256_hex queue actions now t ≡ ok t'
      → SameHistory t t'
  unfolding apply_actions
  apply_actions-SameHistory queue [] now t h = subst (SameHistory t) (ok-injective h) same
  apply_actions-SameHistory queue (a ∷ actions) now t h =
      from_bind (apply_one sha256_hex queue a now t) _
        (λ mid applied rest.
          then_same (apply_one-SameHistory queue a now t applied)
            (apply_actions-SameHistory queue actions now mid rest))
        h

  pub refresh_queue-SameHistory :
      (reference : String) (os : List Observation) (now : DateTime) (t : Tables) {t' : Tables}
      {stats : RefreshStats}
      → refresh_queue sha256_hex reference os now t ≡ ok (t', stats)
      → SameHistory t t'
  unfolding refresh_queue
  refresh_queue-SameHistory reference os now t =
      from_bind (lock_open_queue reference t) _ λ queue locked.
        from_bind (lift_import (reconcile sha256_hex (load_items queue t) os)) _ λ plan planned.
          from_bind (apply_actions sha256_hex queue plan.actions now _) _ λ filled applied done.
            subst (λ answer. SameHistory t answer.0) (ok-injective done)
              (then_same (release-SameHistory queue plan.actions now t) (
                then_same (apply_actions-SameHistory queue plan.actions now _ applied)
                  (touch-SameHistory queue now filled)))

  attach_with-SameHistory :
      (queue : String) (item : ItemRow) (a : ReconcileAction) (now : DateTime) (t : Tables)
      {t' : Tables}
      → attach_with queue item a now t ≡ ok t'
      → SameHistory t t'
  unfolding attach_with
  attach_with-SameHistory queue item (update id path f) now t h =
      from_bind (ensure_current_path_available queue path (some item.id) t) _
        (λ _ free done. subst (SameHistory t) (ok-injective done) (
          then_same (update_freshness-SameHistory queue item.id path f now t)
            (touch-SameHistory queue now _)))
        h
  attach_with-SameHistory queue item (add o) now t h = cc
  attach_with-SameHistory queue item (replace_inline id o) now t h = cc

  pub attach_item-SameHistory :
      (reference id : String) (o : Observation) (now : DateTime) (t : Tables) {t' : Tables}
      {item : TriageItem}
      → attach_item sha256_hex reference id o now t ≡ ok (t', item)
      → SameHistory t t'
  unfolding attach_item
  attach_item-SameHistory reference id o now t =
      from_bind (lock_open_queue reference t) _ λ queue locked.
        from_ok_or (find_item queue id t.items) _ _ λ item found.
          from_bind (lift_import (attachment_action sha256_hex (row_to_item t item) o)) _
            λ action chosen. from_bind (attach_with queue item action now t) _ λ filled attached.
              from_ok_or (find_item queue id filled.items) _ _ λ row back done.
                subst (λ answer. SameHistory t answer.0) (ok-injective done)
                  (attach_with-SameHistory queue item action now t attached)
