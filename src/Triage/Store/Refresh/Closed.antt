-- ===== src/Triage/Store/Refresh/Closed.antt =====
-- What a closed queue refuses.
use sjbis.Prelude.{String, ◌≡◌, some, List, err, ok}
use sjbis.Models.Data.{DateTime}
use sjbis.Triage.Data.{Observation, DecisionPatch, closed_queue, TriageQueue}
use sjbis.Triage.Store.{QueueRow, Tables, queue_of, queue_is_closed}
use sjbis.Triage.Store.Queues.{is_closed, lock_queue, lock_open_queue, close_queue}
use sjbis.Triage.Store.Queues.Status.{set_queue_status-IsSwitched}
use sjbis.Triage.Store.Decide.{record_decision}
use sjbis.Triage.Store.Refresh.{refresh_queue, attach_item}

closed_locks :
    (reference : String) (t : Tables) (row : QueueRow)
    → queue_of reference t ≡ some row
    → row.status ≡ closed_queue
    → lock_open_queue reference t ≡ err queue_is_closed
unfolding lock_open_queue lock_queue is_closed
closed_locks reference t row found closed = rw (lock_open_queue, lock_queue, found, closed)

-- The three operations that change a queue's items or decisions are refused.
pub record IsRefused (sha256_hex : String → String) (reference : String) (t : Tables) : Type 0 where
  pub decisions :
      (id : String) (patch : DecisionPatch) (now : DateTime)
      → record_decision reference id patch now t ≡ err queue_is_closed
  pub refreshes :
      (given : List Observation) (now : DateTime)
      → refresh_queue sha256_hex reference given now t ≡ err queue_is_closed
  pub attachments :
      (id : String) (o : Observation) (now : DateTime)
      → attach_item sha256_hex reference id o now t ≡ err queue_is_closed

closed-IsRefused :
    (sha256_hex : String → String) (reference : String) (t : Tables)
    → lock_open_queue reference t ≡ err queue_is_closed
    → IsRefused sha256_hex reference t
unfolding record_decision refresh_queue attach_item
closed-IsRefused sha256_hex reference t locks = record {
  decisions = λ id patch now. rw locks;
  refreshes = λ given now. rw locks;
  attachments = λ id o now. rw locks;
}

-- After a queue is closed, a decision, a refresh and an attachment by its id are each refused.
pub close_queue-IsRefused :
    (sha256_hex : String → String) (reference : String) (now : DateTime) (t : Tables) {t' : Tables}
    {q : TriageQueue}
    → close_queue reference now t ≡ ok (t', q)
    → IsRefused sha256_hex q.id t'
unfolding close_queue
close_queue-IsRefused sha256_hex reference now t {t'} {q} h =
    let s = set_queue_status-IsSwitched reference closed_queue now t h in
    closed-IsRefused sha256_hex q.id t' (closed_locks q.id t' s.row s.found s.stored_status)
