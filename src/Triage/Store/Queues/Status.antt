-- ===== src/Triage/Store/Queues/Status.antt =====
-- The status that closing and reopening give a queue.
use sjbis.Prelude.{
  String, ◌≡◌, refl, sym, ap, ◌∙◌, Bool, true, false, Option, none, some, List, [], ◌∷◌, str_eq,
  eq_refl, eq_iff, ok, from_ok_or, ok-injective, Bool-cases, inl, inr,
}
use mathlib.Core.Path.{subst}
use sjbis.Models.Data.{DateTime}
use sjbis.Triage.Data.{QueueStatus, open_queue, closed_queue, TriageQueue}
use sjbis.Triage.Store.{QueueRow, Tables, find_queue, first_of, queue_of, get_queue, row_to_queue}
use sjbis.Triage.Store.Queues.{
  lock_queue, update_queues, on_queue, switch_to, closed_since, read_back, set_queue_status,
}

abbrev by_key : String → QueueRow → Bool
by_key id q = str_eq q.id id

-- A queue that is found is found by its id.
find_queue-by_key :
    (test : QueueRow → Bool) (qs : List QueueRow) (q : QueueRow)
    → find_queue test qs ≡ some q
    → (found : QueueRow) × (find_queue (by_key q.id) qs ≡ some found)
unfolding find_queue
find_queue-by_key test [] q h = cc
find_queue-by_key test (x ∷ qs) q h = elim (Bool-cases (str_eq x.id q.id)) [
  | inl same ↦ (x, rw same)
  | inr other ↦ elim (Bool-cases (test x)) [
    | inl hit ↦
        let equal : x ≡ q = cc (rw hit at h) in
        let clash : str_eq x.id q.id ≡ true =
          subst (λ y. str_eq x.id y.id ≡ true) equal (eq_refl x.id) in
        cc
    | inr miss ↦
        let (found, at) = find_queue-by_key test qs q (rw miss at h) in (found, rw other at)
  ]
]

find_queue-hit :
    (test : QueueRow → Bool) (qs : List QueueRow) (q : QueueRow)
    → find_queue test qs ≡ some q
    → test q ≡ true
unfolding find_queue
find_queue-hit test [] q h = cc
find_queue-hit test (x ∷ qs) q h = elim (Bool-cases (test x)) [
  | inl hit ↦ let equal : x ≡ q = cc (rw hit at h) in subst (λ y. test y ≡ true) equal hit
  | inr miss ↦ find_queue-hit test qs q (rw miss at h)
]

find_queue-other :
    (test : QueueRow → Bool) (x : QueueRow) (qs : List QueueRow)
    → test x ≡ false
    → find_queue test (x ∷ qs) ≡ find_queue test qs
unfolding find_queue
find_queue-other test x qs h = rw h

update_queues-other :
    (id : String) (f : QueueRow → QueueRow) (x : QueueRow) (qs : List QueueRow)
    → str_eq x.id id ≡ false
    → update_queues id f (x ∷ qs) ≡ x ∷ update_queues id f qs
unfolding update_queues
update_queues-other id f x qs h = rw h

find_queue-update_queues :
    (id : String) (f : QueueRow → QueueRow) (qs : List QueueRow) (q : QueueRow)
    → ((x : QueueRow) → (f x).id ≡ x.id)
    → find_queue (by_key id) qs ≡ some q
    → find_queue (by_key id) (update_queues id f qs) ≡ some (f q)
unfolding find_queue update_queues
find_queue-update_queues id f [] q keeps h = cc
find_queue-update_queues id f (x ∷ qs) q keeps h = elim (Bool-cases (str_eq x.id id)) [
  | inl same ↦
      let equal : x ≡ q = cc (rw same at h) in
      let kept : str_eq (f x).id id ≡ true =
        (eq_iff (f x).id id).1 (keeps x ∙ (eq_iff x.id id).0 same) in
      rw (same, kept) (ap some (ap f equal))
  | inr other ↦
      let rest = find_queue-update_queues id f qs q keeps (rw other at h) in
      ap (find_queue (by_key id)) (update_queues-other id f x qs other)
      ∙ find_queue-other (by_key id) x (update_queues id f qs) other
      ∙ rest
]

-- After a change of status, the queue is found with that status.
queue_of-switched :
    (reference : String) (status : QueueStatus) (now : DateTime) (t : Tables) {row : QueueRow}
    → queue_of reference t ≡ some row
    → (found : QueueRow) × (found.id ≡ row.id)
      × (queue_of row.id (on_queue row.id (switch_to status now) t)
          ≡ some (switch_to status now found))
unfolding queue_of on_queue switch_to
queue_of-switched reference status now t {row} h =
    let (found, at) = found_by_key (find_queue (by_key reference) t.queues) refl in
    (
      found,
      (eq_iff found.id row.id).0 (find_queue-hit (by_key row.id) t.queues found at),
      ap
          (λ o. first_of o (
            find_queue (λ q. str_eq q.name row.id)
              (update_queues row.id (switch_to status now) t.queues)))
          (find_queue-update_queues row.id (switch_to status now) t.queues found (λ x. refl) at),
    )
  where
    found_by_key :
        (o : Option QueueRow)
        → find_queue (by_key reference) t.queues ≡ o
        → (found : QueueRow) × (find_queue (by_key row.id) t.queues ≡ some found)
    found_by_key none missed =
        find_queue-by_key (λ q. str_eq q.name reference) t.queues row
          (ap (λ o. first_of o (find_queue (λ q. str_eq q.name reference) t.queues)) (sym missed)
            ∙ h)
    found_by_key (some q) hit = find_queue-by_key (by_key reference) t.queues row (
        hit
        ∙ ap (λ o. first_of o (find_queue (λ q. str_eq q.name reference) t.queues)) (sym hit)
        ∙ h)

-- There is a time of closing where the status is closed, and then it is `now`.
abbrev pub IsClosedAt : QueueStatus → DateTime → Option DateTime → Type 0
IsClosedAt open_queue now at = at ≡ none
IsClosedAt closed_queue now at = at ≡ some now

closed_since-IsClosedAt :
    (status : QueueStatus) (now : DateTime) → IsClosedAt status now (closed_since status now)
unfolding closed_since
closed_since-IsClosedAt open_queue now = refl
closed_since-IsClosedAt closed_queue now = refl

-- How a queue stands in the answer to a change of status and in the tables after it.
pub record IsSwitched (status : QueueStatus) (now : DateTime) (t' : Tables) (q : TriageQueue)
    : Type 0 where
  pub answered_status : q.status ≡ status
  pub answered_closed_at : IsClosedAt status now q.closed_at
  pub answered_updated_at : q.updated_at ≡ now
  pub row : QueueRow
  pub found : queue_of q.id t' ≡ some row
  pub stored_status : row.status ≡ status
  pub stored_closed_at : IsClosedAt status now row.closed_at

IsSwitched-back :
    (id : String) (status : QueueStatus) (now : DateTime) (t : Tables) (old : QueueRow)
    {t' : Tables} {q : TriageQueue}
    → old.id ≡ id
    → queue_of id t ≡ some (switch_to status now old)
    → read_back id t ≡ ok (t', q)
    → IsSwitched status now t' q
unfolding read_back get_queue row_to_queue switch_to
IsSwitched-back id status now t old own at h =
    let back = rw at at h in
    subst (λ answer. IsSwitched status now answer.0 answer.1) (ok-injective back)
      record {
        answered_status = refl;
        answered_closed_at = closed_since-IsClosedAt status now;
        answered_updated_at = refl;
        row = switch_to status now old;
        found = ap (λ key. queue_of key t) own ∙ at;
        stored_status = refl;
        stored_closed_at = closed_since-IsClosedAt status now;
      }

-- Closing or reopening a queue that is there answers it with the new status, with the time of
-- closing exactly where it is closed, and the tables then have the queue with that status and time.
pub set_queue_status-IsSwitched :
    (reference : String) (status : QueueStatus) (now : DateTime) (t : Tables) {t' : Tables}
    {q : TriageQueue}
    → set_queue_status reference status now t ≡ ok (t', q)
    → IsSwitched status now t' q
unfolding set_queue_status lock_queue
set_queue_status-IsSwitched reference status now t h =
    from_ok_or (queue_of reference t) _ _
      (λ row locked done.
        let (old, own, at) = queue_of-switched reference status now t locked in
        IsSwitched-back row.id status now (on_queue row.id (switch_to status now) t) old own at
          done)
      h
