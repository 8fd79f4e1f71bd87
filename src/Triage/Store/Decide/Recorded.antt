-- ===== src/Triage/Store/Decide/Recorded.antt =====
-- What a recorded decision is, and the latest revisions after it.
use mathlib.Core.Path.{subst}
use sjbis.Prelude.{
  ℕ, suc, ◌<◌, String, ◌≡◌, refl, Bool, true, false, Option, none, some, List, [], ◌∷◌, ◌++◌, ltb,
  ok, arith, Bool-cases, inl, inr, from_bind, from_ok_or, ok-injective,
}
use sjbis.Models.Data.{DateTime}
use sjbis.Triage.Data.{TriageRevision, DecisionPatch}
use sjbis.Triage.Store.{ItemRow, Tables, newer_of, latest_of, load_latest_revision}
use sjbis.Triage.Store.Queues.{lock_open_queue, touch, on_queue, find_item}
use sjbis.Triage.Store.Decide.{
  is_merge, patched_verdict, patched_target, validate_decision, next_revision, new_revision,
  insert_revision, record_decision,
}

-- The number of a revision, 0 where there is none.
unfoldable pub number_of : Option TriageRevision → ℕ
number_of none = 0
number_of (some r) = r.revision

newer_below :
    (s : TriageRevision) (o : Option TriageRevision) (k : ℕ)
    → number_of (some (newer_of s o)) < k
    → (s.revision < k) × (number_of o < k)
unfolding number_of
newer_below s none k h = (h, omega arith)
newer_below s (some u) k h = ground arith

-- A revision above the latest becomes the latest.
pub latest_of-append :
    (test : TriageRevision → Bool) (rs : List TriageRevision) (r : TriageRevision)
    → test r ≡ true
    → number_of (latest_of test rs) < r.revision
    → latest_of test (rs ++ (r ∷ [])) ≡ some r
unfolding latest_of number_of
latest_of-append test [] r hit above = rw hit
latest_of-append test (s ∷ rs) r hit above = elim (Bool-cases (test s)) [
  | inl counted ↦
      let (first, others) = newer_below s (latest_of test rs) r.revision (rw counted at above) in
      let wins : ltb s.revision r.revision ≡ true = ground arith in
      rw (counted, latest_of-append test rs r hit others, wins)
  | inr passed ↦ rw passed (latest_of-append test rs r hit (rw passed at above))
]

-- A revision of another item changes nothing.
pub latest_of-other :
    (test : TriageRevision → Bool) (rs : List TriageRevision) (r : TriageRevision)
    → test r ≡ false
    → latest_of test (rs ++ (r ∷ [])) ≡ latest_of test rs
unfolding latest_of
latest_of-other test [] r miss = rw miss
latest_of-other test (s ∷ rs) r miss = rw (latest_of-other test rs r miss)

-- What `record_decision` did: a revision with the next number, under the verdict that the patch
-- makes of the previous one, was put after the others.
pub record IsRecorded (id : String) (patch : DecisionPatch) (now : DateTime) (t t' : Tables)
    (r : TriageRevision) : Type 0 where
  pub queue : String
  pub item : ItemRow
  pub found : find_item queue id t.items ≡ some item
  pub verdict : r.verdict ≡ patched_verdict patch.verdict (load_latest_revision queue id t)
  pub target :
      patched_target (is_merge r.verdict) patch.target (load_latest_revision queue id t)
      ≡ ok r.target
  pub checked : validate_decision queue id (is_merge r.verdict) r.target t ≡ ok tt
  pub of_item : (r.queue_id ≡ queue) × (r.item_id ≡ id)
  pub snapshot : r.content_sha256 ≡ item.content_sha256
  pub numbered : r.revision ≡ suc (number_of (load_latest_revision queue id t))
  pub event : (r.event_id ≡ t.next_event) × (t'.next_event ≡ suc t.next_event)
  pub revisions : t'.revisions ≡ t.revisions ++ (r ∷ [])
  pub items : t'.items ≡ t.items

next_number : (o : Option TriageRevision) → next_revision o ≡ suc (number_of o)
unfolding next_revision number_of
next_number none = refl
next_number (some r) = refl

abbrev recorded :
    String → String → ItemRow → DecisionPatch → Option String → DateTime → Tables → TriageRevision
recorded queue id item patch target now t =
    new_revision queue id item (patched_verdict patch.verdict (load_latest_revision queue id t))
      target now t

from_recorded :
    (queue id : String) (patch : DecisionPatch) (now : DateTime) (t : Tables) (item : ItemRow)
    (target : Option String)
    → find_item queue id t.items ≡ some item
    → patched_target
        (is_merge (patched_verdict patch.verdict (load_latest_revision queue id t)))
        patch.target
        (load_latest_revision queue id t)
      ≡ ok target
    → validate_decision queue id
        (is_merge (patched_verdict patch.verdict (load_latest_revision queue id t)))
        target
        t
      ≡ ok tt
    → IsRecorded id patch now t
        (touch queue now (insert_revision (recorded queue id item patch target now t) t))
        (recorded queue id item patch target now t)
unfolding touch on_queue insert_revision
from_recorded queue id patch now t item target found chosen checked = record {
  queue = queue;
  item = item;
  found = found;
  verdict = refl;
  target = chosen;
  checked = checked;
  of_item = (refl, refl);
  snapshot = refl;
  numbered = next_number (load_latest_revision queue id t);
  event = (refl, refl);
  revisions = refl;
  items = refl;
}

-- A decision that succeeds gives the item its next revision, for the snapshot that the item has:
-- the verdict and the target are those that the patch makes of the latest revision, they passed the
-- checks on merges, the earlier revisions stay as they are, and no item changes.
pub record_decision-IsRecorded :
    (reference id : String) (patch : DecisionPatch) (now : DateTime) (t : Tables) {t' : Tables}
    {r : TriageRevision}
    → record_decision reference id patch now t ≡ ok (t', r)
    → IsRecorded id patch now t t' r
unfolding record_decision
record_decision-IsRecorded reference id patch now t =
    from_bind (lock_open_queue reference t) _ λ queue locked.
      from_ok_or (find_item queue id t.items) _ _ λ item found. from_bind _ _ λ target chosen.
        from_bind (validate_decision queue id _ target t) _ λ _ checked done.
          subst (λ answer. IsRecorded id patch now t answer.0 answer.1) (ok-injective done)
            (from_recorded queue id patch now t item target found chosen checked)
