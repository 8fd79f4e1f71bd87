-- ===== src/Triage/Store/Decide.antt =====
-- `record_decision`: a verdict on an item becomes its next revision.
pub mod Recorded
pub mod Merges
pub mod Decided
use sjbis.Prelude.{
  ℕ, zero, suc, String, Bool, true, false, Option, none, some, List, [], ◌∷◌, ◌++◌, ◌&&◌, not,
  if◌then◌else◌, str_eq, Result, ok, err, ◌>>=◌, ◌>>◌, ensure, ok_or, any,
}
use sjbis.Models.Data.{DateTime}
use sjbis.Triage.Data.{
  TriageVerdict, schedule, delete, needs_replan, merge_into, leave_captured, TriageRevision,
  PatchField, missing_field, null_field, value_field, DecisionPatch,
}
use sjbis.Triage.Observations.{is_trimmed}
use sjbis.Triage.Store.{
  ItemRow, Tables, TriageStoreError, item_not_found, bad_target, target_required, merges_itself,
  target_not_allowed, target_absent, reciprocal_merge, Answer, is_queue_item, load_latest_revision,
}
use sjbis.Triage.Store.Queues.{lock_open_queue, touch, find_item}

unfoldable pub is_merge : Option TriageVerdict → Bool
is_merge (some merge_into) = true
is_merge (some schedule) = false
is_merge (some delete) = false
is_merge (some needs_replan) = false
is_merge (some leave_captured) = false
is_merge none = false

unfoldable pub previous_verdict : Option TriageRevision → Option TriageVerdict
previous_verdict none = none
previous_verdict (some r) = r.verdict

unfoldable pub previous_target : Option TriageRevision → Option String
previous_target none = none
previous_target (some r) = r.target

unfoldable pub patched_verdict :
    PatchField TriageVerdict → Option TriageRevision → Option TriageVerdict
unfolding previous_verdict
patched_verdict missing_field previous = previous_verdict previous
patched_verdict null_field previous = none
patched_verdict (value_field verdict) previous = some verdict

unfoldable pub validate_target_text : String → Result TriageStoreError String
unfolding is_trimmed
validate_target_text target = ensure (is_trimmed target) bad_target >> ok target

-- The target under the verdict `merge_into`, or under another.
unfoldable pub patched_target :
    Bool → PatchField String → Option TriageRevision → Result TriageStoreError (Option String)
unfolding previous_target validate_target_text
patched_target true missing_field previous = ok (previous_target previous)
patched_target true null_field previous = ok none
patched_target true (value_field target) previous = validate_target_text target >>= λ t. ok (some t)
patched_target false missing_field previous = ok none
patched_target false null_field previous = ok none
patched_target false (value_field target) previous = err target_not_allowed

unfoldable pub merges_into : String → Option TriageRevision → Bool
unfolding is_merge
merges_into id none = false
merges_into id (some r) =
    is_merge r.verdict && (elim r.target [ none ↦ false | some t ↦ str_eq t id ])

-- The checks on a target, for `merge_into` or another verdict.
unfoldable pub validate_decision :
    String → String → Bool → Option String → Tables → Result TriageStoreError Unit
unfolding is_queue_item merges_into load_latest_revision any
validate_decision queue id true none t = err target_required
validate_decision queue id true (some target) t =
    ensure (not (str_eq target id)) merges_itself
    >> ensure (any (is_queue_item queue target) t.items) (target_absent target)
    >> ensure (not (merges_into id (load_latest_revision queue target t))) (reciprocal_merge target)
validate_decision queue id false none t = ok tt
validate_decision queue id false (some target) t = err target_not_allowed

-- `COALESCE(MAX(revision), 0) + 1`
unfoldable pub next_revision : Option TriageRevision → ℕ
next_revision none = 1
next_revision (some r) = suc r.revision

abbrev pub new_revision :
    String
    → String
    → ItemRow
    → Option TriageVerdict
    → Option String
    → DateTime
    → Tables
    → TriageRevision
new_revision queue id item verdict target now t = record {
  event_id = t.next_event;
  queue_id = queue;
  item_id = id;
  revision = next_revision (load_latest_revision queue id t);
  verdict = verdict;
  target = target;
  content_sha256 = item.content_sha256;
  decided_at = now;
}

unfoldable pub insert_revision : TriageRevision → Tables → Tables
insert_revision r t = record t {
  revisions = t.revisions ++ (r ∷ []);
  next_event = suc t.next_event;
}

unfoldable pub record_decision :
    String → String → DecisionPatch → DateTime → Tables → Answer TriageRevision
unfolding lock_open_queue find_item load_latest_revision patched_verdict patched_target
    validate_decision is_merge next_revision insert_revision touch
record_decision reference id patch now t = lock_open_queue reference t >>= λ queue.
    ok_or (find_item queue id t.items) (item_not_found queue id) >>= λ item.
    let previous = load_latest_revision queue id t in
    let verdict = patched_verdict patch.verdict previous in
    patched_target (is_merge verdict) patch.target previous >>= λ target.
    let r = new_revision queue id item verdict target now t in
    validate_decision queue id (is_merge verdict) target t
    >> ok (touch queue now (insert_revision r t), r)
