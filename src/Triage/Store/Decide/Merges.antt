-- ===== src/Triage/Store/Decide/Merges.antt =====
-- No item merges into itself, and no two merge into each other.
use mathlib.Core.Bool.{false≢true}
use sjbis.Prelude.{
  ℕ, suc, ◌<◌, String, ◌≡◌, sym, ap, ◌∙◌, true, false, some, List, not, str_eq, eq_iff, ok, any,
  arith, Bool-cases, Option-cases, inl, inr, ensure, ◌>>◌, from_bind, from_ensure, and_true,
  not-true, ensure-true,
}
use sjbis.Models.Data.{DateTime}
use sjbis.Triage.Data.{TriageRevision, DecisionPatch}
use sjbis.Triage.Store.{
  Tables, is_of_item, latest_of, load_latest_revision, is_queue_item, merges_itself, target_absent,
}
use sjbis.Triage.Store.Decide.{is_merge, merges_into, validate_decision, record_decision}
use sjbis.Triage.Store.Decide.Recorded.{
  number_of, latest_of-append, latest_of-other, IsRecorded, record_decision-IsRecorded,
}

-- Of the latest revisions of a queue none merges an item into one that merges into it.
abbrev pub IsMergeSafe : List TriageRevision → Type 0
IsMergeSafe rs =
    (queue a b : String)
    → merges_into b (latest_of (is_of_item queue a) rs) ≡ true
    → merges_into a (latest_of (is_of_item queue b) rs) ≡ false

merge_parts :
    (b : String) (r : TriageRevision)
    → merges_into b (some r) ≡ true
    → (is_merge r.verdict ≡ true) × (r.target ≡ some b)
unfolding merges_into
merge_parts b r h = elim (Option-cases r.target) [
  | inl gone ↦ let both = and_true (is_merge r.verdict) false (rw gone at h) in cc both.1
  | inr (t, at) ↦
      let (merge, same) = and_true (is_merge r.verdict) (str_eq t b) (rw at at h) in
      (merge, at ∙ ap some ((eq_iff t b).0 same))
]

merge_checked :
    (queue id b : String) (t : Tables)
    → validate_decision queue id true (some b) t ≡ ok tt
    → (str_eq b id ≡ false) × (merges_into id (load_latest_revision queue b t) ≡ false)
unfolding validate_decision
merge_checked queue id b t =
    from_bind
      (ensure (not (str_eq b id)) merges_itself
        >> ensure (any (is_queue_item queue b) t.items) (target_absent b))
      _
      λ _ there back.
        from_ensure (not (str_eq b id)) _
          (ensure (any (is_queue_item queue b) t.items) (target_absent b))
          (λ apart _. (not-true _ apart, not-true _ (ensure-true _ _ back))) there

below_next : (n : ℕ) → n < suc n
below_next n = omega arith

module _ {id : String} {patch : DecisionPatch} {now : DateTime} {t t' : Tables} {r : TriageRevision}
    (done_ : IsRecorded id patch now t t' r) where
  -- The item decided on has the new revision as its latest.
  pub now_latest :
      (queue a : String)
      → is_of_item queue a r ≡ true
      → (latest_of (is_of_item queue a) t'.revisions ≡ some r) × (queue ≡ done_.queue) × (a ≡ id)
  unfolding is_of_item load_latest_revision
  now_latest queue a hit =
      let (of_queue, of_id) = and_true (str_eq r.queue_id queue) (str_eq r.item_id a) hit in
      let same_queue : queue ≡ done_.queue =
        sym ((eq_iff r.queue_id queue).0 of_queue) ∙ done_.of_item.0 in
      let same_id : a ≡ id = sym ((eq_iff r.item_id a).0 of_id) ∙ done_.of_item.1 in
      let above : number_of (latest_of (is_of_item queue a) t.revisions) < r.revision =
        rw (same_queue, same_id, done_.numbered) (below_next _) in
      (
        ap (latest_of (is_of_item queue a)) done_.revisions
            ∙ latest_of-append (is_of_item queue a) t.revisions r hit above,
        same_queue,
        same_id,
      )

  pub still_latest :
      (queue a : String)
      → is_of_item queue a r ≡ false
      → latest_of (is_of_item queue a) t'.revisions ≡ latest_of (is_of_item queue a) t.revisions
  still_latest queue a miss =
      ap (latest_of (is_of_item queue a)) done_.revisions
      ∙ latest_of-other (is_of_item queue a) t.revisions r miss

  -- The new revision's target, where it has one, does not merge back.
  new_merge :
      (b : String)
      → merges_into b (some r) ≡ true
      → (str_eq b id ≡ false) × (merges_into id (load_latest_revision done_.queue b t) ≡ false)
  new_merge b h =
      let (merge, at) = merge_parts b r h in
      merge_checked done_.queue id b t (rw (merge, at) at done_.checked)

  -- Nor does the new revision merge into what merges into its item.
  not_back :
      (queue a b : String)
      → queue ≡ done_.queue
      → b ≡ id
      → merges_into b (latest_of (is_of_item queue a) t.revisions) ≡ true
      → merges_into a (some r) ≡ false
  unfolding load_latest_revision
  not_back queue a b same_queue same_b before = elim (Bool-cases (merges_into a (some r))) [
    | inl merges ↦
        let (_, back) = new_merge a merges in
        let forth : merges_into id (latest_of (is_of_item done_.queue a) t.revisions) ≡ true =
          rw (← same_queue, ← same_b) before in
        absurd (false≢true (sym back ∙ forth))
    | inr apart ↦ apart
  ]

  -- The four cases of which of the two items was decided on.
  merge_safe_after :
      (queue a b : String)
      → IsMergeSafe t.revisions
      → merges_into b (latest_of (is_of_item queue a) t'.revisions) ≡ true
      → merges_into a (latest_of (is_of_item queue b) t'.revisions) ≡ false
  unfolding load_latest_revision
  merge_safe_after queue a b safe h = elim (Bool-cases (is_of_item queue a r)) [
    | inl decided_a ↦
        let (now_a, same_queue, same_a) = now_latest queue a decided_a in
        let (apart, back) = new_merge b (rw now_a at h) in
        elim (Bool-cases (is_of_item queue b r)) [
          | inl decided_b ↦
              let (_, _, same_b) = now_latest queue b decided_b in
              absurd (false≢true (sym apart ∙ (eq_iff b id).1 same_b))
          | inr other_b ↦ rw (still_latest queue b other_b, same_a, same_queue) back
        ]
    | inr other_a ↦
        let before : merges_into b (latest_of (is_of_item queue a) t.revisions) ≡ true =
          rw (still_latest queue a other_a) at h in
        elim (Bool-cases (is_of_item queue b r)) [
          | inl decided_b ↦
              let (now_b, same_queue, same_b) = now_latest queue b decided_b in
              rw now_b (not_back queue a b same_queue same_b before)
          | inr other_b ↦ rw (still_latest queue b other_b) (safe queue a b before)
        ]
  ]

-- A decision keeps the merges safe: if no latest revision merges an item into one that merges into
-- it, itself included, then none does after a decision.
pub record_decision-IsMergeSafe :
    (reference id : String) (patch : DecisionPatch) (now : DateTime) (t : Tables) {t' : Tables}
    {r : TriageRevision}
    → IsMergeSafe t.revisions
    → record_decision reference id patch now t ≡ ok (t', r)
    → IsMergeSafe t'.revisions
record_decision-IsMergeSafe reference id patch now t safe h queue a b =
    merge_safe_after (record_decision-IsRecorded reference id patch now t h) queue a b safe
