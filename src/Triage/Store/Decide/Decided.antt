-- ===== src/Triage/Store/Decide/Decided.antt =====
-- `record_decision` against what a decision is to be: its verdict and its target.
use sjbis.Prelude.{
  suc, String, ◌≡◌, ◌≢◌, refl, true, false, Option, none, some, List, [], ◌∷◌, ◌++◌, not, str_eq,
  eq_iff, eq_refl, ok, any, Bool-cases, inl, inr, ensure, ◌>>◌, from_bind, from_ensure, not-true,
  ensure-true,
}
use sjbis.Models.Data.{DateTime}
use sjbis.Triage.Data.{
  TriageVerdict, schedule, delete, needs_replan, merge_into, leave_captured, TriageRevision,
  PatchField, missing_field, null_field, value_field, DecisionPatch,
}
use sjbis.Triage.Observations.{is_trimmed}
use sjbis.Triage.Store.{
  ItemRow, Tables, merges_itself, target_absent, is_queue_item, load_latest_revision,
}
use sjbis.Triage.Store.Queues.{find_item}
use sjbis.Triage.Store.Decide.{
  is_merge, previous_verdict, previous_target, patched_verdict, validate_target_text,
  patched_target, merges_into, validate_decision, record_decision,
}
use sjbis.Triage.Store.Decide.Recorded.{number_of, record_decision-IsRecorded}

-- The verdict of a patch: a missing field keeps that of the latest revision, if there is one, an
-- explicit null clears it, and a value sets it.
abbrev pub VerdictOf :
    PatchField TriageVerdict → Option TriageRevision → Option TriageVerdict → Type 0
VerdictOf missing_field none verdict = verdict ≡ none
VerdictOf missing_field (some previous) verdict = verdict ≡ previous.verdict
VerdictOf null_field previous verdict = verdict ≡ none
VerdictOf (value_field v) previous verdict = verdict ≡ some v

-- The target of a merge: a missing field keeps that of the latest revision, and a value sets it; an
-- explicit null leaves none, which a merge does not allow.
abbrev pub TargetOf : PatchField String → Option TriageRevision → String → Type 0
TargetOf missing_field none target = ⊥
TargetOf missing_field (some previous) target = previous.target ≡ some target
TargetOf null_field previous target = ⊥
TargetOf (value_field t) previous target = (target ≡ t) × (is_trimmed t ≡ true)

-- Another verdict takes no target, and gives none.
abbrev pub TakesNone : PatchField String → Type 0
TakesNone missing_field = Unit
TakesNone null_field = Unit
TakesNone (value_field t) = ⊥

-- A merge names another item of the queue, which is not itself merged into this one.
pub record MayMerge (queue id target : String) (t : Tables) : Type 0 where
  pub other : target ≢ id
  pub row : ItemRow
  pub there : find_item queue target t.items ≡ some row
  pub not_back : ¬ (
      (s : TriageRevision) × (load_latest_revision queue target t ≡ some s)
      × (s.verdict ≡ some merge_into)
      × (s.target ≡ some id))

-- The target that goes with a verdict.
abbrev pub Targets :
    Option TriageVerdict → PatchField String → String → String → Tables → Option String → Type 0
Targets (some merge_into) field queue id t target =
    (text : String) × (target ≡ some text)
    × TargetOf field (load_latest_revision queue id t) text
    × MayMerge queue id text t
Targets (some schedule) field queue id t target = (target ≡ none) × TakesNone field
Targets (some delete) field queue id t target = (target ≡ none) × TakesNone field
Targets (some needs_replan) field queue id t target = (target ≡ none) × TakesNone field
Targets (some leave_captured) field queue id t target = (target ≡ none) × TakesNone field
Targets none field queue id t target = (target ≡ none) × TakesNone field

patched_verdict-VerdictOf :
    (field : PatchField TriageVerdict) (previous : Option TriageRevision)
    → VerdictOf field previous (patched_verdict field previous)
unfolding patched_verdict previous_verdict
patched_verdict-VerdictOf missing_field none = refl
patched_verdict-VerdictOf missing_field (some r) = refl
patched_verdict-VerdictOf null_field previous = refl
patched_verdict-VerdictOf (value_field v) previous = refl

patched_target-none :
    (field : PatchField String) (previous : Option TriageRevision) (target : Option String)
    → patched_target false field previous ≡ ok target
    → (target ≡ none) × TakesNone field
unfolding patched_target
patched_target-none missing_field previous target h = (cc, tt)
patched_target-none null_field previous target h = (cc, tt)
patched_target-none (value_field t) previous target h = cc

patched_target-TargetOf :
    (field : PatchField String) (previous : Option TriageRevision) (text : String)
    → patched_target true field previous ≡ ok (some text)
    → TargetOf field previous text
unfolding patched_target previous_target validate_target_text
patched_target-TargetOf missing_field none text h = cc
patched_target-TargetOf missing_field (some r) text h = cc
patched_target-TargetOf null_field previous text h = cc
patched_target-TargetOf (value_field t) previous text h = elim (Bool-cases (is_trimmed t)) [
  | inl trimmed ↦ (cc (rw trimmed at h), trimmed)
  | inr loose ↦ cc (rw loose at h)
]

find_item-any :
    (queue id : String) (rows : List ItemRow)
    → any (is_queue_item queue id) rows ≡ true
    → (row : ItemRow) × (find_item queue id rows ≡ some row)
unfolding any find_item
find_item-any queue id [] h = cc
find_item-any queue id (row ∷ rows) h = elim (Bool-cases (is_queue_item queue id row)) [
  | inl hit ↦ (row, rw hit)
  | inr miss ↦ let (found, at) = find_item-any queue id rows (rw miss at h) in (found, rw miss at)
]

merges_into-back :
    (id : String) (o : Option TriageRevision) (s : TriageRevision)
    → merges_into id o ≡ false
    → o ≡ some s
    → s.verdict ≡ some merge_into
    → ¬ (s.target ≡ some id)
unfolding merges_into is_merge
merges_into-back id o s clear latest merge target =
    cc (rw (latest, merge, target, eq_refl id) at clear)

validate_decision-MayMerge :
    (queue id text : String) (t : Tables)
    → validate_decision queue id true (some text) t ≡ ok tt
    → MayMerge queue id text t
unfolding validate_decision
validate_decision-MayMerge queue id text t =
    from_bind
      (ensure (not (str_eq text id)) merges_itself
        >> ensure (any (is_queue_item queue text) t.items) (target_absent text))
      _
      λ _ both back.
        from_ensure (not (str_eq text id)) _
          (ensure (any (is_queue_item queue text) t.items) (target_absent text))
          (λ apart present.
            let (row, there) = find_item-any queue text t.items (ensure-true _ _ present) in
            record {
              other = λ same. cc (not-true _ apart, (eq_iff text id).1 same);
              row = row;
              there = there;
              not_back = λ (s, latest, merge, target).
                  merges_into-back id _ s (not-true _ (ensure-true _ _ back)) latest merge target;
            })
          both

validate_decision-some :
    (queue id : String) (target : Option String) (t : Tables)
    → validate_decision queue id true target t ≡ ok tt
    → (text : String) × (target ≡ some text)
unfolding validate_decision
validate_decision-some queue id none t h = cc
validate_decision-some queue id (some text) t h = (text, refl)

merge-Targets :
    (field : PatchField String) (queue id : String) (t : Tables) (target : Option String)
    → patched_target true field (load_latest_revision queue id t) ≡ ok target
    → validate_decision queue id true target t ≡ ok tt
    → Targets (some merge_into) field queue id t target
merge-Targets field queue id t target chosen checked =
    let (text, named) = validate_decision-some queue id target t checked in
    (
      text,
      named,
      patched_target-TargetOf field (load_latest_revision queue id t) text (rw named at chosen),
      validate_decision-MayMerge queue id text t (rw named at checked),
    )

decided-Targets :
    (verdict : Option TriageVerdict) (field : PatchField String) (queue id : String) (t : Tables)
    (target : Option String)
    → patched_target (is_merge verdict) field (load_latest_revision queue id t) ≡ ok target
    → validate_decision queue id (is_merge verdict) target t ≡ ok tt
    → Targets verdict field queue id t target
unfolding is_merge
decided-Targets (some merge_into) field queue id t target chosen checked =
    merge-Targets field queue id t target chosen checked
decided-Targets (some schedule) field queue id t target chosen checked =
    patched_target-none field _ target chosen
decided-Targets (some delete) field queue id t target chosen checked =
    patched_target-none field _ target chosen
decided-Targets (some needs_replan) field queue id t target chosen checked =
    patched_target-none field _ target chosen
decided-Targets (some leave_captured) field queue id t target chosen checked =
    patched_target-none field _ target chosen
decided-Targets none field queue id t target chosen checked =
    patched_target-none field _ target chosen

-- The revision that a decision on an item adds.
pub record IsDecided (id : String) (patch : DecisionPatch) (t t' : Tables) (r : TriageRevision)
    : Type 0 where
  pub queue : String
  pub item : ItemRow
  pub found : find_item queue id t.items ≡ some item
  pub of_item : (r.queue_id ≡ queue) × (r.item_id ≡ id)
  pub snapshot : r.content_sha256 ≡ item.content_sha256
  pub numbered : r.revision ≡ suc (number_of (load_latest_revision queue id t))
  pub verdict : VerdictOf patch.verdict (load_latest_revision queue id t) r.verdict
  pub target : Targets r.verdict patch.target queue id t r.target
  pub revisions : t'.revisions ≡ t.revisions ++ (r ∷ [])
  pub items : t'.items ≡ t.items

-- A decision that succeeds puts the next revision of the item after the others, for the snapshot
-- that the item has. A missing verdict keeps that of the latest revision, an explicit null clears
-- it. Only a merge has a target: the patch's or the latest revision's, another item of the queue
-- that is not itself merged into this one. No item changes.
pub record_decision-IsDecided :
    (reference id : String) (patch : DecisionPatch) (now : DateTime) (t : Tables) {t' : Tables}
    {r : TriageRevision}
    → record_decision reference id patch now t ≡ ok (t', r)
    → IsDecided id patch t t' r
record_decision-IsDecided reference id patch now t {t'} {r} h =
    let a = record_decision-IsRecorded reference id patch now t h in
    record {
      queue = a.queue;
      item = a.item;
      found = a.found;
      of_item = a.of_item;
      snapshot = a.snapshot;
      numbered = a.numbered;
      verdict =
          rw a.verdict
            (patched_verdict-VerdictOf patch.verdict (load_latest_revision a.queue id t));
      target = decided-Targets r.verdict patch.target a.queue id t r.target a.target a.checked;
      revisions = a.revisions;
      items = a.items;
    }
