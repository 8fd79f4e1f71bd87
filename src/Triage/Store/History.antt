-- ===== src/Triage/Store/History.antt =====
-- The history of decisions: event ids ascend, and each item's revisions are numbered from 1.
use sjbis.Prelude.{
  ℕ, suc, ◌+◌, ◌≤◌, String, ◌≡◌, refl, ap, ◌∙◌, Bool, true, false, List, [], ◌∷◌, ◌++◌,
  if◌then◌else◌, ok, select, length, arith, Bool-cases, inl, inr,
}
use sjbis.Models.Data.{DateTime}
use sjbis.Triage.Data.{TriageRevision, DecisionPatch}
use sjbis.Triage.Store.{Tables, is_of_item, latest_of, load_latest_revision}
use sjbis.Triage.Store.Decide.{record_decision}
use sjbis.Triage.Store.Decide.Recorded.{number_of, IsRecorded, record_decision-IsRecorded}
use sjbis.Triage.Store.Decide.Merges.{now_latest, still_latest}

-- The event ids from `lo` on ascend and stay below `hi`.
abbrev pub Ascends : ℕ → List TriageRevision → ℕ → Type 0
Ascends lo [] hi = lo ≤ hi
Ascends lo (r ∷ rs) hi = (lo ≤ r.event_id) × Ascends (suc r.event_id) rs hi

Ascends-append :
    (lo : ℕ) (rs : List TriageRevision) (r : TriageRevision) (hi : ℕ)
    → Ascends lo rs hi
    → r.event_id ≡ hi
    → Ascends lo (rs ++ (r ∷ [])) (suc hi)
Ascends-append lo [] r hi h at = (omega arith, omega arith)
Ascends-append lo (s ∷ rs) r hi (h, hs) at = (h, Ascends-append (suc s.event_id) rs r hi hs at)

-- 1, 2, … as the numbers of `rs`.
abbrev pub CountsFrom : ℕ → List TriageRevision → Type 0
CountsFrom n [] = Unit
CountsFrom n (r ∷ rs) = (r.revision ≡ n) × CountsFrom (suc n) rs

CountsFrom-append :
    (n : ℕ) (rs : List TriageRevision) (r : TriageRevision)
    → CountsFrom n rs
    → r.revision ≡ n + length rs
    → CountsFrom n (rs ++ (r ∷ []))
CountsFrom-append n [] r h at = (omega arith, tt)
CountsFrom-append n (s ∷ rs) r (h, hs) at = (h, CountsFrom-append (suc n) rs r hs (omega arith))

select-append :
    (test : TriageRevision → Bool) (rs : List TriageRevision) (r : TriageRevision)
    → select test (rs ++ (r ∷ [])) ≡ (if test r then select test rs ++ (r ∷ []) else select test rs)
unfolding select
select-append test [] r = refl
select-append test (s ∷ rs) r = elim (Bool-cases (test r)) [
  | inl hit ↦ elim (Bool-cases (test s)) [
    | inl counted ↦ rw (select-append test rs r, hit, counted)
    | inr passed ↦ rw (select-append test rs r, hit, passed)
  ]
  | inr miss ↦ rw (select-append test rs r, miss)
]

-- The revisions of an item in a queue, in the order in which they were recorded.
unfoldable pub history_of : String → String → List TriageRevision → List TriageRevision
history_of queue id rs = select (is_of_item queue id) rs

-- The history of each item counts from 1, and the latest revision's number is its length.
pub record IsNumbered (rs : List TriageRevision) : Type 0 where
  pub counts : (queue id : String) → CountsFrom 1 (history_of queue id rs)
  pub newest :
      (queue id : String)
      → number_of (latest_of (is_of_item queue id) rs) ≡ length (history_of queue id rs)

length-push :
    (rs : List TriageRevision) (r : TriageRevision) → length (rs ++ (r ∷ [])) ≡ suc (length rs)
length-push [] r = refl
length-push (s ∷ rs) r = ap suc (length-push rs r)

module _ {id : String} {patch : DecisionPatch} {now : DateTime} {t t' : Tables} {r : TriageRevision}
    (done_ : IsRecorded id patch now t t' r) where
  -- For the item decided on, and for another one.
  own_history :
      (queue a : String)
      → is_of_item queue a r ≡ true
      → history_of queue a t'.revisions ≡ history_of queue a t.revisions ++ (r ∷ [])
  unfolding history_of
  own_history queue a hit =
      ap (select (is_of_item queue a)) done_.revisions
      ∙ select-append (is_of_item queue a) t.revisions r
      ∙ rw hit

  other_history :
      (queue a : String)
      → is_of_item queue a r ≡ false
      → history_of queue a t'.revisions ≡ history_of queue a t.revisions
  unfolding history_of
  other_history queue a miss =
      ap (select (is_of_item queue a)) done_.revisions
      ∙ select-append (is_of_item queue a) t.revisions r
      ∙ rw miss

  own_number :
      (queue a : String)
      → IsNumbered t.revisions
      → is_of_item queue a r ≡ true
      → r.revision ≡ suc (length (history_of queue a t.revisions))
  unfolding load_latest_revision
  own_number queue a numbered hit =
      let (_, same_queue, same_id) = now_latest done_ queue a hit in
      done_.numbered ∙ ap suc (rw (← same_queue, ← same_id) (numbered.newest queue a))

  keeps_counts :
      (queue a : String) → IsNumbered t.revisions → CountsFrom 1 (history_of queue a t'.revisions)
  keeps_counts queue a numbered = elim (Bool-cases (is_of_item queue a r)) [
    | inl own ↦
        let number = own_number queue a numbered own in
        rw (own_history queue a own) (
          CountsFrom-append 1 (history_of queue a t.revisions) r (numbered.counts queue a)
            (omega arith))
    | inr other ↦ rw (other_history queue a other) (numbered.counts queue a)
  ]

  keeps_newest :
      (queue a : String)
      → IsNumbered t.revisions
      → number_of (latest_of (is_of_item queue a) t'.revisions)
        ≡ length (history_of queue a t'.revisions)
  unfolding number_of
  keeps_newest queue a numbered = elim (Bool-cases (is_of_item queue a r)) [
    | inl own ↦
        let (now_a, _, _) = now_latest done_ queue a own in
        rw (now_a, own_history queue a own, length-push) (own_number queue a numbered own)
    | inr other ↦
        rw (still_latest done_ queue a other, other_history queue a other) (numbered.newest queue a)
  ]

  keeps_numbers : IsNumbered t.revisions → IsNumbered t'.revisions
  keeps_numbers numbered = record {
    counts = λ queue a. keeps_counts queue a numbered;
    newest = λ queue a. keeps_newest queue a numbered;
  }

  keeps_events : Ascends 1 t.revisions t.next_event → Ascends 1 t'.revisions t'.next_event
  keeps_events ascends =
      rw (done_.revisions, done_.event.1)
        (Ascends-append 1 t.revisions r t.next_event ascends done_.event.0)

-- The event ids ascend, and the revisions of each item are numbered from 1 without a gap.
pub record IsHistory (t : Tables) : Type 0 where
  pub events : Ascends 1 t.revisions t.next_event
  pub numbers : IsNumbered t.revisions

pub recorded-IsHistory :
    (reference id : String) (patch : DecisionPatch) (now : DateTime) (t : Tables) {t' : Tables}
    {r : TriageRevision}
    → IsHistory t
    → record_decision reference id patch now t ≡ ok (t', r)
    → IsHistory t'
recorded-IsHistory reference id patch now t h recorded =
    let done_ = record_decision-IsRecorded reference id patch now t recorded in
    record { events = keeps_events done_ h.events; numbers = keeps_numbers done_ h.numbers }
