-- ===== src/Triage/Store/Page/Paging.antt =====
-- Reading the revisions of a queue page by page.
use sjbis.Prelude.{
  ℕ, zero, suc, ◌≤◌, ◌<◌, String, ◌≡◌, refl, ap, ◌∙◌, List, [], ◌∷◌, select, take, length, arith,
  Bool-cases, inl, inr,
}
use sjbis.Triage.Data.{TriageRevision}
use sjbis.Triage.Store.History.{Ascends}
use sjbis.Triage.Store.Page.{is_after, last_event, page_of}
use sjbis.Triage.Store.Page.Order.{
  Ascends-IsSorted, sort_by-IsSorted, all_after, read_pages, all_after-IsSorted, last_event-above,
  drop, take-drop, drop-length, beyond, select-beyond-drop, after_again,
}

-- To read on from a later cursor is to read on in what an earlier one leaves.
all_after-later :
    (queue : String) (cursor later : ℕ) (rs : List TriageRevision)
    → cursor ≤ later
    → all_after queue later rs ≡ select (beyond later) (all_after queue cursor rs)
unfolding all_after select
all_after-later queue cursor later [] h = refl
all_after-later queue cursor later (r ∷ rs) h =
    let rest = all_after-later queue cursor later rs h in
    let again = after_again queue cursor later r h in
    elim (Bool-cases (is_after queue cursor r)) [
      | inl hit ↦ elim (Bool-cases (beyond later r)) [
        | inl on ↦ rw (again, hit, on) (ap (λ l. r ∷ l) rest)
        | inr off ↦ rw (again, hit, off) rest
      ]
      | inr miss ↦ rw (again, miss) rest
    ]

page_of-take :
    (queue : String) (cursor limit hi : ℕ) (rs : List TriageRevision)
    → Ascends 1 rs hi
    → page_of queue cursor limit rs ≡ take limit (all_after queue cursor rs)
unfolding page_of all_after
page_of-take queue cursor limit hi rs h = ap (take limit) (
    sort_by-IsSorted (suc cursor) (all_after queue cursor rs)
      (all_after-IsSorted queue cursor 1 rs (Ascends-IsSorted 1 hi rs h)))

-- What the next page starts from is what this page leaves.
all_after-page :
    (queue : String) (cursor limit hi : ℕ) (rs : List TriageRevision)
    → Ascends 1 rs hi
    → all_after queue (last_event cursor (page_of queue cursor limit rs)) rs
      ≡ drop limit (all_after queue cursor rs)
all_after-page queue cursor limit hi rs h =
    let rest = all_after queue cursor rs in
    let sorted = all_after-IsSorted queue cursor 1 rs (Ascends-IsSorted 1 hi rs h) in
    rw (page_of-take queue cursor limit hi rs h) (
      all_after-later queue cursor (last_event cursor (take limit rest)) rs
        (last_event-above cursor limit rest sorted)
      ∙ select-beyond-drop cursor limit rest sorted)

none_left : (rs : List TriageRevision) → length rs ≤ 0 → [] ≡ rs
none_left [] h = refl
none_left (r ∷ rs) h = let clash : ⊥ = omega arith in absurd clash

-- On a history whose event ids ascend, reading page after page, each from the last event of the one
-- before, gives every revision of the queue after the cursor, once and in order, as soon as there
-- are as many pages as revisions.
pub read_pages_all :
    (pages : ℕ) (queue : String) (cursor limit hi : ℕ) (rs : List TriageRevision)
    → Ascends 1 rs hi
    → 0 < limit
    → length (all_after queue cursor rs) ≤ pages
    → read_pages pages queue cursor limit rs ≡ all_after queue cursor rs
unfolding read_pages
read_pages_all zero queue cursor limit hi rs h some_limit enough = none_left _ enough
read_pages_all (suc pages) queue cursor limit hi rs h some_limit enough =
    let left = all_after-page queue cursor limit hi rs h in
    let fewer = drop-length limit pages (all_after queue cursor rs) some_limit enough in
    let next =
      read_pages_all pages queue (last_event cursor (page_of queue cursor limit rs)) limit hi rs h
        some_limit (rw left fewer) in
    rw (next, left, page_of-take queue cursor limit hi rs h)
      (take-drop limit (all_after queue cursor rs))
