-- ===== src/Triage/Store/Page/Order.antt =====
-- The revisions of a queue in the order of their events, and a page of them.
use sjbis.Prelude.{
  ℕ, zero, suc, ◌≤◌, ◌<◌, String, ◌≡◌, refl, ap, ◌∙◌, Bool, true, false, List, [], ◌∷◌, ◌++◌, ◌&&◌,
  ltb, select, take, length, arith, Bool-cases, inl, inr, sort_by, insert_sorted,
}
use sjbis.Triage.Data.{TriageRevision}
use sjbis.Triage.Store.History.{Ascends}
use sjbis.Triage.Store.Page.{is_after, earlier, last_event, page_of}

-- Event ids from `lo` on ascend.
abbrev pub IsSorted : ℕ → List TriageRevision → Type 0
IsSorted lo [] = Unit
IsSorted lo (r ∷ rs) = (lo ≤ r.event_id) × IsSorted (suc r.event_id) rs

IsSorted-lower :
    (lo lo' : ℕ) (rs : List TriageRevision) → lo' ≤ lo → IsSorted lo rs → IsSorted lo' rs
IsSorted-lower lo lo' [] h s = tt
IsSorted-lower lo lo' (r ∷ rs) h (s, ss) = (omega arith, ss)

pub Ascends-IsSorted : (lo hi : ℕ) (rs : List TriageRevision) → Ascends lo rs hi → IsSorted lo rs
Ascends-IsSorted lo hi [] h = tt
Ascends-IsSorted lo hi (r ∷ rs) (h, hs) = (h, Ascends-IsSorted (suc r.event_id) hi rs hs)

select-IsSorted :
    (test : TriageRevision → Bool) (lo : ℕ) (rs : List TriageRevision)
    → IsSorted lo rs
    → IsSorted lo (select test rs)
unfolding select
select-IsSorted test lo [] s = tt
select-IsSorted test lo (r ∷ rs) (s, ss) = elim (Bool-cases (test r)) [
  | inl hit ↦ rw hit (s, select-IsSorted test (suc r.event_id) rs ss)
  | inr miss ↦ rw miss (
      IsSorted-lower (suc r.event_id) lo _ (omega arith)
        (select-IsSorted test (suc r.event_id) rs ss))
]

-- What is in order stays as it is.
insert_sorted-least :
    (r : TriageRevision) (rs : List TriageRevision)
    → IsSorted (suc r.event_id) rs
    → insert_sorted earlier r rs ≡ r ∷ rs
unfolding insert_sorted
insert_sorted-least r [] s = refl
insert_sorted-least r (q ∷ rs) (s, ss) = let later : earlier q r ≡ false = ground arith in rw later

pub sort_by-IsSorted :
    (lo : ℕ) (rs : List TriageRevision) → IsSorted lo rs → sort_by earlier rs ≡ rs
unfolding sort_by
sort_by-IsSorted lo [] s = refl
sort_by-IsSorted lo (r ∷ rs) (s, ss) =
    ap (insert_sorted earlier r) (sort_by-IsSorted (suc r.event_id) rs ss)
    ∙ insert_sorted-least r rs ss

-- The revisions of a queue that come after a cursor, all of them.
unfoldable pub all_after : String → ℕ → List TriageRevision → List TriageRevision
all_after queue cursor rs = select (is_after queue cursor) rs

-- A page, and the pages after it, each from the last event of the one before: `pages` of them.
unfoldable pub read_pages : ℕ → String → ℕ → ℕ → List TriageRevision → List TriageRevision
unfolding page_of last_event
read_pages zero queue cursor limit rs = []
read_pages (suc pages) queue cursor limit rs =
    let page = page_of queue cursor limit rs in
    page ++ read_pages pages queue (last_event cursor page) limit rs

after_above :
    (queue : String) (cursor : ℕ) (r : TriageRevision)
    → is_after queue cursor r ≡ true
    → suc cursor ≤ r.event_id
unfolding is_after
after_above queue cursor r h = ground arith

pub all_after-IsSorted :
    (queue : String) (cursor lo : ℕ) (rs : List TriageRevision)
    → IsSorted lo rs
    → IsSorted (suc cursor) (all_after queue cursor rs)
unfolding all_after select
all_after-IsSorted queue cursor lo [] s = tt
all_after-IsSorted queue cursor lo (r ∷ rs) (s, ss) = elim (Bool-cases (is_after queue cursor r)) [
  | inl hit ↦ rw hit (
    after_above queue cursor r hit,
    select-IsSorted (is_after queue cursor) (suc r.event_id) rs ss,
  )
  | inr miss ↦ rw miss (all_after-IsSorted queue cursor (suc r.event_id) rs ss)
]

pub last_event-above :
    (e n : ℕ) (rs : List TriageRevision) → IsSorted (suc e) rs → e ≤ last_event e (take n rs)
unfolding last_event
last_event-above e zero rs s = omega arith
last_event-above e (suc n) [] s = omega arith
last_event-above e (suc n) (r ∷ rs) (s, ss) =
    let rest = last_event-above r.event_id n rs ss in omega arith

unfoldable pub drop : ℕ → List TriageRevision → List TriageRevision
drop zero rs = rs
drop (suc n) [] = []
drop (suc n) (r ∷ rs) = drop n rs

pub take-drop : (n : ℕ) (rs : List TriageRevision) → take n rs ++ drop n rs ≡ rs
unfolding drop
take-drop zero rs = refl
take-drop (suc n) [] = refl
take-drop (suc n) (r ∷ rs) = ap (λ l. r ∷ l) (take-drop n rs)

pub drop-length :
    (n pages : ℕ) (rs : List TriageRevision)
    → 0 < n
    → length rs ≤ suc pages
    → length (drop n rs) ≤ pages
unfolding drop
drop-length zero pages rs h k = omega arith
drop-length (suc n) pages [] h k = omega arith
drop-length (suc zero) pages (r ∷ rs) h k = omega arith
drop-length (suc (suc n)) zero (r ∷ []) h k = omega arith
drop-length (suc (suc n)) zero (r ∷ q ∷ rs) h k = omega arith
drop-length (suc (suc n)) (suc pages) (r ∷ rs) h k =
    let rest = drop-length (suc n) pages rs (omega arith) (omega arith) in omega arith

unfoldable pub beyond : ℕ → TriageRevision → Bool
beyond cursor r = ltb cursor r.event_id

select-beyond-all :
    (cursor : ℕ) (rs : List TriageRevision)
    → IsSorted (suc cursor) rs
    → select (beyond cursor) rs ≡ rs
unfolding select beyond
select-beyond-all cursor [] s = refl
select-beyond-all cursor (r ∷ rs) (s, ss) =
    let above : ltb cursor r.event_id ≡ true = ground arith in
    let rest =
      select-beyond-all cursor rs
        (IsSorted-lower (suc r.event_id) (suc cursor) rs (omega arith) ss) in
    rw above (ap (λ l. r ∷ l) rest)

select_passed :
    (e : ℕ) (r : TriageRevision) (rs : List TriageRevision)
    → r.event_id ≤ e
    → select (beyond e) (r ∷ rs) ≡ select (beyond e) rs
unfolding select beyond
select_passed e r rs h = let passed : ltb e r.event_id ≡ false = ground arith in rw passed

-- What lies beyond the last event of a page is what the page left.
pub select-beyond-drop :
    (cursor n : ℕ) (rs : List TriageRevision)
    → IsSorted (suc cursor) rs
    → select (beyond (last_event cursor (take n rs))) rs ≡ drop n rs
unfolding last_event drop select
select-beyond-drop cursor zero rs s = select-beyond-all cursor rs s
select-beyond-drop cursor (suc n) [] s = refl
select-beyond-drop cursor (suc n) (r ∷ rs) (s, ss) =
    let reached = last_event-above r.event_id n rs ss in
    select_passed _ r rs (omega arith) ∙ select-beyond-drop r.event_id n rs ss

pub after_again :
    (queue : String) (cursor later : ℕ) (r : TriageRevision)
    → cursor ≤ later
    → is_after queue later r ≡ (is_after queue cursor r && beyond later r)
unfolding is_after beyond
after_again queue cursor later r h = ground arith
