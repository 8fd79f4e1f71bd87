-- ===== src/Triage/Store/Page.antt =====
-- `list_revisions`: the revisions of a queue after a cursor, a page at a time.
pub mod Order
pub mod Paging
use sjbis.Prelude.{
  ℕ, suc, String, Bool, true, false, Option, none, some, List, [], ◌∷◌, ◌&&◌, ◌||◌, not,
  if◌then◌else◌, ◌==◌, ltb, str_eq, ℤ, pos, negsuc, Result, ok, err, ◌>>=◌, ◌>>◌, ensure, ok_or,
  select, take, sort_by,
}
use sjbis.Triage.Data.{TriageRevision, RevisionPage, TriageQueue}
use sjbis.Triage.Store.{Tables, TriageStoreError, queue_not_found, bad_cursor, bad_limit, get_queue}

-- `after_event_id < 0`
unfoldable pub cursor_of : ℤ → Result TriageStoreError ℕ
cursor_of (pos n) = ok n
cursor_of (negsuc n) = err bad_cursor

unfoldable pub is_after : String → ℕ → TriageRevision → Bool
is_after queue cursor r = str_eq r.queue_id queue && ltb cursor r.event_id

abbrev pub earlier : TriageRevision → TriageRevision → Bool
earlier a b = ltb a.event_id b.event_id

-- `items.last().map(|revision| revision.event_id).unwrap_or(after_event_id)`
unfoldable pub last_event : ℕ → List TriageRevision → ℕ
last_event cursor [] = cursor
last_event cursor (r ∷ rs) = last_event r.event_id rs

-- WHERE queue_id = $1 AND event_id > $2 ORDER BY event_id LIMIT $3
unfoldable pub page_of : String → ℕ → ℕ → List TriageRevision → List TriageRevision
unfolding is_after select sort_by
page_of queue cursor limit revisions =
    take limit (sort_by earlier (select (is_after queue cursor) revisions))

unfoldable pub list_revisions : String → ℤ → ℕ → Tables → Result TriageStoreError RevisionPage
unfolding get_queue cursor_of page_of last_event
list_revisions reference after_event_id limit t =
    ok_or (get_queue reference t) (queue_not_found reference) >>= λ queue.
    cursor_of after_event_id >>= λ cursor.
    ensure (not (limit == 0 || ltb 1000 limit)) bad_limit
    >> (let items = page_of queue.id cursor limit t.revisions in
        ok record { items = items; next_event_id = last_event cursor items })
