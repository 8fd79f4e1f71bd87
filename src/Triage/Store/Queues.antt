-- ===== src/Triage/Store/Queues.antt =====
-- The queue operations: create, close, reopen, lock, and the items of a queue.
pub mod Status
use Prim.Native.String.{◌++◌ as append}
use sjbis.Prelude.{
  ℕ, String, Bool, true, false, Option, none, some, List, [], ◌∷◌, ◌++◌, ◌&&◌, ◌||◌, not,
  if◌then◌else◌, ◌==◌, ltb, str_eq, Result, ok, err, ◌>>=◌, ◌>>◌, ensure, ok_or, select, map, codes,
  is_empty, any, sort_by, text_ltb,
}
use sjbis.Models.Data.{DateTime}
use sjbis.Triage.Data.{
  Observation, SourceKind, path_kind, inline_kind, observed_kind, QueueStatus, open_queue,
  closed_queue, current_freshness, CreateQueue, TriageQueue, TriageItem, QueueDetail,
}
use sjbis.Triage.Observations.{is_trimmed, validate_and_sort_observations}
use sjbis.Triage.Paths.{is_absolute}
use sjbis.Triage.Patterns.{validate_persisted_source_spec}
use sjbis.Triage.Store.{
  QueueRow, ItemRow, Tables, TriageStoreError, queue_not_found, item_not_found, duplicate_queue,
  queue_is_closed, bad_queue_name, bad_root, empty_suffix, database, lift_import, Answer,
  is_queue_item, find_queue, queue_of, in_queue, get_queue, row_to_item,
}

unfoldable pub is_closed : QueueStatus → Bool
is_closed open_queue = false
is_closed closed_queue = true

unfoldable pub lock_queue : String → Tables → Result TriageStoreError QueueRow
unfolding queue_of
lock_queue reference t = ok_or (queue_of reference t) (queue_not_found reference)

unfoldable pub lock_open_queue : String → Tables → Result TriageStoreError String
unfolding lock_queue is_closed
lock_open_queue reference t =
    lock_queue reference t >>= λ q. ensure (not (is_closed q.status)) queue_is_closed >> ok q.id

-- UPDATE triage_queues … WHERE id = $1
unfoldable pub update_queues : String → (QueueRow → QueueRow) → List QueueRow → List QueueRow
update_queues id f [] = []
update_queues id f (q ∷ qs) = (if str_eq q.id id then f q else q) ∷ update_queues id f qs

unfoldable pub on_queue : String → (QueueRow → QueueRow) → Tables → Tables
unfolding update_queues
on_queue id f t = record t { queues = update_queues id f t.queues }

-- UPDATE triage_queues SET updated_at = $1 WHERE id = $2
unfoldable pub touch : String → DateTime → Tables → Tables
unfolding on_queue
touch id now t = on_queue id (λ q. record q { updated_at = now }) t

-- `(status == QueueStatus::Closed).then_some(now)`
unfoldable pub closed_since : QueueStatus → DateTime → Option DateTime
closed_since open_queue now = none
closed_since closed_queue now = some now

unfoldable pub switch_to : QueueStatus → DateTime → QueueRow → QueueRow
unfolding closed_since
switch_to status now q = record q {
  status = status;
  closed_at = closed_since status now;
  updated_at = now;
}

unfoldable pub read_back : String → Tables → Answer TriageQueue
unfolding get_queue
read_back id t = ok_or (get_queue id t) (queue_not_found id) >>= λ q. ok (t, q)

unfoldable pub set_queue_status : String → QueueStatus → DateTime → Tables → Answer TriageQueue
unfolding lock_queue on_queue switch_to read_back
set_queue_status reference status now t =
    lock_queue reference t >>= λ q. read_back q.id (on_queue q.id (switch_to status now) t)

unfoldable pub close_queue : String → DateTime → Tables → Answer TriageQueue
unfolding set_queue_status
close_queue reference = set_queue_status reference closed_queue

unfoldable pub reopen_queue : String → DateTime → Tables → Answer TriageQueue
unfolding set_queue_status
reopen_queue reference = set_queue_status reference open_queue

unfoldable pub find_item : String → String → List ItemRow → Option ItemRow
unfolding is_queue_item
find_item queue id [] = none
find_item queue id (row ∷ rows) =
    let rest = find_item queue id rows in if is_queue_item queue id row then some row else rest

unfoldable pub add_item : ItemRow → Tables → Tables
add_item row t = record t { items = t.items ++ (row ∷ []) }

unfoldable pub add_queue : QueueRow → Tables → Tables
add_queue q t = record t { queues = t.queues ++ (q ∷ []) }

-- The id or the name is taken.
unfoldable pub is_taken : String → String → List QueueRow → Bool
unfolding any
is_taken id name qs = any (λ q. str_eq q.id id || str_eq q.name name) qs

unfoldable pub has_item : String → String → List ItemRow → Bool
unfolding any is_queue_item
has_item queue id rows = any (is_queue_item queue id) rows

unfoldable pub validate_create_request : CreateQueue → Result TriageStoreError Unit
unfolding is_trimmed is_absolute is_empty validate_persisted_source_spec lift_import
validate_create_request request =
    ensure (is_trimmed request.name) bad_queue_name
    >> ensure (not (is_empty request.root) && is_absolute (codes request.root)) bad_root
    >> ensure (not (is_empty request.strip_suffix)) empty_suffix
    >> lift_import (validate_persisted_source_spec request.source_spec)

abbrev pub new_queue : CreateQueue → String → DateTime → QueueRow
new_queue request id now = record {
  id = id;
  name = request.name;
  root = request.root;
  strip_suffix = request.strip_suffix;
  source_spec = request.source_spec;
  status = open_queue;
  created_at = now;
  updated_at = now;
  closed_at = none;
}

-- The id or the name is taken: the queue of the name, if there is one.
unfoldable pub refuse_duplicate : String → Option QueueRow → TriageStoreError
refuse_duplicate name none = database
refuse_duplicate name (some q) = duplicate_queue name q.id

-- `format!("tq-{}", nanoid!(10))`
unfoldable pub queue_id_of : String → String
queue_id_of nanoid = append "tq-" nanoid

module _ (sha256_hex : String → String) where
  unfoldable pub item_row : String → Observation → DateTime → ItemRow
  unfolding observed_kind
  item_row queue o now = record {
    queue_id = queue;
    id = o.id;
    source_kind = observed_kind o;
    path = o.path;
    source = o.source;
    markdown = o.markdown;
    content_sha256 = sha256_hex o.markdown;
    captured_at = now;
    freshness = current_freshness;
    observed_at = now;
  }

  -- An id that the queue has violates the primary key.
  unfoldable pub insert_item :
      String → Observation → DateTime → Tables → Result TriageStoreError Tables
  unfolding item_row has_item add_item
  insert_item queue o now t =
      ensure (not (has_item queue o.id t.items)) database >> ok (add_item (item_row queue o now) t)

  unfoldable pub insert_items :
      String → List Observation → DateTime → Tables → Result TriageStoreError Tables
  unfolding insert_item
  insert_items queue [] now t = ok t
  insert_items queue (o ∷ os) now t = insert_item queue o now t >>= insert_items queue os now

  -- `nanoid` is the generated part of the id.
  unfoldable pub create_queue :
      CreateQueue → (nanoid : String) → DateTime → Tables → Answer TriageQueue
  unfolding validate_create_request lift_import validate_and_sort_observations insert_items
      refuse_duplicate read_back find_queue is_taken add_queue queue_id_of
  create_queue request nanoid now t =
      validate_create_request request
      >> (lift_import (validate_and_sort_observations request.items) >>= λ items.
          let id = queue_id_of nanoid in
          ensure (not (is_taken id request.name t.queues))
            (refuse_duplicate request.name (find_queue (λ q. str_eq q.name request.name) t.queues))
          >> (insert_items id items now (add_queue (new_queue request id now) t) >>= read_back id))

abbrev kind_rank : SourceKind → ℕ
kind_rank path_kind = 0
kind_rank inline_kind = 1

-- `source_path NULLS LAST, id`
unfoldable pub path_first : Option String → Option String → Bool → Bool
unfolding text_ltb
path_first none none by_id = by_id
path_first none (some q) by_id = false
path_first (some p) none by_id = true
path_first (some p) (some q) by_id = text_ltb p q || (str_eq p q && by_id)

unfoldable pub listed_before : ItemRow → ItemRow → Bool
unfolding path_first text_ltb
listed_before a b =
    ltb (kind_rank a.source_kind) (kind_rank b.source_kind)
    || (kind_rank a.source_kind == kind_rank b.source_kind
        && path_first a.path b.path (text_ltb a.id b.id))

unfoldable pub load_items : String → Tables → List TriageItem
unfolding in_queue listed_before row_to_item select sort_by
load_items queue t = map (row_to_item t) (sort_by listed_before (select (in_queue queue) t.items))

unfoldable pub get_detail : String → Tables → Option QueueDetail
unfolding get_queue load_items
get_detail reference t = elim (get_queue reference t) [
  | none ↦ none
  | some q ↦ some record { queue = q; catalog = load_items q.id t }
]
