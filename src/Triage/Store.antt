-- ===== src/Triage/Store.antt =====
-- src/triage/store.rs: the tables of the review queues and what the store reads of them. An operation
-- is one transaction: an error leaves the tables as they were. A column with a CHECK holds a value
-- of its enum; of the constraints of the tables, the keys are modelled.
pub mod Queues
pub mod Decide
pub mod Refresh
pub mod Page
pub mod Frame
pub mod History
pub mod Steps
use mathlib.Core.Option
use sjbis.Prelude.{
  ℕ, zero, suc, String, Bool, true, false, Option, none, some, List, [], ◌∷◌, ◌++◌, ◌&&◌, ◌||◌, not,
  if◌then◌else◌, ◌==◌, ltb, str_eq, Result, ok, err, ◌>>=◌, ok_or, select, length, map, sort_by,
  text_ltb,
}
use sjbis.Json.{Json}
use sjbis.Models.Data.{DateTime}
use sjbis.Triage.Data.{
  SourceSpec, SourceKind, path_kind, inline_kind, QueueStatus, open_queue, closed_queue, Freshness,
  FreshnessState, current, ambiguous, is_current, TriageVerdict, QueueCounts, TriageQueue,
  TriageItem, TriageRevision, QueueDetail,
}
use sjbis.Triage.Observations.{ImportError}

pub record QueueRow : Type 0 where
  pub id : String
  pub name : String
  pub root : String
  pub strip_suffix : String
  pub source_spec : SourceSpec
  pub status : QueueStatus
  pub created_at : DateTime
  pub updated_at : DateTime
  pub closed_at : Option DateTime

pub record ItemRow : Type 0 where
  pub queue_id : String
  pub id : String
  pub source_kind : SourceKind
  pub path : Option String
  pub source : Option Json
  pub markdown : String
  pub content_sha256 : String
  pub captured_at : DateTime
  pub freshness : Freshness
  pub observed_at : DateTime

-- `next_event` is the sequence behind `event_id`.
pub record Tables : Type 0 where
  pub queues : List QueueRow
  pub items : List ItemRow
  pub revisions : List TriageRevision
  pub next_event : ℕ

-- `Validation` is a constructor for each message, `Database` is `database`.
pub data TriageStoreError : Type 0 where
  queue_not_found : String → TriageStoreError
  item_not_found : String → String → TriageStoreError
  duplicate_queue : String → String → TriageStoreError
  queue_is_closed bad_queue_name bad_root empty_suffix : TriageStoreError
  bad_target target_required merges_itself target_not_allowed : TriageStoreError
  target_absent reciprocal_merge : String → TriageStoreError
  path_taken : String → String → TriageStoreError
  bad_cursor bad_limit corrupt database : TriageStoreError
  import_error : ImportError → TriageStoreError

-- `?` on an `ImportError`.
unfoldable pub lift_import : {A : Type 0} → Result ImportError A → Result TriageStoreError A
lift_import (ok a) = ok a
lift_import (err e) = err (import_error e)

abbrev pub Answer : Type 0 → Type 0
Answer A = Result TriageStoreError (Tables × A)

unfoldable pub is_queue_item : String → String → ItemRow → Bool
is_queue_item queue id row = str_eq row.queue_id queue && str_eq row.id id

unfoldable pub find_queue : (QueueRow → Bool) → List QueueRow → Option QueueRow
find_queue test [] = none
find_queue test (q ∷ qs) = let rest = find_queue test qs in if test q then some q else rest

abbrev pub first_of : Option QueueRow → Option QueueRow → Option QueueRow
first_of (some q) other = some q
first_of none other = other

-- WHERE id = $1 OR name = $1 ORDER BY (id = $1) DESC LIMIT 1
unfoldable pub queue_of : String → Tables → Option QueueRow
unfolding find_queue
queue_of reference t =
    first_of (find_queue (λ q. str_eq q.id reference) t.queues)
      (find_queue (λ q. str_eq q.name reference) t.queues)

unfoldable pub is_of_item : String → String → TriageRevision → Bool
is_of_item queue id r = str_eq r.queue_id queue && str_eq r.item_id id

abbrev pub newer_of : TriageRevision → Option TriageRevision → TriageRevision
newer_of r none = r
newer_of r (some s) = if ltb r.revision s.revision then s else r

-- ORDER BY revision DESC LIMIT 1, among the revisions that pass the test.
unfoldable pub latest_of : (TriageRevision → Bool) → List TriageRevision → Option TriageRevision
latest_of test [] = none
latest_of test (r ∷ rs) =
    let rest = latest_of test rs in if test r then some (newer_of r rest) else rest

unfoldable pub load_latest_revision : String → String → Tables → Option TriageRevision
unfolding latest_of is_of_item
load_latest_revision queue id t = latest_of (is_of_item queue id) t.revisions

abbrev pub verdict_of : Option TriageRevision → Option TriageVerdict
verdict_of none = none
verdict_of (some r) = r.verdict

abbrev is_given : {A : Type 0} → Option A → Bool
is_given none = false
is_given (some a) = true

unfoldable pub is_ambiguous : FreshnessState → Bool
is_ambiguous ambiguous = true
is_ambiguous _ = false

unfoldable pub in_queue : String → ItemRow → Bool
in_queue queue row = str_eq row.queue_id queue

-- QUEUE_SUMMARY_SQL
unfoldable pub counts_of : String → Tables → QueueCounts
unfolding in_queue load_latest_revision is_current is_ambiguous select
counts_of queue t =
    let items = select (in_queue queue) t.items in
    record {
      total = length items;
      decided =
          length
            (select (λ row. is_given (verdict_of (load_latest_revision queue row.id t))) items);
      stale = length (select (λ row. not (is_current row.freshness.state)) items);
      ambiguous_items = length (select (λ row. is_ambiguous row.freshness.state) items);
    }

unfoldable pub row_to_queue : Tables → QueueRow → TriageQueue
unfolding counts_of
row_to_queue t q =
    let counts = counts_of q.id t in
    record {
      id = q.id;
      name = q.name;
      root = q.root;
      strip_suffix = q.strip_suffix;
      source_spec = q.source_spec;
      status = q.status;
      complete = ltb 0 counts.total && counts.decided == counts.total;
      created_at = q.created_at;
      updated_at = q.updated_at;
      closed_at = q.closed_at;
      counts = counts;
    }

unfoldable pub get_queue : String → Tables → Option TriageQueue
unfolding queue_of row_to_queue
get_queue reference t = Option.map (row_to_queue t) (queue_of reference t)

unfoldable pub row_to_item : Tables → ItemRow → TriageItem
unfolding load_latest_revision
row_to_item t row = record {
  queue_id = row.queue_id;
  id = row.id;
  source_kind = row.source_kind;
  path = row.path;
  source = row.source;
  markdown = row.markdown;
  content_sha256 = row.content_sha256;
  captured_at = row.captured_at;
  freshness = row.freshness;
  latest_revision = load_latest_revision row.queue_id row.id t;
}

-- ORDER BY updated_at DESC, id
unfoldable pub more_recent_queue : QueueRow → QueueRow → Bool
unfolding text_ltb
more_recent_queue a b =
    ltb b.updated_at a.updated_at || (a.updated_at == b.updated_at && text_ltb a.id b.id)

unfoldable pub list_queues : Tables → List TriageQueue
unfolding row_to_queue more_recent_queue sort_by
list_queues t = map (row_to_queue t) (sort_by more_recent_queue t.queues)
