-- ===== src/Triage/Http.antt =====
-- src/triage/http.rs: the endpoints of the review queues, each a function of the decoded request and
-- the tables. A payload or a query that axum rejects comes with the rejection's text; a cursor is
-- its code points.
pub mod Cursor
use sjbis.Prelude.{
  ℕ, zero, suc, ◌+◌, ◌/◌, ◌%◌, String, Bool, true, false, Option, none, some, List, [], ◌∷◌, ◌++◌,
  ◌&&◌, ◌||◌, not, if◌then◌else◌, ◌==◌, ltb, str_eq, ℤ, pos, negsuc, parse_int, i64_bound, Result,
  ok, err, ◌>>=◌, ◌>>◌, ensure, ok_or, codes, any, map,
}
use sjbis.Json.{Json}
use sjbis.Models.Data.{DateTime}
use sjbis.Triage.Data.{
  Observation, SourceKind, Freshness, CreateQueue, TriageQueue, TriageItem, TriageRevision,
  DecisionPatch, QueueDetail, RefreshStats,
}
use sjbis.Triage.Store.{
  Tables, TriageStoreError, queue_not_found, item_not_found, duplicate_queue, queue_is_closed,
  corrupt, database, list_queues,
}
use sjbis.Triage.Store.Queues.{create_queue, close_queue, reopen_queue, get_detail}
use sjbis.Triage.Store.Decide.{record_decision}
use sjbis.Triage.Store.Refresh.{refresh_queue, attach_item}
use sjbis.Triage.Store.Page.{list_revisions}

pub record RefreshRequest : Type 0 where
  pub items : List Observation

pub record AttachRequest : Type 0 where
  pub path : String
  pub markdown : String

pub record CatalogItem : Type 0 where
  pub id : String
  pub source_kind : SourceKind
  pub path : Option String
  pub source : Option Json
  pub markdown : String
  pub content_sha256 : String
  pub captured_at : DateTime
  pub freshness : Freshness
  pub latest_revision : Option TriageRevision

-- `CatalogItem::from`
unfoldable pub catalog_item : TriageItem → CatalogItem
catalog_item item = record {
  id = item.id;
  source_kind = item.source_kind;
  path = item.path;
  source = item.source;
  markdown = item.markdown;
  content_sha256 = item.content_sha256;
  captured_at = item.captured_at;
  freshness = item.freshness;
  latest_revision = item.latest_revision;
}

pub record QueueDetailResponse : Type 0 where
  pub queue : TriageQueue
  pub catalog : List CatalogItem

-- `QueueDetailResponse::from`
unfoldable pub detail_response : QueueDetail → QueueDetailResponse
unfolding catalog_item
detail_response d = record { queue = d.queue; catalog = map catalog_item d.catalog }

pub record ExportResponse : Type 0 where
  pub queue : TriageQueue
  pub catalog : List CatalogItem
  pub items : List TriageRevision
  pub next_cursor : List ℕ

pub record ExportQuery : Type 0 where
  pub since : Option (List ℕ)
  pub limit : Option ℕ

-- What the body of an error says.
pub data HttpReason : Type 0 where
  store_error : TriageStoreError → HttpReason
  rejected : String → HttpReason
  invalid_cursor : HttpReason
  no_such_queue : String → HttpReason

pub record HttpError : Type 0 where
  pub status : ℕ
  pub reason : HttpReason

-- The status in `HttpError::from(TriageStoreError)`: every other error is a validation or an import.
unfoldable pub status_of_error : TriageStoreError → ℕ
status_of_error (queue_not_found reference) = 404
status_of_error (item_not_found queue id) = 404
status_of_error (duplicate_queue name id) = 409
status_of_error queue_is_closed = 409
status_of_error corrupt = 500
status_of_error database = 500
status_of_error _ = 400

unfoldable pub http_error : TriageStoreError → HttpError
unfolding status_of_error
http_error e = record { status = status_of_error e; reason = store_error e }

unfoldable pub bad_request : HttpReason → HttpError
bad_request reason = record { status = 400; reason = reason }

unfoldable pub not_found : HttpReason → HttpError
not_found reason = record { status = 404; reason = reason }

-- `?` on a `TriageStoreError`.
unfoldable pub from_store : {A : Type 0} → Result TriageStoreError A → Result HttpError A
unfolding http_error
from_store (ok a) = ok a
from_store (err e) = err (http_error e)

unfoldable pub json_payload : {A : Type 0} → Result String A → Result HttpError A
unfolding bad_request
json_payload (ok a) = ok a
json_payload (err text) = err (bad_request (rejected text))

abbrev pub Reply : Type 0 → Type 0
Reply A = Result HttpError (Tables × A)

-- The decimal digits of a number before `acc`, on fuel above the number.
unfoldable pub decimal : ℕ → ℕ → List ℕ → List ℕ
decimal zero n acc = (48 + n % 10) ∷ acc
decimal (suc fuel) n acc =
    let more = decimal fuel (n / 10) ((48 + n % 10) ∷ acc) in
    if ltb n 10 then (48 + n) ∷ acc else more

abbrev pub cursor_prefix : List ℕ
cursor_prefix = codes "triage-v1-"

unfoldable pub encode_cursor : ℕ → List ℕ
unfolding decimal
encode_cursor event_id = cursor_prefix ++ decimal (suc event_id) event_id []

-- `strip_prefix`, on code points.
unfoldable pub strip_codes : List ℕ → List ℕ → Option (List ℕ)
strip_codes [] s = some s
strip_codes (d ∷ p) [] = none
strip_codes (d ∷ p) (c ∷ s) = let rest = strip_codes p s in if d == c then rest else none

-- `filter(|value| *value >= 0)`
unfoldable pub event_of : Option ℤ → Option ℤ
event_of none = none
event_of (some (pos n)) = some (pos n)
event_of (some (negsuc n)) = none

unfoldable pub cursor_number : Option (List ℕ) → Option ℤ
unfolding parse_int event_of
cursor_number none = none
cursor_number (some s) = event_of (parse_int i64_bound s)

unfoldable pub decode_cursor : Option (List ℕ) → Result HttpError ℤ
unfolding cursor_number strip_codes bad_request
decode_cursor none = ok (pos 0)
decode_cursor (some []) = ok (pos 0)
decode_cursor (some (c ∷ s)) =
    ok_or (cursor_number (strip_codes cursor_prefix (c ∷ s))) (bad_request invalid_cursor)

-- A target is an item of the catalogue.
unfoldable pub is_listed_target : List TriageItem → Option String → Bool
unfolding any
is_listed_target catalog none = true
is_listed_target catalog (some target) = any (λ item. str_eq item.id target) catalog

unfoldable pub targets_listed : List TriageItem → List TriageRevision → Bool
unfolding is_listed_target
targets_listed catalog [] = true
targets_listed catalog (r ∷ rs) = is_listed_target catalog r.target && targets_listed catalog rs

-- `filter_map(|item| item.latest_revision.as_ref())`
unfoldable pub latest_revisions : List TriageItem → List TriageRevision
latest_revisions [] = []
latest_revisions (item ∷ items) =
    let rest = latest_revisions items in
    elim item.latest_revision [ none ↦ rest | some r ↦ r ∷ rest ]

unfoldable pub validate_export_targets : QueueDetail → List TriageRevision → Result HttpError Unit
unfolding targets_listed latest_revisions http_error
validate_export_targets d revisions =
    ensure (targets_listed d.catalog (revisions ++ latest_revisions d.catalog)) (http_error corrupt)

-- `query.limit.unwrap_or(DEFAULT_EXPORT_LIMIT)`
unfoldable pub export_limit : Option ℕ → ℕ
export_limit none = 100
export_limit (some limit) = limit

unfoldable pub export_reply :
    String → Result String ExportQuery → Tables → Result HttpError ExportResponse
unfolding json_payload decode_cursor get_detail not_found list_revisions export_limit from_store
    validate_export_targets catalog_item encode_cursor
export_reply queue query t = json_payload query >>= λ q. decode_cursor q.since >>= λ after_event_id.
    ok_or (get_detail queue t) (not_found (no_such_queue queue)) >>= λ d.
    from_store (list_revisions d.queue.id after_event_id (export_limit q.limit) t) >>= λ page.
    validate_export_targets d page.items
    >> ok record {
      queue = d.queue;
      catalog = map catalog_item d.catalog;
      items = page.items;
      next_cursor = encode_cursor page.next_event_id;
    }

unfoldable pub get_queue_reply : String → Tables → Result HttpError QueueDetailResponse
unfolding get_detail not_found detail_response
get_queue_reply queue t =
    ok_or (get_detail queue t) (not_found (no_such_queue queue)) >>= λ d. ok (detail_response d)

unfoldable pub list_queues_reply : Tables → Result HttpError (List TriageQueue)
unfolding list_queues
list_queues_reply t = ok (list_queues t)

unfoldable pub close_queue_reply : String → DateTime → Tables → Reply TriageQueue
unfolding close_queue from_store
close_queue_reply queue now t = from_store (close_queue queue now t)

unfoldable pub reopen_queue_reply : String → DateTime → Tables → Reply TriageQueue
unfolding reopen_queue from_store
reopen_queue_reply queue now t = from_store (reopen_queue queue now t)

unfoldable pub decision_reply :
    String → String → Result String DecisionPatch → DateTime → Tables → Reply TriageRevision
unfolding json_payload record_decision from_store
decision_reply queue item payload now t =
    json_payload payload >>= λ patch. from_store (record_decision queue item patch now t)

module _ (sha256_hex : String → String) where
  -- The reply has the status 201.
  unfoldable pub create_queue_reply :
      Result String CreateQueue → (nanoid : String) → DateTime → Tables → Reply (ℕ × TriageQueue)
  unfolding json_payload create_queue from_store
  create_queue_reply payload nanoid now t = json_payload payload >>= λ request.
      from_store (create_queue sha256_hex request nanoid now t) >>= λ answer.
      ok (answer.0, (201, answer.1))

  unfoldable pub refresh_queue_reply :
      String → Result String RefreshRequest → DateTime → Tables → Reply RefreshStats
  unfolding json_payload refresh_queue from_store
  refresh_queue_reply queue payload now t = json_payload payload >>= λ request.
      from_store (refresh_queue sha256_hex queue request.items now t)

  unfoldable pub attach_item_reply :
      String → String → Result String AttachRequest → DateTime → Tables → Reply CatalogItem
  unfolding json_payload attach_item from_store catalog_item
  attach_item_reply queue item payload now t = json_payload payload >>= λ request.
      from_store (
        attach_item sha256_hex queue item
          record { id = item; markdown = request.markdown; path = some request.path; source = none }
          now t)
      >>= λ answer. ok (answer.0, catalog_item answer.1)
