-- ===== src/Triage/Data.antt =====
-- src/triage/models.rs: the enums of the review queues with their column texts, and the structs. An
-- `i64` that the store only counts with is a natural number.
pub mod Texts
use sjbis.Prelude.{
  ℕ, String, Bool, true, false, Option, none, some, List, [], if◌then◌else◌, str_eq,
}
use sjbis.Json.{Json}
use sjbis.Models.Data.{DateTime}

pub data SourceSpec : Type 0 where
  glob : List String → SourceSpec
  json_list : String → SourceSpec

pub data SourceKind : Type 0 where
  path_kind inline_kind : SourceKind

-- `SourceKind::as_str`, and its `FromStr`, whose error is `none`; so too for the other enums.
unfoldable pub kind_text : SourceKind → String
kind_text path_kind = "path"
kind_text inline_kind = "inline"

unfoldable pub parse_kind : String → Option SourceKind
parse_kind s =
    if str_eq s "path" then some path_kind else if str_eq s "inline" then some inline_kind else none

pub data QueueStatus : Type 0 where
  open_queue closed_queue : QueueStatus

unfoldable pub queue_status_text : QueueStatus → String
queue_status_text open_queue = "open"
queue_status_text closed_queue = "closed"

unfoldable pub parse_queue_status : String → Option QueueStatus
parse_queue_status s =
    if str_eq s "open"
    then some open_queue
    else if str_eq s "closed"
    then some closed_queue
    else none

pub data FreshnessState : Type 0 where
  current missing content_changed ambiguous : FreshnessState

unfoldable pub freshness_text : FreshnessState → String
freshness_text current = "current"
freshness_text missing = "missing"
freshness_text content_changed = "content_changed"
freshness_text ambiguous = "ambiguous"

unfoldable pub parse_freshness : String → Option FreshnessState
parse_freshness s =
    if str_eq s "current"
    then some current
    else if str_eq s "missing"
    then some missing
    else if str_eq s "content_changed"
    then some content_changed
    else if str_eq s "ambiguous"
    then some ambiguous
    else none

-- `state == FreshnessState::Current`
unfoldable pub is_current : FreshnessState → Bool
is_current current = true
is_current _ = false

pub data TriageVerdict : Type 0 where
  schedule delete needs_replan merge_into leave_captured : TriageVerdict

unfoldable pub verdict_text : TriageVerdict → String
verdict_text schedule = "schedule"
verdict_text delete = "delete"
verdict_text needs_replan = "needs_replan"
verdict_text merge_into = "merge_into"
verdict_text leave_captured = "leave_captured"

unfoldable pub parse_verdict : String → Option TriageVerdict
parse_verdict s =
    if str_eq s "schedule"
    then some schedule
    else if str_eq s "delete"
    then some delete
    else if str_eq s "needs_replan"
    then some needs_replan
    else if str_eq s "merge_into"
    then some merge_into
    else if str_eq s "leave_captured"
    then some leave_captured
    else none

pub record Observation : Type 0 where
  pub id : String
  pub markdown : String
  pub path : Option String
  pub source : Option Json

unfoldable pub kind_of_path : Option String → SourceKind
kind_of_path none = inline_kind
kind_of_path (some p) = path_kind

-- `Observation::source_kind`
unfoldable pub observed_kind : Observation → SourceKind
unfolding kind_of_path
observed_kind o = kind_of_path o.path

unfoldable pub same_kind : SourceKind → SourceKind → Bool
same_kind path_kind path_kind = true
same_kind inline_kind inline_kind = true
same_kind path_kind inline_kind = false
same_kind inline_kind path_kind = false

pub record CreateQueue : Type 0 where
  pub name : String
  pub root : String
  pub strip_suffix : String
  pub source_spec : SourceSpec
  pub items : List Observation

pub record Freshness : Type 0 where
  pub state : FreshnessState
  pub reason : Option String
  pub candidate_paths : List String

-- `Freshness::current()`
abbrev pub current_freshness : Freshness
current_freshness = record { state = current; reason = none; candidate_paths = [] }

pub record QueueCounts : Type 0 where
  pub total : ℕ
  pub decided : ℕ
  pub stale : ℕ
  pub ambiguous_items : ℕ

pub record TriageQueue : Type 0 where
  pub id : String
  pub name : String
  pub root : String
  pub strip_suffix : String
  pub source_spec : SourceSpec
  pub status : QueueStatus
  pub complete : Bool
  pub created_at : DateTime
  pub updated_at : DateTime
  pub closed_at : Option DateTime
  pub counts : QueueCounts

pub record TriageRevision : Type 0 where
  pub event_id : ℕ
  pub queue_id : String
  pub item_id : String
  pub revision : ℕ
  pub verdict : Option TriageVerdict
  pub target : Option String
  pub content_sha256 : String
  pub decided_at : DateTime

pub record TriageItem : Type 0 where
  pub queue_id : String
  pub id : String
  pub source_kind : SourceKind
  pub path : Option String
  pub source : Option Json
  pub markdown : String
  pub content_sha256 : String
  pub captured_at : DateTime
  pub freshness : Freshness
  pub latest_revision : Option TriageRevision

-- A field of a patch: left out, `null`, or a value.
pub data PatchField (A : Type 0) : Type 0 where
  missing_field null_field : PatchField A
  value_field : A → PatchField A

-- `PatchField::deserialize` of a field that is present.
unfoldable pub patch_of : {A : Type 0} → Option A → PatchField A
patch_of none = null_field
patch_of (some a) = value_field a

pub record DecisionPatch : Type 0 where
  pub verdict : PatchField TriageVerdict
  pub target : PatchField String

pub record QueueDetail : Type 0 where
  pub queue : TriageQueue
  pub catalog : List TriageItem

pub record RevisionPage : Type 0 where
  pub items : List TriageRevision
  pub next_event_id : ℕ

pub record RefreshStats : Type 0 where
  pub current_count : ℕ
  pub missing_count : ℕ
  pub changed_count : ℕ
  pub ambiguous_count : ℕ
  pub added : ℕ
  pub moved : ℕ
  pub inline_replaced : ℕ
