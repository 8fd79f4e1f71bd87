-- ===== src/Models/Enums.antt =====
-- src/models.rs: `QuestionType` with its text forms, and `NotificationStatus` with the text that
-- `format!("{:?}", status).to_lowercase()` writes and the one that `row_to_notification` reads.
pub mod Texts
use sjbis.Prelude.{
  String, ◌≡◌, refl, Bool, true, false, Option, none, some, if◌then◌else◌, str_eq, eq_iff, arith,
}

pub data QuestionType : Type 0 where
  yes_no multichoice free_text numeric file diff ack pick_list schedule form approval : QuestionType

-- `impl Display for QuestionType`
unfoldable pub to_string : QuestionType → String
to_string yes_no = "yesno"
to_string multichoice = "multichoice"
to_string free_text = "freetext"
to_string numeric = "numeric"
to_string file = "file"
to_string diff = "diff"
to_string ack = "ack"
to_string pick_list = "picklist"
to_string schedule = "schedule"
to_string form = "form"
to_string approval = "approval"

-- `impl FromStr for QuestionType`; `none` is the error.
unfoldable pub from_str : String → Option QuestionType
from_str s =
    if str_eq s "yesno"
    then some yes_no
    else if str_eq s "multichoice"
    then some multichoice
    else if str_eq s "freetext"
    then some free_text
    else if str_eq s "numeric"
    then some numeric
    else if str_eq s "file"
    then some file
    else if str_eq s "diff"
    then some diff
    else if str_eq s "ack"
    then some ack
    else if str_eq s "picklist"
    then some pick_list
    else if str_eq s "schedule"
    then some schedule
    else if str_eq s "form"
    then some form
    else if str_eq s "approval"
    then some approval
    else none

-- `*question_type == QuestionType::Approval`
unfoldable pub is_approval : QuestionType → Bool
is_approval approval = true
is_approval _ = false

pub data NotificationStatus : Type 0 where
  open_ answered cancelled muted timed_out dismissed : NotificationStatus

-- `format!("{:?}", status).to_lowercase()`
unfoldable pub debug_lower : NotificationStatus → String
debug_lower open_ = "open"
debug_lower answered = "answered"
debug_lower cancelled = "cancelled"
debug_lower muted = "muted"
debug_lower timed_out = "timedout"
debug_lower dismissed = "dismissed"

-- The `match status_str.as_str()` of `row_to_notification`.
unfoldable pub status_of_text : String → NotificationStatus
status_of_text s =
    if str_eq s "answered"
    then answered
    else if str_eq s "cancelled"
    then cancelled
    else if str_eq s "muted"
    then muted
    else if str_eq s "timed_out"
    then timed_out
    else if str_eq s "dismissed"
    then dismissed
    else open_

unfoldable pub is_open : NotificationStatus → Bool
is_open open_ = true
is_open _ = false

unfoldable pub is_answered : NotificationStatus → Bool
is_answered answered = true
is_answered _ = false

unfoldable pub is_muted : NotificationStatus → Bool
is_muted muted = true
is_muted _ = false
