-- ===== src/Models/Data.antt =====
-- src/models.rs: the structs of the wire and the database. A `DateTime<Utc>` is its number of
-- nanoseconds since chrono's earliest instant, an `f64` its bit pattern (the source only moves
-- it), an `i32` or `i64` an integer in range.
use sjbis.Prelude.{ℕ, ◌-◌, ◌%◌, String, Bool, Option, List, ℤ}
use sjbis.Json.{Json}
use sjbis.Models.Enums.{QuestionType, NotificationStatus}

abbrev pub DateTime : Type 0
DateTime = ℕ

-- What a TIMESTAMPTZ column keeps of a time: its microseconds.
unfoldable pub microseconds : DateTime → DateTime
microseconds t = t - t % 1000

abbrev pub F64 : Type 0
F64 = ℕ

pub record Choice : Type 0 where
  pub value : String
  pub label : String
  pub hint : Option String

pub record SubQuestion : Type 0 where
  pub key : String
  pub question : String
  pub shape : String
  pub detail : Option String
  pub choices : Option (List Choice)
  pub min : Option F64
  pub max : Option F64
  pub step : Option F64
  pub unit : Option String
  pub default_value : Option F64
  pub ack_label : Option String

pub record Slot : Type 0 where
  pub day : String
  pub time : String
  pub disabled : Bool
  pub reason : Option String

pub record DiffLine : Type 0 where
  pub kind : String
  pub text : String

pub record PickItem : Type 0 where
  pub id : String
  pub title : String
  pub meta : String

pub data ReplyTo : Type 0 where
  stdout : ReplyTo
  webhook : String → ReplyTo
  file : String → ReplyTo
  exit_code : ReplyTo

pub record Notification : Type 0 where
  pub id : String
  pub agent_name : String
  pub instance_ : Option String
  pub sender : String
  pub src : String
  pub question : String
  pub detail : Option String
  pub detail_markdown : Option String
  pub question_type : QuestionType
  pub urgency : ℤ
  pub blocking : Bool
  pub deadline : Option DateTime
  pub reply_to : ReplyTo
  pub status : NotificationStatus
  pub created_at : DateTime
  pub answered_at : Option DateTime
  pub answer : Option String
  pub answer_label : Option String
  pub choices : Option (List Choice)
  pub yes_label : Option String
  pub no_label : Option String
  pub placeholder : Option String
  pub suggestions : Option (List String)
  pub min : Option F64
  pub max : Option F64
  pub step : Option F64
  pub default_value : Option F64
  pub unit : Option String
  pub accept : Option String
  pub diff : Option (List DiffLine)
  pub ack_label : Option String
  pub items : Option (List PickItem)
  pub slots : Option (List Slot)
  pub mute_key : Option String
  pub caller_id : Option String
  pub snooze_until : Option DateTime
  pub note : Option String
  pub sub_questions : Option (List SubQuestion)
  pub ttl_secs : Option ℤ
  pub renews : Option String
  pub once : Option Bool

pub record AnswerEnvelope : Type 0 where
  pub id : String
  pub answer : Option String
  pub answer_label : Option String
  pub answered_at : Option DateTime
  pub latency_ms : Option ℤ
  pub renderer : String
  pub src : String
  pub via : String
  pub note : Option String
  pub grant : Option Json
  pub once : Option Bool

pub record ActiveWindow : Type 0 where
  pub start : String
  pub end : String
  pub tz : String

pub record Rule : Type 0 where
  pub id : String
  pub text : String
  pub compiled : Option Json
  pub active : Bool
  pub scope : Option String
  pub urgency_min : ℤ
  pub mute : Bool
  pub priority : ℤ
  pub expires_at : Option DateTime
  pub active_window : Option ActiveWindow
  pub created_at : DateTime

pub record Agent : Type 0 where
  pub name : String
  pub glyph : String
  pub color : String
  pub kind : String

pub record AskRequest : Type 0 where
  pub question : String
  pub agent_name : String
  pub instance_ : Option String
  pub detail : Option String
  pub detail_markdown : Option String
  pub urgency : ℤ
  pub blocking : Bool
  pub deadline : Option String
  pub reply_to : Option String
  pub id : Option String
  pub question_type : Option QuestionType
  pub choices : Option (List Choice)
  pub yes_label : Option String
  pub no_label : Option String
  pub placeholder : Option String
  pub suggestions : Option (List String)
  pub min : Option F64
  pub max : Option F64
  pub step : Option F64
  pub default_value : Option F64
  pub unit : Option String
  pub accept : Option String
  pub diff : Option (List DiffLine)
  pub ack_label : Option String
  pub items : Option (List PickItem)
  pub slots : Option (List Slot)
  pub mute_key : Option String
  pub privacy : Option String
  pub sub_questions : Option (List SubQuestion)
  pub ttl_secs : Option ℤ
  pub renews : Option String
  pub once : Option Bool

pub record AnswerRequest : Type 0 where
  pub answer : String
  pub via : Option String
  pub note : Option String

pub record RouterResult : Type 0 where
  pub urgency_predicted : Option ℤ
  pub renderer_suggested : Option String
  pub looks_like_id : Option String
  pub confidence : Option F64
  pub renderer_guessed : Bool

pub data SseEvent : Type 0 where
  notification_created : Notification → SseEvent
  notification_updated : Notification → SseEvent
  notification_answered : AnswerEnvelope → SseEvent
  notification_cancelled : String → SseEvent
  notification_dismissed : String → AnswerEnvelope → SseEvent
  rule_created : Rule → SseEvent
  rule_updated : Rule → SseEvent
  rule_deleted : String → SseEvent
