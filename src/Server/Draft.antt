-- ===== src/Server/Draft.antt =====
-- src/handlers.rs: the notification that `ask` makes of a request. The AI router is a parameter
-- (`none` where none is configured); the generated id and the time come in.
use Prim.Native.String.{◌++◌ as append}
use sjbis.Prelude.{
  ℕ, ◌-◌, String, Bool, Option, none, some, List, ℤ, Result, ok, ◌>>=◌, ok_or, if◌then◌else◌,
  str_eq, ltb, leb, ◌&&◌, strip_prefix,
}
use sjbis.Models.Enums.{QuestionType, ack, approval, from_str, open_}
use sjbis.Models.Data.{
  DateTime, F64, Notification, AskRequest, RouterResult, ReplyTo, stdout, webhook, file, exit_code,
}
use sjbis.Models.Resolve.{resolve_ttl_secs, resolve_once}
use sjbis.Store.Db.{Db}
use sjbis.Store.Notifications.{get_notification_by_caller_id, list_open_notifications}

-- `Router::classify`: the question, the agent's name, the urgency and the open notifications.
abbrev pub Router : Type 0
Router = String → String → ℤ → List Notification → RouterResult

-- 24 hours, in nanoseconds.
abbrev pub day : ℕ
day = 86400000000000

unfoldable pub existing_ask : Option String → DateTime → Db → Option Notification
existing_ask none now db = none
existing_ask (some caller) now db = get_notification_by_caller_id caller (now - day) db

-- The guess of the router; an approval, or a text that is no type, is dropped.
guessed : Option QuestionType → QuestionType → QuestionType
guessed none t = t
guessed (some approval) t = t
guessed (some s) t = s

suggestion : Option String → QuestionType → QuestionType
unfolding guessed
suggestion none t = t
suggestion (some s) t = guessed (from_str s) t

type_by_router : Option RouterResult → QuestionType → QuestionType
unfolding suggestion
type_by_router none t = t
type_by_router (some r) t = suggestion r.renderer_suggested t

-- The router is asked only where the request names no type.
unfoldable pub classified : Option Router → AskRequest → DateTime → Db → Option RouterResult
classified none req now db = none
classified (some router) req now db = elim req.question_type [
  | some t ↦ none
  | none ↦ some (router req.question req.agent_name req.urgency (list_open_notifications now db))
]

unfoldable pub ask_type : Option QuestionType → Option RouterResult → QuestionType
unfolding type_by_router
ask_type none routed = type_by_router routed ack
ask_type (some t) routed = type_by_router routed t

-- `confidence > 0.7` on the bits of a double: above those of 0.7, no NaN, no sign.
unfoldable pub is_confident : F64 → Bool
is_confident c = ltb 0x3FE6666666666666 c && leb c 0x7FF0000000000000

confident_urgency : Option ℤ → Option F64 → ℤ → ℤ
unfolding is_confident
confident_urgency (some u) (some c) urgency = if is_confident c then u else urgency
confident_urgency _ _ urgency = urgency

unfoldable pub ask_urgency : Option RouterResult → ℤ → ℤ
unfolding confident_urgency
ask_urgency none urgency = urgency
ask_urgency (some r) urgency = confident_urgency r.urgency_predicted r.confidence urgency

other_target : String → ReplyTo
other_target s = if str_eq s "exit-code" then exit_code else stdout

file_target : Option String → String → ReplyTo
unfolding other_target
file_target (some path) s = file path
file_target none s = other_target s

webhook_target : Option String → String → ReplyTo
unfolding file_target
webhook_target (some url) s = webhook url
webhook_target none s = file_target (strip_prefix "file:" s) s

unfoldable pub parse_reply_to : Option String → ReplyTo
unfolding webhook_target
parse_reply_to none = stdout
parse_reply_to (some s) = webhook_target (strip_prefix "webhook:" s) s

-- The `ttl_secs` and `once` of the ask, or the status and text of the refusal.
unfoldable pub ask_limits : QuestionType → AskRequest → Result (ℕ × String) (Option ℤ × Option Bool)
ask_limits t req = do
  ttl ← ok_or (resolve_ttl_secs t req.ttl_secs) (400, "ttl_secs must be > 0")
  once ← ok_or (resolve_once t req.once) (422, "once_requires_approval")
  ok (ttl, once)

sender_of : AskRequest → String
sender_of req = elim req.instance_ [
  | none ↦ req.agent_name
  | some i ↦ append req.agent_name (append " · " i)
]

unfoldable pub build :
    AskRequest
    → String
    → DateTime
    → QuestionType
    → Option RouterResult
    → Option DateTime
    → Option ℤ × Option Bool
    → Notification
unfolding sender_of parse_reply_to ask_urgency
build req id now t routed deadline (ttl, once) = record {
  id = id;
  agent_name = req.agent_name;
  instance_ = req.instance_;
  sender = req.agent_name;
  src = sender_of req;
  question = req.question;
  detail = req.detail;
  detail_markdown = req.detail_markdown;
  question_type = t;
  urgency = ask_urgency routed req.urgency;
  blocking = req.blocking;
  deadline = deadline;
  reply_to = parse_reply_to req.reply_to;
  status = open_;
  created_at = now;
  answered_at = none;
  answer = none;
  answer_label = none;
  choices = req.choices;
  yes_label = req.yes_label;
  no_label = req.no_label;
  placeholder = req.placeholder;
  suggestions = req.suggestions;
  min = req.min;
  max = req.max;
  step = req.step;
  default_value = req.default_value;
  unit = req.unit;
  accept = req.accept;
  diff = req.diff;
  ack_label = req.ack_label;
  items = req.items;
  slots = req.slots;
  mute_key = req.mute_key;
  caller_id = req.id;
  snooze_until = none;
  note = none;
  sub_questions = req.sub_questions;
  ttl_secs = ttl;
  renews = req.renews;
  once = once;
}
