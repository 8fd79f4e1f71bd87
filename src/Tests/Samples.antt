-- ===== src/Tests/Samples.antt =====
-- A clock, and the notifications, rules and tables that the runs start from.
use sjbis.Prelude.{
  ℕ, ◌+◌, ◌-◌, ◌*◌, ◌/◌, suc, String, none, some, [], ◌∷◌, ℤ, pos, negsuc, true, false,
}
use sjbis.Json.{Json, field, end}
use sjbis.Models.Enums.{QuestionType, NotificationStatus, ack, approval, open_}
use sjbis.Models.Data.{DateTime, Notification, Rule, Agent, AskRequest, AnswerRequest, stdout}
use sjbis.Models.Duration.{Chrono}
use sjbis.Store.Db.{Db, Row, empty}
use sjbis.Server.App.{App, Clock}

abbrev scale : ℕ → ℤ → ℤ
scale k (pos n) = pos (n * k)
scale k (negsuc n) = negsuc (n * k + (k - 1))

abbrev shift : DateTime → ℤ → DateTime
shift t (pos n) = t + n
shift t (negsuc n) = t - suc n

-- A clock whose range has no end, and whose texts are never RFC 3339.
abbrev pub clock : Chrono
clock = record {
  seconds = λ z. some (scale 1000000000 z);
  minutes = λ z. some (scale 60000000000 z);
  hours = λ z. some (scale 3600000000000 z);
  days = λ z. some (scale 86400000000000 z);
  milliseconds = λ z. some (scale 1000000 z);
  parse_rfc3339 = λ s. none;
  add = λ t d. some (shift t d);
  millis_since = λ t s. pos ((t - s) / 1000000);
  to_lowercase = λ s. s;
  seconds_since = λ t s. pos ((t - s) / 1000000000);
}

abbrev pub ask_of : String → QuestionType → NotificationStatus → Notification
ask_of id t s = record {
  id = id;
  agent_name = "deploybot";
  instance_ = none;
  sender = "deploybot";
  src = "deploybot";
  question = "Deploy?";
  detail = none;
  detail_markdown = none;
  question_type = t;
  urgency = pos 2;
  blocking = true;
  deadline = none;
  reply_to = stdout;
  status = s;
  created_at = 1000000000;
  answered_at = none;
  answer = none;
  answer_label = none;
  choices = none;
  yes_label = none;
  no_label = none;
  placeholder = none;
  suggestions = none;
  min = none;
  max = none;
  step = none;
  default_value = none;
  unit = none;
  accept = none;
  diff = none;
  ack_label = none;
  items = none;
  slots = none;
  mute_key = none;
  caller_id = none;
  snooze_until = none;
  note = none;
  sub_questions = none;
  ttl_secs = none;
  renews = none;
  once = none;
}

-- An open approval ask and an open plain one.
abbrev pub deploy : Notification
deploy = ask_of "sjbis-1" approval open_

abbrev pub notice : Notification
notice = ask_of "sjbis-2" ack open_

abbrev pub row_of : Notification → String → Row
row_of n text = record { columns = n; status = text }

abbrev pub two_asks : Db
two_asks = record empty { notifications = row_of deploy "open" ∷ row_of notice "open" ∷ [] }

abbrev pub mute_all : Json
mute_all = Json.obj (field "action" (Json.str "mute") end)

abbrev pub rule_of : String → Json → ℤ → Rule
rule_of id compiled priority = record {
  id = id;
  text = "";
  compiled = some compiled;
  active = true;
  scope = none;
  urgency_min = pos 0;
  mute = false;
  priority = priority;
  expires_at = none;
  active_window = none;
  created_at = 0;
}

-- A handler's clock at 9, and the statement's at 1009.
abbrev pub nine : Clock
nine = record { handler = 9; database = 1009 }

abbrev pub waiting_app : App
waiting_app = record {
  db = two_asks;
  waiters = record { id = "sjbis-2"; channel = 7 } ∷ [];
  apns = true;
  out = [];
}

-- A request for a plain acknowledgement, and a rule that answers everything with "yes".
abbrev pub ack_request : AskRequest
ack_request = record {
  question = "Done?";
  agent_name = "deploybot";
  instance_ = none;
  detail = none;
  detail_markdown = none;
  urgency = pos 2;
  blocking = false;
  deadline = none;
  reply_to = none;
  id = none;
  question_type = some ack;
  choices = none;
  yes_label = none;
  no_label = none;
  placeholder = none;
  suggestions = none;
  min = none;
  max = none;
  step = none;
  default_value = none;
  unit = none;
  accept = none;
  diff = none;
  ack_label = none;
  items = none;
  slots = none;
  mute_key = none;
  privacy = none;
  sub_questions = none;
  ttl_secs = none;
  renews = none;
  once = none;
}

abbrev pub yes_rule : Rule
yes_rule = rule_of "rule-3" (Json.obj (field "action" (Json.str "auto_answer:yes") end)) (pos 10)

abbrev pub deploybot : Agent
deploybot = record { name = "deploybot"; glyph = "◐"; color = "green"; kind = "unknown" }

abbrev pub ruled_app : App
ruled_app = record waiting_app {
  db = record two_asks { rules = yes_rule ∷ []; agents = deploybot ∷ [] };
}

abbrev pub yes_answer : AnswerRequest
yes_answer = record { answer = "yes"; via = none; note = none }
