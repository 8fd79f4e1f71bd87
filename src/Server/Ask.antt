-- ===== src/Server/Ask.antt =====
-- src/handlers.rs: `ask`. The id that nanoid generates and the time come in.
pub mod Stored
pub mod Guards
pub mod Unstored
use sjbis.Prelude.{
  ℕ, String, Bool, Option, none, some, ℤ, pos, Result, ok, err, if◌then◌else◌, leb_ℤ, List, [], ◌∷◌,
  ◌-◌, ◌==◌, ◌||◌, ◌&&◌, not, leb, ltb, codes, true, false,
}
use sjbis.Models.Enums.{answered, is_muted, to_string, QuestionType}
use sjbis.Models.Data.{
  DateTime, Notification, AnswerEnvelope, AskRequest, RouterResult, notification_created,
  notification_answered,
}
use sjbis.Models.Duration.{Chrono, Outcome, done, failed, panicked, parse_deadline, len_utf8}
use sjbis.Rules.Evaluate.{Verdict, evaluate}
use sjbis.Store.Db.{Db}
use sjbis.Store.Notifications.{insert_notification, answer_notification}
use sjbis.Store.Registers.{get_or_create_agent, list_rules}
use sjbis.Server.App.{
  App, Response, reply, refuse, crash, broadcast, push_created, send_push, emit, with_db,
}
use sjbis.Server.Draft.{Router, existing_ask, classified, ask_type, ask_limits, build}

is_nil {ℓ} : {A : Type ℓ} → List A → Bool
is_nil [] = true
is_nil (x ∷ xs) = false

rule_envelope : Notification → String → DateTime → AnswerEnvelope
rule_envelope n answer now = record {
  id = n.id;
  answer = some answer;
  answer_label = some answer;
  answered_at = some now;
  latency_ms = some (pos 0);
  renderer = to_string n.question_type;
  src = n.src;
  via = "rule_auto_answer";
  note = none;
  grant = none;
  once = n.once;
}

-- The statement reads the clock a moment after the handler; here the two times are the same.
auto_answered : Notification → String → DateTime → App → App × Response Notification
unfolding rule_envelope
auto_answered n answer now app =
    let stored = with_db (answer_notification n.id answer (some answer) none now app.db) app in
    let shown : Notification = record n {
      status = answered;
      answer = some answer;
      answered_at = some now;
    } in
    (emit (broadcast (notification_answered (rule_envelope shown answer now))) stored, reply shown)

-- `str::is_char_boundary` of the text of these characters, at byte `n`.
unfoldable pub is_char_boundary : ℕ → List ℕ → Bool
unfolding len_utf8
is_char_boundary n [] = n == 0
is_char_boundary n (c ∷ s) =
    let w = len_utf8 (c ∷ []) in
    let rest = is_char_boundary (n - w) s in n == 0 || (leb w n && rest)

-- `&notif.question[..100]` of a question above 100 bytes panics inside a character.
unfoldable pub cut_panics : List ℕ → Bool
unfolding is_char_boundary
cut_panics question = ltb 100 (len_utf8 question) && not (is_char_boundary 100 question)

-- `send_push_notifications`; the alert is built where there are devices and an APNs client.
unfoldable pub send_push_notifications : Notification → App → App × Response Notification
unfolding cut_panics is_nil
send_push_notifications n app =
    if is_nil app.db.device_tokens || not app.apns
    then (app, reply n)
    else if cut_panics (codes n.question)
    then (app, crash)
    else (emit (send_push n) app, reply n)

unfoldable pub announced : Notification → App → App × Response Notification
unfolding send_push_notifications
announced n app =
    let told = emit (push_created n) (emit (broadcast (notification_created n)) app) in
    if leb_ℤ (pos 2) n.urgency then send_push_notifications n told else (told, reply n)

-- A muted ask is stored without a word.
stored_reply : Option Db → Notification → App → App × Response Notification
unfolding announced
stored_reply none n app = (app, refuse 500 "duplicate key")
stored_reply (some db) n app =
    if is_muted n.status then (with_db db app, reply n) else announced n (with_db db app)

decided : Option String → Notification → DateTime → App → App × Response Notification
unfolding auto_answered stored_reply
decided (some answer) n now app = auto_answered n answer now app
decided none n now app = stored_reply (insert_notification n app.db) n app

ruled : Outcome Verdict → DateTime → App → App × Response Notification
unfolding decided
ruled (done v) now app = decided v.auto_answer v.notif now app
ruled failed now app = (app, crash)
ruled panicked now app = (app, crash)

module _ (chrono : Chrono) where
  -- `req.deadline.as_ref().and_then(|d| parse_deadline(d).ok())`; the outer `none` is a panic.
  deadline_read : Outcome DateTime → Option (Option DateTime)
  deadline_read (done d) = some (some d)
  deadline_read failed = some none
  deadline_read panicked = none

  unfoldable pub ask_deadline : Option String → DateTime → Option (Option DateTime)
  unfolding deadline_read
  ask_deadline none now = some none
  ask_deadline (some text) now = deadline_read (parse_deadline chrono now text)

  drafted :
      Option (Option DateTime)
      → AskRequest
      → String
      → DateTime
      → QuestionType
      → Option RouterResult
      → Option ℤ × Option Bool
      → App
      → App × Response Notification
  unfolding ruled
  drafted none req id now t routed limits app = (app, crash)
  drafted (some deadline) req id now t routed limits app =
      ruled (evaluate chrono now (list_rules app.db) (build req id now t routed deadline limits))
        now app

  limited :
      Result (ℕ × String) (Option ℤ × Option Bool)
      → AskRequest
      → String
      → DateTime
      → QuestionType
      → Option RouterResult
      → App
      → App × Response Notification
  unfolding drafted ask_deadline
  limited (err (status, text)) req id now t routed app = (app, refuse status text)
  limited (ok limits) req id now t routed app =
      drafted (ask_deadline req.deadline now) req id now t routed limits app

  -- The ask of an agent that is now known.
  unfoldable pub ask_new :
      Option Router → AskRequest → String → DateTime → App → App × Response Notification
  unfolding limited
  ask_new router req id now app =
      let routed = classified router req now app.db in
      let t = ask_type req.question_type routed in
      limited (ask_limits t req) req id now t routed app

  ask_known :
      Option Notification
      → Option Router
      → AskRequest
      → String
      → DateTime
      → App
      → App × Response Notification
  unfolding ask_new
  ask_known (some n) router req id now app = (app, reply n)
  ask_known none router req id now app =
      ask_new router req id now (with_db (get_or_create_agent req.agent_name app.db).0 app)

  -- POST /ask
  unfoldable pub ask :
      Option Router → AskRequest → String → DateTime → App → App × Response Notification
  unfolding ask_known existing_ask
  ask router req id now app = ask_known (existing_ask req.id now app.db) router req id now app
