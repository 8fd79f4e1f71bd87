-- ===== src/Server/Close.antt =====
-- src/handlers.rs: the handlers that end or postpone an open ask: `answer`, `cancel`, `dismiss`
-- and `snooze`.
pub mod Outcome
pub mod Guards
use Prim.Native.String.{◌++◌ as append}
use sjbis.Prelude.{String, Bool, false, Option, none, some, ℤ, not, if◌then◌else◌, ltb}
use sjbis.Models.Enums.{is_open, is_answered, is_approval, cancelled, to_string}
use sjbis.Models.Data.{
  DateTime, Notification, AnswerEnvelope, AnswerRequest, notification_answered,
  notification_cancelled, notification_dismissed, notification_updated,
}
use sjbis.Models.Duration.{Chrono}
use sjbis.Store.Db.{Db}
use sjbis.Store.Notifications.{
  get_notification, answer_notification, update_status, dismiss_notification, snooze_notification,
}
use sjbis.Server.App.{
  App, Clock, broadcast, push_closed, deliver, Response, reply, refuse, crash, emit, wake_waiter,
  with_db,
}

abbrev pub approval_plain_answer_error : String
approval_plain_answer_error = "approval asks can only be answered by a signed grant"

-- `none` where a plain answer is allowed, else the text of the 409.
unfoldable pub check_plain_answer_allowed : Notification → Option String
unfolding is_open is_approval
check_plain_answer_allowed n =
    if not (is_open n.status)
    then some "notification already answered or cancelled"
    else if is_approval n.question_type
    then some approval_plain_answer_error
    else none

-- `a.or(b)`
abbrev pub or_else : Option String → Option String → Option String
or_else none b = b
or_else (some a) b = some a

abbrev pub or_default : Option String → String → String
or_default none d = d
or_default (some s) d = s

abbrev pub or_notif : Option Notification → Notification → Notification
or_notif none n = n
or_notif (some m) n = m

module _ (chrono : Chrono) where
  -- `answer` after its checks, on the notification that it read.
  unfoldable pub answer_write :
      String → AnswerRequest → Clock → Notification → App → App × Response AnswerEnvelope
  answer_write id req now notif app =
      let db =
        answer_notification id req.answer (or_else req.via (some req.answer)) req.note now.database
          app.db in
      let updated = or_notif (get_notification id db) notif in
      let envelope : AnswerEnvelope = record {
        id = id;
        answer = some req.answer;
        answer_label = updated.answer_label;
        answered_at = some now.handler;
        latency_ms = some (chrono.millis_since now.handler notif.created_at);
        renderer = to_string updated.question_type;
        src = updated.src;
        via = or_default req.via "dashboard";
        note = updated.note;
        grant = none;
        once = updated.once;
      } in
      let woken = wake_waiter id envelope (with_db db app) in
      let what =
        append "answered: " (or_default (or_else envelope.answer_label envelope.answer) "") in
      let told =
        emit (push_closed id updated.agent_name what)
          (emit (broadcast (notification_answered envelope)) woken) in
      (emit (deliver updated envelope) told, reply envelope)

  answer_checked :
      Option String
      → String
      → AnswerRequest
      → Clock
      → Notification
      → App
      → App × Response AnswerEnvelope
  answer_checked (some e) id req now notif app = (app, refuse 409 e)
  answer_checked none id req now notif app = answer_write id req now notif app

  answer_found :
      Option Notification → String → AnswerRequest → Clock → App → App × Response AnswerEnvelope
  unfolding answer_checked
  answer_found none id req now app = (app, refuse 404 "notification not found")
  answer_found (some notif) id req now app =
      answer_checked (check_plain_answer_allowed notif) id req now notif app

  -- POST /answer/{id}
  unfoldable pub answer : String → AnswerRequest → Clock → App → App × Response AnswerEnvelope
  unfolding answer_found
  answer id req now app = answer_found (get_notification id app.db) id req now app

  unfoldable pub dismiss_write : String → Clock → Notification → App → App × Response AnswerEnvelope
  dismiss_write id now notif app =
      let envelope : AnswerEnvelope = record {
        id = id;
        answer = none;
        answer_label = none;
        answered_at = some now.handler;
        latency_ms = some (chrono.millis_since now.handler notif.created_at);
        renderer = to_string notif.question_type;
        src = notif.src;
        via = "dismissed";
        note = none;
        grant = none;
        once = notif.once;
      } in
      let woken =
        wake_waiter id envelope (with_db (dismiss_notification id now.database app.db) app) in
      let told = emit (broadcast (notification_dismissed id envelope)) woken in
      (emit (push_closed id notif.agent_name "dismissed") told, reply envelope)

  dismiss_found : Option Notification → String → Clock → App → App × Response AnswerEnvelope
  unfolding is_open
  dismiss_found none id now app = (app, refuse 404 "notification not found")
  dismiss_found (some notif) id now app =
      if not (is_open notif.status)
      then (app, refuse 409 "notification already answered, cancelled, or dismissed")
      else dismiss_write id now notif app

  -- POST /dismiss/{id}
  unfoldable pub dismiss : String → Clock → App → App × Response AnswerEnvelope
  unfolding dismiss_found
  dismiss id now app = dismiss_found (get_notification id app.db) id now app

  -- `now + chrono::Duration::minutes(minutes)`; `none` is chrono's panic.
  proposed_at : DateTime → ℤ → Option DateTime
  proposed_at now minutes = elim (chrono.minutes minutes) [
    | none ↦ none
    | some d ↦ chrono.add now d
  ]

  exceeds : DateTime → Option DateTime → Bool
  exceeds proposed none = false
  exceeds proposed (some deadline) = ltb deadline proposed

  snoozed_reply : Db × Option Notification → App → App × Response Notification
  snoozed_reply (db, none) app = (with_db db app, refuse 404 "notification not found")
  snoozed_reply (db, some n) app =
      (emit (broadcast (notification_updated n)) (with_db db app), reply n)

  snooze_at :
      Option DateTime → String → ℤ → Clock → Notification → App → App × Response Notification
  unfolding exceeds snoozed_reply
  snooze_at none id minutes now notif app = (app, crash)
  snooze_at (some proposed) id minutes now notif app =
      if exceeds proposed notif.deadline
      then (app, refuse 400 "snooze exceeds auto-approve deadline")
      else snoozed_reply (snooze_notification id minutes now.database app.db) app

  snooze_found : Option Notification → String → ℤ → Clock → App → App × Response Notification
  unfolding is_open snooze_at proposed_at
  snooze_found none id minutes now app = (app, refuse 404 "notification not found")
  snooze_found (some notif) id minutes now app =
      if not (is_open notif.status)
      then (app, refuse 409 "notification is not open")
      else snooze_at (proposed_at now.handler minutes) id minutes now notif app

  -- POST /snooze/{id}
  unfoldable pub snooze : String → ℤ → Clock → App → App × Response Notification
  unfolding snooze_found
  snooze id minutes now app = snooze_found (get_notification id app.db) id minutes now app

cancel_found : Option Notification → String → App → App × Response Unit
unfolding is_answered
cancel_found none id app = (app, refuse 404 "notification not found")
cancel_found (some notif) id app = if is_answered notif.status then (app, reply tt) else (
  emit (push_closed id notif.agent_name "cancelled by the agent") (
      emit (broadcast (notification_cancelled id))
        (with_db (update_status id cancelled app.db) app)),
  reply tt,
)

-- DELETE /cancel/{id}; the reply is 204.
unfoldable pub cancel : String → App → App × Response Unit
unfolding cancel_found
cancel id app = cancel_found (get_notification id app.db) id app
