-- ===== src/Server/Wait.antt =====
-- src/handlers.rs: `wait_for_answer`, in the two steps between which the caller is suspended: the
-- reads with the registration of the waiter, and what happens when the time is up. That an answer
-- arrives in between is the `wake` of the handler that answers.
pub mod Unseen
pub mod Guards
use mathlib.Core.Option
use sjbis.Prelude.{
  ℕ, String, Option, none, some, [], ◌∷◌, ◌++◌, ℤ, pos, clamp_ℤ, if◌then◌else◌, str_eq, reverse,
  find,
}
use sjbis.Models.Enums.{
  NotificationStatus, open_, answered, cancelled, muted, timed_out, dismissed, is_open, is_approval,
  to_string, debug_lower,
}
use sjbis.Models.Data.{DateTime, Notification, AnswerEnvelope, notification_dismissed}
use sjbis.Models.Duration.{Chrono}
use sjbis.Grants.Records.{Codec}
use sjbis.Grants.Stored.{StoredGrant, attach_to_answer}
use sjbis.Store.Table.{delete_row}
use sjbis.Store.Notifications.{get_notification, update_status}
use sjbis.Store.Grants.{list_grants_by_notification}
use sjbis.Server.App.{App, waiter_id, broadcast, emit, with_db}

-- `attach_answering_grant`: the last of the ask's grants, oldest first, that is of kind "grant".
attach_found :
    {Key Sig : Type 0} → Codec Key Sig → Option StoredGrant → AnswerEnvelope → AnswerEnvelope
attach_found codec none envelope = envelope
attach_found codec (some g) envelope = attach_to_answer codec g envelope

unfoldable pub attach_answering_grant :
    {Key Sig : Type 0} → Codec Key Sig → App → AnswerEnvelope → AnswerEnvelope
unfolding attach_found find
attach_answering_grant codec app envelope =
    attach_found codec
      (find (λ g. str_eq g.kind "grant") (reverse (list_grants_by_notification envelope.id app.db)))
      envelope

-- What the first step ends in: an envelope at once, or a wait of at most so many seconds.
pub data Begun : Type 0 where
  replied : AnswerEnvelope → Begun
  waiting : ℤ → Begun

-- `waiters.insert(id, tx)`, which drops the channel of a waiter that was there.
unfoldable pub register : String → ℕ → App → App
register id channel app = record app {
  waiters = delete_row waiter_id id app.waiters ++ (record { id = id; channel = channel } ∷ []);
}

module _ {Key Sig : Type 0} (codec : Codec Key Sig) (chrono : Chrono) where
  latency : Notification → Option ℤ
  latency n = Option.map (λ at. chrono.millis_since at n.created_at) n.answered_at

  answered_envelope : String → Notification → AnswerEnvelope
  unfolding latency
  answered_envelope id n = record {
    id = id;
    answer = n.answer;
    answer_label = n.answer_label;
    answered_at = n.answered_at;
    latency_ms = latency n;
    renderer = to_string n.question_type;
    src = n.src;
    via = "dashboard";
    note = n.note;
    grant = none;
    once = n.once;
  }

  closed_envelope : String → Notification → AnswerEnvelope
  unfolding latency
  closed_envelope id n = record {
    id = id;
    answer = none;
    answer_label = none;
    answered_at = n.answered_at;
    latency_ms = latency n;
    renderer = to_string n.question_type;
    src = n.src;
    via = debug_lower n.status;
    note = none;
    grant = none;
    once = n.once;
  }

  answered_reply : String → Notification → App → AnswerEnvelope
  unfolding answered_envelope
  answered_reply id n app =
      if is_approval n.question_type
      then attach_answering_grant codec app (answered_envelope id n)
      else answered_envelope id n

  -- `match notif.status`
  reply_by_status : NotificationStatus → String → Notification → App → Option AnswerEnvelope
  unfolding answered_reply closed_envelope
  reply_by_status answered id n app = some (answered_reply id n app)
  reply_by_status dismissed id n app = some (closed_envelope id n)
  reply_by_status cancelled id n app = some (closed_envelope id n)
  reply_by_status timed_out id n app = some (closed_envelope id n)
  reply_by_status open_ id n app = none
  reply_by_status muted id n app = none

  reply_found : Option Notification → String → App → Option AnswerEnvelope
  unfolding reply_by_status
  reply_found none id app = none
  reply_found (some n) id app = reply_by_status n.status id n app

  seconds_left : Option DateTime → DateTime → ℤ
  seconds_left none now = pos 600
  seconds_left (some deadline) now = clamp_ℤ (chrono.seconds_since deadline now) (pos 0) (pos 600)

  deadline_of : Option Notification → Option DateTime
  deadline_of none = none
  deadline_of (some n) = n.deadline

  unfoldable pub wait_secs : String → DateTime → App → ℤ
  unfolding seconds_left deadline_of
  wait_secs id now app = seconds_left (deadline_of (get_notification id app.db)) now

  begin_with : Option AnswerEnvelope → String → ℕ → DateTime → App → App × Begun
  unfolding wait_secs
  begin_with (some envelope) id channel now app = (app, replied envelope)
  begin_with none id channel now app = (register id channel app, waiting (wait_secs id now app))

  -- GET /wait/{id}, up to the suspension.
  unfoldable pub wait_begin : String → ℕ → DateTime → App → App × Begun
  unfolding begin_with reply_found
  wait_begin id channel now app =
      begin_with (reply_found (get_notification id app.db) id app) id channel now app

-- Only an ask that is still open is marked.
mark_timed_out : Option Notification → String → App → App
unfolding is_open
mark_timed_out none id app = app
mark_timed_out (some n) id app =
    if is_open n.status then with_db (update_status id timed_out app.db) app else app

timeout_envelope : Option Notification → String → DateTime → AnswerEnvelope
timeout_envelope notif id now = record {
  id = id;
  answer = none;
  answer_label = none;
  answered_at = some now;
  latency_ms = none;
  renderer = elim notif [ none ↦ "" | some n ↦ to_string n.question_type ];
  src = elim notif [ none ↦ "" | some n ↦ n.src ];
  via = "timed_out";
  note = none;
  grant = none;
  once = elim notif [ none ↦ none | some n ↦ n.once ];
}

-- GET /wait/{id}, when the time is up.
unfoldable pub wait_timeout : String → DateTime → App → App × AnswerEnvelope
unfolding mark_timed_out timeout_envelope
wait_timeout id now app =
    let left = record app { waiters = delete_row waiter_id id app.waiters } in
    let notif = get_notification id app.db in
    let envelope = timeout_envelope notif id now in
    (emit (broadcast (notification_dismissed id envelope)) (mark_timed_out notif id left), envelope)
