-- ===== src/Server/Close/Outcome.antt =====
-- What `answer` ends in.

use sjbis.Prelude.{String, ◌≡◌, ◌≢◌, ◌⊎◌, refl, ap, ◌∙◌, Option, none, some, inl, inr}
use sjbis.Models.Enums.{open_, answered, approval, status_of_text}
use sjbis.Models.Data.{DateTime, microseconds, Notification, AnswerEnvelope, AnswerRequest}
use sjbis.Models.Duration.{Chrono}
use sjbis.Store.Table.{get_row}
use sjbis.Store.Db.{Db, Row, row_to_notification}
use sjbis.Store.Notifications.{get_notification, answer_notification, answer_row}
use sjbis.Store.Notifications.Reads.{get_notification-on_row, get_notification-row}
use sjbis.Server.App.{App, Clock, waiter_id, Response, reply, refuse, emit, with_db}
use sjbis.Server.App.Waking.{wake_waiter-db, get_row-wake_waiter}
use sjbis.Server.Close.{
  check_plain_answer_allowed, or_else, or_default, or_notif, answer, answer_found, answer_checked,
  answer_write,
}
use sjbis.Server.Close.Guards.{check_plain_answer_allowed_iff}

-- The notification as an answer at this time leaves it. The label is the channel that the answer came by.
abbrev pub plainly_answered : AnswerRequest → DateTime → Notification → Notification
plainly_answered req now n = record n {
  status = answered;
  answer = some req.answer;
  answer_label = or_else req.via (some req.answer);
  answered_at = some (microseconds now);
  note = req.note;
}

-- The ask reads back as answered, its waiter is gone, and the reply carries the answer.
pub record IsAnswered (id : String) (req : AnswerRequest) (now : Clock) (n : Notification)
    (result : App × Response AnswerEnvelope) : Type 0 where
  pub reads_back : get_notification id result.0.db ≡ some (plainly_answered req now.database n)
  pub waiter_gone : get_row waiter_id id result.0.waiters ≡ none
  pub envelope : AnswerEnvelope
  pub replied : result.1 ≡ reply envelope
  pub answer : envelope.answer ≡ some req.answer
  pub label : envelope.answer_label ≡ or_else req.via (some req.answer)
  pub answered_at : envelope.answered_at ≡ some now.handler
  pub via : envelope.via ≡ or_default req.via "dashboard"

answered_row :
    (req : AnswerRequest) (now : DateTime) (r : Row)
    → row_to_notification (answer_row req.answer (or_else req.via (some req.answer)) req.note now r)
      ≡ plainly_answered req now (row_to_notification r)
unfolding row_to_notification answer_row status_of_text
answered_row req now r = refl

answered_read :
    (id : String) (req : AnswerRequest) (now : DateTime) (n : Notification) (db : Db)
    → get_notification id db ≡ some n
    → get_notification id
        (answer_notification id req.answer (or_else req.via (some req.answer)) req.note now db)
      ≡ some (plainly_answered req now n)
unfolding answer_notification
answered_read id req now n db read =
    let (r, found, columns) = get_notification-row id db n read in
    get_notification-on_row id _ db r (λ s. unfold answer_row in refl) found
    ∙ ap some (answered_row req now r ∙ ap (plainly_answered req now) columns)

module _ (chrono : Chrono) where
  answer_write-IsAnswered :
      (id : String) (req : AnswerRequest) (now : Clock) (n : Notification) (app : App)
      → get_notification id app.db ≡ some n
      → IsAnswered id req now n (answer_write chrono id req now n app)
  unfolding answer_write emit with_db
  answer_write-IsAnswered id req now n app read =
      let after = answered_read id req now.database n app.db read in
      record {
        reads_back = ap (get_notification id) (wake_waiter-db id _ _) ∙ after;
        waiter_gone = get_row-wake_waiter id _ _;
        envelope = _;
        replied = refl;
        answer = refl;
        label = ap (λ o. (or_notif o n).answer_label) after;
        answered_at = refl;
        via = refl;
      }

  -- What `answer` may end in: an unknown id, an ask that takes no plain answer, or an answer.
  abbrev pub Ends : String → AnswerRequest → Clock → App → App × Response AnswerEnvelope → Type 0
  Ends id req now app result =
      ((get_notification id app.db ≡ none) × (result ≡ (app, refuse 404 "notification not found")))
      ⊎ ((n : Notification) × (get_notification id app.db ≡ some n)
          × (((text : String) × (check_plain_answer_allowed n ≡ some text)
                × (result ≡ (app, refuse 409 text)))
              ⊎ ((n.status ≡ open_)
                  × (n.question_type ≢ approval)
                  × IsAnswered id req now n result)))

  answer_checked-Ends :
      (o : Option String) (id : String) (req : AnswerRequest) (now : Clock) (n : Notification)
      (app : App)
      → get_notification id app.db ≡ some n
      → check_plain_answer_allowed n ≡ o
      → Ends id req now app (answer_checked chrono o id req now n app)
  unfolding answer_checked
  answer_checked-Ends (some text) id req now n app read refused =
      inr (n, read, inl (text, refused, refl))
  answer_checked-Ends none id req now n app read allowed =
      let (opened, plain) = (check_plain_answer_allowed_iff n).0 allowed in
      inr (n, read, inr (opened, plain, answer_write-IsAnswered id req now n app read))

  answer_found-Ends :
      (o : Option Notification) (id : String) (req : AnswerRequest) (now : Clock) (app : App)
      → get_notification id app.db ≡ o
      → Ends id req now app (answer_found chrono o id req now app)
  unfolding answer_found
  answer_found-Ends none id req now app read = inl (read, refl)
  answer_found-Ends (some n) id req now app read =
      answer_checked-Ends (check_plain_answer_allowed n) id req now n app read refl

  -- `answer` ends in one of three ways: an unknown id is refused with 404; an ask that is closed or
  -- is an approval ask is refused with 409, and both leave the state as it was; an open ask of any
  -- other type reads back as answered with the request's answer and note, its waiter is removed, and
  -- the reply carries the answer. The stored label is the request's `via` where it has one.
  pub answer-Ends :
      (id : String) (req : AnswerRequest) (now : Clock) (app : App)
      → Ends id req now app (answer chrono id req now app)
  unfolding answer
  answer-Ends id req now app = answer_found-Ends (get_notification id app.db) id req now app refl
