-- ===== src/Server/Close/Guards.antt =====
-- `answer`, `dismiss`, `snooze` and `cancel` on the row of one ask.

use mathlib.Core.Path.{subst}
use mathlib.Core.Option.{some-injective}
use sjbis.Prelude.{
  String, ◌≡◌, ◌≢◌, ◌↔◌, refl, sym, ap, ◌∙◌, false, Option, none, some, ℤ, arith, Bool-cases, inl,
  inr,
}
use sjbis.Models.Enums.{QuestionType, approval, is_open, is_approval, is_answered, open_}
use sjbis.Models.Data.{DateTime, Notification, AnswerRequest}
use sjbis.Models.Duration.{Chrono}
use sjbis.Store.Db.{Db, Row, row_to_notification}
use sjbis.Store.Notifications.{find_row, get_notification}
use sjbis.Store.Notifications.Reads.{get_notification-row_iff}
use sjbis.Store.Guarded.{
  Guards, answered-Guards, dismissed-Guards, cancelled-Guards, snoozed-Guards,
}
use sjbis.Server.App.{App, Clock, emit, with_db}
use sjbis.Server.App.Waking.{wake_waiter-db}
use sjbis.Server.Close.{
  check_plain_answer_allowed, answer, answer_found, answer_checked, answer_write, dismiss,
  dismiss_found, dismiss_write, cancel, cancel_found, snooze, snooze_found, snooze_at,
  snoozed_reply, exceeds,
}

is_approval-other : (t : QuestionType) → t ≢ approval → is_approval t ≡ false
unfolding is_approval
is_approval-other approval h = absurd (h refl)
is_approval-other _ h = refl

-- A plain answer is allowed exactly on an open ask that is no approval ask.
pub check_plain_answer_allowed_iff :
    (n : Notification)
    → (check_plain_answer_allowed n ≡ none) ↔ ((n.status ≡ open_) × (n.question_type ≢ approval))
unfolding check_plain_answer_allowed is_open is_approval
check_plain_answer_allowed_iff n =
    (λ h. (ground arith, λ k. ground arith), λ (a, b). rw (a, is_approval-other n.question_type b))

-- A notification that may be answered plainly is read from a row that is no approval ask.
plain_row :
    (id : String) (db : Db) (n : Notification)
    → get_notification id db ≡ some n
    → check_plain_answer_allowed n ≡ none
    → (r : Row) → find_row id db ≡ some r
    → r.columns.question_type ≢ approval
unfolding row_to_notification
plain_row id db n read allowed r found locked =
    let same = some-injective _ _ (sym (get_notification-row_iff id db r found) ∙ read) in
    ((check_plain_answer_allowed_iff n).0 allowed).1
      (sym (ap (λ (m : Notification). m.question_type) same) ∙ locked)

module _ (chrono : Chrono) (j : String) where
  answer_checked-Guards :
      (o : Option String) (id : String) (req : AnswerRequest) (now : Clock) (n : Notification)
      (app : App)
      → (o ≡ none → (r : Row) → find_row id app.db ≡ some r → r.columns.question_type ≢ approval)
      → Guards j app.db
      → Guards j (answer_checked chrono o id req now n app).0.db
  unfolding answer_checked answer_write emit with_db
  answer_checked-Guards (some e) id req now n app plain g = g
  answer_checked-Guards none id req now n app plain g =
      subst (Guards j) (sym (wake_waiter-db id _ _))
        (answered-Guards id j _ _ _ now.database app.db (plain refl) g)

  answer_found-Guards :
      (o : Option Notification) (id : String) (req : AnswerRequest) (now : Clock) (app : App)
      → get_notification id app.db ≡ o
      → Guards j app.db
      → Guards j (answer_found chrono o id req now app).0.db
  unfolding answer_found
  answer_found-Guards none id req now app read g = g
  answer_found-Guards (some n) id req now app read g =
      answer_checked-Guards (check_plain_answer_allowed n) id req now n app
        (λ h. plain_row id app.db n read h) g

  pub answer-Guards :
      (id : String) (req : AnswerRequest) (now : Clock) (app : App)
      → Guards j app.db
      → Guards j (answer chrono id req now app).0.db
  unfolding answer
  answer-Guards id req now app = answer_found-Guards _ id req now app refl

  dismiss_found-Guards :
      (o : Option Notification) (id : String) (now : Clock) (app : App)
      → Guards j app.db
      → Guards j (dismiss_found chrono o id now app).0.db
  unfolding dismiss_found dismiss_write emit with_db
  dismiss_found-Guards none id now app g = g
  dismiss_found-Guards (some n) id now app g = elim (Bool-cases (is_open n.status)) [
    | inl open_now ↦ rw open_now (
        subst (Guards j) (sym (wake_waiter-db id _ _))
          (dismissed-Guards id j now.database app.db g))
    | inr closed ↦ rw closed g
  ]

  pub dismiss-Guards :
      (id : String) (now : Clock) (app : App)
      → Guards j app.db
      → Guards j (dismiss chrono id now app).0.db
  unfolding dismiss
  dismiss-Guards id now app = dismiss_found-Guards _ id now app

  snoozed_reply-Guards :
      (p : Db × Option Notification) (app : App)
      → Guards j p.0
      → Guards j (snoozed_reply chrono p app).0.db
  unfolding snoozed_reply emit with_db
  snoozed_reply-Guards (db, none) app g = g
  snoozed_reply-Guards (db, some n) app g = g

  snooze_at-Guards :
      (o : Option DateTime) (id : String) (minutes : ℤ) (now : Clock) (n : Notification) (app : App)
      → Guards j app.db
      → Guards j (snooze_at chrono o id minutes now n app).0.db
  unfolding snooze_at
  snooze_at-Guards none id minutes now n app g = g
  snooze_at-Guards (some t) id minutes now n app g =
      elim (Bool-cases (exceeds chrono t n.deadline)) [
        | inl late ↦ rw late g
        | inr early ↦
            rw early
              (snoozed_reply-Guards _ app (snoozed-Guards id j minutes now.database app.db g))
      ]

  snooze_found-Guards :
      (o : Option Notification) (id : String) (minutes : ℤ) (now : Clock) (app : App)
      → Guards j app.db
      → Guards j (snooze_found chrono o id minutes now app).0.db
  unfolding snooze_found
  snooze_found-Guards none id minutes now app g = g
  snooze_found-Guards (some n) id minutes now app g = elim (Bool-cases (is_open n.status)) [
    | inl open_now ↦ rw open_now (snooze_at-Guards _ id minutes now n app g)
    | inr closed ↦ rw closed g
  ]

  pub snooze-Guards :
      (id : String) (minutes : ℤ) (now : Clock) (app : App)
      → Guards j app.db
      → Guards j (snooze chrono id minutes now app).0.db
  unfolding snooze
  snooze-Guards id minutes now app = snooze_found-Guards _ id minutes now app

cancel_found-Guards :
    (j : String) (o : Option Notification) (id : String) (app : App)
    → Guards j app.db
    → Guards j (cancel_found o id app).0.db
unfolding cancel_found emit with_db
cancel_found-Guards j none id app g = g
cancel_found-Guards j (some n) id app g = elim (Bool-cases (is_answered n.status)) [
  | inl ended ↦ rw ended g
  | inr pending ↦ rw pending (cancelled-Guards id j app.db g)
]

pub cancel-Guards : (j id : String) (app : App) → Guards j app.db → Guards j (cancel id app).0.db
unfolding cancel
cancel-Guards j id app = cancel_found-Guards j _ id app
