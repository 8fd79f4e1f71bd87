-- ===== src/Server/Wait/Unseen.antt =====
-- What a read sees of a wait whose time was up.

use sjbis.Prelude.{
  String, ◌≡◌, refl, sym, ap, ◌∙◌, Option, none, some, true, Bool-cases, inl, inr, str_eq, eq_iff,
}
use sjbis.Models.Enums.{NotificationStatus, open_, is_open, timed_out, debug_lower, status_of_text}
use sjbis.Models.Data.{DateTime, Notification}
use sjbis.Store.Db.{Db, Row, row_to_notification}
use sjbis.Store.Notifications.{get_notification, update_status}
use sjbis.Store.Notifications.Reads.{
  get_notification-on_row, get_notification-elsewhere, get_notification-row,
  get_notification-row_iff,
}
use sjbis.Server.App.{App, emit, with_db}
use sjbis.Server.Wait.{wait_timeout, mark_timed_out}

is_open-open : (s : NotificationStatus) → is_open s ≡ true → s ≡ open_
unfolding is_open
is_open-open open_ h = refl
is_open-open _ h = cc

marked_row :
    (r : Row)
    → status_of_text r.status ≡ open_
    → row_to_notification (record r { status = debug_lower timed_out }) ≡ row_to_notification r
unfolding row_to_notification debug_lower status_of_text
marked_row r h = rw h

module _ (id : String) (n : Notification) (db : Db) (read : get_notification id db ≡ some n)
    (opened : n.status ≡ open_) where
  marked_here : get_notification id (update_status id timed_out db) ≡ get_notification id db
  unfolding update_status row_to_notification
  marked_here =
      let (r, found, columns) = get_notification-row id db n read in
      get_notification-on_row id _ db r (λ s. refl) found
      ∙ ap some (marked_row r (ap (λ (m : Notification). m.status) columns ∙ opened))
      ∙ sym (get_notification-row_iff id db r found)

  update_status-unseen :
      (j : String) → get_notification j (update_status id timed_out db) ≡ get_notification j db
  update_status-unseen j = elim (Bool-cases (str_eq id j)) [
    | inl hit ↦ rw (← (eq_iff id j).0 hit) marked_here
    | inr miss ↦ (unfold update_status in get_notification-elsewhere id j _ db (λ s. refl) miss)
  ]

mark_timed_out-unseen :
    (o : Option Notification) (id j : String) (app : App)
    → get_notification id app.db ≡ o
    → get_notification j (mark_timed_out o id app).db ≡ get_notification j app.db
unfolding mark_timed_out with_db
mark_timed_out-unseen none id j app read = refl
mark_timed_out-unseen (some n) id j app read = elim (Bool-cases (is_open n.status)) [
  | inl opened ↦ rw opened (update_status-unseen id n app.db read (is_open-open n.status opened) j)
  | inr closed ↦ rw closed
]

-- The timeout of a waiter changes no read by id: an ask that was open, and that the waiter was told
-- has timed out, is still read as open.
pub wait_timeout-unseen :
    (id j : String) (now : DateTime) (app : App)
    → get_notification j (wait_timeout id now app).0.db ≡ get_notification j app.db
unfolding wait_timeout emit
wait_timeout-unseen id j now app = mark_timed_out-unseen (get_notification id app.db) id j _ refl
