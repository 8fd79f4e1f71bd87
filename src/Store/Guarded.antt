-- ===== src/Store/Guarded.antt =====
-- A row that no plain answer may close, under the writes of the `notifications` table.
use mathlib.Core.Option
use mathlib.Core.Option.{some-injective}
use mathlib.Core.Path.{subst}
use sjbis.Prelude.{
  String, ◌≡◌, ◌≢◌, ◌∙◌, sym, ap, refl, Option, none, some, str_eq, eq_iff, if◌then◌else◌,
  Bool-cases, inl, inr, ℤ,
}
use sjbis.Models.Enums.{NotificationStatus, approval, debug_lower, cancelled, timed_out}
use sjbis.Models.Data.{DateTime, Notification}
use sjbis.Store.Table.{get_row-insert_row}
use sjbis.Store.Db.{Db, Row, row_id}
use sjbis.Store.Notifications.{
  find_row, on_row, update_status, dismiss_notification, dismiss_row, snooze_notification,
  snooze_row, answer_notification, answer_row, insert_notification, new_row,
}
use sjbis.Store.Notifications.Reads.{find_row-on_row}

-- The row is not an approval ask that has been answered.
abbrev pub IsGuarded : Row → Type 0
IsGuarded r = r.columns.question_type ≡ approval → r.status ≢ "answered"

-- The row of the id, if there is one, is guarded.
abbrev pub Guards : String → Db → Type 0
Guards j db = (r : Row) → find_row j db ≡ some r → IsGuarded r

-- A write keeps the guard where it keeps ids and the guard of the row it reaches.
pub on_row-Guards :
    (id j : String) (f : Row → Row) (db : Db)
    → ((r : Row) → row_id (f r) ≡ row_id r)
    → ((r : Row) → find_row id db ≡ some r → IsGuarded r → IsGuarded (f r))
    → Guards j db
    → Guards j (on_row id f db)
on_row-Guards id j f db keeps guard g r h = elim (Bool-cases (str_eq id j)) [
  | inl hit ↦
      let same = (eq_iff id j).0 hit in
      let (s, found, written) =
        (Option.map-eq-some_iff f (find_row j db)).0
          (sym (rw hit at (find_row-on_row id j f db keeps)) ∙ h) in
      subst IsGuarded written (guard s (rw same found) (g s found))
  | inr miss ↦ g r (sym (rw miss at (find_row-on_row id j f db keeps)) ∙ h)
]

update_status-Guards :
    (id j : String) (s : NotificationStatus) (db : Db)
    → debug_lower s ≢ "answered"
    → Guards j db
    → Guards j (update_status id s db)
unfolding update_status
update_status-Guards id j s db other = on_row-Guards id j _ db (λ r. refl) (λ r h g k. other)

cancelled_text : debug_lower cancelled ≢ "answered"
unfolding debug_lower
cancelled_text h = cc ((eq_iff "cancelled" "answered").1 h)

timed_out_text : debug_lower timed_out ≢ "answered"
unfolding debug_lower
timed_out_text h = cc ((eq_iff "timedout" "answered").1 h)

pub cancelled-Guards :
    (id j : String) (db : Db) → Guards j db → Guards j (update_status id cancelled db)
cancelled-Guards id j db = update_status-Guards id j cancelled db cancelled_text

pub timed_out-Guards :
    (id j : String) (db : Db) → Guards j db → Guards j (update_status id timed_out db)
timed_out-Guards id j db = update_status-Guards id j timed_out db timed_out_text

pub dismissed-Guards :
    (id j : String) (now : DateTime) (db : Db)
    → Guards j db
    → Guards j (dismiss_notification id now db)
unfolding dismiss_notification dismiss_row
dismissed-Guards id j now db =
    on_row-Guards id j _ db (λ r. refl) (λ r h g k e. cc ((eq_iff "dismissed" "answered").1 e))

pub snoozed-Guards :
    (id j : String) (minutes : ℤ) (now : DateTime) (db : Db)
    → Guards j db
    → Guards j (snooze_notification id minutes now db).0
unfolding snooze_notification snooze_row
snoozed-Guards id j minutes now db = on_row-Guards id j _ db (λ r. refl) (λ r h g. g)

-- A plain answer keeps the guard where the row that it reaches is no approval ask.
pub answered-Guards :
    (id j answer : String) (label remark : Option String) (now : DateTime) (db : Db)
    → ((r : Row) → find_row id db ≡ some r → r.columns.question_type ≢ approval)
    → Guards j db
    → Guards j (answer_notification id answer label remark now db)
unfolding answer_notification answer_row
answered-Guards id j answer label remark now db plain =
    on_row-Guards id j _ db (λ r. refl) (λ r h g k. absurd (plain r h k))

pub find_row-insert :
    (j : String) (n : Notification) (db : Db) {db' : Db}
    → insert_notification n db ≡ some db'
    → find_row j db' ≡ (if str_eq n.id j then some (new_row n) else find_row j db)
unfolding insert_notification find_row
find_row-insert j n db h =
    let (rows, inserted, same) = (Option.map-eq-some_iff _ _).0 h in
    rw (← same) (get_row-insert_row row_id j (new_row n) db.notifications inserted)

-- A new row keeps the guard where it is not answered.
pub inserted-Guards :
    (j : String) (n : Notification) (db : Db) {db' : Db}
    → insert_notification n db ≡ some db'
    → debug_lower n.status ≢ "answered"
    → Guards j db
    → Guards j db'
inserted-Guards j n db h other g r found =
    let step = find_row-insert j n db h in
    elim (Bool-cases (str_eq n.id j)) [
      | inl hit ↦ λ _ e.
          other (ap (λ (s : Row). s.status) (some-injective _ _ (sym (rw hit at step) ∙ found)) ∙ e)
      | inr miss ↦ g r (sym (rw miss at step) ∙ found)
    ]

-- An id without a row is guarded, and one without an approval ask too.
pub absent-plain :
    (id : String) (db : Db)
    → find_row id db ≡ none
    → (r : Row) → find_row id db ≡ some r
    → r.columns.question_type ≢ approval
absent-plain id db h r k = cc
