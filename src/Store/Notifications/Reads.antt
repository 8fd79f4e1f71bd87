-- ===== src/Store/Notifications/Reads.antt =====
-- What a read by id sees after each write of the `notifications` table.
use mathlib.Core.Option
use sjbis.Prelude.{String, ◌≡◌, ap, ◌∙◌, false, some, str_eq, eq_refl, if◌then◌else◌}
use sjbis.Models.Data.{Notification}
use sjbis.Store.Table.{get_row-update_row, get_row-key}
use sjbis.Store.Db.{Db, Row, row_id, row_to_notification}
use sjbis.Store.Notifications.{find_row, get_notification, on_row}

pub find_row-on_row :
    (k j : String) (f : Row → Row) (db : Db)
    → ((r : Row) → row_id (f r) ≡ row_id r)
    → find_row j (on_row k f db)
      ≡ (if str_eq k j then Option.map f (find_row j db) else find_row j db)
unfolding find_row on_row
find_row-on_row k j f db keeps = get_row-update_row row_id k j f db.notifications keeps

pub find_row-id : (k : String) (db : Db) (r : Row) → find_row k db ≡ some r → row_id r ≡ k
unfolding find_row
find_row-id k db r h = get_row-key row_id k db.notifications r h

pub get_notification-row :
    (id : String) (db : Db) (n : Notification)
    → get_notification id db ≡ some n
    → (r : Row) × (find_row id db ≡ some r) × (row_to_notification r ≡ n)
unfolding get_notification
get_notification-row id db n h = (Option.map-eq-some_iff row_to_notification (find_row id db)).0 h

pub get_notification-row_iff :
    (id : String) (db : Db) (r : Row)
    → find_row id db ≡ some r
    → get_notification id db ≡ some (row_to_notification r)
unfolding get_notification
get_notification-row_iff id db r h = rw h

pub get_notification-on_row :
    (id : String) (f : Row → Row) (db : Db) (r : Row)
    → ((s : Row) → row_id (f s) ≡ row_id s)
    → find_row id db ≡ some r
    → get_notification id (on_row id f db) ≡ some (row_to_notification (f r))
unfolding get_notification
get_notification-on_row id f db r keeps found =
    ap (Option.map row_to_notification) {y = some (f r)}
      (find_row-on_row id id f db keeps ∙ rw (eq_refl id, found))

pub get_notification-elsewhere :
    (id j : String) (f : Row → Row) (db : Db)
    → ((s : Row) → row_id (f s) ≡ row_id s)
    → str_eq id j ≡ false
    → get_notification j (on_row id f db) ≡ get_notification j db
unfolding get_notification
get_notification-elsewhere id j f db keeps miss =
    ap (Option.map row_to_notification) (rw miss at (find_row-on_row id j f db keeps))
