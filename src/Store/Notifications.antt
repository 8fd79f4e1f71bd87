-- ===== src/Store/Notifications.antt =====
-- src/db.rs: the statements on the `notifications` table. Where SQL leaves the order of equal rows
-- open, the table's order is taken.
pub mod Snoozed
use mathlib.Core.Option
pub mod Reads
use sjbis.Prelude.{
  ℕ, ◌+◌, ◌-◌, ◌*◌, suc, String, Bool, true, false, Option, none, some, List, [], ◌∷◌, ℤ, pos,
  negsuc, ◌&&◌, ◌||◌, not, map, if◌then◌else◌, str_eq, ltb, leb, ◌==◌, ltb_ℤ, select, take, sort_by,
}
use sjbis.Models.Enums.{NotificationStatus, timed_out, debug_lower}
use sjbis.Models.Data.{DateTime, microseconds, Notification}
use sjbis.Store.Table.{get_row, update_row, insert_row, delete_row}
use sjbis.Store.Db.{Db, Row, row_id, row_to_notification}

-- The columns that `insert_notification` binds. It leaves out `snooze_until` and `note`, which are
-- NULL, and the columns of times keep microseconds.
abbrev pub new_row : Notification → Row
new_row n = record {
  columns = record n {
    deadline = Option.map microseconds n.deadline;
    created_at = microseconds n.created_at;
    answered_at = Option.map microseconds n.answered_at;
    snooze_until = none;
    note = none;
  };
  status = debug_lower n.status;
}

-- The answer is `none` for a duplicate id.
unfoldable pub insert_notification : Notification → Db → Option Db
insert_notification n db =
    Option.map (λ rows. record db { notifications = rows })
      (insert_row row_id (new_row n) db.notifications)

-- SELECT … WHERE id = $1, before `row_to_notification`.
unfoldable pub find_row : String → Db → Option Row
find_row id db = get_row row_id id db.notifications

unfoldable pub get_notification : String → Db → Option Notification
get_notification id db = Option.map row_to_notification (find_row id db)

-- `caller_id = $1 AND created_at > $2`
has_caller : String → DateTime → Row → Bool
has_caller caller since r = elim r.columns.caller_id [
  | none ↦ false
  | some c ↦ str_eq c caller && ltb since r.columns.created_at
]

-- The latest of the rows that pass the test: ORDER BY created_at DESC LIMIT 1.
latest : (Row → Bool) → List Row → Option Row
latest p [] = none
latest p (r ∷ rows) =
    let rest = latest p rows in
    if p r
    then elim rest [
      | none ↦ some r
      | some s ↦ if ltb r.columns.created_at s.columns.created_at then some s else some r
    ]
    else rest

unfoldable pub get_notification_by_caller_id : String → DateTime → Db → Option Notification
unfolding has_caller latest
get_notification_by_caller_id caller since db =
    Option.map row_to_notification
      (latest (has_caller caller (microseconds since)) db.notifications)

-- SQL comparisons with a nullable time.
abbrev null_or : (DateTime → Bool) → Option DateTime → Bool
null_or p none = true
null_or p (some t) = p t

abbrev known_and : (DateTime → Bool) → Option DateTime → Bool
known_and p none = false
known_and p (some t) = p t

unfoldable pub is_listed : DateTime → Row → Bool
is_listed now r =
    str_eq r.status "open"
    && null_or (λ t. leb t now) r.columns.snooze_until
    && null_or (λ t. ltb now t) r.columns.deadline

-- ORDER BY urgency DESC, created_at DESC
unfoldable pub more_urgent : Row → Row → Bool
more_urgent a b =
    ltb_ℤ b.columns.urgency a.columns.urgency
    || (not (ltb_ℤ a.columns.urgency b.columns.urgency)
        && ltb b.columns.created_at a.columns.created_at)

unfoldable pub list_open_notifications : DateTime → Db → List Notification
unfolding is_listed more_urgent sort_by select
list_open_notifications now db =
    map row_to_notification
      (sort_by more_urgent (select (is_listed (microseconds now)) db.notifications))

unfoldable pub in_history : Row → Bool
in_history r = str_eq r.status "answered" || str_eq r.status "timed_out"

-- ORDER BY answered_at DESC, created_at DESC, where NULL is the largest.
unfoldable pub more_recent : Row → Row → Bool
more_recent a b = elim a.columns.answered_at [
  | none ↦ elim b.columns.answered_at [
    | none ↦ ltb b.columns.created_at a.columns.created_at
    | some t ↦ true
  ]
  | some s ↦ elim b.columns.answered_at [
    | none ↦ false
    | some t ↦ ltb t s || (s == t && ltb b.columns.created_at a.columns.created_at)
  ]
]

unfoldable pub list_history : ℕ → Db → List Notification
unfolding in_history more_recent sort_by select
list_history limit db =
    map row_to_notification (take limit (sort_by more_recent (select in_history db.notifications)))

-- `$1 + ($2 * INTERVAL '1 minute')`, in nanoseconds.
abbrev pub add_minutes : DateTime → ℤ → DateTime
add_minutes now (pos m) = now + m * 60000000000
add_minutes now (negsuc m) = now - suc m * 60000000000

-- LEAST(proposed, COALESCE(deadline, proposed))
abbrev pub capped_at : DateTime → Option DateTime → DateTime
capped_at proposed none = proposed
capped_at proposed (some d) = if leb proposed d then proposed else d

unfoldable pub snooze_row : DateTime → ℤ → Row → Row
snooze_row now minutes r = record r {
  columns = record (r.columns) {
    snooze_until = some (capped_at (add_minutes (microseconds now) minutes) r.columns.deadline);
  };
}

unfoldable pub on_row : String → (Row → Row) → Db → Db
on_row id f db = record db { notifications = update_row row_id id f db.notifications }

-- The updated row comes back, or `none` where the id is unknown.
unfoldable pub snooze_notification : String → ℤ → DateTime → Db → Db × Option Notification
unfolding on_row get_notification
snooze_notification id minutes now db =
    let db' = on_row id (snooze_row now minutes) db in (db', get_notification id db')

unfoldable pub update_status : String → NotificationStatus → Db → Db
unfolding on_row
update_status id status = on_row id (λ r. record r { status = debug_lower status })

unfoldable pub answer_row : String → Option String → Option String → DateTime → Row → Row
answer_row answer answer_label note now r = record {
  columns = record (r.columns) {
    answer = some answer;
    answer_label = answer_label;
    answered_at = some (microseconds now);
    note = note;
  };
  status = "answered";
}

unfoldable pub answer_notification :
    String → String → Option String → Option String → DateTime → Db → Db
unfolding on_row answer_row
answer_notification id answer answer_label note now =
    on_row id (answer_row answer answer_label note now)

unfoldable pub dismiss_row : DateTime → Row → Row
dismiss_row now r = record {
  columns = record (r.columns) { answered_at = some (microseconds now) };
  status = "dismissed";
}

unfoldable pub dismiss_notification : String → DateTime → Db → Db
unfolding on_row dismiss_row
dismiss_notification id now = on_row id (dismiss_row now)

unfoldable pub delete_notification : String → Db → Db
delete_notification id db = record db { notifications = delete_row row_id id db.notifications }

unfoldable pub is_overdue : DateTime → Row → Bool
is_overdue now r = str_eq r.status "open" && known_and (λ t. ltb t now) r.columns.deadline

time_out_rows : DateTime → List Row → List Row
time_out_rows now [] = []
time_out_rows now (r ∷ rows) =
    (if is_overdue now r then record r { status = "timed_out" } else r) ∷ time_out_rows now rows

-- The overdue notifications as they were, and the table with them timed out.
unfoldable pub timeout_notifications : DateTime → Db → Db × List Notification
unfolding is_overdue time_out_rows select
timeout_notifications now db = (
  record db { notifications = time_out_rows (microseconds now) db.notifications },
  map row_to_notification (select (is_overdue (microseconds now)) db.notifications),
)
