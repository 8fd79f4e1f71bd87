-- ===== src/Store/Notifications/Snoozed.antt =====
-- What `snooze_notification` writes.

use sjbis.Prelude.{
  ◌+◌, ◌*◌, String, ◌≡◌, ◌⊎◌, refl, ap, ◌∙◌, ◌≤◌, Option, none, some, ℤ, pos, negsuc, pos_part,
  neg_part, arith, str_eq, eq_iff, if◌then◌else◌, Bool-cases, inl, inr, leb,
}
use sjbis.Models.Data.{DateTime, microseconds, Notification}
use sjbis.Store.Db.{Db, row_to_notification}
use sjbis.Store.Notifications.{
  snooze_notification, snooze_row, on_row, capped_at, add_minutes, get_notification,
}
use sjbis.Store.Notifications.Reads.{
  get_notification-on_row, get_notification-elsewhere, get_notification-row,
}

-- The earlier of a time and a deadline, where there is one.
abbrev pub IsEarlier : DateTime → Option DateTime → DateTime → Type 0
IsEarlier proposed none at = at ≡ proposed
IsEarlier proposed (some d) at = (at ≤ proposed) × (at ≤ d) × ((at ≡ proposed) ⊎ (at ≡ d))

capped_at-IsEarlier : (t : DateTime) (d : Option DateTime) → IsEarlier t d (capped_at t d)
capped_at-IsEarlier t none = refl
capped_at-IsEarlier t (some d) = elim (Bool-cases (leb t d)) [
  | inl e ↦ rw e (ground arith, ground arith, inl refl)
  | inr e ↦ rw e (ground arith, ground arith, inr refl)
]

-- So many minutes after a time, where those before it are still in chrono's range.
add_minutes-nanoseconds :
    (t : DateTime) (minutes : ℤ)
    → neg_part minutes * 60000000000 ≤ t
    → add_minutes t minutes + neg_part minutes * 60000000000 ≡ t + pos_part minutes * 60000000000
add_minutes-nanoseconds t (pos m) h = omega arith
add_minutes-nanoseconds t (negsuc m) h = omega arith

module _ (id : String) (minutes : ℤ) (now : DateTime) (db : Db) (n : Notification)
    (read : get_notification id db ≡ some n) where
  abbrev until : DateTime
  until = capped_at (add_minutes (microseconds now) minutes) n.deadline

  snoozed_here :
      get_notification id (on_row id (snooze_row now minutes) db)
      ≡ some (record n { snooze_until = some until })
  snoozed_here =
      let (r, found, columns) = get_notification-row id db n read in
      get_notification-on_row id (snooze_row now minutes) db r (λ s. unfold snooze_row in refl)
        found
      ∙ ap some (
          unfold snooze_row row_to_notification in
          ap
            (λ (m : Notification). record m {
              snooze_until = some (capped_at (add_minutes (microseconds now) minutes) m.deadline);
            })
            columns)

  snoozed_read :
      (j : String)
      → get_notification j (on_row id (snooze_row now minutes) db) ≡ (
          if str_eq id j
          then some (record n { snooze_until = some until })
          else get_notification j db)
  snoozed_read j = elim (Bool-cases (str_eq id j)) [
    | inl hit ↦ rw (hit, ← (eq_iff id j).0 hit) snoozed_here
    | inr miss ↦ rw miss (
        get_notification-elsewhere id j (snooze_row now minutes) db (λ s. unfold snooze_row in refl)
          miss)
  ]

-- A snooze of a known id sets its `snooze_until` to the earlier of its deadline and the time that
-- is so many minutes of 60 seconds from now, to the microsecond; it returns that notification, and
-- a read of any id finds it there and everything else as it was.
pub snooze_notification-capped :
    (id : String) (minutes : ℤ) (now : DateTime) (db : Db) (n : Notification)
    → get_notification id db ≡ some n
    → neg_part minutes * 60000000000 ≤ microseconds now
    → (proposed : DateTime) × (at : DateTime) × (proposed + neg_part minutes * 60000000000
        ≡ microseconds now + pos_part minutes * 60000000000)
      × IsEarlier proposed n.deadline at
      × ((snooze_notification id minutes now db).1 ≡ some (record n { snooze_until = some at }))
      × ((j : String)
          → get_notification j (snooze_notification id minutes now db).0 ≡ (
              if str_eq id j
              then some (record n { snooze_until = some at })
              else get_notification j db))
unfolding snooze_notification
snooze_notification-capped id minutes now db n read in_range = (
  add_minutes (microseconds now) minutes,
  capped_at (add_minutes (microseconds now) minutes) n.deadline,
  add_minutes-nanoseconds (microseconds now) minutes in_range,
  capped_at-IsEarlier (add_minutes (microseconds now) minutes) n.deadline,
  snoozed_here id minutes now db n read,
  snoozed_read id minutes now db n read,
)
