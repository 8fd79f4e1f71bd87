-- ===== src/Server/Ask/Stored.antt =====
-- What `ask` stores where no rule answers.

use mathlib.Core.Option
use sjbis.Prelude.{◌≡◌, ◌⊎◌, Option, some, ◌++◌, List, ℕ, ◌≤◌}
use sjbis.Models.Data.{microseconds, Notification}
use sjbis.Models.Duration.{len_utf8}
use sjbis.Store.Db.{Db}
use sjbis.Store.Notifications.{get_notification}
use sjbis.Server.App.{App, Response, reply}

-- A notification as it reads back from its row: with its times to the microsecond.
abbrev pub to_the_microsecond : Notification → Notification
to_the_microsecond n = record n {
  deadline = Option.map microseconds n.deadline;
  created_at = microseconds n.created_at;
  answered_at = Option.map microseconds n.answered_at;
}

-- The reply is the notification that the table now has under its id.
abbrev pub IsStoredAsk : Notification → App × Response Notification → Type 0
IsStoredAsk n result =
    (result.1 ≡ reply n) × (get_notification n.id result.0.db ≡ some (to_the_microsecond n))

-- A text of at most 100 bytes, or of which 100 bytes are whole characters.
abbrev pub FitsPush : List ℕ → Type 0
FitsPush question =
    (len_utf8 question ≤ 100)
    ⊎ ((head : List ℕ) × (tail : List ℕ) × (question ≡ head ++ tail) × (len_utf8 head ≡ 100))
