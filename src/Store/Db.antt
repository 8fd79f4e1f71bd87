-- ===== src/Store/Db.antt =====
-- src/db.rs: the tables of the daemon, and `row_to_notification`. A row of `notifications` keeps
-- its status as the text of the column, beside the other columns (`columns.status` is not read).
use sjbis.Prelude.{String, List, []}
use sjbis.Models.Enums.{status_of_text}
use sjbis.Models.Data.{Notification, Rule, Agent}
use sjbis.Grants.Stored.{StoredGrant}

pub record Row : Type 0 where
  pub columns : Notification
  pub status : String

abbrev pub row_id : Row → String
row_id r = r.columns.id

abbrev pub grant_key : StoredGrant → String
grant_key g = g.id

unfoldable pub row_to_notification : Row → Notification
unfolding status_of_text
row_to_notification r = record (r.columns) { status = status_of_text r.status }

pub record Db : Type 0 where
  pub notifications : List Row
  pub grants : List StoredGrant
  pub rules : List Rule
  pub agents : List Agent
  pub device_tokens : List String

abbrev pub empty : Db
empty = record { notifications = []; grants = []; rules = []; agents = []; device_tokens = [] }
