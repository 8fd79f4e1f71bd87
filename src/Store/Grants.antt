-- ===== src/Store/Grants.antt =====
-- src/db.rs: the transactions on the `grants` table. An `err` rolls the transaction back, so it
-- carries no database.
pub mod Fresh
pub mod Claims
pub mod Answering
use mathlib.Core.Option
use sjbis.Prelude.{
  sort_by, ℕ, String, Bool, true, false, Option, none, some, List, [], ◌∷◌, Result, ok, err, ◌>>=◌,
  ◌>>◌, ok_or, ensure, if◌then◌else◌, str_eq, ltb, leb, ◌==◌, ◌&&◌, ◌||◌, not, select, take,
}
use sjbis.Json.{get, as_str}
use sjbis.Models.Enums.{answered}
use sjbis.Models.Data.{DateTime, Notification}
use sjbis.Grants.Errors.{GrantError, notification_not_found, id_collision, target_not_found}
use sjbis.Grants.Records.{GrantRecord}
use sjbis.Grants.Answer.{GrantAnswer, check_grant_for_notification, grant_answer}
use sjbis.Grants.Stored.{StoredGrant, is_some}
use sjbis.Store.Table.{get_row, update_row, insert_row}
use sjbis.Store.Db.{Db, Row, row_id, grant_key, row_to_notification}
use sjbis.Store.Notifications.{get_notification, answer_row, on_row}

-- ON CONFLICT (id) DO NOTHING: `none` where no row was inserted.
unfoldable pub insert_grant_row : StoredGrant → Db → Option Db
insert_grant_row g db =
    Option.map (λ rows. record db { grants = rows }) (insert_row grant_key g db.grants)

-- WHERE id = $5 AND status = 'open'
unfoldable pub answer_if_open : GrantAnswer → DateTime → Row → Row
answer_if_open a now r =
    if str_eq r.status "open" then answer_row a.answer (some a.answer_label) a.note now r else r

unfoldable pub insert_grant_answering :
    StoredGrant → GrantRecord → DateTime → Db → Result GrantError (Notification × Db)
unfolding answer_if_open
insert_grant_answering g grant answered_at db = do
  notif ← ok_or (get_notification grant.ask_id db) (notification_not_found grant.ask_id)
  check_grant_for_notification grant notif
  db' ← ok_or (insert_grant_row g db) (id_collision g.id)
  let a = grant_answer grant
  ok (
    record notif {
      status = answered;
      answer = some a.answer;
      answer_label = some a.answer_label;
      answered_at = some answered_at;
      note = a.note;
    },
    on_row notif.id (answer_if_open a answered_at) db',
  )

-- COALESCE(revoked_by, $1)
unfoldable pub revoke_row : String → StoredGrant → StoredGrant
revoke_row by g = record g { revoked_by = elim g.revoked_by [ none ↦ some by | some r ↦ some r ] }

unfoldable pub on_grant : String → (StoredGrant → StoredGrant) → Db → Db
on_grant id f db = record db { grants = update_row grant_key id f db.grants }

unfoldable pub get_grant : String → Db → Option StoredGrant
get_grant id db = get_row grant_key id db.grants

unfoldable pub insert_grant_revoking : StoredGrant → String → Db → Result GrantError Db
unfolding revoke_row on_grant
insert_grant_revoking g target db = do
  ensure (is_some (get_grant target db)) (target_not_found target)
  db' ← ok_or (insert_grant_row g db) (id_collision g.id)
  ok (on_grant target (revoke_row g.id) db')

unfoldable pub insert_grant_only : StoredGrant → Db → Result GrantError Db
insert_grant_only g db = ok_or (insert_grant_row g db) (id_collision g.id)

unfoldable pub claim_row : String → DateTime → StoredGrant → StoredGrant
claim_row by at g = record g { claimed_by = some by; claimed_at = some at }

claim_unless : Bool → String → String → DateTime → Db → Db × Bool
unfolding claim_row on_grant
claim_unless true id by at db = (db, false)
claim_unless false id by at db = (on_grant id (claim_row by at) db, true)

claim_found : Option StoredGrant → String → String → DateTime → Db → Db × Bool
unfolding claim_unless
claim_found none id by at db = (db, false)
claim_found (some g) id by at db = claim_unless (is_some g.claimed_by) id by at db

-- UPDATE … WHERE id = $3 AND claimed_by IS NULL; was a row affected?
unfoldable pub claim_grant : String → String → DateTime → Db → Db × Bool
unfolding claim_found
claim_grant id by at db = claim_found (get_grant id db) id by at db

oldest_first : StoredGrant → StoredGrant → Bool
oldest_first a b =
    ltb a.issued_at b.issued_at || (a.issued_at == b.issued_at && ltb a.created_at b.created_at)

newest_first : StoredGrant → StoredGrant → Bool
newest_first a b =
    ltb b.issued_at a.issued_at || (a.issued_at == b.issued_at && ltb b.created_at a.created_at)

-- `column = $1`, false where the column is NULL.
is_text : Option String → String → Bool
is_text none s = false
is_text (some t) s = str_eq t s

unfoldable pub list_grants_by_notification : String → Db → List StoredGrant
unfolding oldest_first is_text sort_by select
list_grants_by_notification ask db =
    sort_by oldest_first (select (λ g. is_text g.notification_id ask) db.grants)

unfoldable pub list_grants_by_renews : String → Db → List StoredGrant
unfolding oldest_first is_text sort_by select
list_grants_by_renews id db = sort_by oldest_first (select (λ g. is_text g.renews id) db.grants)

-- `record->>'asked_by'` of a record whose `asked_by` is a text.
asked_by : StoredGrant → Option String
asked_by g = elim (get g.record_ "asked_by") [ none ↦ none | some v ↦ as_str v ]

issued_since : DateTime → Option String → StoredGrant → Bool
unfolding asked_by is_text
issued_since since agent g =
    leb since g.issued_at && (elim agent [ none ↦ true | some a ↦ is_text (asked_by g) a ])

unfoldable pub list_grants_since : DateTime → Option String → ℕ → Db → List StoredGrant
unfolding newest_first issued_since sort_by select
list_grants_since since agent limit db =
    take limit (sort_by newest_first (select (issued_since since agent) db.grants))
