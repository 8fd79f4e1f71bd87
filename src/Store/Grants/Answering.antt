-- ===== src/Store/Grants/Answering.antt =====
-- The transaction by which a grant answers its ask.
use mathlib.Core.Option
use mathlib.Core.Option.{some-injective}
use sjbis.Prelude.{
  String, ◌≡◌, ◌≢◌, refl, sym, ap, ◌∙◌, Option, some, ok, arith, str_eq, eq_iff, eq_refl,
  if◌then◌else◌, Bool-cases, inl, inr, from_ok_or, from_bind, ok-injective,
}
use sjbis.Models.Enums.{answered, open_, approval, status_of_text}
use sjbis.Models.Data.{DateTime, microseconds, Notification}
use sjbis.Grants.Records.{GrantRecord, decision_str}
use sjbis.Grants.Answer.{
  GrantAnswer, check_grant_for_notification, grant_answer, check_grant_iff, unwrap_or,
}
use sjbis.Grants.Stored.{StoredGrant}
use sjbis.Store.Table.{get_row-insert_row}
use sjbis.Store.Db.{Db, Row, row_id, grant_key, row_to_notification}
use sjbis.Store.Notifications.{find_row, get_notification, on_row, answer_row}
use sjbis.Store.Notifications.Reads.{find_row-on_row, get_notification-row}
use sjbis.Store.Grants.{get_grant, insert_grant_row, insert_grant_answering, answer_if_open}

-- A notification as the grant answers it.
abbrev pub answered_columns : GrantRecord → DateTime → Notification → Notification
answered_columns grant now n = record n {
  status = answered;
  answer = some (decision_str grant.decision);
  answer_label = some (unwrap_or grant.answer (decision_str grant.decision));
  answered_at = some now;
  note = grant.note;
}

-- What the transaction found and wrote.
pub record Answering (g : StoredGrant) (grant : GrantRecord) (now : DateTime) (db : Db)
    (n : Notification) (db' : Db) : Type 0 where
  pub row : Row
  pub found : find_row grant.ask_id db ≡ some row
  pub is_approval : row.columns.question_type ≡ approval
  pub reads_open : status_of_text row.status ≡ open_
  pub same_question : grant.question ≡ row.columns.question
  pub answered_as : n ≡ answered_columns grant now row.columns
  pub grants : (j : String) → get_grant j db' ≡ (if str_eq g.id j then some g else get_grant j db)
  pub rows :
      (j : String)
      → find_row j db' ≡ (
          if str_eq grant.ask_id j
          then some (answer_if_open (grant_answer grant) now row)
          else find_row j db)

answer_if_open-id :
    (a : GrantAnswer) (now : DateTime) (r : Row) → row_id (answer_if_open a now r) ≡ row_id r
unfolding answer_if_open answer_row
answer_if_open-id a now r = ground arith

pub insert_grant_row-grants :
    (g : StoredGrant) (db : Db) {db' : Db} (j : String)
    → insert_grant_row g db ≡ some db'
    → (get_grant j db' ≡ (if str_eq g.id j then some g else get_grant j db))
      × (db'.notifications ≡ db.notifications)
unfolding insert_grant_row get_grant
insert_grant_row-grants g db j h =
    let (rows, inserted, same) = (Option.map-eq-some_iff _ _).0 h in
    (rw (← same) (get_row-insert_row grant_key j g db.grants inserted), rw (← same))

find_row-same :
    (j : String) (db db' : Db)
    → db'.notifications ≡ db.notifications
    → find_row j db' ≡ find_row j db
unfolding find_row
find_row-same j db db' h = rw h

get_grant-on_row :
    (j id : String) (f : Row → Row) (db : Db) → get_grant j (on_row id f db) ≡ get_grant j db
unfolding get_grant on_row
get_grant-on_row j id f db = refl

answer_columns :
    (grant : GrantRecord) (now : DateTime) (row : Row) (notif : Notification)
    → row_to_notification row ≡ notif
    → ◌≡◌ {A = Notification}
        (record notif {
          status = answered;
          answer = some (grant_answer grant).answer;
          answer_label = some (grant_answer grant).answer_label;
          answered_at = some now;
          note = (grant_answer grant).note;
        })
        (answered_columns grant now row.columns)
unfolding row_to_notification grant_answer
answer_columns grant now row notif same = rw (← same)

rows_after :
    (f : Row → Row) (mid db : Db) (ask : String) (row : Row) {after : Option Row} (j : String)
    → find_row ask db ≡ some row
    → after ≡ (if str_eq ask j then Option.map f (find_row j mid) else find_row j mid)
    → find_row j mid ≡ find_row j db
    → after ≡ (if str_eq ask j then some (f row) else find_row j db)
rows_after f mid db ask row j found step same = elim (Bool-cases (str_eq ask j)) [
  | inl hit ↦
      let at_ask : find_row j db ≡ some row = rw (← (eq_iff ask j).0 hit) found in
      rw hit ((rw hit at step) ∙ ap (Option.map f) (same ∙ at_ask))
  | inr miss ↦ rw miss ((rw miss at step) ∙ same)
]

-- A grant that is stored found its ask as an open approval ask with the signed question, took a
-- fresh id, and the only other write is the answer on that ask's row, if its status text is "open".
pub insert_grant_answering_ok :
    (g : StoredGrant) (grant : GrantRecord) (now : DateTime) (db : Db) {n : Notification} {db' : Db}
    → insert_grant_answering g grant now db ≡ ok (n, db')
    → Answering g grant now db n db'
unfolding insert_grant_answering row_to_notification
insert_grant_answering_ok g grant now db {n} {db'} =
    from_ok_or (get_notification grant.ask_id db) _ _ λ notif read.
      from_bind (check_grant_for_notification grant notif) _ λ _ checked.
        from_ok_or (insert_grant_row g db) _ _ λ mid inserted same.
          let (row, found, columns) = get_notification-row grant.ask_id db notif read in
          let (asked, kind, status, question) = (check_grant_iff grant notif).0 checked in
          let answered_pair = ok-injective same in
          let wrote : on_row notif.id (answer_if_open (grant_answer grant) now) mid ≡ db' =
            ap (λ (p : Notification × Db). p.1) answered_pair in
          record {
            row = row;
            found = found;
            is_approval = ap (λ (m : Notification). m.question_type) columns ∙ kind;
            reads_open = ap (λ (m : Notification). m.status) columns ∙ status;
            same_question = question ∙ sym (ap (λ (m : Notification). m.question) columns);
            answered_as =
                sym (ap (λ (p : Notification × Db). p.0) answered_pair)
                ∙ answer_columns grant now row notif columns;
            grants =
                λ j. rw (← wrote, get_grant-on_row) (insert_grant_row-grants g db j inserted).0;
            rows = λ j. rw (← wrote) (
                rows_after (answer_if_open (grant_answer grant) now) mid db grant.ask_id row j found
                  (simp asked (
                    find_row-on_row notif.id j (answer_if_open (grant_answer grant) now) mid
                      (answer_if_open-id (grant_answer grant) now)))
                  (find_row-same j db mid (insert_grant_row-grants g db j inserted).1));
          }

answer_if_open-open :
    (grant : GrantRecord) (now : DateTime) (row : Row)
    → row.status ≡ "open"
    → row_to_notification (answer_if_open (grant_answer grant) now row)
      ≡ answered_columns grant (microseconds now) row.columns
unfolding answer_if_open answer_row row_to_notification grant_answer
answer_if_open-open grant now row h = rw ((eq_iff row.status "open").1 h)

answer_if_open-other :
    (a : GrantAnswer) (now : DateTime) (row : Row)
    → row.status ≢ "open"
    → answer_if_open a now row ≡ row
unfolding answer_if_open
answer_if_open-other a now row h = elim (Bool-cases (str_eq row.status "open")) [
  | inl hit ↦ absurd (h ((eq_iff row.status "open").0 hit))
  | inr miss ↦ rw miss
]

module _ (g : StoredGrant) (grant : GrantRecord) (now : DateTime) (db : Db) {n : Notification}
    {db' : Db} (row : Row) (stored : insert_grant_answering g grant now db ≡ ok (n, db'))
    (found : find_row grant.ask_id db ≡ some row) where
  row_after :
      (find_row grant.ask_id db' ≡ some (answer_if_open (grant_answer grant) now row))
      × (n ≡ answered_columns grant now row.columns)
  row_after =
      let a = insert_grant_answering_ok g grant now db stored in
      let same : a.row ≡ row = some-injective _ _ (sym a.found ∙ found) in
      (
        a.rows grant.ask_id ∙ rw (eq_refl grant.ask_id) (rw same),
        a.answered_as ∙ ap (λ (r : Row). answered_columns grant now r.columns) same,
      )

  -- A grant that is stored on an ask whose status text is "open" answers it: a read of the ask
  -- gives the notification that was returned, with the decision as its answer, save that the time
  -- of the answer is read back to the microsecond.
  pub answered_reads_back :
      row.status ≡ "open"
      → (get_notification grant.ask_id db'
          ≡ some (answered_columns grant (microseconds now) row.columns))
        × (n ≡ answered_columns grant now row.columns)
  unfolding get_notification
  answered_reads_back open_text =
      (rw (row_after.0, answer_if_open-open grant now row open_text), row_after.1)

  -- A grant that is stored on an ask whose status text is another that reads as open (as the
  -- "timedout" that a waiter writes) is reported as answering it, and leaves every row as it was.
  pub answered_unwritten :
      row.status ≢ "open"
      → (n.status ≡ answered)
        × (get_grant g.id db' ≡ some g)
        × ((j : String) → find_row j db' ≡ find_row j db)
  answered_unwritten other =
      let a = insert_grant_answering_ok g grant now db stored in
      let same : a.row ≡ row = some-injective _ _ (sym a.found ∙ found) in
      (
        ap (λ (m : Notification). m.status) row_after.1,
        a.grants g.id ∙ rw (eq_refl g.id),
        λ j. a.rows j ∙ (elim (Bool-cases (str_eq grant.ask_id j)) [
          | inl hit ↦ rw hit (
              ap some (
                ap (answer_if_open (grant_answer grant) now) same
                ∙ answer_if_open-other _ now row other)
              ∙ sym found
              ∙ ap (λ k. find_row k db) ((eq_iff grant.ask_id j).0 hit))
          | inr miss ↦ rw miss
        ]),
      )
