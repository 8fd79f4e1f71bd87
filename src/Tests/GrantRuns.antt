-- ===== src/Tests/GrantRuns.antt =====
-- Runs of src/grants.rs and of the transactions of src/db.rs.
use sjbis.Prelude.{String, ◌≡◌, ◌↔◌, refl, some, ok, is_empty, [], ◌∷◌, eq_iff}
use sjbis.Json.{get, as_str, lookup_field, is_object}
use sjbis.Models.Enums.{answered}
use sjbis.Grants.Verify.{
  parse_record, verify_envelope, parse_timestamp, kind_checks, canonical_bytes, record_sha256,
  grant_id, lower_hex, first_chars, has_null, fields_have_null,
}
use sjbis.Grants.Records.{signer_of, version, issued_at_str, decision_str}
use sjbis.Grants.Verify.Structure.{WellFormed, parse_record_iff}
use sjbis.Prelude.{none, pos, arith, ◌+◌, ◌*◌, str_eq, if◌then◌else◌, pos_part, neg_part}
use sjbis.Models.Data.{DateTime, microseconds}
use sjbis.Grants.Verify.Refusals.{Refuses, verify_envelope-Refuses}
use sjbis.Grants.Records.{parse_registry}
use sjbis.Grants.Records.Pinned.{IsRegistry, parse_registry-IsRegistry}
use sjbis.Store.Notifications.{snooze_notification}
use sjbis.Store.Notifications.Snoozed.{IsEarlier, snooze_notification-capped}
use sjbis.Tests.Signed.{phone}
use sjbis.Grants.Verify.Authentic.{IsAuthentic, verify_envelope_iff}
use sjbis.Grants.Answer.{check_grant_for_notification, check_grant_iff, grant_answer}
use sjbis.Store.Db.{Db, row_to_notification, empty}
use sjbis.Store.Table.{get_row, insert_row, update_row}
use sjbis.Store.Notifications.{find_row, get_notification, on_row, answer_row}
use sjbis.Store.Grants.{insert_grant_answering, insert_grant_row, get_grant}
use sjbis.Store.Grants.Answering.{
  Answering, answered_columns, insert_grant_answering_ok, answered_reads_back, answered_unwritten,
}
use sjbis.Tests.Samples.{two_asks, deploy, notice, row_of}
use sjbis.Tests.Signed.{codec, grant_json, grant_body, phones, approved, verified, stored}

accepted : verify_envelope codec grant_body phones ≡ ok verified
unfolding verify_envelope parse_record parse_timestamp kind_checks canonical_bytes record_sha256
    grant_id lower_hex first_chars has_null fields_have_null signer_of version issued_at_str get
    lookup_field as_str is_object sjbis.Grants.Records.get is_empty
accepted = refl

verify_envelope_iff_example : IsAuthentic codec grant_body phones verified
verify_envelope_iff_example = (verify_envelope_iff codec grant_body phones verified).0 accepted

parse_record_iff_example :
    (parse_record codec grant_json ≡ ok verified.parsed)
    ↔ WellFormed codec grant_json verified.parsed
parse_record_iff_example = parse_record_iff codec grant_json verified.parsed

check_grant_iff_example : check_grant_for_notification approved deploy ≡ ok tt
check_grant_iff_example = (check_grant_iff approved deploy).1 (refl, refl, refl, refl)

abbrev answered_db : Db
answered_db = record empty {
  notifications =
      record {
        columns = record deploy {
          answer = some "approve";
          answer_label = some "approve";
          answered_at = some 1000;
        };
        status = "answered";
      }
      ∷ row_of notice "open"
      ∷ [];
  grants = stored ∷ [];
}

grant_answers :
    insert_grant_answering stored approved 1005 two_asks
    ≡ ok (answered_columns approved 1005 deploy, answered_db)
unfolding insert_grant_answering get_notification find_row get_row check_grant_for_notification
    row_to_notification insert_grant_row insert_row decision_str grant_answer on_row update_row
    answer_row microseconds
grant_answers = refl

insert_grant_answering_ok_example :
    Answering stored approved 1005 two_asks (answered_columns approved 1005 deploy) answered_db
insert_grant_answering_ok_example =
    insert_grant_answering_ok stored approved 1005 two_asks grant_answers

deploy_found : find_row "sjbis-1" two_asks ≡ some (row_of deploy "open")
unfolding find_row get_row
deploy_found = refl

answered_reads_back_example :
    (get_notification "sjbis-1" answered_db
      ≡ some (answered_columns approved (microseconds 1005) deploy))
    × (answered_columns approved 1005 deploy ≡ answered_columns approved 1005 deploy)
answered_reads_back_example =
    answered_reads_back stored approved 1005 two_asks (row_of deploy "open") grant_answers
      deploy_found refl

-- The ask after a waiter's time was up.
abbrev late_db : Db
late_db = record empty { notifications = row_of deploy "timedout" ∷ [] }

abbrev late_after : Db
late_after = record late_db { grants = stored ∷ [] }

grant_accepted_late :
    insert_grant_answering stored approved 1005 late_db
    ≡ ok (answered_columns approved 1005 deploy, late_after)
unfolding insert_grant_answering get_notification find_row get_row check_grant_for_notification
    row_to_notification insert_grant_row insert_row decision_str grant_answer on_row update_row
grant_accepted_late = refl

late_found : find_row "sjbis-1" late_db ≡ some (row_of deploy "timedout")
unfolding find_row get_row
late_found = refl

answered_unwritten_example :
    (answered ≡ answered)
    × (get_grant "ta-abcdef" late_after ≡ some stored)
    × ((j : String) → find_row j late_after ≡ find_row j late_db)
answered_unwritten_example =
    answered_unwritten stored approved 1005 late_db (row_of deploy "timedout") grant_accepted_late
      late_found (λ h. cc ((eq_iff "timedout" "open").1 h))

verify_envelope-Refuses_example : Refuses (verify_envelope codec grant_body [])
verify_envelope-Refuses_example = verify_envelope-Refuses codec grant_body []

one_phone : parse_registry codec (phone ∷ []) ≡ ok phones
unfolding parse_registry is_empty
one_phone = refl

parse_registry-IsRegistry_example : IsRegistry codec phones (phone ∷ [])
parse_registry-IsRegistry_example = parse_registry-IsRegistry codec (phone ∷ []) one_phone

deploy_read : get_notification "sjbis-1" two_asks ≡ some deploy
unfolding get_notification find_row get_row row_to_notification
deploy_read = refl

snooze_notification-capped_example :
    (proposed : DateTime) × (at : DateTime) × (proposed + neg_part (pos 5) * 60000000000
      ≡ microseconds 9 + pos_part (pos 5) * 60000000000)
    × IsEarlier proposed none at
    × ((snooze_notification "sjbis-1" (pos 5) 9 two_asks).1
        ≡ some (record deploy { snooze_until = some at }))
    × ((j : String)
        → get_notification j (snooze_notification "sjbis-1" (pos 5) 9 two_asks).0 ≡ (
            if str_eq "sjbis-1" j
            then some (record deploy { snooze_until = some at })
            else get_notification j two_asks))
snooze_notification-capped_example =
    snooze_notification-capped "sjbis-1" (pos 5) 9 two_asks deploy deploy_read (omega arith)
