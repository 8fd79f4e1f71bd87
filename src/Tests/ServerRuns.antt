-- ===== src/Tests/ServerRuns.antt =====
-- Runs of src/handlers.rs and src/grant_handlers.rs.
use sjbis.Prelude.{
  String, ◌≡◌, ◌≢◌, refl, sym, ap, ◌∙◌, Option, none, some, List, [], ◌∷◌, true, false, ok, pos,
  ◌≤ℤ◌, eq_iff, str_eq, if◌then◌else◌, map,
}
use mathlib.Core.Option.{some-injective}
use sjbis.Models.Enums.{approval}
use sjbis.Models.Data.{Notification}
use sjbis.Models.Duration.{done}
use sjbis.Rules.Evaluate.{Verdict, evaluate}
use sjbis.Grants.Stored.{StoredGrant, view_at}
use sjbis.Store.Db.{Db, Row, empty}
use sjbis.Store.Notifications.{find_row, get_notification}
use sjbis.Store.Registers.{list_rules}
use sjbis.Store.Grants.{get_grant, insert_grant_revoking}
use sjbis.Store.Grants.Claims.{claim_all, first_claim_wins, insert_grant_revoking_ok}
use sjbis.Server.App.{App}
use sjbis.Server.Close.{answer, cancel}
use sjbis.Server.Close.Outcome.{Ends, answer-Ends}
use sjbis.Server.Wait.{wait_timeout, wait_secs}
use sjbis.Server.Wait.Guards.{wait_secs-bounds}
use sjbis.Server.Wait.Unseen.{wait_timeout-unseen}
use sjbis.Server.Grants.{post_grant}
use sjbis.Server.Grants.Posted.{IsPosted, post_grant-IsPosted}
use sjbis.Server.Steps.{answered, cancelled, here, then, approval_needs_grant}
use sjbis.Server.Draft.{existing_ask, ask_limits, build}
use sjbis.Server.Ask.{ask, ask_deadline}
use sjbis.Server.Ask.Unstored.{IsUnstored, known, routed, type_of, auto_answered-IsUnstored}
use sjbis.Tests.Samples.{
  clock, nine, deploybot, waiting_app, deploybot, two_asks, deploy, row_of, yes_answer, ruled_app,
  ack_request,
}
use sjbis.Tests.Signed.{codec, phones, stored, revocation, revoke_body}

answer-Ends_example :
    Ends clock "sjbis-2" yes_answer nine waiting_app
      (answer clock "sjbis-2" yes_answer nine waiting_app)
answer-Ends_example = answer-Ends clock "sjbis-2" yes_answer nine waiting_app

wait_timeout-unseen_example :
    get_notification "sjbis-1" (wait_timeout "sjbis-1" 9 waiting_app).0.db
    ≡ get_notification "sjbis-1" waiting_app.db
wait_timeout-unseen_example = wait_timeout-unseen "sjbis-1" "sjbis-1" 9 waiting_app

wait_secs-bounds_example :
    (pos 0 ≤ℤ wait_secs codec clock "sjbis-1" 9 waiting_app)
    × (wait_secs codec clock "sjbis-1" 9 waiting_app ≤ℤ pos 600)
    × (get_notification "sjbis-1" waiting_app.db ≡ none
        → wait_secs codec clock "sjbis-1" 9 waiting_app ≡ pos 600)
wait_secs-bounds_example = wait_secs-bounds codec clock "sjbis-1" 9 waiting_app

abbrev granted : Db
granted = record two_asks { grants = stored ∷ [] }

stored_found : get_grant "ta-abcdef" granted ≡ some stored
unfolding get_grant sjbis.Store.Table.get_row
stored_found = refl

first_claim_wins_example :
    ((claim_all "ta-abcdef" (("one", 7) ∷ ("two", 8) ∷ []) granted).1 ≡ true ∷ false ∷ [])
    × (get_grant "ta-abcdef" (claim_all "ta-abcdef" (("one", 7) ∷ ("two", 8) ∷ []) granted).0
        ≡ some (record stored { claimed_by = some "one"; claimed_at = some 7 }))
first_claim_wins_example =
    first_claim_wins "ta-abcdef" "one" 7 (("two", 8) ∷ []) granted stored stored_found refl

abbrev revoked : Db
revoked = record two_asks {
  grants = record stored { revoked_by = some "ta-qrstuv" } ∷ revocation ∷ [];
}

revokes : insert_grant_revoking revocation "ta-abcdef" granted ≡ ok revoked
unfolding insert_grant_revoking sjbis.Grants.Stored.is_some get_grant sjbis.Store.Table.get_row
    sjbis.Store.Grants.insert_grant_row sjbis.Store.Table.insert_row sjbis.Store.Table.update_row
revokes = refl

insert_grant_revoking_ok_example :
    (old : StoredGrant) × (get_grant "ta-abcdef" granted ≡ some old)
    × (get_grant "ta-qrstuv" granted ≡ none)
    × ((j : String)
        → get_grant j revoked ≡ (
            if str_eq "ta-qrstuv" j
            then some revocation
            else if str_eq "ta-abcdef" j
            then some (record old {
              revoked_by = elim old.revoked_by [ none ↦ some "ta-qrstuv" | some r ↦ some r ];
            })
            else get_grant j granted))
    × (revoked.notifications ≡ granted.notifications)
insert_grant_revoking_ok_example = insert_grant_revoking_ok revocation "ta-abcdef" granted revokes

abbrev granted_app : App
granted_app = record waiting_app { db = granted }

abbrev revoked_app : App
revoked_app = record waiting_app { db = revoked }

revocation_posted :
    post_grant codec clock (some revoke_body) (ok phones) 6 granted_app
    ≡ ok (revoked_app, view_at revocation 6)
unfolding post_grant sjbis.Grants.Verify.verify_envelope sjbis.Json.get sjbis.Json.as_str
    sjbis.Grants.Verify.parse_record sjbis.Json.is_object sjbis.Grants.Verify.has_null
    sjbis.Grants.Records.version sjbis.Prelude.is_empty sjbis.Grants.Records.signer_of
    sjbis.Grants.Verify.parse_timestamp sjbis.Grants.Records.issued_at_str
    sjbis.Grants.Verify.kind_checks sjbis.Grants.Verify.canonical_bytes
    sjbis.Grants.Verify.record_sha256 sjbis.Grants.Verify.lower_hex sjbis.Grants.Verify.grant_id
    sjbis.Grants.Verify.first_chars sjbis.Grants.Records.get sjbis.Grants.Records.kind
    sjbis.Grants.Records.notification_id sjbis.Grants.Records.renews_of
    sjbis.Grants.Stored.from_verified sjbis.Grants.Stored.is_some sjbis.Json.lookup_field
    sjbis.Server.App.with_db sjbis.Server.Grants.apply_record get_grant insert_grant_revoking
    sjbis.Store.Grants.insert_grant_row sjbis.Store.Grants.on_grant sjbis.Store.Grants.revoke_row
    sjbis.Store.Table.get_row sjbis.Store.Table.has_row sjbis.Store.Table.insert_row
    sjbis.Store.Table.update_row sjbis.Prelude.find
revocation_posted = refl

post_grant-IsPosted_example :
    IsPosted codec clock (some revoke_body) phones 6 granted_app revoked_app (view_at revocation 6)
post_grant-IsPosted_example =
    post_grant-IsPosted codec clock (some revoke_body) phones 6 granted_app revocation_posted

deploy_row : find_row "sjbis-1" two_asks ≡ some (row_of deploy "open")
unfolding find_row sjbis.Store.Table.get_row
deploy_row = refl

deploy_unanswered :
    (s : Row)
    → find_row "sjbis-1" two_asks ≡ some s
    → s.columns.question_type ≡ approval
    → s.status ≢ "answered"
deploy_unanswered s found locked h =
    let same : row_of deploy "open" ≡ s = some-injective _ _ (sym deploy_row ∙ found) in
    cc ((eq_iff "open" "answered").1 (ap (λ (r : Row). r.status) same ∙ h))

after_two :
    find_row "sjbis-1"
      (cancel "sjbis-2" (answer clock "sjbis-1" yes_answer nine waiting_app).0).0.db
    ≡ some (row_of deploy "open")
unfolding find_row sjbis.Store.Table.get_row cancel get_notification answer
    sjbis.Server.Close.check_plain_answer_allowed sjbis.Store.Db.row_to_notification
    sjbis.Server.App.emit sjbis.Server.App.with_db sjbis.Store.Notifications.update_status
    sjbis.Store.Table.update_row
after_two = refl

approval_needs_grant_example : (row_of deploy "open").status ≢ "answered"
approval_needs_grant_example =
    approval_needs_grant clock "sjbis-1" (row_of deploy "open")
      ((then) (answered "sjbis-1" yes_answer nine) ((then) (cancelled "sjbis-2") here))
      deploy_unanswered after_two refl

abbrev drafted_ask : Notification
drafted_ask =
    build ack_request "sjbis-9" 9 (type_of none ack_request 9 ruled_app)
      (routed none ack_request 9 ruled_app) none (none, none)

is_new : existing_ask ack_request.id 9 ruled_app.db ≡ none
unfolding existing_ask
is_new = refl

is_fresh : find_row "sjbis-9" ruled_app.db ≡ none
unfolding find_row sjbis.Store.Table.get_row
is_fresh = refl

is_allowed : ask_limits (type_of none ack_request 9 ruled_app) ack_request ≡ ok (none, none)
unfolding ask_limits sjbis.Models.Resolve.resolve_ttl_secs sjbis.Server.Draft.ask_type
    sjbis.Server.Draft.classified sjbis.Models.Resolve.resolve_once
is_allowed = refl

has_no_deadline : ask_deadline clock ack_request.deadline 9 ≡ some none
unfolding ask_deadline
has_no_deadline = refl

is_ruled :
    evaluate clock 9 (list_rules (known ack_request ruled_app).db) drafted_ask
    ≡ done (record { notif = drafted_ask; auto_answer = some "yes" })
unfolding evaluate sjbis.Rules.Evaluate.apply_rules sjbis.Rules.Evaluate.sort_by_priority list_rules
    sjbis.Server.App.with_db sjbis.Store.Registers.get_or_create_agent sjbis.Store.Table.get_row
    sjbis.Rules.Evaluate.apply_rule sjbis.Rules.Evaluate.in_force
    sjbis.Rules.Evaluate.apply_compiled sjbis.Rules.Match.match_rule sjbis.Json.get
    sjbis.Json.as_str sjbis.Rules.Evaluate.apply_action sjbis.Prelude.strip_prefix
    sjbis.Rules.Evaluate.clear_for_approval sjbis.Models.Enums.is_approval build
    sjbis.Json.lookup_field sjbis.Rules.Evaluate.insert_by_priority
    sjbis.Store.Registers.agent_or_new sjbis.Server.Draft.ask_type sjbis.Server.Draft.classified
    sjbis.Prelude.Lists.sort_by sjbis.Prelude.Lists.insert_sorted
is_ruled = refl

auto_answered-IsUnstored_example :
    IsUnstored ruled_app (ask clock none ack_request "sjbis-9" 9 ruled_app)
auto_answered-IsUnstored_example =
    auto_answered-IsUnstored clock none ack_request "sjbis-9" 9 ruled_app
      {v = record { notif = drafted_ask; auto_answer = some "yes" }} is_new is_fresh is_allowed
      has_no_deadline is_ruled refl

-- The same request where no rule stands.
abbrev quiet_app : App
quiet_app = record waiting_app {
  db = record two_asks { agents = deploybot ∷ []; device_tokens = "phone" ∷ [] };
}

abbrev quiet_ask : Notification
quiet_ask =
    build ack_request "sjbis-9" 9 (type_of none ack_request 9 quiet_app)
      (routed none ack_request 9 quiet_app) none (none, none)
