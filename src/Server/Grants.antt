-- ===== src/Server/Grants.antt =====
-- src/grant_handlers.rs: the handlers of the signed grants. A body comes parsed (`none` where it is
-- not JSON), the signer registry as `Registry::load` answers.
pub mod Posted
pub mod Claimed
use Prim.Native.String.{◌++◌ as append}
use sjbis.Prelude.{
  ℕ, String, Bool, true, false, Option, none, some, List, map, Result, ok, err, ◌>>=◌, ◌>>◌, ensure,
  ok_or, if◌then◌else◌, is_empty, trim, codes, ltb, length,
}
use sjbis.Json.{Json}
use sjbis.Models.Data.{DateTime, Notification, notification_answered}
use sjbis.Models.Duration.{Chrono}
use sjbis.Grants.Errors.{
  GrantError, malformed, registry, grant_not_found, already_claimed, http_status, code,
}
use sjbis.Grants.Records.{
  Codec, Registry, Record, grant, revoke, enroll, GrantRecord, decision_str, Envelope,
}
use sjbis.Grants.Verify.{Verified, verify_envelope}
use sjbis.Grants.Answer.{grant_answer_envelope}
use sjbis.Grants.Stored.{
  StoredGrant, GrantView, GrantStatus, from_verified, view_at, status_at, check_claim,
}
use sjbis.Store.Db.{Db}
use sjbis.Store.Grants.{
  insert_grant_answering, insert_grant_revoking, insert_grant_only, get_grant, claim_grant,
  list_grants_by_notification, list_grants_by_renews, list_grants_since,
}
use sjbis.Server.App.{
  App, Response, reply, refuse, broadcast, push_closed, deliver, emit, wake_waiter, with_db,
}

-- A handler's reply: its body, or `grant_err` of the error.
unfoldable pub respond : {A : Type 0} → Result GrantError A → Response A
respond (ok a) = reply a
respond (err e) = refuse (http_status e) (code e)

unfoldable pub load_grant : String → App → Result GrantError StoredGrant
load_grant id app = ok_or (get_grant id app.db) (grant_not_found id)

-- GET /grants/{id}
unfoldable pub view_grant : String → DateTime → App → Result GrantError GrantView
unfolding load_grant
view_grant id now app = do g ← load_grant id app; ok (view_at g now)

-- GET /grants/{id}/status
unfoldable pub get_grant_status : String → DateTime → App → Result GrantError GrantStatus
unfolding load_grant
get_grant_status id now app = do g ← load_grant id app; ok (status_at g now)

-- The middle dot between blanks of the text that is pushed.
separator : String
separator = " · "

module _ {Key Sig : Type 0} (codec : Codec Key Sig) (chrono : Chrono) where
  -- What follows the transaction of a grant: wake the waiter, broadcast, push, deliver.
  unfoldable pub announce : GrantRecord → Envelope → String → DateTime → Notification → App → App
  unfolding separator
  announce record_ envelope stored_id now notif app =
      let answer = grant_answer_envelope codec chrono notif record_ envelope now in
      let what =
        append (decision_str record_.decision)
          (append separator (append stored_id (append " by " record_.signer))) in
      let told =
        emit (broadcast (notification_answered answer)) (wake_waiter notif.id answer app) in
      emit (deliver notif answer) (emit (push_closed notif.id notif.agent_name what) told)

  -- The `match verified.record()`.
  unfoldable pub apply_record :
      Record → Verified → StoredGrant → DateTime → App → Result GrantError App
  apply_record (grant r) v stored now app = do
    (notif, db) ← insert_grant_answering stored r now app.db
    ok (announce r v.envelope stored.id now notif (with_db db app))
  apply_record (revoke r) v stored now app = do
    db ← insert_grant_revoking stored r.target app.db
    ok (with_db db app)
  apply_record (enroll r) v stored now app = do
    db ← insert_grant_only stored app.db
    ok (with_db db app)

  -- POST /grants; an `err` leaves the state as it was.
  unfoldable pub post_grant :
      Option Json
      → Result String (Registry Key)
      → DateTime
      → App
      → Result GrantError (App × GrantView)
  unfolding apply_record
  post_grant body (err m) now app = do
    _ ← ok_or body (malformed "body is not JSON")
    err (registry m)
  post_grant body (ok signers) now app = do
    raw ← ok_or body (malformed "body is not JSON")
    v ← verify_envelope codec raw signers
    let stored = from_verified v now
    app' ← apply_record v.parsed.record_ v stored now app
    ok (app', view_at stored now)

-- `parse_claim_body` on the field `by` of the decoded body (`none` where it does not decode).
unfoldable pub parse_claim_body : Option String → Result GrantError String
parse_claim_body body = do
  by ← ok_or body (malformed "claim body")
  ensure (ltb 0 (length (trim (codes by)))) (malformed "claim `by` is empty")
  ok by

claimed : Db × Bool → String → DateTime → App → Result GrantError (App × GrantView)
claimed (db, false) id now app = err (already_claimed id)
claimed (db, true) id now app = do
  g ← load_grant id (with_db db app)
  ok (with_db db app, view_at g now)

-- POST /grants/{id}/claim
unfoldable pub claim : String → Option String → DateTime → App → Result GrantError (App × GrantView)
unfolding claimed
claim id body now app = do
  by ← parse_claim_body body
  g ← load_grant id app
  check_claim g
  claimed (claim_grant id by now app.db) id now app

pub record ListQuery : Type 0 where
  pub ask : Option String
  pub renews : Option String
  pub since : Option String
  pub agent : Option String
  pub limit : Option ℕ

pub data ListFilter : Type 0 where
  by_ask : String → ListFilter
  by_renews : String → ListFilter
  by_since : DateTime → Option String → ℕ → ListFilter

non_empty : Option String → Option String
non_empty none = none
non_empty (some s) = if is_empty s then none else some s

clamp_limit : Option ℕ → ℕ
clamp_limit none = 200
clamp_limit (some n) = if ltb n 1 then 1 else if ltb 1000 n then 1000 else n

one_parameter : GrantError
one_parameter = malformed "pass exactly one non-empty query parameter"

-- A non-empty text, to go on with.
given : String → Result GrantError ListFilter → Result GrantError ListFilter
unfolding one_parameter
given s m = if is_empty s then err one_parameter else m

module _ (chrono : Chrono) where
  since_filter : String → Option String → Option ℕ → Result GrantError ListFilter
  unfolding non_empty clamp_limit
  since_filter t agent limit = do
    at ← ok_or (chrono.parse_rfc3339 t) (malformed "since: not an RFC 3339 timestamp")
    ok (by_since at (non_empty agent) (clamp_limit limit))

  chosen :
      Option String
      → Option String
      → Option String
      → Option String
      → Option ℕ
      → Result GrantError ListFilter
  unfolding given since_filter one_parameter
  chosen (some a) none none agent limit = given a (ok (by_ask a))
  chosen none (some r) none agent limit = given r (ok (by_renews r))
  chosen none none (some t) agent limit = given t (since_filter t agent limit)
  chosen _ _ _ agent limit = err one_parameter

  unfoldable pub list_filter : ListQuery → Result GrantError ListFilter
  unfolding chosen
  list_filter q = chosen q.ask q.renews q.since q.agent q.limit

  listed : ListFilter → Db → List StoredGrant
  listed (by_ask id) db = list_grants_by_notification id db
  listed (by_renews id) db = list_grants_by_renews id db
  listed (by_since at agent limit) db = list_grants_since at agent limit db

  -- GET /grants
  unfoldable pub list_grants : ListQuery → DateTime → App → Result GrantError (List GrantView)
  unfolding listed
  list_grants q now app = do f ← list_filter q; ok (map (λ g. view_at g now) (listed f app.db))
