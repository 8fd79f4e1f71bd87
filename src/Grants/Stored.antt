-- ===== src/Grants/Stored.antt =====
-- src/grants.rs: a row of the `grants` table, its status at a time, and the precondition of a claim.
use Prim.Native.String.{◌++◌ as append}
use sjbis.Prelude.{
  String, Bool, true, false, Option, none, some, ◌&&◌, not, Result, ok, ◌>>◌, ensure, str_eq, leb,
}
use sjbis.Json.{Json, get}
use sjbis.Models.Data.{DateTime, AnswerEnvelope}
use sjbis.Grants.Errors.{GrantError, not_once, already_claimed}
use sjbis.Grants.Records.{Codec, Envelope, kind, signer_of, notification_id, renews_of}
use sjbis.Grants.Verify.{Verified, alg_es256}
use sjbis.Grants.Answer.{via_prefix, or_null}

pub record StoredGrant : Type 0 where
  pub id : String
  pub kind : String
  pub notification_id : Option String
  pub record_ : Json
  pub record_sha256 : String
  pub sig : String
  pub signer : String
  pub issued_at : DateTime
  pub expires_at : Option DateTime
  pub renews : Option String
  pub revoked_by : Option String
  pub claimed_by : Option String
  pub claimed_at : Option DateTime
  pub created_at : DateTime

pub record GrantStatus : Type 0 where
  pub expired : Bool
  pub revoked_by : Option String
  pub claimed_by : Option String
  pub claimed_at : Option DateTime

pub record GrantView : Type 0 where
  pub envelope : Envelope
  pub status : GrantStatus

unfoldable pub is_expired : Option DateTime → DateTime → Bool
is_expired none now = false
is_expired (some exp) now = leb exp now

-- `StoredGrant::from_verified`
unfoldable pub from_verified : Verified → DateTime → StoredGrant
unfolding kind signer_of notification_id renews_of
from_verified v created_at =
    let r = v.parsed.record_ in
    record {
      id = v.envelope.id;
      kind = kind r;
      notification_id = notification_id r;
      record_ = v.envelope.record_;
      record_sha256 = v.envelope.record_sha256;
      sig = v.envelope.sig;
      signer = signer_of r;
      issued_at = v.parsed.issued_at;
      expires_at = v.parsed.expires_at;
      renews = renews_of r;
      revoked_by = none;
      claimed_by = none;
      claimed_at = none;
      created_at = created_at;
    }

-- `StoredGrant::envelope`
unfoldable pub envelope_of : StoredGrant → Envelope
envelope_of g = record {
  id = g.id;
  record_ = g.record_;
  record_sha256 = g.record_sha256;
  alg = alg_es256;
  sig = g.sig;
}

unfoldable pub status_at : StoredGrant → DateTime → GrantStatus
unfolding is_expired
status_at g now = record {
  expired = is_expired g.expires_at now;
  revoked_by = g.revoked_by;
  claimed_by = g.claimed_by;
  claimed_at = g.claimed_at;
}

unfoldable pub view_at : StoredGrant → DateTime → GrantView
unfolding envelope_of status_at
view_at g now = record { envelope = envelope_of g; status = status_at g now }

-- `self.record.get("once") == Some(&Value::Bool(true))`
is_true : Option Json → Bool
is_true (some (Json.bool b)) = b
is_true _ = false

unfoldable pub is_once : StoredGrant → Bool
unfolding is_true
is_once g = str_eq g.kind "grant" && is_true (get g.record_ "once")

unfoldable pub is_some {ℓ} : {A : Type ℓ} → Option A → Bool
is_some none = false
is_some (some a) = true

unfoldable pub attach_to_answer :
    {Key Sig : Type 0} → Codec Key Sig → StoredGrant → AnswerEnvelope → AnswerEnvelope
unfolding envelope_of
attach_to_answer codec g envelope = record envelope {
  via = append via_prefix g.signer;
  grant = some (or_null (codec.value_of_envelope (envelope_of g)));
}

unfoldable pub check_claim : StoredGrant → Result GrantError Unit
unfolding is_some
check_claim g = do
  ensure (is_once g) (not_once g.id)
  ensure (not (is_some g.claimed_by)) (already_claimed g.id)
  ok tt
