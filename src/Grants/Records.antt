-- ===== src/Grants/Records.antt =====
-- src/grants.rs: the signed envelope, the typed records, the signer registry, and what the module
-- takes from other crates (serde, chrono, JCS, SHA-256, base32, base64, P-256), as a parameter.
pub mod Pinned
use sjbis.Prelude.{
  ℕ, String, Bool, false, Option, none, some, List, [], ◌∷◌, ◌++◌, ◌||◌, not, Result, ok, err,
  ◌>>=◌, ok_or, if◌then◌else◌, ◌==◌, is_empty, str_eq, length, find, any,
}
use sjbis.Json.{Json}
use sjbis.Models.Data.{DateTime}

pub record Envelope : Type 0 where
  pub id : String
  pub record_ : Json
  pub record_sha256 : String
  pub alg : String
  pub sig : String

pub data Decision : Type 0 where
  approve deny : Decision

-- `Decision::as_str`
unfoldable pub decision_str : Decision → String
decision_str approve = "approve"
decision_str deny = "deny"

pub record GrantRecord : Type 0 where
  pub v : ℕ
  pub ask_id : String
  pub asked_by : String
  pub question : String
  pub decision : Decision
  pub answer : Option String
  pub note : Option String
  pub issued_at : String
  pub expires_at : String
  pub once : Option Bool
  pub renews : Option String
  pub signer : String

pub record RevokeRecord : Type 0 where
  pub v : ℕ
  pub target : String
  pub reason : Option String
  pub issued_at : String
  pub signer : String

pub record EnrollRecord : Type 0 where
  pub v : ℕ
  pub signer_id : String
  pub method : String
  pub device : Option String
  pub pubkey : String
  pub issued_at : String
  pub signer : String

pub data Record : Type 0 where
  grant : GrantRecord → Record
  revoke : RevokeRecord → Record
  enroll : EnrollRecord → Record

unfoldable pub kind : Record → String
kind (grant r) = "grant"
kind (revoke r) = "revoke"
kind (enroll r) = "enroll"

unfoldable pub signer_of : Record → String
signer_of (grant r) = r.signer
signer_of (revoke r) = r.signer
signer_of (enroll r) = r.signer

unfoldable pub version : Record → ℕ
version (grant r) = r.v
version (revoke r) = r.v
version (enroll r) = r.v

unfoldable pub issued_at_str : Record → String
issued_at_str (grant r) = r.issued_at
issued_at_str (revoke r) = r.issued_at
issued_at_str (enroll r) = r.issued_at

unfoldable pub notification_id : Record → Option String
notification_id (grant r) = some r.ask_id
notification_id (revoke r) = none
notification_id (enroll r) = none

unfoldable pub renews_of : Record → Option String
renews_of (grant r) = r.renews
renews_of (revoke r) = none
renews_of (enroll r) = none

-- What the module calls in other crates. `jcs` is `serde_jcs::to_vec`, `parse_naive` chrono's
-- `NaiveDateTime::parse_from_str` under the format of the source, `format_timestamp` its printing
-- under that format, `verify` the P-256 verifier.
pub record Codec (Key Sig : Type 0) : Type 0 where
  pub envelope_of_value : Json → Option Envelope
  pub record_of_value : Json → Option Record
  pub value_of_envelope : Envelope → Option Json
  pub parse_naive : String → Option DateTime
  pub format_timestamp : DateTime → String
  pub jcs : Json → Option (List ℕ)
  pub sha256 : List ℕ → List ℕ
  pub base32_lower : List ℕ → String
  pub base64_decode : String → Option (List ℕ)
  pub from_sec1 : List ℕ → Option Key
  pub from_der : List ℕ → Option Sig
  pub verify : Key → List ℕ → Sig → Bool

pub record Signer : Type 0 where
  pub id : String
  pub method : String
  pub device : Option String
  pub pubkey : String
  pub added : Option Json

pub record RegistryEntry (Key : Type 0) : Type 0 where
  pub signer : Signer
  pub key : Key

-- `Registry`: its entries in file order.
abbrev pub Registry : Type 0 → Type 0
Registry Key = List (RegistryEntry Key)

-- `Registry::get`
unfoldable pub get : {Key : Type 0} → Registry Key → String → Option (RegistryEntry Key)
unfolding find
get entries id = find (λ e. str_eq e.signer.id id) entries

starts_with_4 : List ℕ → Bool
starts_with_4 [] = false
starts_with_4 (b ∷ bs) = b == 4

module _ {Key Sig : Type 0} (codec : Codec Key Sig) where
  -- `decode_pubkey`: base64 of exactly 65 bytes that begin with 0x04 and are a point.
  unfoldable pub decode_pubkey : String → Result String Key
  unfolding starts_with_4
  decode_pubkey b64 = do
    bytes ← ok_or (codec.base64_decode b64) "pubkey is not standard base64"
    if not (length bytes == 65) || not (starts_with_4 bytes)
        then err "pubkey must be a 65-byte SEC1 uncompressed point"
        else ok_or (codec.from_sec1 bytes) "pubkey is not a valid P-256 point"

  -- The loop of `Registry::parse` over the file's signers, `entries` being those read so far.
  unfoldable pub parse_signers : Registry Key → List Signer → Result String (Registry Key)
  unfolding any decode_pubkey
  parse_signers entries [] = ok entries
  parse_signers entries (s ∷ rest) =
      if is_empty s.id
      then err "signer with empty id"
      else if any (λ e. str_eq e.signer.id s.id) entries
      then err "duplicate signer id"
      else elim (decode_pubkey s.pubkey) [
        | err m ↦ err m
        | ok key ↦ parse_signers (entries ++ (record { signer = s; key = key } ∷ [])) rest
      ]

  unfoldable pub parse_registry : List Signer → Result String (Registry Key)
  unfolding parse_signers
  parse_registry signers = parse_signers [] signers
