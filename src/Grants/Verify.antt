-- ===== src/Grants/Verify.antt =====
-- src/grants.rs: `parse_record` (structure) and `verify_envelope` (structure, hash, id, signer and
-- signature, in that order).
pub mod Refusals
pub mod Structure
pub mod Authentic
use Prim.Native.Char.{Char}
use Prim.Native.String.{◌++◌ as append}
use sjbis.Prelude.{
  ℕ, zero, suc, ◌/◌, ◌%◌, String, Bool, true, false, Option, none, some, List, [], ◌∷◌, ◌||◌, not,
  Result, ok, err, ◌>>=◌, ◌>>◌, ensure, ok_or, if◌then◌else◌, ◌==◌, leb, is_empty, str_eq, length,
  map,
}
use sjbis.Json.{
  Json, null, bool, int, float, str, arr, obj, Items, nil, cons, Fields, end, field, is_object,
}
use sjbis.Models.Data.{DateTime}
use sjbis.Grants.Errors.{
  GrantError, malformed, unsupported_alg, hash_mismatch, id_mismatch, unknown_signer, bad_signature,
}
use sjbis.Grants.Records.{
  Envelope, Record, grant, revoke, enroll, GrantRecord, Codec, Registry, RegistryEntry, signer_of,
  version, issued_at_str, get, decode_pubkey,
}

abbrev pub alg_es256 : String
alg_es256 = "es256"

-- `reject_nulls`: is there a `null` at any depth?
unfoldable mutual
  pub has_null : Json → Bool
  has_null null = true
  has_null (bool b) = false
  has_null (int z) = false
  has_null (float b) = false
  has_null (str s) = false
  has_null (arr xs) = items_have_null xs
  has_null (obj fs) = fields_have_null fs

  pub items_have_null : Items → Bool
  items_have_null nil = false
  items_have_null (cons x xs) = has_null x || items_have_null xs

  pub fields_have_null : Fields → Bool
  fields_have_null end = false
  fields_have_null (field k v fs) = has_null v || fields_have_null fs

pub record ParsedRecord : Type 0 where
  pub record_ : Record
  pub issued_at : DateTime
  pub expires_at : Option DateTime

pub record Verified : Type 0 where
  pub envelope : Envelope
  pub parsed : ParsedRecord

-- The character of a hexadecimal digit.
hex_digit : ℕ → Char
hex_digit n =
    if n == 0
    then "0"
    else if n == 1
    then "1"
    else if n == 2
    then "2"
    else if n == 3
    then "3"
    else if n == 4
    then "4"
    else if n == 5
    then "5"
    else if n == 6
    then "6"
    else if n == 7
    then "7"
    else if n == 8
    then "8"
    else if n == 9
    then "9"
    else if n == 10
    then "a"
    else if n == 11
    then "b"
    else if n == 12
    then "c"
    else if n == 13
    then "d"
    else if n == 14
    then "e"
    else "f"

unfoldable pub lower_hex : List ℕ → String
unfolding hex_digit
lower_hex [] = String.[]
lower_hex (b ∷ bs) =
    String.◌∷◌ (hex_digit (b / 16)) (String.◌∷◌ (hex_digit (b % 16)) (lower_hex bs))

-- `&s[..n]` on an ASCII text that is long enough.
unfoldable pub first_chars : ℕ → String → String
first_chars zero s = String.[]
first_chars (suc n) String.[] = String.[]
first_chars (suc n) (String.◌∷◌ c s) = String.◌∷◌ c (first_chars n s)

-- `.map_err(|e| malformed(…))?`
abbrev pub or_malformed : {A : Type 0} → Result String A → Result GrantError A
or_malformed (ok a) = ok a
or_malformed (err m) = err (malformed m)

module _ {Key Sig : Type 0} (codec : Codec Key Sig) where
  unfoldable pub parse_timestamp : String → Result String DateTime
  parse_timestamp s = do
    dt ← ok_or (codec.parse_naive s) "timestamp is not RFC 3339 UTC YYYY-MM-DDTHH:MM:SSZ"
    if str_eq (codec.format_timestamp dt) s
        then ok dt
        else err "timestamp is not in canonical second-precision form"

  -- The `match &record` of `parse_record`: the kind's own checks, giving the expiry of a grant.
  unfoldable pub kind_checks : Record → DateTime → Result GrantError (Option DateTime)
  kind_checks (grant g) issued = do
    exp ← or_malformed (parse_timestamp g.expires_at)
    if leb exp issued
        then err (malformed "record.expires_at must be after record.issued_at")
        else ok (some exp)
  kind_checks (enroll e) issued = do _ ← or_malformed (decode_pubkey codec e.pubkey); ok none
  kind_checks (revoke r) issued = ok none

  unfoldable pub parse_record : Json → Result GrantError ParsedRecord
  parse_record value = do
    ensure (is_object value) (malformed "record must be a JSON object")
    ensure (not (has_null value)) (malformed "null; omit optional fields instead")
    r ← ok_or (codec.record_of_value value) (malformed "record")
    ensure (version r == 1) (malformed "record.v must be 1")
    ensure (not (is_empty (signer_of r))) (malformed "record.signer is empty")
    issued ← or_malformed (parse_timestamp (issued_at_str r))
    expires ← kind_checks r issued
    ok (record { record_ = r; issued_at = issued; expires_at = expires })

  unfoldable pub canonical_bytes : Json → Result GrantError (List ℕ)
  canonical_bytes value = ok_or (codec.jcs value) (malformed "cannot canonicalize record")

  unfoldable pub record_sha256 : List ℕ → String
  record_sha256 canonical = lower_hex (codec.sha256 canonical)

  unfoldable pub grant_id : List ℕ → String
  grant_id canonical = append "ta-" (first_chars 6 (codec.base32_lower (codec.sha256 canonical)))

  unfoldable pub verify_envelope : Json → Registry Key → Result GrantError Verified
  verify_envelope raw registry = do
    envelope ← ok_or (codec.envelope_of_value raw) (malformed "envelope")
    ensure (str_eq envelope.alg alg_es256) (unsupported_alg envelope.alg)
    parsed ← parse_record envelope.record_
    canonical ← canonical_bytes envelope.record_
    ensure (str_eq (record_sha256 canonical) envelope.record_sha256) hash_mismatch
    ensure (str_eq (grant_id canonical) envelope.id) (id_mismatch (grant_id canonical) envelope.id)
    let signer_id = signer_of parsed.record_
    entry ← ok_or (get registry signer_id) (unknown_signer signer_id)
    der ← ok_or (codec.base64_decode envelope.sig) (bad_signature "sig is not standard base64")
    sig ← ok_or (codec.from_der der) (bad_signature "sig is not a DER ECDSA signature")
    ensure (codec.verify entry.key canonical sig)
        (bad_signature "signature does not verify for signer")
    ok (record { envelope = envelope; parsed = parsed })
