-- ===== src/Tests/Signed.antt =====
-- A codec on which the grant code can run: an envelope is an object of texts and a record, the
-- canonical bytes of a record are one byte, and a signature is right where it is that byte.
use sjbis.Prelude.{
  ℕ, zero, suc, String, Option, none, some, List, [], ◌∷◌, if◌then◌else◌, str_eq, ◌==◌,
}
use sjbis.Json.{Json, field, end, get, as_str}
use sjbis.Models.Data.{DateTime}
use sjbis.Grants.Records.{
  Codec, Signer, Envelope, approve, GrantRecord, RevokeRecord, Record, grant, revoke, Registry,
}
use sjbis.Grants.Verify.{Verified}
use sjbis.Grants.Stored.{StoredGrant}

abbrev text_at : Json → String → Option String
text_at v k = elim (get v k) [ none ↦ none | some x ↦ as_str x ]

abbrev or_empty : Option String → String
or_empty none = ""
or_empty (some s) = s

abbrev read_envelope : Json → Option Envelope
read_envelope v = elim (get v "record") [
  | none ↦ none
  | some r ↦ some (record {
    id = or_empty (text_at v "id");
    record_ = r;
    record_sha256 = or_empty (text_at v "record_sha256");
    alg = or_empty (text_at v "alg");
    sig = or_empty (text_at v "sig");
  })
]

abbrev pub approve_of : String → String → GrantRecord
approve_of ask question = record {
  v = 1;
  ask_id = ask;
  asked_by = "deploybot";
  question = question;
  decision = approve;
  answer = none;
  note = none;
  issued_at = "t1";
  expires_at = "t2";
  once = none;
  renews = none;
  signer = "phone";
}

abbrev revoke_of : String → RevokeRecord
revoke_of target = record {
  v = 1;
  target = target;
  reason = none;
  issued_at = "t1";
  signer = "phone";
}

abbrev revoke_or_grant : Option String → Json → Record
revoke_or_grant none v =
    grant (approve_of (or_empty (text_at v "ask_id")) (or_empty (text_at v "question")))
revoke_or_grant (some target) v = revoke (revoke_of target)

abbrev read_record : Json → Option Record
read_record v = some (revoke_or_grant (text_at v "target") v)

abbrev read_time : String → Option DateTime
read_time s = if str_eq s "t1" then some 1 else if str_eq s "t2" then some 2 else none

abbrev print_time : DateTime → String
print_time t = if t == 1 then "t1" else "t2"

abbrev write_envelope : Envelope → Option Json
write_envelope e = some (Json.obj (field "id" (Json.str e.id) (field "record" e.record_ end)))

abbrev bytes_of : Json → List ℕ
bytes_of v = elim (text_at v "target") [ none ↦ 171 ∷ [] | some s ↦ 205 ∷ [] ]

abbrev base32 : List ℕ → String
base32 bytes = elim bytes [ [] ↦ "empty" | b ∷ bs ↦ if b == 171 then "abcdefgh" else "qrstuvwx" ]

abbrev zeros : ℕ → List ℕ
zeros zero = []
zeros (suc n) = 0 ∷ zeros n

abbrev decode : String → Option (List ℕ)
decode s = some (if str_eq s "good" then 1 ∷ [] else if str_eq s "point" then 4 ∷ zeros 64 else [])

abbrev pub codec : Codec ℕ ℕ
codec = record {
  envelope_of_value = read_envelope;
  record_of_value = read_record;
  value_of_envelope = write_envelope;
  parse_naive = read_time;
  format_timestamp = print_time;
  jcs = λ v. some (bytes_of v);
  sha256 = λ bytes. bytes;
  base32_lower = base32;
  base64_decode = decode;
  from_sec1 = λ bytes. some 1;
  from_der = λ bytes. elim bytes [ [] ↦ none | b ∷ bs ↦ some b ];
  verify = λ key bytes sig. key == sig;
}

abbrev pub grant_json : Json
grant_json =
    Json.obj (field "ask_id" (Json.str "sjbis-1") (field "question" (Json.str "Deploy?") end))

abbrev pub grant_envelope : Envelope
grant_envelope = record {
  id = "ta-abcdef";
  record_ = grant_json;
  record_sha256 = "ab";
  alg = "es256";
  sig = "good";
}

abbrev pub grant_body : Json
grant_body = Json.obj (
    field "id" (Json.str "ta-abcdef") (
      field "record_sha256" (Json.str "ab") (
        field "alg" (Json.str "es256")
          (field "sig" (Json.str "good") (field "record" grant_json end)))))

abbrev pub phone : Signer
phone = record { id = "phone"; method = "passkey"; device = none; pubkey = "point"; added = none }

abbrev pub phones : Registry ℕ
phones = record { signer = phone; key = 1 } ∷ []

abbrev pub approved : GrantRecord
approved = approve_of "sjbis-1" "Deploy?"

abbrev pub verified : Verified
verified = record {
  envelope = grant_envelope;
  parsed = record { record_ = grant approved; issued_at = 1; expires_at = some 2 };
}

abbrev pub stored : StoredGrant
stored = record {
  id = "ta-abcdef";
  kind = "grant";
  notification_id = some "sjbis-1";
  record_ = grant_json;
  record_sha256 = "ab";
  sig = "good";
  signer = "phone";
  issued_at = 1;
  expires_at = some 2;
  renews = none;
  revoked_by = none;
  claimed_by = none;
  claimed_at = none;
  created_at = 5;
}

-- A revocation of that grant.
abbrev pub revoke_json : Json
revoke_json = Json.obj (field "target" (Json.str "ta-abcdef") end)

abbrev pub revoke_body : Json
revoke_body = Json.obj (
    field "id" (Json.str "ta-qrstuv") (
      field "record_sha256" (Json.str "cd") (
        field "alg" (Json.str "es256")
          (field "sig" (Json.str "good") (field "record" revoke_json end)))))

abbrev pub revocation : StoredGrant
revocation = record {
  id = "ta-qrstuv";
  kind = "revoke";
  notification_id = none;
  record_ = revoke_json;
  record_sha256 = "cd";
  sig = "good";
  signer = "phone";
  issued_at = 1;
  expires_at = none;
  renews = none;
  revoked_by = none;
  claimed_by = none;
  claimed_at = none;
  created_at = 6;
}
