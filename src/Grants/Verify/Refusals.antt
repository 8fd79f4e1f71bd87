-- ===== src/Grants/Verify/Refusals.antt =====
-- The refusals of `verify_envelope`.
use sjbis.Prelude.{
  String, ◌≡◌, ◌⊎◌, inl, inr, refl, Bool, true, false, Option, none, some, Result, ok, err, ◌>>=◌,
  ◌>>◌, ensure, ok_or, leb, str_eq, is_empty, not, if◌then◌else◌, ◌==◌,
}
use sjbis.Json.{Json, is_object}
use sjbis.Models.Data.{DateTime}
use sjbis.Grants.Errors.{GrantError, malformed, http_status}
use sjbis.Grants.Records.{
  Codec, Registry, Record, grant, revoke, enroll, signer_of, version, issued_at_str, get,
  decode_pubkey,
}
use sjbis.Grants.Verify.{
  alg_es256, parse_record, canonical_bytes, record_sha256, grant_id, verify_envelope,
  parse_timestamp, kind_checks, or_malformed, has_null,
}

-- A status that a client is told for an envelope of its own.
abbrev pub IsClientError : GrantError → Type 0
IsClientError e = (http_status e ≡ 400) ⊎ (http_status e ≡ 422)

-- Each error of the result is such a one.
abbrev pub Refuses : {A : Type 0} → Result GrantError A → Type 0
Refuses (ok a) = Unit
Refuses (err e) = IsClientError e

module _ {A B : Type 0} where
  Refuses-bind :
      (m : Result GrantError A) (f : A → Result GrantError B)
      → Refuses m
      → ((a : A) → Refuses (f a))
      → Refuses (m >>= f)
  Refuses-bind (ok a) f h k = k a
  Refuses-bind (err e) f h k = h

  Refuses-ok_or :
      (o : Option A) (e : GrantError) (f : A → Result GrantError B)
      → IsClientError e
      → ((a : A) → Refuses (f a))
      → Refuses (ok_or o e >>= f)
  Refuses-ok_or none e f h k = h
  Refuses-ok_or (some a) e f h k = k a

  Refuses-or_malformed :
      (m : Result String A) (f : A → Result GrantError B)
      → ((a : A) → Refuses (f a))
      → Refuses (or_malformed m >>= f)
  unfolding http_status
  Refuses-or_malformed (ok a) f k = k a
  Refuses-or_malformed (err e) f k = inl refl

Refuses-ensure :
    {B : Type 0} (b : Bool) (e : GrantError) (m : Result GrantError B)
    → IsClientError e
    → Refuses m
    → Refuses (ensure b e >> m)
Refuses-ensure true e m h k = k
Refuses-ensure false e m h k = h

module _ {Key Sig : Type 0} (codec : Codec Key Sig) where
  later_or_malformed :
      (b : Bool) (m : String) (exp : DateTime)
      → Refuses (if b then err (malformed m) else ok (some exp))
  unfolding http_status
  later_or_malformed true m exp = inl refl
  later_or_malformed false m exp = tt

  kind_checks-Refuses : (r : Record) (issued : DateTime) → Refuses (kind_checks codec r issued)
  unfolding kind_checks
  kind_checks-Refuses (grant g) issued =
      Refuses-or_malformed (parse_timestamp codec g.expires_at) _
        (λ exp. later_or_malformed (leb exp issued) _ exp)
  kind_checks-Refuses (revoke r) issued = tt
  kind_checks-Refuses (enroll e) issued =
      Refuses-or_malformed (decode_pubkey codec e.pubkey) _ (λ key. tt)

  parse_record-Refuses : (value : Json) → Refuses (parse_record codec value)
  unfolding parse_record http_status
  parse_record-Refuses value = Refuses-ensure (is_object value) _ _ (inl refl) (
      Refuses-ensure (not (has_null value)) _ _ (inl refl) (
        Refuses-ok_or (codec.record_of_value value) _ _ (inl refl) λ r.
          Refuses-ensure (version r == 1) _ _ (inl refl) (
            Refuses-ensure (not (is_empty (signer_of r))) _ _ (inl refl) (
              Refuses-or_malformed (parse_timestamp codec (issued_at_str r)) _ λ issued.
                Refuses-bind (kind_checks codec r issued) _ (kind_checks-Refuses r issued)
                  λ expires. tt))))

  -- Whatever JSON is posted and whatever the registry holds, an envelope that is refused is refused
  -- with 400 or 422, never as a conflict or a failure of the server.
  pub verify_envelope-Refuses :
      (raw : Json) (registry : Registry Key) → Refuses (verify_envelope codec raw registry)
  unfolding verify_envelope canonical_bytes http_status
  verify_envelope-Refuses raw registry =
      Refuses-ok_or (codec.envelope_of_value raw) _ _ (inl refl) λ e.
        Refuses-ensure (str_eq e.alg alg_es256) _ _ (inr refl) (
          Refuses-bind (parse_record codec e.record_) _ (parse_record-Refuses e.record_) λ p.
            Refuses-ok_or (codec.jcs e.record_) _ _ (inl refl) λ canonical.
              Refuses-ensure (str_eq (record_sha256 codec canonical) e.record_sha256) _ _ (inr refl)
                (Refuses-ensure (str_eq (grant_id codec canonical) e.id) _ _ (inr refl) (
                  Refuses-ok_or (get registry (signer_of p.record_)) _ _ (inr refl) λ entry.
                    Refuses-ok_or (codec.base64_decode e.sig) _ _ (inr refl) λ der.
                      Refuses-ok_or (codec.from_der der) _ _ (inr refl) λ sig.
                        Refuses-ensure (codec.verify entry.key canonical sig) _ _ (inr refl) tt)))
