-- ===== src/Grants/Verify/Structure.antt =====
-- `parse_record` accepts exactly the well-formed records.
use sjbis.Prelude.{
  ◌<◌, String, ◌≡◌, ◌↔◌, refl, true, false, Option, none, some, Result, ok, err, ◌>>=◌, arith,
  eq_iff, ◌==◌, not, is_empty, from_ensure, ok-injective, from_bind, from_ok_or,
}
use mathlib.Core.Path.{subst}
use sjbis.Json.{Json, is_object}
use sjbis.Models.Data.{DateTime}
use sjbis.Grants.Errors.{GrantError}
use sjbis.Grants.Records.{
  Record, grant, revoke, enroll, Codec, signer_of, version, issued_at_str, decode_pubkey,
}
use sjbis.Grants.Verify.{
  ParsedRecord, has_null, parse_timestamp, kind_checks, parse_record, or_malformed,
}

from_or_malformed :
    {A B P : Type 0} (m : Result String A) (f : A → Result GrantError B) {x : B}
    → ((a : A) → m ≡ ok a → f a ≡ ok x → P)
    → (or_malformed m >>= f) ≡ ok x
    → P
from_or_malformed (ok a) f k h = k a refl h
from_or_malformed (err e) f k h = cc

module _ {Key Sig : Type 0} (codec : Codec Key Sig) where
  -- `s` is the canonical text of the instant `t`.
  abbrev pub IsTimestamp : String → DateTime → Type 0
  IsTimestamp s t = (codec.parse_naive s ≡ some t) × (codec.format_timestamp t ≡ s)

  -- A grant expires after it was issued, an enrolment carries a key, and only a grant expires.
  abbrev pub KindHolds : Record → DateTime → Option DateTime → Type 0
  KindHolds (grant g) issued expires =
      (exp : DateTime) × IsTimestamp g.expires_at exp × (issued < exp) × (expires ≡ some exp)
  KindHolds (enroll e) issued expires =
      (key : Key) × (decode_pubkey codec e.pubkey ≡ ok key) × (expires ≡ none)
  KindHolds (revoke r) issued expires = expires ≡ none

  pub record WellFormed (value : Json) (p : ParsedRecord) : Type 0 where
    pub object : is_object value ≡ true
    pub no_nulls : has_null value ≡ false
    pub decoded : codec.record_of_value value ≡ some p.record_
    pub version_one : version p.record_ ≡ 1
    pub signer_named : is_empty (signer_of p.record_) ≡ false
    pub issued : IsTimestamp (issued_at_str p.record_) p.issued_at
    pub kind_holds : KindHolds p.record_ p.issued_at p.expires_at

  parse_timestamp_iff :
      (s : String) (t : DateTime) → (parse_timestamp codec s ≡ ok t) ↔ IsTimestamp s t
  unfolding parse_timestamp
  parse_timestamp_iff s t = (
    from_ok_or (codec.parse_naive s) _ _
        (λ d parsed rest. ground (arith, eq_iff (codec.format_timestamp d) s)),
    λ (parsed, printed). rw parsed (ground (arith, eq_iff (codec.format_timestamp t) s)),
  )

  kind_checks-KindHolds :
      (r : Record) (issued : DateTime) {expires : Option DateTime}
      → kind_checks codec r issued ≡ ok expires
      → KindHolds r issued expires
  unfolding kind_checks
  kind_checks-KindHolds (grant g) issued h =
      from_or_malformed (parse_timestamp codec g.expires_at) _
        (λ exp parsed rest.
          (exp, (parse_timestamp_iff g.expires_at exp).0 parsed, ground arith, ground arith))
        h
  kind_checks-KindHolds (revoke r) issued h = cc
  kind_checks-KindHolds (enroll e) issued h =
      from_or_malformed (decode_pubkey codec e.pubkey) _ (λ key decoded rest. (key, decoded, cc)) h

  KindHolds-kind_checks :
      (r : Record) (issued : DateTime) {expires : Option DateTime}
      → KindHolds r issued expires
      → kind_checks codec r issued ≡ ok expires
  unfolding kind_checks
  KindHolds-kind_checks (grant g) issued (exp, canonical, later, same) =
      rw ((parse_timestamp_iff g.expires_at exp).1 canonical) (ground arith)
  KindHolds-kind_checks (revoke r) issued h = cc
  KindHolds-kind_checks (enroll e) issued (key, decoded, same) = rw decoded (cc)

  parse_record-WellFormed :
      (value : Json) (p : ParsedRecord) → parse_record codec value ≡ ok p → WellFormed value p
  unfolding parse_record
  parse_record-WellFormed value p = from_ensure (is_object value) _ _ λ object.
      from_ensure (not (has_null value)) _ _ λ no_nulls.
        from_ok_or (codec.record_of_value value) _ _ λ r decoded.
          from_ensure (version r == 1) _ _ λ version_one.
            from_ensure (not (is_empty (signer_of r))) _ _ λ named.
              from_or_malformed (parse_timestamp codec (issued_at_str r)) _ λ issued parsed.
                from_bind (kind_checks codec r issued) _ λ expires checked same.
                  subst (WellFormed value) (ok-injective same) (record {
                    object = object;
                    no_nulls = ground arith;
                    decoded = decoded;
                    version_one = ground arith;
                    signer_named = ground arith;
                    issued = (parse_timestamp_iff (issued_at_str r) issued).0 parsed;
                    kind_holds = kind_checks-KindHolds r issued checked;
                  })

  -- A JSON value parses to a record exactly when it is an object without nulls that decodes to
  -- that record, with version 1, a signer, canonical times, and the checks of its kind.
  pub parse_record_iff :
      (value : Json) (p : ParsedRecord) → (parse_record codec value ≡ ok p) ↔ WellFormed value p
  unfolding parse_record
  parse_record_iff value p = (
    parse_record-WellFormed value p,
    λ w.
        rw
          (
            w.object,
            w.no_nulls,
            w.decoded,
            w.version_one,
            w.signer_named,
            (parse_timestamp_iff (issued_at_str p.record_) p.issued_at).1 w.issued,
            KindHolds-kind_checks p.record_ p.issued_at w.kind_holds,
          )
          refl,
  )
