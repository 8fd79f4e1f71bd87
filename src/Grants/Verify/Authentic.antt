-- ===== src/Grants/Verify/Authentic.antt =====
-- `verify_envelope` accepts exactly the authentic envelopes, and what its refusals are.
use mathlib.Core.Path.{subst}
use sjbis.Prelude.{
  ℕ, ◌≡◌, ◌↔◌, refl, some, true, List, ok, str_eq, eq_iff, from_ensure, from_ok_or, from_bind,
  ok-injective,
}
use sjbis.Json.{Json}
use sjbis.Grants.Records.{Codec, Registry, RegistryEntry, signer_of, get}
use sjbis.Grants.Verify.{
  Verified, alg_es256, parse_record, canonical_bytes, record_sha256, grant_id, verify_envelope,
}
use sjbis.Grants.Verify.Structure.{WellFormed, parse_record_iff}

module _ {Key Sig : Type 0} (codec : Codec Key Sig) where
  -- The signature of the envelope is the signer's, by the key that the registry pins.
  pub record IsSigned (registry : Registry Key) (v : Verified) (canonical : List ℕ) : Type 0 where
    pub entry : RegistryEntry Key
    pub pinned : get registry (signer_of v.parsed.record_) ≡ some entry
    pub der : List ℕ
    pub decoded : codec.base64_decode v.envelope.sig ≡ some der
    pub signature : Sig
    pub parsed : codec.from_der der ≡ some signature
    pub verifies : codec.verify entry.key canonical signature ≡ true

  -- What an accepted envelope is: of the one algorithm, a well-formed record, whose hash and id
  -- derive from its canonical bytes, and which a pinned signer signed.
  pub record IsAuthentic (raw : Json) (registry : Registry Key) (v : Verified) : Type 0 where
    pub shaped : codec.envelope_of_value raw ≡ some v.envelope
    pub alg : v.envelope.alg ≡ "es256"
    pub well_formed : WellFormed codec v.envelope.record_ v.parsed
    pub canonical : List ℕ
    pub canonicalized : codec.jcs v.envelope.record_ ≡ some canonical
    pub hash : record_sha256 codec canonical ≡ v.envelope.record_sha256
    pub id : grant_id codec canonical ≡ v.envelope.id
    pub signed : IsSigned registry v canonical

  verify_envelope-IsAuthentic :
      (raw : Json) (registry : Registry Key) (v : Verified)
      → verify_envelope codec raw registry ≡ ok v
      → IsAuthentic raw registry v
  unfolding verify_envelope canonical_bytes
  verify_envelope-IsAuthentic raw registry v =
      from_ok_or (codec.envelope_of_value raw) _ _ λ e shaped.
        from_ensure (str_eq e.alg alg_es256) _ _ λ alg.
          from_bind (parse_record codec e.record_) _ λ p well_formed.
            from_ok_or (codec.jcs e.record_) _ _ λ canonical canonicalized.
              from_ensure (str_eq (record_sha256 codec canonical) e.record_sha256) _ _ λ hash.
                from_ensure (str_eq (grant_id codec canonical) e.id) _ _ λ id.
                  from_ok_or (get registry (signer_of p.record_)) _ _ λ entry pinned.
                    from_ok_or (codec.base64_decode e.sig) _ _ λ der decoded.
                      from_ok_or (codec.from_der der) _ _ λ signature parsed.
                        from_ensure (codec.verify entry.key canonical signature) _ _
                          λ verifies same.
                            subst (IsAuthentic raw registry) (ok-injective same) (record {
                              shaped = shaped;
                              alg = (eq_iff e.alg alg_es256).0 alg;
                              well_formed = (parse_record_iff codec e.record_ p).0 well_formed;
                              canonical = canonical;
                              canonicalized = canonicalized;
                              hash = (eq_iff _ e.record_sha256).0 hash;
                              id = (eq_iff _ e.id).0 id;
                              signed = record {
                                entry = entry;
                                pinned = pinned;
                                der = der;
                                decoded = decoded;
                                signature = signature;
                                parsed = parsed;
                                verifies = verifies;
                              };
                            })

  -- An envelope is accepted, with its parsed record, exactly when it is authentic: it has the
  -- shape of an envelope, the algorithm es256, a well-formed record, the hash and the id that its
  -- canonical bytes give, and a signature by the key that the registry pins for its signer.
  pub verify_envelope_iff :
      (raw : Json) (registry : Registry Key) (v : Verified)
      → (verify_envelope codec raw registry ≡ ok v) ↔ IsAuthentic raw registry v
  unfolding verify_envelope canonical_bytes
  verify_envelope_iff raw registry v = (
    verify_envelope-IsAuthentic raw registry v,
    λ a.
        rw
          (
            a.shaped,
            (eq_iff v.envelope.alg alg_es256).1 a.alg,
            (parse_record_iff codec v.envelope.record_ v.parsed).1 a.well_formed,
            a.canonicalized,
            (eq_iff (record_sha256 codec a.canonical) v.envelope.record_sha256).1 a.hash,
            (eq_iff (grant_id codec a.canonical) v.envelope.id).1 a.id,
            a.signed.pinned,
            a.signed.decoded,
            a.signed.parsed,
            a.signed.verifies,
          )
          refl,
  )
