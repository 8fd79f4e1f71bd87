-- ===== src/Server/Grants/Posted.antt =====
-- What `post_grant` accepts and stores.
use mathlib.Core.Path.{subst}
use sjbis.Prelude.{
  String, ◌≡◌, sym, ap, ◌∙◌, Option, none, some, ok, from_ok_or, from_bind, ok-injective,
}
use sjbis.Json.{Json}
use sjbis.Models.Data.{DateTime, Notification}
use sjbis.Models.Duration.{Chrono}
use sjbis.Grants.Records.{Codec, Registry, Record, grant, revoke, enroll, GrantRecord, Envelope}
use sjbis.Grants.Verify.{Verified, verify_envelope}
use sjbis.Grants.Verify.Authentic.{IsAuthentic, verify_envelope_iff}
use sjbis.Grants.Stored.{StoredGrant, GrantView, from_verified, envelope_of, view_at}
use sjbis.Store.Grants.{get_grant, insert_grant_answering, insert_grant_revoking, insert_grant_only}
use sjbis.Store.Grants.Fresh.{
  IsStored, insert_grant_answering-IsStored, insert_grant_revoking-IsStored,
  insert_grant_only-IsStored,
}
use sjbis.Server.App.{App, emit, with_db}
use sjbis.Server.App.Waking.{wake_waiter-db}
use sjbis.Server.Grants.{announce, apply_record, post_grant}

-- The row of a verified envelope gives the envelope back.
envelope_of-from_verified :
    (v : Verified) (now : DateTime)
    → v.envelope.alg ≡ "es256"
    → envelope_of (from_verified v now) ≡ v.envelope
unfolding envelope_of from_verified
envelope_of-from_verified v now alg = λ i. record v.envelope { alg = sym alg i }

module _ {Key Sig : Type 0} (codec : Codec Key Sig) (chrono : Chrono) where
  announce-db :
      (r : GrantRecord) (e : Envelope) (id : String) (now : DateTime) (n : Notification) (app : App)
      → (announce codec chrono r e id now n app).db ≡ app.db
  unfolding announce emit
  announce-db r e id now n app = wake_waiter-db n.id _ app

  apply_record-IsStored :
      (r : Record) (v : Verified) (g : StoredGrant) (now : DateTime) (app : App) {app' : App}
      → apply_record codec chrono r v g now app ≡ ok app'
      → IsStored g app.db app'.db
  unfolding apply_record with_db
  apply_record-IsStored (grant r) v g now app =
      from_bind (insert_grant_answering g r now app.db) _ λ (notif, db) inserted same.
        subst (IsStored g app.db)
          (sym (announce-db r v.envelope g.id now notif _)
            ∙ ap (λ (a : App). a.db) (ok-injective same))
          (insert_grant_answering-IsStored g r now app.db inserted)
  apply_record-IsStored (revoke r) v g now app =
      from_bind (insert_grant_revoking g r.target app.db) _ λ db inserted same.
        subst (IsStored g app.db) (ap (λ (a : App). a.db) (ok-injective same))
          (insert_grant_revoking-IsStored g r.target app.db inserted)
  apply_record-IsStored (enroll r) v g now app =
      from_bind (insert_grant_only g app.db) _ λ db inserted same.
        subst (IsStored g app.db) (ap (λ (a : App). a.db) (ok-injective same))
          (insert_grant_only-IsStored g app.db inserted)

  -- What a posted envelope that is accepted was, and what is stored of it.
  pub record IsPosted (body : Option Json) (signers : Registry Key) (now : DateTime) (app : App)
      (app' : App) (view : GrantView) : Type 0 where
    pub raw : Json
    pub parsed : body ≡ some raw
    pub verified : Verified
    pub authentic : IsAuthentic codec raw signers verified
    pub free : get_grant verified.envelope.id app.db ≡ none
    pub stored : StoredGrant
    pub reads_back : get_grant verified.envelope.id app'.db ≡ some stored
    pub same_envelope : envelope_of stored ≡ verified.envelope
    pub shown : view ≡ view_at stored now

  -- A posted grant that is accepted was an authentic envelope whose id was free; a read of that id
  -- then gives a stored grant with the very envelope, and the reply is its view.
  pub post_grant-IsPosted :
      (body : Option Json) (signers : Registry Key) (now : DateTime) (app : App) {app' : App}
      {view : GrantView}
      → post_grant codec chrono body (ok signers) now app ≡ ok (app', view)
      → IsPosted body signers now app app' view
  unfolding post_grant
  post_grant-IsPosted body signers now app = from_ok_or body _ _ λ raw parsed.
      from_bind (verify_envelope codec raw signers) _ λ v accepted.
        from_bind (apply_record codec chrono v.parsed.record_ v (from_verified v now) now app) _
          λ after applied same.
            let authentic = (verify_envelope_iff codec raw signers v).0 accepted in
            let pair = ok-injective same in
            let (free, stored) =
              apply_record-IsStored v.parsed.record_ v (from_verified v now) now app applied in
            record {
              raw = raw;
              parsed = parsed;
              verified = v;
              authentic = authentic;
              free = (unfold from_verified in free);
              stored = from_verified v now;
              reads_back =
                  ap (λ (p : App × GrantView). get_grant v.envelope.id p.0.db) (sym pair)
                  ∙ (unfold from_verified in stored);
              same_envelope = envelope_of-from_verified v now authentic.alg;
              shown = sym (ap (λ (p : App × GrantView). p.1) pair);
            }
