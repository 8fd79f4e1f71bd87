-- ===== src/Tests/ClaimRuns.antt =====
-- A run of the claim endpoint of src/grant_handlers.rs.
use sjbis.Prelude.{◌≡◌, refl, some, [], ◌∷◌, true, ok}
use sjbis.Json.{Json, field, end}
use sjbis.Grants.Stored.{StoredGrant, view_at}
use sjbis.Server.App.{App}
use sjbis.Server.Grants.{claim}
use sjbis.Server.Grants.Claimed.{IsClaimed, claim-IsClaimed}
use sjbis.Tests.Samples.{waiting_app, two_asks}
use sjbis.Tests.Signed.{stored}

abbrev single_use : StoredGrant
single_use = record stored { record_ = Json.obj (field "once" (Json.bool true) end) }

abbrev used : StoredGrant
used = record single_use { claimed_by = some "agent-y"; claimed_at = some 9 }

abbrev before : App
before = record waiting_app { db = record two_asks { grants = single_use ∷ [] } }

abbrev behind : App
behind = record waiting_app { db = record two_asks { grants = used ∷ [] } }

agent_claims : claim "ta-abcdef" (some "agent-y") 9 before ≡ ok (behind, view_at used 9)
unfolding claim sjbis.Server.Grants.parse_claim_body sjbis.Prelude.trim
    sjbis.Server.Grants.load_grant sjbis.Store.Grants.get_grant sjbis.Store.Table.get_row
    sjbis.Grants.Stored.check_claim sjbis.Grants.Stored.is_once sjbis.Json.get
    sjbis.Store.Grants.claim_grant sjbis.Server.App.with_db sjbis.Store.Table.update_row
agent_claims = refl

claim-IsClaimed_example : IsClaimed "ta-abcdef" (some "agent-y") 9 before behind (view_at used 9)
claim-IsClaimed_example = claim-IsClaimed "ta-abcdef" (some "agent-y") 9 before agent_claims
