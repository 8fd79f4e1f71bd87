-- ===== src/Server/Grants/Claimed.antt =====
-- What the claim endpoint accepts and writes.
use sjbis.Prelude.{
  String, ◌≡◌, refl, sym, ap, ◌∙◌, true, Option, none, some, ok, not, from_ensure, from_ok_or,
  from_bind, ok-injective, inl, inr, Option-cases,
}
use sjbis.Models.Data.{DateTime}
use sjbis.Grants.Stored.{StoredGrant, GrantView, view_at, is_once, is_some, check_claim}
use sjbis.Store.Grants.{get_grant, on_grant, claim_grant, claim_row}
use sjbis.Store.Grants.Claims.{claim_grant-free, get_grant-on_grant}
use sjbis.Server.App.{App, with_db}
use sjbis.Server.Grants.{parse_claim_body, load_grant, claim, claimed}

parse_claim_body-some :
    (body : Option String) (by : String) → parse_claim_body body ≡ ok by → body ≡ some by
unfolding parse_claim_body
parse_claim_body-some body by =
    from_ok_or body _ _ λ b given. from_ensure _ _ _ λ ink same. given ∙ ap some (ok-injective same)

check_claim-ok :
    (g : StoredGrant) → check_claim g ≡ ok tt → (is_once g ≡ true) × (g.claimed_by ≡ none)
unfolding check_claim is_some
check_claim-ok g = from_ensure (is_once g) _ _ λ once.
    from_ensure (not (is_some g.claimed_by)) _ _ λ free _. (
      once,
      elim (Option-cases g.claimed_by) [
        | inl gone ↦ gone
        | inr (by, taken) ↦ cc (rw taken at free)
      ],
    )

-- What an accepted claim found and wrote.
pub record IsClaimed (id : String) (body : Option String) (now : DateTime) (app : App) (app' : App)
    (view : GrantView) : Type 0 where
  pub by : String
  pub given : body ≡ some by
  pub grant : StoredGrant
  pub found : get_grant id app.db ≡ some grant
  pub single_use : is_once grant ≡ true
  pub free : grant.claimed_by ≡ none
  pub reads_back :
      get_grant id app'.db ≡ some (record grant { claimed_by = some by; claimed_at = some now })
  pub shown : view ≡ view_at (record grant { claimed_by = some by; claimed_at = some now }) now
  pub asks_kept : app'.db.notifications ≡ app.db.notifications

written :
    (id by : String) (now : DateTime) (app : App) (g : StoredGrant) {app' : App} {view : GrantView}
    → get_grant id app.db ≡ some g
    → g.claimed_by ≡ none
    → claimed (claim_grant id by now app.db) id now app ≡ ok (app', view)
    → (with_db (on_grant id (claim_row by now) app.db) app ≡ app')
      × (view_at (claim_row by now g) now ≡ view)
unfolding claimed load_grant with_db
written id by now app g found free h =
    let after =
      get_grant-on_grant id (claim_row by now) app.db g (λ k. unfold claim_row in refl) found in
    let pair = ok-injective (rw (claim_grant-free id by now app.db g found free, after) at h) in
    (ap (λ (p : App × GrantView). p.0) pair, ap (λ (p : App × GrantView). p.1) pair)

-- A claim that the endpoint accepts named its claimer, found a single-use grant that nobody had
-- claimed, and wrote the claimer and the time to that grant; the reply is the view of the grant as
-- it then reads, and no notification changed.
pub claim-IsClaimed :
    (id : String) (body : Option String) (now : DateTime) (app : App) {app' : App}
    {view : GrantView}
    → claim id body now app ≡ ok (app', view)
    → IsClaimed id body now app app' view
unfolding claim load_grant
claim-IsClaimed id body now app = from_bind (parse_claim_body body) _ λ by named.
    from_ok_or (get_grant id app.db) _ _ λ g found. from_bind (check_claim g) _ λ _ checked last.
      let (once, free) = check_claim-ok g checked in
      let (db_written, shown) = written id by now app g found free last in
      record {
        by = by;
        given = parse_claim_body-some body by named;
        grant = g;
        found = found;
        single_use = once;
        free = free;
        reads_back =
            ap (λ (a : App). get_grant id a.db) (sym db_written)
            ∙ (unfold with_db claim_row in
                get_grant-on_grant id (claim_row by now) app.db g (λ k. refl) found);
        shown = sym shown ∙ (unfold claim_row in refl);
        asks_kept =
            ap (λ (a : App). a.db.notifications) (sym db_written)
            ∙ (unfold with_db on_grant in refl);
      }
