-- ===== src/Store/Grants/Claims.antt =====
-- The claim of a single-use grant, and the mark of a revocation.

use mathlib.Core.Option
use sjbis.Prelude.{
  Bool-cases, inl, inr, eq_iff, str_eq, if◌then◌else◌, String, ◌≡◌, refl, sym, ap, ◌∙◌, Bool, true,
  false, none, some, List, [], ◌∷◌, map, ok, eq_refl, from_ensure, from_ok_or, ok-injective,
}
use sjbis.Models.Data.{DateTime}
use sjbis.Grants.Stored.{StoredGrant, is_some}
use sjbis.Store.Table.{get_row-update_row}
use sjbis.Store.Db.{Db, grant_key}
use sjbis.Store.Grants.{
  claim_grant, claim_found, claim_unless, claim_row, get_grant, on_grant, revoke_row,
  insert_grant_revoking, insert_grant_row,
}
use sjbis.Store.Grants.Answering.{insert_grant_row-grants}
use sjbis.Store.Grants.Fresh.{is_some-some, insert_grant_row-fresh, target_differs}

pub get_grant-on_grant :
    (id : String) (f : StoredGrant → StoredGrant) (db : Db) (g : StoredGrant)
    → ((h : StoredGrant) → grant_key (f h) ≡ grant_key h)
    → get_grant id db ≡ some g
    → get_grant id (on_grant id f db) ≡ some (f g)
unfolding get_grant on_grant
get_grant-on_grant id f db g keeps found =
    get_row-update_row grant_key id id f db.grants keeps ∙ rw (eq_refl id, found)

-- The claims of one grant, one after the other: which succeed, and the tables at the end.
pub claim_all : String → List (String × DateTime) → Db → Db × List Bool
unfolding claim_grant
claim_all id [] db = (db, [])
claim_all id ((by, at) ∷ more) db =
    let (db', won) = claim_grant id by at db in
    let (last, outcomes) = claim_all id more db' in (last, won ∷ outcomes)

pub claim_grant-free :
    (id by : String) (at : DateTime) (db : Db) (g : StoredGrant)
    → get_grant id db ≡ some g
    → g.claimed_by ≡ none
    → claim_grant id by at db ≡ (on_grant id (claim_row by at) db, true)
unfolding claim_grant claim_found claim_unless is_some
claim_grant-free id by at db g found free = rw (found, free)

claim_grant-taken :
    (id by : String) (at : DateTime) (db : Db) (g : StoredGrant) {owner : String}
    → get_grant id db ≡ some g
    → g.claimed_by ≡ some owner
    → claim_grant id by at db ≡ (db, false)
unfolding claim_grant claim_found claim_unless is_some
claim_grant-taken id by at db g found taken = rw (found, taken)

claim_all-taken :
    (id : String) (attempts : List (String × DateTime)) (db : Db) (g : StoredGrant) {owner : String}
    → get_grant id db ≡ some g
    → g.claimed_by ≡ some owner
    → claim_all id attempts db ≡ (db, map (λ _. false) attempts)
unfolding claim_all
claim_all-taken id [] db g found taken = refl
claim_all-taken id ((by, at) ∷ more) db g found taken =
    simp (claim_grant-taken id by at db g found taken, claim_all-taken id more db g found taken)
      refl

-- However many agents try to claim a stored grant that is not claimed, the first to try succeeds,
-- every other fails, and the stored grant carries the first one's name and time.
pub first_claim_wins :
    (id by : String) (at : DateTime) (more : List (String × DateTime)) (db : Db) (g : StoredGrant)
    → get_grant id db ≡ some g
    → g.claimed_by ≡ none
    → ((claim_all id ((by, at) ∷ more) db).1 ≡ true ∷ map (λ _. false) more)
      × (get_grant id (claim_all id ((by, at) ∷ more) db).0
          ≡ some (record g { claimed_by = some by; claimed_at = some at }))
unfolding claim_all claim_row
first_claim_wins id by at more db g found free =
    let after = get_grant-on_grant id (claim_row by at) db g (λ h. refl) found in
    simp
      (
        claim_grant-free id by at db g found free,
        claim_all-taken id more (on_grant id (claim_row by at) db) _ after refl,
      )
      (refl, after)

-- What each id has once the revocation is inserted and its target marked.
revoked_grants :
    (g : StoredGrant) (target : String) (db mid : Db) (old : StoredGrant) (j : String)
    → get_grant g.id db ≡ none
    → get_grant target db ≡ some old
    → get_grant j mid ≡ (if str_eq g.id j then some g else get_grant j db)
    → get_grant j (on_grant target (revoke_row g.id) mid) ≡ (
        if str_eq g.id j
        then some g
        else if str_eq target j
        then some (revoke_row g.id old)
        else get_grant j db)
revoked_grants g target db mid old j fresh found after =
    let step : get_grant j (on_grant target (revoke_row g.id) mid) ≡ (
        if str_eq target j
        then Option.map (revoke_row g.id) (get_grant j mid)
        else get_grant j mid) =
      unfold get_grant on_grant in
      get_row-update_row grant_key target j (revoke_row g.id) mid.grants
        (λ h. unfold revoke_row in refl) in
    elim (Bool-cases (str_eq g.id j)) [
      | inl own ↦
          let here = (eq_iff g.id j).0 own in
          let apart : str_eq target j ≡ false =
            rw (← here) (target_differs g target db fresh found) in
          rw own ((rw apart at step) ∙ (rw own at after))
      | inr other ↦ elim (Bool-cases (str_eq target j)) [
        | inl hit ↦
            let there : get_grant j db ≡ some old = rw (← (eq_iff target j).0 hit) found in
            rw (other, hit)
              ((rw hit at step) ∙ ap (Option.map (revoke_row g.id)) ((rw other at after) ∙ there))
        | inr miss ↦ rw (other, miss) ((rw miss at step) ∙ (rw other at after))
      ]
    ]

-- A revocation that is stored found its target and took an id that was free. Afterwards that id
-- reads back as the revocation; the target keeps the revocation that it already had, else it gets
-- this one; every other grant and every notification is as it was.
pub insert_grant_revoking_ok :
    (g : StoredGrant) (target : String) (db : Db) {db' : Db}
    → insert_grant_revoking g target db ≡ ok db'
    → (old : StoredGrant) × (get_grant target db ≡ some old)
      × (get_grant g.id db ≡ none)
      × ((j : String)
          → get_grant j db' ≡ (
              if str_eq g.id j
              then some g
              else if str_eq target j
              then some (record old {
                revoked_by = elim old.revoked_by [ none ↦ some g.id | some r ↦ some r ];
              })
              else get_grant j db))
      × (db'.notifications ≡ db.notifications)
unfolding insert_grant_revoking revoke_row
insert_grant_revoking_ok g target db {db'} =
    from_ensure (is_some (get_grant target db)) _ _ λ there.
      from_ok_or (insert_grant_row g db) _ _ λ mid inserted same.
        let (old, found) = is_some-some (get_grant target db) there in
        let fresh = insert_grant_row-fresh g db inserted in
        let rows = (insert_grant_row-grants g db target inserted).1 in
        let wrote : on_grant target (revoke_row g.id) mid ≡ db' = ok-injective same in
        (
          old,
          found,
          fresh,
          λ j. rw (← wrote) (
              revoked_grants g target db mid old j fresh found
                (insert_grant_row-grants g db j inserted).0),
          ap (λ (d : Db). d.notifications) (sym wrote) ∙ (unfold on_grant in rows),
        )
