-- ===== src/Store/Grants/Fresh.antt =====
-- The three inserts of a grant take an id that was free, and the grant reads back.

use sjbis.Prelude.{
  String, ◌≡◌, refl, sym, ap, ◌∙◌, true, false, Option, none, some, ok, str_eq, eq_refl, eq_iff,
  inl, inr, Bool-cases, Option-cases, from_ensure, from_ok_or, from_bind, ok-injective,
}
use sjbis.Models.Data.{DateTime, Notification}
use sjbis.Grants.Records.{GrantRecord}
use sjbis.Grants.Answer.{check_grant_for_notification}
use sjbis.Grants.Stored.{StoredGrant, is_some}
use sjbis.Store.Table.{get_row, insert_row, has_row_iff, get_row-update_row}
use sjbis.Store.Db.{Db, grant_key}
use sjbis.Store.Notifications.{get_notification}
use sjbis.Store.Grants.{
  get_grant, on_grant, revoke_row, insert_grant_revoking, insert_grant_row, insert_grant_answering,
  insert_grant_only,
}
use sjbis.Store.Grants.Answering.{insert_grant_row-grants, insert_grant_answering_ok}

pub is_some-some : (o : Option StoredGrant) → is_some o ≡ true → (g : StoredGrant) × (o ≡ some g)
unfolding is_some
is_some-some (some g) h = (g, refl)
is_some-some none h = cc

pub insert_grant_row-fresh :
    (g : StoredGrant) (db : Db) {mid : Db}
    → insert_grant_row g db ≡ some mid
    → get_grant g.id db ≡ none
unfolding insert_grant_row get_grant insert_row
insert_grant_row-fresh g db h = elim (Option-cases (get_row grant_key g.id db.grants)) [
  | inl gone ↦ gone
  | inr (old, found) ↦ cc (h, rw (has_row_iff grant_key g.id db.grants, found) at h)
]

-- The id was free, and reads back as the grant.
abbrev pub IsStored : StoredGrant → Db → Db → Type 0
IsStored g db db' = (get_grant g.id db ≡ none) × (get_grant g.id db' ≡ some g)

insert_grant_row-IsStored :
    (g : StoredGrant) (db : Db) {mid : Db} → insert_grant_row g db ≡ some mid → IsStored g db mid
insert_grant_row-IsStored g db h =
    (insert_grant_row-fresh g db h, (insert_grant_row-grants g db g.id h).0 ∙ rw (eq_refl g.id))

pub insert_grant_only-IsStored :
    (g : StoredGrant) (db : Db) {db' : Db} → insert_grant_only g db ≡ ok db' → IsStored g db db'
unfolding insert_grant_only
insert_grant_only-IsStored g db h = elim (Option-cases (insert_grant_row g db)) [
  | inl gone ↦ cc (rw gone at h)
  | inr (mid, done_) ↦ rw (← ok-injective (rw done_ at h)) (insert_grant_row-IsStored g db done_)
]

insert_grant_answering-fresh :
    (g : StoredGrant) (grant : GrantRecord) (now : DateTime) (db : Db) {n : Notification} {db' : Db}
    → insert_grant_answering g grant now db ≡ ok (n, db')
    → get_grant g.id db ≡ none
unfolding insert_grant_answering
insert_grant_answering-fresh g grant now db =
    from_ok_or (get_notification grant.ask_id db) _ _ λ notif read.
      from_bind (check_grant_for_notification grant notif) _ λ _ checked.
        from_ok_or (insert_grant_row g db) _ _
          λ mid inserted same. insert_grant_row-fresh g db inserted

pub insert_grant_answering-IsStored :
    (g : StoredGrant) (grant : GrantRecord) (now : DateTime) (db : Db) {n : Notification} {db' : Db}
    → insert_grant_answering g grant now db ≡ ok (n, db')
    → IsStored g db db'
insert_grant_answering-IsStored g grant now db h = (
  insert_grant_answering-fresh g grant now db h,
  (insert_grant_answering_ok g grant now db h).grants g.id ∙ rw (eq_refl g.id),
)

pub target_differs :
    (g : StoredGrant) (target : String) (db : Db) {old : StoredGrant}
    → get_grant g.id db ≡ none
    → get_grant target db ≡ some old
    → str_eq target g.id ≡ false
target_differs g target db fresh found = elim (Bool-cases (str_eq target g.id)) [
  | inl hit ↦
      let same = (eq_iff target g.id).0 hit in
      let clash : get_grant target db ≡ none = rw same fresh in cc
  | inr miss ↦ miss
]

get_grant-elsewhere :
    (id j : String) (f : StoredGrant → StoredGrant) (db : Db)
    → ((g : StoredGrant) → grant_key (f g) ≡ grant_key g)
    → str_eq id j ≡ false
    → get_grant j (on_grant id f db) ≡ get_grant j db
unfolding get_grant on_grant
get_grant-elsewhere id j f db keeps miss =
    get_row-update_row grant_key id j f db.grants keeps ∙ rw miss

pub insert_grant_revoking-IsStored :
    (g : StoredGrant) (target : String) (db : Db) {db' : Db}
    → insert_grant_revoking g target db ≡ ok db'
    → IsStored g db db'
unfolding insert_grant_revoking revoke_row
insert_grant_revoking-IsStored g target db =
    from_ensure (is_some (get_grant target db)) _ _ λ there.
      from_ok_or (insert_grant_row g db) _ _ λ mid inserted same.
        let (old, found) = is_some-some (get_grant target db) there in
        let (fresh, stored) = insert_grant_row-IsStored g db inserted in
        (
          fresh,
          ap (get_grant g.id) (sym (ok-injective same))
              ∙ get_grant-elsewhere target g.id (revoke_row g.id) mid (λ h. refl)
                  (target_differs g target db fresh found)
              ∙ stored,
        )
