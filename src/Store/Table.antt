-- ===== src/Store/Table.antt =====
-- A table with a text primary key, as the SQL of src/db.rs reads and writes it: the rows in a
-- list, SELECT by key, UPDATE by key, INSERT that a duplicate key refuses, DELETE by key.
use mathlib.Core.Option
use sjbis.Prelude.{
  String, ◌≡◌, refl, Bool, true, false, Option, none, some, List, [], ◌∷◌, ◌++◌, arith, str_eq,
  eq_iff, if◌then◌else◌,
}

module _ {A : Type 0} (key : A → String) where
  -- SELECT … WHERE key = k
  unfoldable pub get_row : String → List A → Option A
  get_row k [] = none
  get_row k (r ∷ rows) = if str_eq (key r) k then some r else get_row k rows

  -- UPDATE … SET f WHERE key = k AND test
  unfoldable pub update_row : String → (A → A) → List A → List A
  update_row k f [] = []
  update_row k f (r ∷ rows) = (if str_eq (key r) k then f r else r) ∷ update_row k f rows

  unfoldable pub has_row : String → List A → Bool
  has_row k [] = false
  has_row k (r ∷ rows) = if str_eq (key r) k then true else has_row k rows

  -- INSERT: `none` is the violation of the primary key.
  unfoldable pub insert_row : A → List A → Option (List A)
  unfolding has_row
  insert_row r rows = if has_row (key r) rows then none else some (rows ++ (r ∷ []))

  -- DELETE … WHERE key = k
  unfoldable pub delete_row : String → List A → List A
  delete_row k [] = []
  delete_row k (r ∷ rows) =
      let rest = delete_row k rows in if str_eq (key r) k then rest else r ∷ rest

  pub get_row-key : (k : String) (rows : List A) (r : A) → get_row k rows ≡ some r → key r ≡ k
  unfolding get_row
  get_row-key k [] r h = ground arith
  get_row-key k (x ∷ rows) r h = ground (arith, eq_iff (key x) k, get_row-key k rows r)

  -- A write to one key is seen at that key alone.
  pub get_row-update_row :
      (k j : String) (f : A → A) (rows : List A)
      → ((r : A) → key (f r) ≡ key r)
      → get_row j (update_row k f rows)
        ≡ (if str_eq k j then Option.map f (get_row j rows) else get_row j rows)
  unfolding get_row update_row
  get_row-update_row k j f [] keeps = ground arith
  get_row-update_row k j f (r ∷ rows) keeps = ground (
    arith,
    eq_iff (key r) k,
    eq_iff (key r) j,
    eq_iff (key (f r)) j,
    eq_iff k j,
    keeps r,
    get_row-update_row k j f rows keeps,
  )

  get_row-append :
      (j : String) (r : A) (rows : List A)
      → has_row (key r) rows ≡ false
      → get_row j (rows ++ (r ∷ [])) ≡ (if str_eq (key r) j then some r else get_row j rows)
  unfolding get_row has_row
  get_row-append j r [] h = ground arith
  get_row-append j r (x ∷ rows) h =
      ground
        (arith, eq_iff (key x) j, eq_iff (key x) (key r), eq_iff (key r) j, get_row-append j r rows)

  pub get_row-insert_row :
      (j : String) (r : A) (rows : List A) {rows' : List A}
      → insert_row r rows ≡ some rows'
      → get_row j rows' ≡ (if str_eq (key r) j then some r else get_row j rows)
  unfolding insert_row
  get_row-insert_row j r rows h = ground (arith, get_row-append j r rows)

  pub get_row-delete_row :
      (k j : String) (rows : List A)
      → get_row j (delete_row k rows) ≡ (if str_eq k j then none else get_row j rows)
  unfolding get_row delete_row
  get_row-delete_row k j [] = ground arith
  get_row-delete_row k j (r ∷ rows) =
      ground (arith, eq_iff (key r) k, eq_iff (key r) j, eq_iff k j, get_row-delete_row k j rows)

  -- An insert is refused exactly when the key is there.
  pub has_row_iff :
      (k : String) (rows : List A)
      → has_row k rows ≡ (elim (get_row k rows) [ none ↦ false | some r ↦ true ])
  unfolding has_row get_row
  has_row_iff k [] = refl
  has_row_iff k (r ∷ rows) = ground (arith, has_row_iff k rows)
