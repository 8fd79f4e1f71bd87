-- ===== src/Triage/Observations/Catalog.antt =====
-- What `validate_and_sort_observations` answers: a catalogue without a shared id or path.
use mathlib.Core.Path.{subst}
use sjbis.Prelude.{
  ℕ, suc, ◌+◌, ◌≤◌, String, ◌≡◌, refl, ap, ◌∙◌, false, Option, none, some, List, [], ◌∷◌, ◌++◌,
  if◌then◌else◌, ok, All, arith, str_eq, eq_iff, eq_refl, length, ltb, from_bind, ok-injective,
  Bool-cases, inl, inr, text_ltb, put_entry, get_entry, IsOrdered, put_entry-IsOrdered,
  get_entry-put_entry,
}
use sjbis.Triage.Data.{Observation}
use sjbis.Triage.Observations.{
  ByPath, keep_first, place, sort_in, identity_label, push_text, identities, collisions,
  validate_observation,
}

-- No other observation of the list has the id.
abbrev pub HasDistinctIds : List Observation → Type 0
HasDistinctIds [] = Unit
HasDistinctIds (o ∷ os) = All (λ q. str_eq q.id o.id ≡ false) os × HasDistinctIds os

unfoldable pub count_id : String → List Observation → ℕ
count_id id [] = 0
count_id id (o ∷ os) = let rest = count_id id os in if str_eq o.id id then suc rest else rest

-- How many labels are listed under a key.
unfoldable pub label_count : Option (List String) → ℕ
label_count none = 0
label_count (some texts) = length texts

length-append : (s t : List String) → length (s ++ t) ≡ length s + length t
length-append [] t = omega arith
length-append (c ∷ s) t = let rest = length-append s t in omega arith

label_count-push_text :
    (text : String) (o : Option (List String)) → length (push_text text o) ≡ suc (label_count o)
unfolding label_count push_text
label_count-push_text text none = refl
label_count-push_text text (some texts) = let whole = length-append texts (text ∷ []) in omega arith

label_count-put_entry :
    (id key text : String) (m : List (String × List String))
    → IsOrdered m
    → label_count (get_entry id (put_entry key (push_text text) m))
      ≡ (if str_eq key id then suc (label_count (get_entry id m)) else label_count (get_entry id m))
unfolding label_count
label_count-put_entry id key text m ordered =
    let written = get_entry-put_entry key id (push_text text) m ordered in
    elim (Bool-cases (str_eq key id)) [
      | inl same ↦
          let equal = (eq_iff key id).0 same in
          rw (written, same)
            (label_count-push_text text (get_entry key m)
              ∙ ap (λ k. suc (label_count (get_entry k m))) equal)
      | inr other ↦ rw (written, other)
    ]

pub label_count-identities :
    (id : String) (os : List Observation) (m : List (String × List String))
    → IsOrdered m
    → label_count (get_entry id (identities os m)) ≡ label_count (get_entry id m) + count_id id os
unfolding identities count_id
label_count-identities id [] m ordered = omega arith
label_count-identities id (o ∷ os) m ordered =
    let text = identity_label o o.path in
    let m' = put_entry o.id (push_text text) m in
    let later =
      label_count-identities id os m' (put_entry-IsOrdered o.id (push_text text) m ordered) in
    let written = label_count-put_entry id o.id text m ordered in ground (arith, later, written)

-- Without collisions each key has one label at most.
pub collisions-none :
    (id : String) (m : List (String × List String))
    → collisions m ≡ []
    → label_count (get_entry id m) ≤ 1
unfolding collisions get_entry label_count
collisions-none id [] none_there = omega arith
collisions-none id ((k, texts) ∷ m) none_there = elim (Bool-cases (ltb 1 (length texts))) [
  | inl shared ↦ cc (rw shared at none_there)
  | inr single ↦
      let rest = collisions-none id m (rw single at none_there) in ground (arith, rest, single)
]

count_id-others :
    (id : String) (os : List Observation)
    → count_id id os ≡ 0
    → All (λ q. str_eq q.id id ≡ false) os
unfolding count_id
count_id-others id [] h = tt
count_id-others id (o ∷ os) h = elim (Bool-cases (str_eq o.id id)) [
  | inl same ↦ let clash : ⊥ = ground (arith, h, same) in absurd clash
  | inr other ↦ (other, count_id-others id os (rw other at h))
]

pub count_id-HasDistinctIds :
    (os : List Observation) → ((id : String) → count_id id os ≤ 1) → HasDistinctIds os
unfolding count_id
count_id-HasDistinctIds [] once = tt
count_id-HasDistinctIds (o ∷ os) once =
    let self = eq_refl o.id in
    let first : count_id o.id os ≡ 0 = ground (arith, once o.id, self) in
    (count_id-others o.id os first, count_id-HasDistinctIds os (λ id. ground (arith, once id)))

-- The catalogue that the loop builds: ordered by path, each entry under its path, and with `P`
-- throughout.
pub record Sorted (P : Observation → Type 0) (sorted : ByPath × List Observation) : Type 0 where
  pub ordered : IsOrdered sorted.0
  pub keyed : All (λ e. P e.1 × (e.1.path ≡ some e.0)) sorted.0
  pub inline : All (λ o. P o × (o.path ≡ none)) sorted.1

module _ (P : Observation → Type 0) where
  All-put_entry :
      (o : Observation) (path : String) (m : ByPath)
      → P o × (o.path ≡ some path)
      → All (λ e. P e.1 × (e.1.path ≡ some e.0)) m
      → All (λ e. P e.1 × (e.1.path ≡ some e.0)) (put_entry path (keep_first o) m)
  unfolding put_entry keep_first
  All-put_entry o path [] new kept = (new, tt)
  All-put_entry o path ((k, v) ∷ m) new (first, kept) = elim (Bool-cases (str_eq k path)) [
    | inl same ↦ rw same (first, kept)
    | inr other ↦ elim (Bool-cases (text_ltb path k)) [
      | inl before ↦ rw (other, before) (new, (first, kept))
      | inr after ↦ rw (other, after) (first, All-put_entry o path m new kept)
    ]
  ]

  All-push : (o : Observation) (os : List Observation) → P o → All P os → All P (os ++ (o ∷ []))
  All-push o [] new kept = (new, tt)
  All-push o (q ∷ os) new (first, kept) = (first, All-push o os new kept)

place-Sorted :
    (P : Observation → Type 0) (o : Observation) (path : Option String)
    (sorted : ByPath × List Observation)
    → o.path ≡ path
    → P o
    → Sorted P sorted
    → Sorted P (place o path sorted)
unfolding place
place-Sorted P o none (m, os) at holds s = record {
  ordered = s.ordered;
  keyed = s.keyed;
  inline = All-push (λ q. P q × (q.path ≡ none)) o os (holds, at) s.inline;
}
place-Sorted P o (some path) (m, os) at holds s = record {
  ordered = put_entry-IsOrdered path (keep_first o) m s.ordered;
  keyed = All-put_entry P o path m (holds, at) s.keyed;
  inline = s.inline;
}

pub sort_in-Sorted :
    (P : Observation → Type 0) (os : List Observation) (sorted : ByPath × List Observation)
    {sorted' : ByPath × List Observation}
    → All P os
    → Sorted (λ o. P o × (validate_observation o ≡ ok tt)) sorted
    → sort_in os sorted ≡ ok sorted'
    → Sorted (λ o. P o × (validate_observation o ≡ ok tt)) sorted'
unfolding sort_in
sort_in-Sorted P [] sorted holds s h =
    subst (Sorted (λ o. P o × (validate_observation o ≡ ok tt))) (ok-injective h) s
sort_in-Sorted P (o ∷ os) sorted (hold, holds) s h =
    from_bind (validate_observation o) _
      (λ _ valid rest.
        sort_in-Sorted P os _ holds (place-Sorted _ o o.path sorted refl (hold, valid) s) rest)
      h
