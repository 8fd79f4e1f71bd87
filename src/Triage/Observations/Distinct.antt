-- ===== src/Triage/Observations/Distinct.antt =====
-- The catalogue that `validate_and_sort_observations` answers.
use mathlib.Core.Path.{subst}
use mathlib.Core.Bool.{false≢true}
use mathlib.Core.Option.{none-ne-some}
use sjbis.Prelude.{
  get_entry, String, ◌≡◌, ◌≢◌, refl, sym, ◌∙◌, Bool, true, none, some, List, [], ◌∷◌, ◌++◌, ok, All,
  arith, str_eq, eq_iff, from_bind, ok-injective, Bool-cases, inl, inr, sort_by, insert_sorted,
  entry_values, IsOrdered, IsBelow, below_differs,
}
use sjbis.Triage.Data.{Observation}
use sjbis.Triage.Observations.{
  IdentityCollision, ByPath, arrange, sort_in, identities, collisions, refuse_collisions,
  validate_observation, validate_and_sort_observations,
}
use sjbis.Triage.Observations.Catalog.{
  HasDistinctIds, count_id-HasDistinctIds, label_count, label_count-identities, collisions-none,
  Sorted, sort_in-Sorted,
}

-- The two observations do not have one path.
abbrev pub SharesNoPath : Observation → Observation → Type 0
SharesNoPath o q = (p : String) → o.path ≡ some p → q.path ≢ some p

abbrev pub HasDistinctPaths : List Observation → Type 0
HasDistinctPaths [] = Unit
HasDistinctPaths (o ∷ os) = All (SharesNoPath o) os × HasDistinctPaths os

All-weaken :
    (P Q : Observation → Type 0)
    → ((o : Observation) → P o → Q o)
    → (os : List Observation) → All P os
    → All Q os
All-weaken P Q f [] h = tt
All-weaken P Q f (o ∷ os) (h, hs) = (f o h, All-weaken P Q f os hs)

inline_shares :
    (o : Observation) (os : List Observation)
    → All (λ q. q.path ≡ none) os
    → All (SharesNoPath o) os
inline_shares o os =
    All-weaken (λ q. q.path ≡ none) (SharesNoPath o)
      (λ q free p here there. none-ne-some p (sym free ∙ there)) os

-- Observations without paths share none.
inline_distinct : (os : List Observation) → All (λ q. q.path ≡ none) os → HasDistinctPaths os
inline_distinct [] h = tt
inline_distinct (o ∷ os) (h, hs) = (inline_shares o os hs, inline_distinct os hs)

module _ (P : Observation → Type 0) where
  All-append : (os qs : List Observation) → All P os → All P qs → All P (os ++ qs)
  All-append [] qs h k = k
  All-append (o ∷ os) qs (h, hs) k = (h, All-append os qs hs k)

  All-insert_sorted :
      (before : Observation → Observation → Bool) (o : Observation) (os : List Observation)
      → P o
      → All P os
      → All P (insert_sorted before o os)
  unfolding insert_sorted
  All-insert_sorted before o [] h hs = (h, tt)
  All-insert_sorted before o (q ∷ os) h (k, hs) = elim (Bool-cases (before q o)) [
    | inl later ↦ rw later (k, All-insert_sorted before o os h hs)
    | inr first ↦ rw first (h, (k, hs))
  ]

  All-sort_by :
      (before : Observation → Observation → Bool) (os : List Observation)
      → All P os
      → All P (sort_by before os)
  unfolding sort_by
  All-sort_by before [] h = tt
  All-sort_by before (o ∷ os) (h, hs) =
      All-insert_sorted before o (sort_by before os) h (All-sort_by before os hs)

  All-entry_values :
      (m : ByPath) → All (λ e. P e.1 × (e.1.path ≡ some e.0)) m → All P (entry_values m)
  unfolding entry_values
  All-entry_values [] h = tt
  All-entry_values ((k, v) ∷ m) ((h, _), hs) = (h, All-entry_values m hs)

module _ (P : Observation → Type 0) where
  -- A value under a key is not under a later one, nor without a path.
  below_shares :
      (k : String) (o : Observation) (m : ByPath)
      → o.path ≡ some k
      → IsBelow k m
      → All (λ e. P e.1 × (e.1.path ≡ some e.0)) m
      → All (SharesNoPath o) (entry_values m)
  unfolding entry_values
  below_shares k o [] at below keyed = tt
  below_shares k o ((j, v) ∷ m) at (above, below) ((_, key), keyed) =
      (λ p here there. keys_differ p here there, below_shares k o m at below keyed)
    where
      keys_differ : (p : String) → o.path ≡ some p → v.path ≡ some p → ⊥
      keys_differ p here there =
          let left : k ≡ p = cc (at, here) in
          let right : j ≡ p = cc (key, there) in
          let same : str_eq j k ≡ true = (eq_iff j k).1 (right ∙ sym left) in
          let differ = below_differs k j above in false≢true (sym differ ∙ same)

  entries_distinct :
      (m : ByPath) (os : List Observation)
      → IsOrdered m
      → All (λ e. P e.1 × (e.1.path ≡ some e.0)) m
      → All (λ q. q.path ≡ none) os
      → HasDistinctPaths os
      → HasDistinctPaths (entry_values m ++ os)
  unfolding entry_values
  entries_distinct [] os ordered keyed free distinct = distinct
  entries_distinct ((k, v) ∷ m) os (below, ordered) ((_, key), keyed) free distinct = (
    All-append (SharesNoPath v) (entry_values m) os (below_shares k v m key below keyed)
        (inline_shares v os free),
    entries_distinct m os ordered keyed free distinct,
  )

  arrange-All : (sorted : ByPath × List Observation) → Sorted P sorted → All P (arrange sorted)
  unfolding arrange
  arrange-All (m, os) s =
      All-append P (entry_values m) _ (All-entry_values P m s.keyed)
        (All-sort_by P _ os (All-weaken _ P (λ o h. h.0) os s.inline))

  arrange-HasDistinctPaths :
      (sorted : ByPath × List Observation) → Sorted P sorted → HasDistinctPaths (arrange sorted)
  unfolding arrange
  arrange-HasDistinctPaths (m, os) s =
      let free = All-sort_by (λ q. q.path ≡ none) _ os (All-weaken _ _ (λ o h. h.1) os s.inline) in
      entries_distinct m _ s.ordered s.keyed free (inline_distinct _ free)

-- The answer to `observations`: each is one of them and valid, and no two share an id or a path.
pub record IsCatalog (P : Observation → Type 0) (catalog : List Observation) : Type 0 where
  pub valid : All (λ o. P o × (validate_observation o ≡ ok tt)) catalog
  pub ids : HasDistinctIds catalog
  pub paths : HasDistinctPaths catalog

refuse_collisions_ok :
    (cs : List IdentityCollision) (result catalog : List Observation)
    → refuse_collisions cs result ≡ ok catalog
    → (cs ≡ []) × (result ≡ catalog)
unfolding refuse_collisions
refuse_collisions_ok [] result catalog h = (refl, ok-injective h)
refuse_collisions_ok (c ∷ cs) result catalog h = cc

uncollided : (os : List Observation) → collisions (identities os []) ≡ [] → HasDistinctIds os
unfolding get_entry label_count
uncollided os free = count_id-HasDistinctIds os λ id.
    let total = label_count-identities id os [] tt in
    let single = collisions-none id (identities os []) free in omega arith

-- Where the observations are accepted, what comes back is valid, holds whatever held of every
-- observation given, and has no id twice and no path twice.
pub validate_and_sort-IsCatalog :
    (P : Observation → Type 0) (observations : List Observation) {catalog : List Observation}
    → All P observations
    → validate_and_sort_observations observations ≡ ok catalog
    → IsCatalog P catalog
unfolding validate_and_sort_observations
validate_and_sort-IsCatalog P observations holds =
    from_bind (sort_in observations ([], [])) _ λ sorted found accepted.
      let nothing : Sorted _ ([], []) = record { ordered = tt; keyed = tt; inline = tt } in
      let s = sort_in-Sorted P observations ([], []) holds nothing found in
      let (free, same) = refuse_collisions_ok _ (arrange sorted) _ accepted in
      subst (IsCatalog P) same record {
        valid = arrange-All _ sorted s;
        ids = uncollided (arrange sorted) free;
        paths = arrange-HasDistinctPaths _ sorted s;
      }
