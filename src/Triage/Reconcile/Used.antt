-- ===== src/Triage/Reconcile/Used.antt =====
-- The match by id uses the observations of the existing ids.
use mathlib.Core.Path.{subst}
use mathlib.Core.Bool.{false≢true}
use sjbis.Prelude.{
  ℕ, suc, String, ◌≡◌, refl, sym, ◌∙◌, true, false, Option, none, some, List, [], ◌∷◌, ok, All, any,
  str_eq, eq_refl, eq_iff, Bool-cases, inl, inr, from_bind, or_right, true_or, ◌==◌, arith,
}
use sjbis.Triage.Data.{Observation, TriageItem, RefreshStats}
use sjbis.Triage.Observations.Catalog.{HasDistinctIds}
use sjbis.Triage.Reconcile.{
  ReconcileAction, Numbered, enumerate, later_or, by_id, has_index, Progress, act, use_index,
  match_item, match_items,
}
use sjbis.Triage.Reconcile.Tally.{IsStep}
use sjbis.Triage.Reconcile.Invariant.{match_items_keeps, found_again_keeps, match_item_ok}

-- In a catalogue without a shared id, each id leads to its own entry.
by_id-absent :
    (k : ℕ) (id : String) (os : List Observation)
    → All (λ q. str_eq q.id id ≡ false) os
    → by_id id (enumerate k os) ≡ none
unfolding by_id enumerate later_or
by_id-absent k id [] h = refl
by_id-absent k id (o ∷ os) (h, hs) = rw (by_id-absent (suc k) id os hs, h)

All-by_id :
    (k : ℕ) (o : Observation) (os ns : List Observation) (j : ℕ)
    → HasDistinctIds (o ∷ os)
    → All (λ n. by_id n.1.id (enumerate (suc k) os) ≡ some n) (enumerate j ns)
    → All (λ n. by_id n.1.id (enumerate k (o ∷ os)) ≡ some n) (enumerate j ns)
unfolding by_id enumerate later_or
All-by_id k o os [] j distinct h = tt
All-by_id k o os (q ∷ ns) j distinct (h, hs) = (rw h, All-by_id k o os ns (suc j) distinct hs)

pub by_id-own :
    (k : ℕ) (os : List Observation)
    → HasDistinctIds os
    → All (λ n. by_id n.1.id (enumerate k os) ≡ some n) (enumerate k os)
unfolding enumerate by_id later_or
by_id-own k [] distinct = tt
by_id-own k (o ∷ os) (apart, distinct) = (
  rw (by_id-absent (suc k) o.id os apart, eq_refl o.id),
  All-by_id k o os os (suc k) (apart, distinct) (by_id-own (suc k) os distinct),
)

-- No existing item has the id.
abbrev pub IsNew : List TriageItem → Observation → Type 0
IsNew existing o = All (λ item. str_eq item.id o.id ≡ false) existing

-- The index stays in use.
pub use_index-used :
    (j i : ℕ) (p : Progress) → has_index j p.used ≡ true → has_index j (use_index i p).used ≡ true
unfolding use_index has_index any
use_index-used j i p h = or_right (i == j) _ h

pub act-used :
    (j : ℕ) (id : String) (a : ReconcileAction) (count : RefreshStats → RefreshStats) (p : Progress)
    → IsStep id a count
    → has_index j p.used ≡ true
    → has_index j (act id a count p).used ≡ true
unfolding act
act-used j id a count p step h = h

newly_used : (i : ℕ) (p : Progress) → has_index i (use_index i p).used ≡ true
unfolding use_index has_index any
newly_used i p = let self : (i == i) ≡ true = ground arith in true_or _ _ self

module _ (sha256_hex : String → String) where
  match_item-used :
      (item : TriageItem) (found : Option Numbered) (p : Progress) {p' : Progress}
      → match_item sha256_hex item found p ≡ ok p'
      → (n : Numbered) → found ≡ some n
      → has_index n.0 p'.used ≡ true
  unfolding match_item
  match_item-used item none p h n at = cc
  match_item-used item (some (i, o)) p {p'} h n at =
      let used =
        found_again_keeps (λ q. has_index i q.used ≡ true) (use_index-used i) (act-used i)
          sha256_hex item o item.source_kind (use_index i p) (newly_used i p) in
      let index : i ≡ n.0 = cc at in
      let same = match_item_ok sha256_hex item i o p h in
      subst (λ j. has_index j p'.used ≡ true) index
        (subst (λ q. has_index i q.used ≡ true) same used)

  -- The first loop uses the observations of the existing ids.
  pub match_items-used :
      (ns : List Numbered) (items : List TriageItem) (p : Progress) {p' : Progress}
      → match_items sha256_hex ns items p ≡ ok p'
      → All
          (λ item. (n : Numbered) → by_id item.id ns ≡ some n → has_index n.0 p'.used ≡ true)
          items
  unfolding match_items
  match_items-used ns [] p h = tt
  match_items-used ns (item ∷ items) p h =
      from_bind (match_item sha256_hex item (by_id item.id ns) p) _
        (λ mid matched rest. (
          λ n at.
              match_items_keeps (λ q. has_index n.0 q.used ≡ true) (use_index-used n.0)
                (act-used n.0) sha256_hex ns items mid
                (match_item-used item (by_id item.id ns) p matched n at) rest,
          match_items-used ns items mid rest,
        ))
        h

-- So an observation that is not used has no existing id.
unused-IsNew :
    (existing : List TriageItem) (ns : List Numbered) (used : List ℕ) (n : Numbered)
    → All (λ item. (m : Numbered) → by_id item.id ns ≡ some m → has_index m.0 used ≡ true) existing
    → by_id n.1.id ns ≡ some n
    → has_index n.0 used ≡ false
    → IsNew existing n.1
unused-IsNew [] ns used n covered own free = tt
unused-IsNew (item ∷ existing) ns used n (first, covered) own free = (
  elim (Bool-cases (str_eq item.id n.1.id)) [
    | inl same ↦
        let at : by_id item.id ns ≡ some n = rw ((eq_iff item.id n.1.id).0 same) own in
        absurd (false≢true (sym free ∙ first n at))
    | inr apart ↦ apart
  ],
  unused-IsNew existing ns used n covered own free,
)

pub All-unused-IsNew :
    (existing : List TriageItem) (ns ms : List Numbered) (used : List ℕ)
    → All (λ item. (m : Numbered) → by_id item.id ns ≡ some m → has_index m.0 used ≡ true) existing
    → All (λ n. by_id n.1.id ns ≡ some n) ms
    → All (λ n. has_index n.0 used ≡ false → IsNew existing n.1) ms
All-unused-IsNew existing ns [] used covered own = tt
All-unused-IsNew existing ns (n ∷ ms) used covered (mine, own) =
    (unused-IsNew existing ns used n covered mine, All-unused-IsNew existing ns ms used covered own)
