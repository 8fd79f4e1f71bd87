-- ===== src/Triage/Paths/Canonical.antt =====
-- Which texts are canonical relative paths.
use mathlib.Core.Option.{none-ne-some}
use sjbis.Prelude.{
  not-true, and_true, length, ◌<◌, ℕ, ◌≡◌, ◌↔◌, refl, ap, sym, ◌∙◌, true, false, none, some, List,
  [], ◌∷◌, ◌||◌, not, All, any, Bool-cases, inl, inr, arith, Option-cases,
}
use sjbis.Triage.Paths.Segments.{
  is_name, IsSplit, split, split_slash-IsSplit, join_slash-split_slash, weight, weight-join,
  names_kept,
}
use sjbis.Triage.Paths.{
  split_slash, join_slash, is_dot, is_blank, inner_components, relative_components, is_absolute,
  components, is_normal, normal_names, path_to_slash, joined_names,
}

All-is_name-components :
    (ws : List (List ℕ))
    → All (λ w. is_name w ≡ true) ws
    → normal_names (inner_components ws) ≡ some ws
unfolding normal_names inner_components is_name
All-is_name-components [] names = refl
All-is_name-components (w ∷ ws) (named, names) =
    let (kept, inside) = and_true (not (is_blank w || is_dot w)) _ named in
    rw (not-true _ kept, not-true _ inside, All-is_name-components ws names)

named_first : (w : List ℕ) → is_name w ≡ true → (is_dot w ≡ false) × (is_blank w ≡ false)
unfolding is_name
named_first w named = ground arith

named_relative :
    (s : List ℕ) (ws : List (List ℕ))
    → IsSplit s ws
    → All (λ w. is_name w ≡ true) ws
    → (is_absolute s ≡ false) × (relative_components ws ≡ inner_components ws)
unfolding relative_components
named_relative s [] none_split names = elim none_split [ ]
named_relative s (w ∷ ws) (split _ _ blank) (named, names) =
    let (not_dot, inked) = named_first w named in (relative w blank inked, rw not_dot)
  where
    relative :
        (w : List ℕ) → (is_absolute s ≡ true → w ≡ []) → is_blank w ≡ false → is_absolute s ≡ false
    relative w blank inked = elim (Bool-cases (is_absolute s)) [
      | inl rooted ↦ cc (rw (blank rooted) at inked)
      | inr below ↦ below
    ]

-- A path that is neither empty nor absolute and that its normal components spell.
pub record IsCanonical (s : List ℕ) : Type 0 where
  pub inked : is_blank s ≡ false
  pub below : is_absolute s ≡ false
  pub spelled : path_to_slash s ≡ some s

path_to_slash-some :
    (s : List ℕ) {t : List ℕ}
    → path_to_slash s ≡ some t
    → (ks : List (List ℕ)) × (normal_names (components s) ≡ some ks) × (join_slash ks ≡ t)
unfolding path_to_slash joined_names
path_to_slash-some s h = elim (Option-cases (normal_names (components s))) [
  | inl gone ↦ cc (rw (path_to_slash, gone) at h)
  | inr (ks, found) ↦ (ks, found, cc (rw (path_to_slash, found) at h))
]

relative_kept :
    (w : List ℕ) (ws : List (List ℕ))
    → is_dot w ≡ false
    → relative_components (w ∷ ws) ≡ inner_components (w ∷ ws)
unfolding relative_components
relative_kept w ws not_dot = rw not_dot

relative_dot :
    (w : List ℕ) (ws : List (List ℕ))
    → is_dot w ≡ true
    → normal_names (relative_components (w ∷ ws)) ≡ none
unfolding relative_components normal_names
relative_dot w ws dot = rw dot

-- The names that spell a text are its segments.
spelled_names :
    (s : List ℕ) (ws ks : List (List ℕ))
    → IsSplit s ws
    → join_slash ws ≡ s
    → is_blank s ≡ false
    → normal_names (relative_components ws) ≡ some ks
    → join_slash ks ≡ s
    → All (λ w. is_name w ≡ true) ws
unfolding is_blank join_slash
spelled_names s [] ks none_split whole inked found spells = elim none_split [ ]
spelled_names s (w ∷ ws) ks parts whole inked found spells = elim (Bool-cases (is_dot w)) [
  | inl dot ↦ absurd (none-ne-some ks (sym (relative_dot w ws dot) ∙ found))
  | inr not_dot ↦
      elim (names_kept (w ∷ ws) ks (ap normal_names (sym (relative_kept w ws not_dot)) ∙ found)) [
        | inl lighter ↦ too_light ks lighter spells
        | inr (names, same) ↦ names
      ]
]
  where
    too_light :
        (ks : List (List ℕ))
        → weight ks < weight (w ∷ ws)
        → join_slash ks ≡ s
        → All (λ w. is_name w ≡ true) (w ∷ ws)
    too_light [] lighter spells = let blank : is_blank s ≡ true = ap is_blank (sym spells) in cc
    too_light (k ∷ ks) lighter spells =
        let left = weight-join k ks in
        let right = weight-join w ws in
        let equal : length (join_slash (k ∷ ks)) ≡ length (join_slash (w ∷ ws)) =
          ap length (spells ∙ sym whole) in
        let clash : ⊥ = omega arith in absurd clash

IsCanonical-names : (s : List ℕ) → IsCanonical s → All (λ w. is_name w ≡ true) (split_slash s)
unfolding components
IsCanonical-names s canonical =
    let (ks, found, spells) = path_to_slash-some s canonical.spelled in
    spelled_names s (split_slash s) ks (split_slash-IsSplit s) (join_slash-split_slash s)
      canonical.inked (rw canonical.below at found) spells

names_inked : (s : List ℕ) → All (λ w. is_name w ≡ true) (split_slash s) → is_blank s ≡ false
unfolding split_slash is_name is_blank
names_inked [] (named, _) = cc
names_inked (c ∷ s) names = refl

names-IsCanonical : (s : List ℕ) → All (λ w. is_name w ≡ true) (split_slash s) → IsCanonical s
unfolding components path_to_slash joined_names
names-IsCanonical s names =
    let (below, relative) = named_relative s (split_slash s) (split_slash-IsSplit s) names in
    record {
      inked = names_inked s names;
      below = below;
      spelled = rw (
        path_to_slash,
        components,
        below,
        relative,
        All-is_name-components (split_slash s) names,
        join_slash-split_slash s,
      );
    }

-- A path is canonical exactly when each of its segments between slashes is a name: not empty, not
-- `.` and not `..`.
pub IsCanonical-iff : (s : List ℕ) → IsCanonical s ↔ All (λ w. is_name w ≡ true) (split_slash s)
IsCanonical-iff s = (IsCanonical-names s, names-IsCanonical s)

inner_normal :
    (ws : List (List ℕ))
    → All (λ w. is_name w ≡ true) ws
    → any (λ c. not (is_normal c)) (inner_components ws) ≡ false
unfolding any is_normal inner_components is_name
inner_normal [] names = refl
inner_normal (w ∷ ws) (named, names) =
    let (kept, inside) = and_true (not (is_blank w || is_dot w)) _ named in
    rw (not-true _ kept, not-true _ inside) (inner_normal ws names)

-- The components of a canonical path are all normal.
pub names-normal :
    (s : List ℕ)
    → All (λ w. is_name w ≡ true) (split_slash s)
    → any (λ c. not (is_normal c)) (components s) ≡ false
unfolding components
names-normal s names =
    let (below, relative) = named_relative s (split_slash s) (split_slash-IsSplit s) names in
    rw (components, below, relative) (inner_normal (split_slash s) names)
