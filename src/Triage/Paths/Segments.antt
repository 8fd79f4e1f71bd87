-- ===== src/Triage/Paths/Segments.antt =====
-- The segments of a path between its slashes, and the names among its components.
use sjbis.Prelude.{
  length, ◌+◌, ◌<◌, suc, ◌⊎◌, ℕ, ◌≡◌, refl, ap, ◌∙◌, Bool, true, false, some, List, [], ◌∷◌, ◌++◌,
  ◌||◌, ◌&&◌, not, ◌==◌, All, Bool-cases, inl, inr, arith, Option-cases,
}
use sjbis.Triage.Glob.{starts_with}
use sjbis.Triage.Paths.{
  first_segment, split_slash, join_slash, Component, normal, is_dot, is_dot_dot, is_blank,
  inner_components, is_absolute, normal_names,
}

-- A segment that names a file or a directory.
unfoldable pub is_name : List ℕ → Bool
is_name w = not (is_blank w || is_dot w) && not (is_dot_dot w)

join_slash-first_segment :
    (c : ℕ) (ws : List (List ℕ)) → join_slash (first_segment c ws) ≡ c ∷ join_slash ws
unfolding first_segment join_slash
join_slash-first_segment c [] = refl
join_slash-first_segment c (w ∷ []) = refl
join_slash-first_segment c (w ∷ v ∷ ws) = refl

-- A split is never empty, and its first segment is blank where the text starts with a slash.
pub data IsSplit (s : List ℕ) : List (List ℕ) → Type 0 where
  split : (w : List ℕ) (ws : List (List ℕ)) → (is_absolute s ≡ true → w ≡ []) → IsSplit s (w ∷ ws)

first_segment-IsSplit :
    (c : ℕ) (s : List ℕ) (ws : List (List ℕ))
    → (c == b'/') ≡ false
    → IsSplit (c ∷ s) (first_segment c ws)
unfolding first_segment is_absolute starts_with
first_segment-IsSplit c s [] other = split (c ∷ []) [] (λ h. cc)
first_segment-IsSplit c s (w ∷ ws) other = split (c ∷ w) ws (λ h. cc)

pub split_slash-IsSplit : (s : List ℕ) → IsSplit s (split_slash s)
unfolding split_slash is_absolute starts_with
split_slash-IsSplit [] = split [] [] (λ h. refl)
split_slash-IsSplit (c ∷ s) = elim (Bool-cases (c == b'/')) [
  | inl slash ↦ rw slash (split [] (split_slash s) (λ h. refl))
  | inr other ↦ rw other (first_segment-IsSplit c s (split_slash s) other)
]

blank_first :
    (s : List ℕ) (ws : List (List ℕ)) → IsSplit s ws → join_slash ([] ∷ ws) ≡ b'/' ∷ join_slash ws
unfolding join_slash
blank_first s [] none_split = elim none_split [ ]
blank_first s (w ∷ ws) parts = refl

pub join_slash-split_slash : (s : List ℕ) → join_slash (split_slash s) ≡ s
unfolding split_slash join_slash
join_slash-split_slash [] = refl
join_slash-split_slash (c ∷ s) = elim (Bool-cases (c == b'/')) [
  | inl slash ↦
      let equal : c ≡ b'/' = ground arith in
      rw (
        slash,
        blank_first s (split_slash s) (split_slash-IsSplit s),
        join_slash-split_slash s,
        equal,
      )
  | inr other ↦ rw (other, join_slash-first_segment c (split_slash s), join_slash-split_slash s)
]

length-append : (s t : List ℕ) → length (s ++ t) ≡ length s + length t
length-append [] t = omega arith
length-append (c ∷ s) t = let rest = length-append s t in omega arith

-- What a list of segments takes, one separator for each.
unfoldable pub weight : List (List ℕ) → ℕ
weight [] = 0
weight (w ∷ ws) = suc (length w + weight ws)

pub weight-join :
    (w : List ℕ) (ws : List (List ℕ)) → weight (w ∷ ws) ≡ suc (length (join_slash (w ∷ ws)))
unfolding weight join_slash
weight-join w [] = omega arith
weight-join w (v ∷ ws) =
    let later = weight-join v ws in
    let whole = length-append w (b'/' ∷ join_slash (v ∷ ws)) in omega arith

-- The names among the components are the segments themselves, or weigh less than those.
abbrev pub Keeps : List (List ℕ) → List (List ℕ) → Type 0
Keeps ws ks = (weight ks < weight ws) ⊎ (All (λ w. is_name w ≡ true) ws × (ks ≡ ws))

normal_names-cons :
    (w : List ℕ) (cs : List Component) {ks : List (List ℕ)}
    → normal_names (normal w ∷ cs) ≡ some ks
    → (rest : List (List ℕ)) × (normal_names cs ≡ some rest) × (ks ≡ w ∷ rest)
unfolding normal_names
normal_names-cons w cs h = elim (Option-cases (normal_names cs)) [
  | inl gone ↦ cc (rw gone at h)
  | inr (rest, found) ↦ (rest, found, cc (rw found at h))
]

pub names_kept :
    (ws ks : List (List ℕ)) → normal_names (inner_components ws) ≡ some ks → Keeps ws ks
unfolding inner_components weight is_name normal_names
names_kept [] ks h = inr (tt, cc)
names_kept (w ∷ ws) ks h = elim (Bool-cases (is_blank w || is_dot w)) [
  | inl passed ↦ elim (names_kept ws ks (rw passed at h)) [
    | inl lighter ↦ inl (omega arith)
    | inr (names, same) ↦ inl (rw same (omega arith))
  ]
  | inr kept ↦ elim (Bool-cases (is_dot_dot w)) [
    | inl up ↦ cc (rw (kept, up) at h)
    | inr inside ↦
        let (rest, found, same) =
          normal_names-cons w (inner_components ws) (rw (kept, inside) at h) in
        elim (names_kept ws rest found) [
          | inl lighter ↦ inl (rw same (omega arith))
          | inr (names, same_rest) ↦
              inr ((rw (kept, inside) refl, names), same ∙ ap (λ x. w ∷ x) same_rest)
        ]
  ]
]
