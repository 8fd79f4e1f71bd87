-- ===== src/Triage/Paths.antt =====
-- src/triage/import.rs: paths as `std::path` reads them on Unix, and their canonical text.
pub mod Segments
pub mod Canonical
use sjbis.Prelude.{
  ℕ, String, Bool, true, false, Option, none, some, List, [], ◌∷◌, ◌++◌, ◌&&◌, ◌||◌, not,
  if◌then◌else◌, ◌==◌, Result, ok, err, ◌>>=◌, codes, same_codes,
}
use sjbis.Triage.Glob.{starts_with}

-- `split('/')`
unfoldable pub first_segment : ℕ → List (List ℕ) → List (List ℕ)
first_segment c [] = (c ∷ []) ∷ []
first_segment c (w ∷ ws) = (c ∷ w) ∷ ws

unfoldable pub split_slash : List ℕ → List (List ℕ)
unfolding first_segment
split_slash [] = [] ∷ []
split_slash (c ∷ s) =
    let rest = split_slash s in if c == b'/' then [] ∷ rest else first_segment c rest

-- `join("/")`
unfoldable pub join_slash : List (List ℕ) → List ℕ
join_slash [] = []
join_slash (w ∷ []) = w
join_slash (w ∷ v ∷ ws) = w ++ (b'/' ∷ join_slash (v ∷ ws))

pub data Component : Type 0 where
  root_dir cur_dir parent_dir : Component
  normal : List ℕ → Component

unfoldable pub is_dot : List ℕ → Bool
is_dot w = same_codes w (b'.' ∷ [])

unfoldable pub is_dot_dot : List ℕ → Bool
is_dot_dot w = same_codes w (b'.' ∷ b'.' ∷ [])

unfoldable pub is_blank : List ℕ → Bool
is_blank [] = true
is_blank (c ∷ w) = false

-- The components of the segments after the first: empty ones and `.` are passed over.
unfoldable pub inner_components : List (List ℕ) → List Component
unfolding is_dot is_dot_dot is_blank
inner_components [] = []
inner_components (w ∷ ws) =
    let rest = inner_components ws in
    if is_blank w || is_dot w then rest else (if is_dot_dot w then parent_dir else normal w) ∷ rest

-- A `.` at the start of a path is a component.
unfoldable pub relative_components : List (List ℕ) → List Component
unfolding inner_components is_dot
relative_components [] = []
relative_components (w ∷ ws) =
    if is_dot w then cur_dir ∷ inner_components ws else inner_components (w ∷ ws)

unfoldable pub is_absolute : List ℕ → Bool
unfolding starts_with
is_absolute s = starts_with b'/' s

-- `Path::components`
unfoldable pub components : List ℕ → List Component
unfolding is_absolute relative_components inner_components split_slash
components s =
    if is_absolute s
    then root_dir ∷ inner_components (split_slash s)
    else relative_components (split_slash s)

unfoldable pub is_normal : Component → Bool
is_normal (normal w) = true
is_normal _ = false

-- `components().map(…).collect::<Result<_, _>>()`: the error is `none`.
unfoldable pub normal_names : List Component → Option (List (List ℕ))
normal_names [] = some []
normal_names (root_dir ∷ cs) = none
normal_names (cur_dir ∷ cs) = none
normal_names (parent_dir ∷ cs) = none
normal_names (normal w ∷ cs) = elim (normal_names cs) [ none ↦ none | some ws ↦ some (w ∷ ws) ]

unfoldable pub joined_names : Option (List (List ℕ)) → Option (List ℕ)
unfolding join_slash
joined_names none = none
joined_names (some ws) = some (join_slash ws)

unfoldable pub path_to_slash : List ℕ → Option (List ℕ)
unfolding normal_names components joined_names
path_to_slash s = joined_names (normal_names (components s))
