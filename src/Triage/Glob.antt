-- ===== src/Triage/Glob.antt =====
-- src/triage/import.rs: the glob patterns of a queue, on code points. The pattern and the path that
-- are left stand for the source's two indices; its memo of a pure function is left out.
pub mod Syntax
pub mod Classes
pub mod Accepts
pub mod Sound
pub mod Decides
use sjbis.Prelude.{
  ℕ, zero, suc, ◌+◌, String, Bool, true, false, Option, none, some, List, [], ◌∷◌, ◌&&◌, ◌||◌, not,
  if◌then◌else◌, ◌==◌, leb, length, codes,
}

-- `pattern.get(0) == Some(c)`
unfoldable pub starts_with : ℕ → List ℕ → Bool
starts_with c [] = false
starts_with c (d ∷ p) = d == c

unfoldable pub skip_stars : List ℕ → List ℕ
skip_stars [] = []
skip_stars (c ∷ p) = let rest = skip_stars p in if c == b'*' then rest else c ∷ p

unfoldable pub skip_slash : List ℕ → List ℕ
skip_slash [] = []
skip_slash (c ∷ p) = if c == b'/' then p else c ∷ p

-- What follows `**`: further stars are read with it, and one slash.
unfoldable pub after_deep : List ℕ → List ℕ
unfolding skip_stars skip_slash
after_deep p = skip_slash (skip_stars p)

-- The members of a class up to its bracket: whether one of them is `value`, and the pattern after
-- the bracket; `none` where the bracket is missing.
unfoldable pub class_scan : ℕ → Bool → List ℕ → Option (Bool × List ℕ)
class_scan value matched [] = none
class_scan value matched (a ∷ []) = if a == b']' then some (matched, []) else none
class_scan value matched (a ∷ b ∷ []) =
    let single = class_scan value (matched || a == value) (b ∷ []) in
    if a == b']' then some (matched, b ∷ []) else single
class_scan value matched (a ∷ b ∷ c ∷ p) =
    let range = class_scan value (matched || (leb a value && leb value c)) p in
    let single = class_scan value (matched || a == value) (b ∷ c ∷ p) in
    if a == b']'
    then some (matched, b ∷ c ∷ p)
    else if b == b'-' && not (c == b']')
    then range
    else single

unfoldable pub is_negated : List ℕ → Bool
unfolding starts_with
is_negated p = starts_with b'!' p || starts_with b'^' p

unfoldable pub members : List ℕ → List ℕ
unfolding is_negated
members [] = []
members (c ∷ p) = if is_negated (c ∷ p) then p else c ∷ p

unfoldable pub class_end : Bool → Option (Bool × List ℕ) → Option (List ℕ)
class_end negated none = none
class_end true (some (true, rest)) = none
class_end false (some (false, rest)) = none
class_end true (some (false, rest)) = some rest
class_end false (some (true, rest)) = some rest

-- The class after its opening bracket, against one character: the pattern after the class.
unfoldable pub character_class_match : List ℕ → ℕ → Option (List ℕ)
unfolding class_scan is_negated members class_end
character_class_match p value =
    if value == b'/' then none else class_end (is_negated p) (class_scan value false (members p))

-- One step at a pattern that starts with `d`, where `next` goes on with what is left.
module _ (next : List ℕ → List ℕ → Bool) where
  -- `path_index < path.len() && …` with the pattern kept or moved to `p`.
  anywhere : List ℕ → List ℕ → Bool
  anywhere p [] = false
  anywhere p (c ∷ s) = next p s

  in_segment : List ℕ → List ℕ → Bool
  in_segment p [] = false
  in_segment p (c ∷ s) = not (c == b'/') && next p s

  after_class : Option (List ℕ) → List ℕ → Bool
  after_class none s = false
  after_class (some p) s = next p s

  in_class : List ℕ → List ℕ → Bool
  unfolding after_class character_class_match
  in_class p [] = false
  in_class p (c ∷ s) = after_class (character_class_match p c) s

  exactly : ℕ → List ℕ → List ℕ → Bool
  exactly d p [] = false
  exactly d p (c ∷ s) = d == c && next p s

  glob_step : ℕ → List ℕ → List ℕ → Bool
  unfolding anywhere in_segment in_class exactly after_deep starts_with
  glob_step d p s =
      if d == b'*'
      then (if starts_with b'*' p
          then next (after_deep p) s || anywhere (d ∷ p) s
          else next p s || in_segment (d ∷ p) s)
      else if d == b'?'
      then in_segment p s
      else if d == b'['
      then in_class p s
      else exactly d p s

-- On fuel that the pattern and the path bound.
unfoldable pub glob_matches_at : ℕ → List ℕ → List ℕ → Bool
unfolding glob_step
glob_matches_at zero p s = false
glob_matches_at (suc fuel) [] [] = true
glob_matches_at (suc fuel) [] (c ∷ s) = false
glob_matches_at (suc fuel) (d ∷ p) s = glob_step (glob_matches_at fuel) d p s

unfoldable pub glob_matches : String → String → Bool
unfolding glob_matches_at
glob_matches pattern_ path =
    glob_matches_at (length (codes pattern_) + length (codes path) + 1) (codes pattern_)
      (codes path)
