-- ===== src/Triage/Observations/Valid.antt =====
-- What `validate_observation` lets through.
use sjbis.Prelude.{
  ap, ◌∙◌, ensure-true, ℕ, String, ◌≡◌, ◌↔◌, refl, Bool, true, false, Option, none, some, List, [],
  ◌∷◌, ◌&&◌, not, Result, ok, ◌>>=◌, ◌>>◌, ensure, ok_or, codes, same_codes, trim, is_empty, any,
  All, arith, and_true, not-true, from_ensure, from_bind, from_ok_or,
}
use sjbis.Json.{Json}
use sjbis.Triage.Data.{Observation}
use sjbis.Triage.Paths.{is_blank, is_absolute, components, is_normal, path_to_slash, split_slash}
use sjbis.Triage.Paths.Canonical.{IsCanonical-iff, names-normal}
use sjbis.Triage.Paths.Segments.{is_name}
use sjbis.Triage.Observations.{
  ImportError, uncontained_path, not_normal_path, not_canonical, is_trimmed, is_contained,
  is_absent, is_absent_or_object, validate_origin, validate_observation,
}

pub same_codes_iff : (s t : List ℕ) → (same_codes s t ≡ true) ↔ (s ≡ t)
unfolding same_codes
same_codes_iff [] [] = (λ h. refl, λ h. refl)
same_codes_iff [] (d ∷ t) = (λ h. cc, λ h. cc)
same_codes_iff (c ∷ s) [] = (λ h. cc, λ h. cc)
same_codes_iff (c ∷ s) (d ∷ t) = let rest = same_codes_iff s t in ground (arith, rest.0, rest.1)

-- An inline item has no source or an object; a path-backed one has no source, and a path whose
-- segments are names.
abbrev pub ValidOrigin : Option String → Option Json → Type 0
ValidOrigin none source = is_absent_or_object source ≡ true
ValidOrigin (some path) source =
    All (λ w. is_name w ≡ true) (split_slash (codes path)) × (source ≡ none)

pub record IsValid (o : Observation) : Type 0 where
  pub id_inked : is_empty o.id ≡ false
  pub id_trimmed : trim (codes o.id) ≡ codes o.id
  pub origin : ValidOrigin o.path o.source

is_absent-none : (source : Option Json) → is_absent source ≡ true → source ≡ none
unfolding is_absent
is_absent-none none h = refl
is_absent-none (some v) h = cc

-- `path_to_slash(path)? == path`
spell : String → Result ImportError Unit
spell path = ok_or (path_to_slash (codes path)) (not_normal_path path) >>= λ slashed.
    ensure (same_codes slashed (codes path)) (not_canonical path)

contained_parts :
    (s : List ℕ) → is_contained s ≡ true → (is_blank s ≡ false) × (is_absolute s ≡ false)
unfolding is_contained
contained_parts s h =
    let (both, _) = and_true (not (is_blank s) && not (is_absolute s)) inner h in
    let (inked, below) = and_true (not (is_blank s)) _ both in (not-true _ inked, not-true _ below)
  where
    inner : Bool
    inner = not (any (λ c. not (is_normal c)) (components s))

names_contained : (s : List ℕ) → All (λ w. is_name w ≡ true) (split_slash s) → is_contained s ≡ true
unfolding is_contained
names_contained s names =
    let canonical = (IsCanonical-iff s).1 names in
    rw (names-normal s names, canonical.inked, canonical.below)

path_names :
    (path : String) {x : Unit}
    → (ensure (is_contained (codes path)) (uncontained_path path) >> spell path) ≡ ok x
    → All (λ w. is_name w ≡ true) (split_slash (codes path))
unfolding spell
path_names path = from_ensure (is_contained (codes path)) _ _ λ contained.
    from_ok_or (path_to_slash (codes path)) _ _ λ slashed found same.
      let equal = (same_codes_iff slashed (codes path)).0 (ensure-true _ _ same) in
      let (inked, below) = contained_parts (codes path) contained in
      (IsCanonical-iff (codes path)).0
        (record { inked = inked; below = below; spelled = found ∙ ap some equal })

names_path :
    (path : String)
    → All (λ w. is_name w ≡ true) (split_slash (codes path))
    → (ensure (is_contained (codes path)) (uncontained_path path) >> spell path) ≡ ok tt
unfolding spell
names_path path names =
    let canonical = (IsCanonical-iff (codes path)).1 names in
    let same = (same_codes_iff (codes path) (codes path)).1 refl in
    rw (names_contained (codes path) names, canonical.spelled, same)

origin_sound :
    (o : Observation) (path : Option String) {x : Unit}
    → validate_origin o path ≡ ok x
    → ValidOrigin path o.source
unfolding validate_origin spell
origin_sound o none h = ensure-true _ _ h
origin_sound o (some path) h =
    from_bind (ensure (is_contained (codes path)) (uncontained_path path) >> spell path) _
      (λ _ spelled last. (
        path_names path spelled,
        is_absent-none o.source (ensure-true (is_absent o.source) _ last),
      ))
      h

origin_complete :
    (o : Observation) (path : Option String)
    → ValidOrigin path o.source
    → validate_origin o path ≡ ok tt
unfolding validate_origin spell is_absent
origin_complete o none h = rw h
origin_complete o (some path) (names, absent) = rw (names_path path names, absent)

-- An observation is accepted exactly when its id is trimmed and not empty and, where it has a path,
-- each of the path's segments is a name and there is no source, and where it has none, the source
-- is absent or an object.
pub validate_observation_iff : (o : Observation) → (validate_observation o ≡ ok tt) ↔ IsValid o
unfolding validate_observation is_trimmed
validate_observation_iff o = (
  from_ensure (is_trimmed o.id) _ _ λ trimmed origin.
      let (inked, whole) = and_true (not (is_empty o.id)) _ trimmed in
      record {
        id_inked = not-true _ inked;
        id_trimmed = (same_codes_iff _ _).0 whole;
        origin = origin_sound o o.path origin;
      },
  λ v.
      let whole = (same_codes_iff (trim (codes o.id)) (codes o.id)).1 v.id_trimmed in
      rw (is_trimmed, v.id_inked, whole, origin_complete o o.path v.origin),
)
