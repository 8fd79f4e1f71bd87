-- ===== src/Triage/Observations.antt =====
-- src/triage/import.rs: the errors of an import, `validate_observation` and
-- `validate_and_sort_observations`. A `Validation` error is a constructor for each message.
pub mod Valid
pub mod Catalog
pub mod Distinct
use Prim.Native.String.{◌++◌ as append}
use sjbis.Prelude.{
  ℕ, String, Bool, true, false, Option, none, some, List, [], ◌∷◌, ◌++◌, ◌&&◌, not, if◌then◌else◌,
  Result, ok, err, ◌>>=◌, ◌>>◌, ensure, ok_or, codes, same_codes, trim, is_empty, any, ltb, length,
  put_entry, entry_values, text_ltb, sort_by,
}
use sjbis.Json.{Json, is_object}
use sjbis.Triage.Data.{Observation, SourceKind}
use sjbis.Triage.Paths.{is_blank, is_absolute, components, is_normal, path_to_slash}

pub record IdentityCollision : Type 0 where
  pub id : String
  pub paths : List String

pub data ImportError : Type 0 where
  bad_item_id not_path_backed no_patterns empty_pattern relative_list_path : ImportError
  uncontained_path not_normal_path not_canonical source_on_path source_not_object :
      String → ImportError
  hash_mismatch pattern_leaves_root unterminated_class empty_class : String → ImportError
  kind_changed : String → SourceKind → SourceKind → ImportError
  identity_collisions : List IdentityCollision → ImportError

-- Text that is not empty and that `trim` leaves alone.
unfoldable pub is_trimmed : String → Bool
unfolding is_empty trim same_codes
is_trimmed s = not (is_empty s) && same_codes (trim (codes s)) (codes s)

unfoldable pub is_contained : List ℕ → Bool
unfolding is_blank is_absolute components is_normal any
is_contained s =
    not (is_blank s) && not (is_absolute s) && not (any (λ c. not (is_normal c)) (components s))

-- `source.as_ref().is_some_and(|source| !source.is_object())`, negated.
unfoldable pub is_absent_or_object : Option Json → Bool
unfolding is_object
is_absent_or_object none = true
is_absent_or_object (some v) = is_object v

unfoldable pub is_absent : Option Json → Bool
is_absent none = true
is_absent (some v) = false

unfoldable pub validate_origin : Observation → Option String → Result ImportError Unit
unfolding is_contained is_absent is_absent_or_object path_to_slash same_codes
validate_origin o none = ensure (is_absent_or_object o.source) (source_not_object o.id)
validate_origin o (some path) =
    ensure (is_contained (codes path)) (uncontained_path path)
    >> (ok_or (path_to_slash (codes path)) (not_normal_path path) >>= λ slashed.
        ensure (same_codes slashed (codes path)) (not_canonical path))
    >> ensure (is_absent o.source) (source_on_path o.id)

unfoldable pub validate_observation : Observation → Result ImportError Unit
unfolding is_trimmed validate_origin
validate_observation o = ensure (is_trimmed o.id) bad_item_id >> validate_origin o o.path

abbrev pub ByPath : Type 0
ByPath = List (String × Observation)

-- `or_insert(observation)`
unfoldable pub keep_first : Observation → Option Observation → Observation
keep_first o none = o
keep_first o (some first) = first

unfoldable pub place :
    Observation → Option String → ByPath × List Observation → ByPath × List Observation
unfolding put_entry keep_first
place o none (by_path, inline) = (by_path, inline ++ (o ∷ []))
place o (some path) (by_path, inline) = (put_entry path (keep_first o) by_path, inline)

-- The loop over the observations.
unfoldable pub sort_in :
    List Observation → ByPath × List Observation → Result ImportError (ByPath × List Observation)
unfolding validate_observation place
sort_in [] sorted = ok sorted
sort_in (o ∷ os) sorted = validate_observation o >> sort_in os (place o o.path sorted)

unfoldable pub arrange : ByPath × List Observation → List Observation
unfolding entry_values sort_by text_ltb
arrange (by_path, inline) = entry_values by_path ++ sort_by (λ a b. text_ltb a.id b.id) inline

-- `item.path`, or `<inline:id>`
unfoldable pub identity_label : Observation → Option String → String
identity_label o none = append "<inline:" (append o.id ">")
identity_label o (some path) = path

-- `or_default().push(text)`
unfoldable pub push_text : String → Option (List String) → List String
push_text text none = text ∷ []
push_text text (some texts) = texts ++ (text ∷ [])

unfoldable pub identities :
    List Observation → List (String × List String) → List (String × List String)
unfolding put_entry push_text identity_label
identities [] m = m
identities (o ∷ os) m = identities os (put_entry o.id (push_text (identity_label o o.path)) m)

unfoldable pub collisions : List (String × List String) → List IdentityCollision
collisions [] = []
collisions ((id, paths) ∷ m) =
    let rest = collisions m in
    if ltb 1 (length paths) then record { id = id; paths = paths } ∷ rest else rest

unfoldable pub refuse_collisions :
    List IdentityCollision → List Observation → Result ImportError (List Observation)
refuse_collisions [] result = ok result
refuse_collisions (c ∷ cs) result = err (identity_collisions (c ∷ cs))

unfoldable pub validate_and_sort_observations :
    List Observation → Result ImportError (List Observation)
unfolding sort_in arrange identities collisions refuse_collisions
validate_and_sort_observations observations = sort_in observations ([], []) >>= λ sorted.
    let result = arrange sorted in refuse_collisions (collisions (identities result [])) result
