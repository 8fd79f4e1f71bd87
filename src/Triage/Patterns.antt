-- ===== src/Triage/Patterns.antt =====
-- src/triage/import.rs: the checks on a queue's source.
use sjbis.Prelude.{
  ℕ, String, Bool, true, false, List, [], ◌∷◌, ◌||◌, not, if◌then◌else◌, ◌==◌, Result, ok, err,
  ◌>>◌, ensure, codes, is_empty, any,
}
use sjbis.Triage.Data.{SourceSpec, glob, json_list}
use sjbis.Triage.Paths.{Component, root_dir, cur_dir, parent_dir, normal, is_absolute, components}
use sjbis.Triage.Observations.{
  ImportError, no_patterns, empty_pattern, pattern_leaves_root, unterminated_class, empty_class,
  relative_list_path,
}

-- Where the scan for classes stands: outside of one, just after its bracket, or inside.
pub data ClassScan : Type 0 where
  outside opened inside : ClassScan

unfoldable pub check_classes : String → ClassScan → List ℕ → Result ImportError Unit
check_classes pattern_ outside [] = ok tt
check_classes pattern_ opened [] = err (unterminated_class pattern_)
check_classes pattern_ inside [] = err (unterminated_class pattern_)
check_classes pattern_ outside (c ∷ s) =
    check_classes pattern_ (if c == b'[' then opened else outside) s
check_classes pattern_ opened (c ∷ s) =
    let rest = check_classes pattern_ inside s in
    if c == b']' then err (empty_class pattern_) else rest
check_classes pattern_ inside (c ∷ s) =
    check_classes pattern_ (if c == b']' then outside else inside) s

unfoldable pub validate_character_classes : String → Result ImportError Unit
unfolding check_classes
validate_character_classes pattern_ = check_classes pattern_ outside (codes pattern_)

unfoldable pub leaves_root : Component → Bool
leaves_root root_dir = true
leaves_root parent_dir = true
leaves_root cur_dir = false
leaves_root (normal w) = false

unfoldable pub validate_pattern : String → Result ImportError Unit
unfolding validate_character_classes leaves_root is_absolute components is_empty any
validate_pattern pattern_ =
    ensure (not (is_empty pattern_)) empty_pattern
    >> ensure (not (is_absolute (codes pattern_) || any leaves_root (components (codes pattern_))))
        (pattern_leaves_root pattern_)
    >> validate_character_classes pattern_

unfoldable pub validate_each : List String → Result ImportError Unit
unfolding validate_pattern
validate_each [] = ok tt
validate_each (p ∷ ps) = validate_pattern p >> validate_each ps

unfoldable pub validate_patterns : List String → Result ImportError Unit
unfolding validate_each
validate_patterns [] = err no_patterns
validate_patterns (p ∷ ps) = validate_each (p ∷ ps)

unfoldable pub validate_persisted_source_spec : SourceSpec → Result ImportError Unit
unfolding validate_patterns is_absolute
validate_persisted_source_spec (glob patterns) = validate_patterns patterns
validate_persisted_source_spec (json_list path) =
    ensure (is_absolute (codes path)) relative_list_path
