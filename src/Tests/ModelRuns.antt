-- ===== src/Tests/ModelRuns.antt =====
-- Runs of src/models.rs.
use sjbis.Prelude.{
  ◌≡◌, ◌≢◌, ◌↔◌, refl, none, some, [], ◌∷◌, ℤ, pos, ◌≤ℤ◌, true, unsigned, digits_value, arith,
}
use sjbis.Models.Enums.{
  from_str, to_string, yes_no, approval, status_of_text, debug_lower, muted, timed_out, open_,
}
use sjbis.Models.Enums.Texts.{from_str_iff, status_of_text-debug_lower}
use sjbis.Models.Duration.{parse_duration_codes, failed, or_panic}
use sjbis.Models.Duration.Units.{milliseconds_refused, parse_duration_units}
use sjbis.Models.Resolve.{resolve_ttl_secs, resolve_once, resolved_ask}
use sjbis.Tests.Samples.{clock}

from_str_iff_example : (from_str "yesno" ≡ some yes_no) ↔ (to_string yes_no ≡ "yesno")
from_str_iff_example = from_str_iff "yesno" yes_no

status_of_text-debug_lower_example :
    ((status_of_text (debug_lower muted) ≡ muted) ↔ (muted ≢ timed_out))
    × (status_of_text (debug_lower timed_out) ≡ open_)
status_of_text-debug_lower_example = status_of_text-debug_lower muted

milliseconds_refused_example :
    parse_duration_codes clock (b'5' ∷ b'0' ∷ b'0' ∷ b'm' ∷ b's' ∷ []) ≡ failed
milliseconds_refused_example = milliseconds_refused clock (b'5' ∷ b'0' ∷ b'0' ∷ [])

ninety : unsigned (b'9' ∷ b'0' ∷ []) ≡ some 90
unfolding unsigned digits_value
ninety = refl

parse_duration_units_example :
    (parse_duration_codes clock (b'9' ∷ b'0' ∷ b's' ∷ []) ≡ or_panic (clock.seconds (pos 90)))
    × (parse_duration_codes clock (b'9' ∷ b'0' ∷ b'm' ∷ []) ≡ or_panic (clock.minutes (pos 90)))
    × (parse_duration_codes clock (b'9' ∷ b'0' ∷ b'h' ∷ []) ≡ or_panic (clock.hours (pos 90)))
    × (parse_duration_codes clock (b'9' ∷ b'0' ∷ b'd' ∷ []) ≡ or_panic (clock.days (pos 90)))
parse_duration_units_example = parse_duration_units clock (b'9' ∷ b'0' ∷ []) 90 ninety (omega arith)

default_ttl : resolve_ttl_secs approval none ≡ some (some (pos 3600))
unfolding resolve_ttl_secs
default_ttl = refl

single_use : resolve_once approval (some true) ≡ some (some true)
unfolding resolve_once
single_use = refl

resolved_ask_example :
    (approval ≡ approval → some (pos 3600) ≢ none)
    × ((z : ℤ) → some (pos 3600) ≡ some z → pos 1 ≤ℤ z)
    × ((b : _) → some true ≡ some b → (approval ≡ approval) × (some true ≡ some b))
resolved_ask_example = resolved_ask approval none (some true) default_ttl single_use
