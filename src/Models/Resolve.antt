-- ===== src/Models/Resolve.antt =====
-- src/models.rs: `resolve_ttl_secs` and `resolve_once`. `none` stands for the `Err` of the source,
-- whose text is a message.
use sjbis.Prelude.{
  Bool, true, false, Option, none, some, ℤ, pos, leb_ℤ, if◌then◌else◌, arith, ◌≡◌, ◌≢◌, ◌≤ℤ◌,
}
use sjbis.Models.Enums.{QuestionType, approval, is_approval}

abbrev pub default_approval_ttl_secs : ℤ
default_approval_ttl_secs = pos 3600

unfoldable pub resolve_ttl_secs : QuestionType → Option ℤ → Option (Option ℤ)
unfolding is_approval
resolve_ttl_secs t (some secs) = if leb_ℤ secs (pos 0) then none else some (some secs)
resolve_ttl_secs t none = if is_approval t then some (some default_approval_ttl_secs) else some none

unfoldable pub resolve_once : QuestionType → Option Bool → Option (Option Bool)
resolve_once approval once = some once
resolve_once _ (some true) = none
resolve_once _ (some false) = some none
resolve_once _ none = some none

-- The lifetime and the single-use flag that an ask ends up with: an approval ask always has a
-- lifetime, a lifetime is above 0, and only an approval ask keeps a single-use flag.
pub resolved_ask :
    (t : QuestionType) (secs : Option ℤ) (flag : Option Bool) {ttl : Option ℤ} {once : Option Bool}
    → resolve_ttl_secs t secs ≡ some ttl
    → resolve_once t flag ≡ some once
    → (t ≡ approval → ttl ≢ none)
      × ((z : ℤ) → ttl ≡ some z → pos 1 ≤ℤ z)
      × ((b : Bool) → once ≡ some b → (t ≡ approval) × (flag ≡ some b))
unfolding resolve_ttl_secs resolve_once
resolved_ask approval (some z) flag h k = (ground arith, ground arith, ground arith)
resolved_ask approval none flag h k = (ground arith, ground arith, ground arith)
resolved_ask _ (some z) flag h k = (ground arith, ground arith, ground arith)
resolved_ask _ none flag h k = (ground arith, ground arith, ground arith)
