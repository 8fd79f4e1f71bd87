-- ===== src/Prelude/Int.antt =====
-- Signed integers over the native numbers, and Rust's `i32` and `i64` as those in range.
pub mod Parse
use Prim.Native.Nat.{ℕ, zero, suc, ◌+◌, ◌-◌, ◌*◌, ◌≤◌, ◌<◌}
use mathlib.Core.Path.{◌≡◌, refl}
use mathlib.Core.Bool.{Bool, true, false, ◌&&◌}
use mathlib.Core.List.{List, [], ◌∷◌}
use mathlib.Core.Option.{Option, none, some}
use native.Mathlib.Omega.{arith}
use sjbis.Prelude.Tests.{ltb, leb, ◌==◌, if◌then◌else◌}

-- `negsuc n` is -(n + 1).
pub data ℤ : Type 0 where
  pos : ℕ → ℤ
  negsuc : ℕ → ℤ

abbrev pub pos_part : ℤ → ℕ
pos_part (pos n) = n
pos_part (negsuc n) = 0

abbrev pub neg_part : ℤ → ℕ
neg_part (pos n) = 0
neg_part (negsuc n) = suc n

infix 50 ◌≤ℤ◌
abbrev pub ◌≤ℤ◌ : ℤ → ℤ → Type 0
a ≤ℤ b = pos_part a + neg_part b ≤ pos_part b + neg_part a

abbrev pub ltb_ℤ : ℤ → ℤ → Bool
ltb_ℤ a b = ltb (pos_part a + neg_part b) (pos_part b + neg_part a)

abbrev pub leb_ℤ : ℤ → ℤ → Bool
leb_ℤ a b = leb (pos_part a + neg_part b) (pos_part b + neg_part a)

-- -n
abbrev pub neg_ℕ : ℕ → ℤ
neg_ℕ zero = pos 0
neg_ℕ (suc n) = negsuc n

-- a - b
abbrev pub sub_ℕ : ℕ → ℕ → ℤ
sub_ℕ a b = if leb b a then pos (a - b) else negsuc (b - a - 1)

-- `x.clamp(lo, hi)`
unfoldable pub clamp_ℤ : ℤ → ℤ → ℤ → ℤ
clamp_ℤ x lo hi = if ltb_ℤ x lo then lo else if ltb_ℤ hi x then hi else x

-- The value of a run of ASCII digits, most significant first, after `acc`.
unfoldable pub digits_value : ℕ → List ℕ → Option ℕ
digits_value acc [] = some acc
digits_value acc (c ∷ s) =
    let rest = digits_value (acc * 10 + (c - 48)) s in if leb 48 c && leb c 57 then rest else none

-- A run of digits with at least one of them.
unfoldable pub unsigned : List ℕ → Option ℕ
unfolding digits_value
unsigned [] = none
unsigned (c ∷ s) = digits_value 0 (c ∷ s)

in_range : ℕ → ℤ → Option ℤ
in_range bound (pos n) = if ltb n bound then some (pos n) else none
in_range bound (negsuc n) = if ltb n bound then some (negsuc n) else none

signed : List ℕ → Option ℤ
unfolding unsigned
signed [] = none
signed (c ∷ s) =
    if c == b'-'
    then elim (unsigned s) [ none ↦ none | some n ↦ some (neg_ℕ n) ]
    else elim (unsigned (if c == b'+' then s else c ∷ s)) [ none ↦ none | some n ↦ some (pos n) ]

-- `s.parse::<iN>()`, where `bound` is 2^(N-1): an optional sign, digits, and a value in range.
unfoldable pub parse_int : ℕ → List ℕ → Option ℤ
unfolding signed in_range
parse_int bound s = elim (signed s) [ none ↦ none | some z ↦ in_range bound z ]

abbrev pub i32_bound : ℕ
i32_bound = 0x80000000

abbrev pub i64_bound : ℕ
i64_bound = 0x8000000000000000

-- A parsed integer is in range.
pub parse_int-range :
    (bound : ℕ) (s : List ℕ) (z : ℤ)
    → parse_int bound s ≡ some z
    → (pos_part z < bound + 1) × (neg_part z ≤ bound)
unfolding parse_int
parse_int-range bound s z h = ground arith
