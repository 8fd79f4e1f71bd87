-- ===== src/Prelude/Int/Parse.antt =====
-- What `parse_int` does on a run of digits, and on a text that ends in no digit.
use Prim.Native.Nat.{ℕ, ◌+◌, ◌-◌, ◌*◌, ◌≤◌, ◌<◌}
use mathlib.Core.Path.{◌≡◌, refl}
use mathlib.Core.Bool.{false, ◌&&◌}
use mathlib.Core.List.{List, [], ◌∷◌, ◌++◌}
use mathlib.Core.Option.{none, some}
use native.Mathlib.Omega.{arith}
use sjbis.Prelude.Tests.{leb}
use sjbis.Prelude.Int.{pos, digits_value, unsigned, signed, parse_int}

module _ (m : ℕ) (h : (leb 48 m && leb m 57) ≡ false) where
  digits_value-append_nondigit : (acc : ℕ) (s : List ℕ) → digits_value acc (s ++ (m ∷ [])) ≡ none
  unfolding digits_value
  digits_value-append_nondigit acc [] = rw h
  digits_value-append_nondigit acc (c ∷ s) =
      ground (arith, digits_value-append_nondigit (acc * 10 + (c - 48)) s)

  unsigned-append_nondigit : (s : List ℕ) → unsigned (s ++ (m ∷ [])) ≡ none
  unfolding unsigned
  unsigned-append_nondigit [] = rw h
  unsigned-append_nondigit (c ∷ s) = digits_value-append_nondigit 0 (c ∷ s)

  signed-append_nondigit : (s : List ℕ) → signed (s ++ (m ∷ [])) ≡ none
  unfolding signed
  signed-append_nondigit [] = ground (arith, unsigned-append_nondigit [])
  signed-append_nondigit (c ∷ s) =
      ground (arith, unsigned-append_nondigit s, unsigned-append_nondigit (c ∷ s))

  pub parse_int-append_nondigit : (bound : ℕ) (s : List ℕ) → parse_int bound (s ++ (m ∷ [])) ≡ none
  unfolding parse_int
  parse_int-append_nondigit bound s = rw (signed-append_nondigit s, parse_int)

-- A run of digits begins with one.
pub unsigned-head :
    (s : List ℕ) (n : ℕ)
    → unsigned s ≡ some n
    → (c : ℕ) × (r : List ℕ) × (s ≡ c ∷ r) × (48 ≤ c) × (c ≤ 57)
unfolding unsigned
unsigned-head [] n h = cc
unsigned-head (c ∷ r) n h = (c, r, refl, ground arith, ground arith)

pub parse_int-unsigned :
    (bound : ℕ) (s : List ℕ) (n : ℕ)
    → unsigned s ≡ some n
    → n < bound
    → parse_int bound s ≡ some (pos n)
unfolding parse_int signed unsigned
parse_int-unsigned bound [] n h lt = ground (arith, unsigned-head [] n h)
parse_int-unsigned bound (c ∷ r) n h lt =
    let (d, t, same, low, high) = unsigned-head (c ∷ r) n h in ground arith
