-- ===== src/Prelude/Text/Trim.antt =====
-- What `trim` leaves alone.
use mathlib.Core.Path.{◌≡◌}
use mathlib.Core.Bool.{false}
use mathlib.Core.List.{List, [], ◌∷◌, ◌++◌, reverse, reverse-append, reverse-reverse}
use Prim.Native.Nat.{ℕ}
use sjbis.Prelude.Text.{is_whitespace, trim_start, trim}
use sjbis.Prelude.Tests.{Bool-cases}
use mathlib.Core.Logic.{inl, inr}

pub trim_start-append :
    (p : List ℕ) (c : ℕ) (t : List ℕ)
    → is_whitespace c ≡ false
    → trim_start (p ++ (c ∷ t)) ≡ trim_start p ++ (c ∷ t)
unfolding trim_start
trim_start-append [] c t h = rw h
trim_start-append (d ∷ p) c t h = elim (Bool-cases (is_whitespace d)) [
  | inl blank ↦ rw blank (trim_start-append p c t h)
  | inr ink ↦ rw ink
]

-- A text whose last character is no white space keeps its end.
pub trim-append :
    (p : List ℕ) (u : ℕ)
    → is_whitespace u ≡ false
    → reverse (trim (p ++ (u ∷ []))) ≡ u ∷ reverse (trim_start p)
unfolding trim
trim-append p u h = rw (trim_start-append p u [] h, reverse-reverse, reverse-append) (rw h)
