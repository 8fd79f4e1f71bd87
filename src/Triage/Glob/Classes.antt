-- ===== src/Triage/Glob/Classes.antt =====
-- What `character_class_match` accepts, by the syntax of a class.
use mathlib.Core.Path.{subst}
use mathlib.Core.Option.{some-injective}
use sjbis.Prelude.{
  ℕ, ◌≡◌, ◌≢◌, ◌⊎◌, refl, sym, ap, ◌∙◌, Bool, true, false, Option, none, some, List, [], ◌∷◌, ◌&&◌,
  ◌||◌, not, ◌==◌, leb, arith, Bool-cases, inl, inr, or_true, or_false, and_true, not-true,
}
use sjbis.Triage.Glob.{
  starts_with, class_scan, is_negated, members, class_end, character_class_match,
}
use sjbis.Triage.Glob.Syntax.{
  NoRange, Members, closed, range, single, covers, NoSign, InClass, in_ranges, outside,
  class_scan-Members, class_scan-closed,
}

-- The members that a scan which ends has read.
abbrev Read : List ℕ → List ℕ → Type 0
Read p rest = (ranges : List (ℕ × ℕ)) × Members p ranges rest

closed-Read :
    (v : ℕ) (m : Bool) (a : ℕ) (p : List ℕ) {m' : Bool} {rest : List ℕ}
    → (a == b']') ≡ true
    → class_scan v m (a ∷ p) ≡ some (m', rest)
    → Read (a ∷ p) rest
closed-Read v m a p {m'} {rest} hit h =
    let same : b']' ≡ a = ground arith in
    let scanned : class_scan v m (b']' ∷ p) ≡ some (m', rest) =
      subst (λ x. class_scan v m (x ∷ p) ≡ some (m', rest)) (sym same) h in
    let ends : p ≡ rest =
      ap (λ (q : Bool × List ℕ). q.1)
        (some-injective _ _ (sym (class_scan-closed v m p) ∙ scanned)) in
    subst (λ x. Read (x ∷ p) rest) same ([], subst (Members (b']' ∷ p) []) ends closed)

range-Read :
    (a b c : ℕ) (p rest : List ℕ)
    → (a == b']') ≡ false
    → (b == b'-') ≡ true
    → (c == b']') ≡ false
    → Read p rest
    → Read (a ∷ b ∷ c ∷ p) rest
range-Read a b c p rest open_a dash open_c (ranges, left) =
    let same : b'-' ≡ b = ground arith in
    subst (λ x. Read (a ∷ x ∷ c ∷ p) rest) same
      ((a, c) ∷ ranges, range (ground arith) (ground arith) left)

single-Read :
    (a : ℕ) (p rest : List ℕ) → (a == b']') ≡ false → NoRange p → Read p rest → Read (a ∷ p) rest
single-Read a p rest open_a no_range (ranges, left) =
    ((a, a) ∷ ranges, single (ground arith) no_range left)

no_dash : (b c : ℕ) → (b == b'-' && not (c == b']')) ≡ false → ¬ ((b ≡ b'-') × (c ≢ b']'))
no_dash b c h (dash, open_c) =
    let e : (b == b'-') ≡ true = ground arith in
    let k : (c == b']') ≡ false = ground arith in cc (rw (e, k) at h)

class_scan-Read :
    (v : ℕ) (m : Bool) (p : List ℕ) {m' : Bool} {rest : List ℕ}
    → class_scan v m p ≡ some (m', rest)
    → Read p rest
unfolding class_scan
class_scan-Read v m [] h = cc
class_scan-Read v m (a ∷ []) h = elim (Bool-cases (a == b']')) [
  | inl hit ↦ closed-Read v m a [] hit h
  | inr open_a ↦ cc (rw open_a at h)
]
class_scan-Read v m (a ∷ b ∷ []) {m'} {rest} h = elim (Bool-cases (a == b']')) [
  | inl hit ↦ closed-Read v m a (b ∷ []) hit h
  | inr open_a ↦
      single-Read a (b ∷ []) rest open_a tt
        (class_scan-Read v (m || a == v) (b ∷ []) (rw open_a at h))
]
class_scan-Read v m (a ∷ b ∷ c ∷ p) {m'} {rest} h = elim (Bool-cases (a == b']')) [
  | inl hit ↦ closed-Read v m a (b ∷ c ∷ p) hit h
  | inr open_a ↦ elim (Bool-cases (b == b'-' && not (c == b']'))) [
    | inl dash ↦
        let (is_dash, open_c) = and_true (b == b'-') (not (c == b']')) dash in
        range-Read a b c p rest open_a is_dash (not-true _ open_c)
          (class_scan-Read v (m || (leb a v && leb v c)) p (rw (open_a, dash) at h))
    | inr no_range ↦
        single-Read a (b ∷ c ∷ p) rest open_a (no_dash b c no_range)
          (class_scan-Read v (m || a == v) (b ∷ c ∷ p) (rw (open_a, no_range) at h))
  ]
]

class_end-true :
    (o : Option (Bool × List ℕ)) {rest : List ℕ}
    → class_end true o ≡ some rest
    → o ≡ some (false, rest)
unfolding class_end
class_end-true none h = cc
class_end-true (some (true, r)) h = cc
class_end-true (some (false, r)) h = cc

class_end-false :
    (o : Option (Bool × List ℕ)) {rest : List ℕ}
    → class_end false o ≡ some rest
    → o ≡ some (true, rest)
unfolding class_end
class_end-false none h = cc
class_end-false (some (false, r)) h = cc
class_end-false (some (true, r)) h = cc

-- What the scan of read members says of the character.
scanned-covers :
    (c : ℕ) (p : List ℕ) {m' : Bool} {rest : List ℕ}
    → class_scan c false p ≡ some (m', rest)
    → (ranges : List (ℕ × ℕ)) × Members p ranges rest × (covers c ranges ≡ m')
scanned-covers c p h =
    let (ranges, left) = class_scan-Read c false p h in
    (
      ranges,
      left,
      ap (λ (q : Bool × List ℕ). q.0)
          (some-injective _ _ (sym (class_scan-Members c false left) ∙ h)),
    )

sign_of : (d : ℕ) (p : List ℕ) → is_negated (d ∷ p) ≡ true → (d ≡ b'!') ⊎ (d ≡ b'^')
unfolding is_negated starts_with
sign_of d p h = elim (or_true (d == b'!') (d == b'^') h) [
  | inl e ↦ inl (ground arith)
  | inr e ↦ inr (ground arith)
]

no_sign : (p : List ℕ) → is_negated p ≡ false → NoSign p
unfolding is_negated starts_with
no_sign [] h = tt
no_sign (d ∷ p) h = let (a, b) = or_false (d == b'!') (d == b'^') h in (ground arith, ground arith)

NoSign-plain : (p : List ℕ) → NoSign p → is_negated p ≡ false
unfolding is_negated starts_with
NoSign-plain [] h = refl
NoSign-plain (d ∷ p) (a, b) = ground arith

sign-negated : (d : ℕ) (p : List ℕ) → (d ≡ b'!') ⊎ (d ≡ b'^') → is_negated (d ∷ p) ≡ true
unfolding is_negated starts_with
sign-negated d p (inl e) = ground arith
sign-negated d p (inr e) = ground arith

members-plain : (p : List ℕ) → is_negated p ≡ false → members p ≡ p
unfolding members
members-plain [] h = refl
members-plain (d ∷ p) h = rw h

ended-InClass :
    (c : ℕ) (p : List ℕ) {rest : List ℕ}
    → c ≢ b'/'
    → class_end (is_negated p) (class_scan c false (members p)) ≡ some rest
    → InClass c p rest
unfolding members is_negated starts_with class_scan class_end
ended-InClass c [] no_slash h = cc
ended-InClass c (d ∷ p) no_slash h = elim (Bool-cases (is_negated (d ∷ p))) [
  | inl negated ↦
      let (ranges, left, apart) = scanned-covers c p (class_end-true _ (rw negated at h)) in
      outside ranges no_slash (sign_of d p negated) left apart
  | inr plain ↦
      let (ranges, left, hit) = scanned-covers c (d ∷ p) (class_end-false _ (rw plain at h)) in
      in_ranges ranges no_slash (no_sign (d ∷ p) plain) left hit
]

pub character_class_match-InClass :
    (p : List ℕ) (c : ℕ) {rest : List ℕ} → character_class_match p c ≡ some rest → InClass c p rest
unfolding character_class_match
character_class_match-InClass p c h = elim (Bool-cases (c == b'/')) [
  | inl slash ↦ cc (rw slash at h)
  | inr other ↦ ended-InClass c p (ground arith) (rw other at h)
]

pub InClass-character_class_match :
    (p : List ℕ) (c : ℕ) {rest : List ℕ} → InClass c p rest → character_class_match p c ≡ some rest
unfolding character_class_match class_end members
InClass-character_class_match p c (in_ranges ranges no_slash plain left hit) =
    let other : (c == b'/') ≡ false = ground arith in
    let positive = NoSign-plain p plain in
    rw (other, members-plain p positive, class_scan-Members c false left, positive, hit) refl
InClass-character_class_match p c (outside {sign} {p = q} ranges no_slash signed left apart) =
    let other : (c == b'/') ≡ false = ground arith in
    rw (other, sign-negated sign q signed, class_scan-Members c false left, apart) refl
