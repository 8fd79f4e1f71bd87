-- ===== src/Triage/Glob/Syntax.antt =====
-- The syntax of what follows `**` and of a class, beside the code that reads them.
use mathlib.Core.Path.{subst}
use sjbis.Prelude.{
  ℕ, ◌≡◌, ◌≢◌, ◌⊎◌, refl, sym, ap, ◌∙◌, Bool, true, false, some, List, [], ◌∷◌, ◌&&◌, ◌||◌, not,
  ◌==◌, leb, arith, Bool-cases, inl, inr,
}
use sjbis.Triage.Glob.{skip_stars, skip_slash, after_deep, class_scan}

-- `**` takes the stars behind it, and then one slash.
pub data AfterDeep : List ℕ → List ℕ → Type 0 where
  star : {p q : List ℕ} → AfterDeep p q → AfterDeep (b'*' ∷ p) q
  slash : {p : List ℕ} → AfterDeep (b'/' ∷ p) p
  nothing : AfterDeep [] []
  other : {d : ℕ} {p : List ℕ} → d ≢ b'*' → d ≢ b'/' → AfterDeep (d ∷ p) (d ∷ p)

skip_stars-star : (p : List ℕ) → skip_stars (b'*' ∷ p) ≡ skip_stars p
unfolding skip_stars
skip_stars-star p = refl

skip_stars-other : (c : ℕ) (p : List ℕ) → (c == b'*') ≡ false → skip_stars (c ∷ p) ≡ c ∷ p
unfolding skip_stars
skip_stars-other c p h = rw h

skip_slash-other : (c : ℕ) (p : List ℕ) → (c == b'/') ≡ false → skip_slash (c ∷ p) ≡ c ∷ p
unfolding skip_slash
skip_slash-other c p h = rw h

pub AfterDeep-after_deep : {p q : List ℕ} → AfterDeep p q → after_deep p ≡ q
unfolding after_deep skip_slash skip_stars
AfterDeep-after_deep (star {p} after) = AfterDeep-after_deep after
AfterDeep-after_deep slash = refl
AfterDeep-after_deep nothing = refl
AfterDeep-after_deep (other {d} {p} no_star no_slash) =
    ap skip_slash (skip_stars-other d p (ground arith)) ∙ skip_slash-other d p (ground arith)

pub after_deep-AfterDeep : (p : List ℕ) → AfterDeep p (after_deep p)
unfolding after_deep skip_slash skip_stars
after_deep-AfterDeep [] = nothing
after_deep-AfterDeep (c ∷ p) = elim (Bool-cases (c == b'*')) [
  | inl hit ↦
      let same : b'*' ≡ c = ground arith in
      subst (λ x. AfterDeep (x ∷ p) (after_deep (x ∷ p))) same (star (after_deep-AfterDeep p))
  | inr no_star ↦ elim (Bool-cases (c == b'/')) [
    | inl hit ↦
        let same : b'/' ≡ c = ground arith in
        subst (λ x. AfterDeep (x ∷ p) (after_deep (x ∷ p))) same slash
    | inr no_slash ↦
        let kept : AfterDeep (c ∷ p) (c ∷ p) = other (ground arith) (ground arith) in
        subst (AfterDeep (c ∷ p)) (sym (AfterDeep-after_deep kept)) kept
  ]
]

-- The pattern does not go on as the dash and the end of a range do.
abbrev pub NoRange : List ℕ → Type 0
NoRange [] = Unit
NoRange (b ∷ []) = Unit
NoRange (b ∷ c ∷ p) = ¬ ((b ≡ b'-') × (c ≢ b']'))

-- The members of a class up to its bracket, as ranges (a single character is a range of one), and
-- the pattern after the bracket.
pub data Members : List ℕ → List (ℕ × ℕ) → List ℕ → Type 0 where
  closed : {p : List ℕ} → Members (b']' ∷ p) [] p
  range :
      {a c : ℕ} {p : List ℕ} {ranges : List (ℕ × ℕ)} {rest : List ℕ}
      → a ≢ b']'
      → c ≢ b']'
      → Members p ranges rest
      → Members (a ∷ b'-' ∷ c ∷ p) ((a, c) ∷ ranges) rest
  single :
      {a : ℕ} {p : List ℕ} {ranges : List (ℕ × ℕ)} {rest : List ℕ}
      → a ≢ b']'
      → NoRange p
      → Members p ranges rest
      → Members (a ∷ p) ((a, a) ∷ ranges) rest

-- A range has the character.
unfoldable pub covers : ℕ → List (ℕ × ℕ) → Bool
covers v [] = false
covers v ((low, high) ∷ ranges) = (leb low v && leb v high) || covers v ranges

abbrev pub NoSign : List ℕ → Type 0
NoSign [] = Unit
NoSign (d ∷ p) = (d ≢ b'!') × (d ≢ b'^')

-- A class stands for each character that its members have or, behind `!` or `^`, for each that they
-- do not have, but never for a slash.
pub data InClass (c : ℕ) : List ℕ → List ℕ → Type 0 where
  in_ranges :
      {p rest : List ℕ} (ranges : List (ℕ × ℕ))
      → c ≢ b'/'
      → NoSign p
      → Members p ranges rest
      → covers c ranges ≡ true
      → InClass c p rest
  outside :
      {sign : ℕ} {p rest : List ℕ} (ranges : List (ℕ × ℕ))
      → c ≢ b'/'
      → (sign ≡ b'!') ⊎ (sign ≡ b'^')
      → Members p ranges rest
      → covers c ranges ≡ false
      → InClass c (sign ∷ p) rest

or_assoc : (a b c : Bool) → ((a || b) || c) ≡ (a || (b || c))
or_assoc true b c = refl
or_assoc false b c = refl

-- One step of the scan that adds what a range has.
scan_step :
    (m hit : Bool) (v : ℕ) (ranges : List (ℕ × ℕ))
    → ((m || hit) || covers v ranges) ≡ (m || (hit || covers v ranges))
scan_step m hit v ranges = or_assoc m hit (covers v ranges)

equal-range : (a v : ℕ) → (a == v) ≡ (leb a v && leb v a)
equal-range a v = ground arith

pub class_scan-closed : (v : ℕ) (m : Bool) (p : List ℕ) → class_scan v m (b']' ∷ p) ≡ some (m, p)
unfolding class_scan
class_scan-closed v m [] = refl
class_scan-closed v m (b ∷ []) = refl
class_scan-closed v m (b ∷ c ∷ p) = refl

class_scan-range :
    (v : ℕ) (m : Bool) (a c : ℕ) (p : List ℕ)
    → a ≢ b']'
    → c ≢ b']'
    → class_scan v m (a ∷ b'-' ∷ c ∷ p) ≡ class_scan v (m || (leb a v && leb v c)) p
unfolding class_scan
class_scan-range v m a c p ha hc =
    let open_a : (a == b']') ≡ false = ground arith in
    let open_c : (c == b']') ≡ false = ground arith in rw (open_a, open_c)

class_scan-single :
    (v : ℕ) (m : Bool) (a : ℕ) (p : List ℕ)
    → a ≢ b']'
    → NoRange p
    → p ≢ []
    → class_scan v m (a ∷ p) ≡ class_scan v (m || a == v) p
unfolding class_scan
class_scan-single v m a [] ha hp some_left = absurd (some_left refl)
class_scan-single v m a (b ∷ []) ha hp some_left =
    let open_a : (a == b']') ≡ false = ground arith in rw open_a
class_scan-single v m a (b ∷ c ∷ p) ha hp some_left =
    let open_a : (a == b']') ≡ false = ground arith in
    let no_range : (b == b'-' && not (c == b']')) ≡ false = no_dash in rw (open_a, no_range)
  where
    no_dash : (b == b'-' && not (c == b']')) ≡ false
    no_dash = elim (Bool-cases (b == b'-')) [
      | inr e ↦ rw e
      | inl e ↦ elim (Bool-cases (c == b']')) [
        | inl k ↦ rw (e, k)
        | inr k ↦ absurd (hp (ground arith, ground arith))
      ]
    ]

Members-left : {p rest : List ℕ} {ranges : List (ℕ × ℕ)} → Members p ranges rest → p ≢ []
Members-left closed h = cc
Members-left (range _ _ _) h = cc
Members-left (single _ _ _) h = cc

pub class_scan-Members :
    (v : ℕ) (m : Bool) {p rest : List ℕ} {ranges : List (ℕ × ℕ)}
    → Members p ranges rest
    → class_scan v m p ≡ some (m || covers v ranges, rest)
unfolding covers
class_scan-Members v m (closed {p}) =
    class_scan-closed v m p ∙ ap (λ b. some (b, p)) (sym (or_false_right m))
  where
    or_false_right : (b : Bool) → (b || false) ≡ b
    or_false_right true = refl
    or_false_right false = refl
class_scan-Members v m (range {a} {c} {p} {ranges} {rest} ha hc left) =
    class_scan-range v m a c p ha hc
    ∙ class_scan-Members v (m || (leb a v && leb v c)) left
    ∙ ap (λ b. some (b, rest)) (scan_step m (leb a v && leb v c) v ranges)
class_scan-Members v m (single {a} {p} {ranges} {rest} ha hp left) =
    class_scan-single v m a p ha hp (Members-left left)
    ∙ class_scan-Members v (m || a == v) left
    ∙ ap (λ b. some (b, rest))
        (scan_step m (a == v) v ranges ∙ ap (λ h. m || (h || covers v ranges)) (equal-range a v))
