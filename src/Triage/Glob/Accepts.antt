-- ===== src/Triage/Glob/Accepts.antt =====
-- What a glob pattern accepts.
use sjbis.Triage.Glob.Syntax.{AfterDeep, InClass}
use sjbis.Prelude.{
  leb, ℕ, ◌<◌, ◌≤◌, ◌≡◌, ◌≢◌, refl, Bool, true, false, Option, none, some, List, [], ◌∷◌, ◌++◌,
  ◌&&◌, ◌||◌, not, ◌==◌, length, arith, All, Bool-cases, inl, inr,
}
use sjbis.Triage.Glob.{
  starts_with, skip_stars, skip_slash, after_deep, class_scan, is_negated, members, class_end,
  character_class_match,
}

abbrev pub IsInSegment : ℕ → Type 0
IsInSegment c = c ≢ b'/'

-- A character that stands for itself.
abbrev pub IsPlain : ℕ → Type 0
IsPlain d = (d ≢ b'*') × (d ≢ b'?') × (d ≢ b'[')

-- The paths of a pattern: `**` (with the stars and the slash behind it) stands for any text, `*` for any text without a slash, `?` for one
-- character but a slash, a class for one of its characters, and the others for themselves.
pub data Accepts : List ℕ → List ℕ → Type 0 where
  finished : Accepts [] []
  deep :
      {p q s : List ℕ} (skipped : List ℕ)
      → AfterDeep p q
      → Accepts q s
      → Accepts (b'*' ∷ b'*' ∷ p) (skipped ++ s)
  segment :
      {p s : List ℕ} (run : List ℕ)
      → starts_with b'*' p ≡ false
      → All IsInSegment run
      → Accepts p s
      → Accepts (b'*' ∷ p) (run ++ s)
  one : {c : ℕ} {p s : List ℕ} → IsInSegment c → Accepts p s → Accepts (b'?' ∷ p) (c ∷ s)
  class :
      {c : ℕ} {p rest s : List ℕ} → InClass c p rest → Accepts rest s → Accepts (b'[' ∷ p) (c ∷ s)
  plain : {d : ℕ} {p s : List ℕ} → IsPlain d → Accepts p s → Accepts (d ∷ p) (d ∷ s)

skip_stars-length : (p : List ℕ) → length (skip_stars p) ≤ length p
unfolding skip_stars
skip_stars-length [] = omega arith
skip_stars-length (c ∷ p) = ground (arith, skip_stars-length p)

skip_slash-length : (p : List ℕ) → length (skip_slash p) ≤ length p
unfolding skip_slash
skip_slash-length [] = omega arith
skip_slash-length (c ∷ p) = ground arith

pub after_deep-length : (p : List ℕ) → length (after_deep p) ≤ length p
unfolding after_deep
after_deep-length p = ground (arith, skip_stars-length p, skip_slash-length (skip_stars p))

class_scan-length :
    (v : ℕ) (m : Bool) (p : List ℕ) {m' : Bool} {rest : List ℕ}
    → class_scan v m p ≡ some (m', rest)
    → length rest < length p
unfolding class_scan
class_scan-length v m [] h = cc
class_scan-length v m (a ∷ []) h = ground arith
class_scan-length v m (a ∷ b ∷ []) h = ground (arith, class_scan-length v (m || a == v) (b ∷ []))
class_scan-length v m (a ∷ b ∷ c ∷ p) {m' = m'} {rest = rest} h = ground (
  arith,
  class_scan-length v (m || (leb a v && leb v c)) p {m' = m'} {rest = rest},
  class_scan-length v (m || a == v) (b ∷ c ∷ p) {m' = m'} {rest = rest},
)

class_end-some :
    (negated : Bool) (o : Option (Bool × List ℕ)) {rest : List ℕ}
    → class_end negated o ≡ some rest
    → (m : Bool) × (o ≡ some (m, rest))
unfolding class_end
class_end-some negated none h = cc
class_end-some true (some (true, rest)) h = cc
class_end-some false (some (false, rest)) h = cc
class_end-some true (some (false, rest)) h = (false, cc)
class_end-some false (some (true, rest)) h = (true, cc)

members-length : (p : List ℕ) → length (members p) ≤ length p
unfolding members
members-length [] = omega arith
members-length (c ∷ p) = ground arith

pub class_match-length :
    (p : List ℕ) (v : ℕ) {rest : List ℕ}
    → character_class_match p v ≡ some rest
    → length rest ≤ length p
unfolding character_class_match
class_match-length p v {rest} h = elim (Bool-cases (v == b'/')) [
  | inl slash ↦ cc (rw slash at h)
  | inr other ↦
      let (m, scanned) =
        class_end-some (is_negated p) (class_scan v false (members p)) (rw other at h) in
      let shorter = class_scan-length v false (members p) scanned in
      let bound = members-length p in omega arith
]

pub same_code : (c k : ℕ) → (c == k) ≡ true → k ≡ c
same_code c k h = ground arith

pub no_slash : (c : ℕ) → not (c == b'/') ≡ true → IsInSegment c
no_slash c h = ground arith

-- The text that `**` or `*` stands for takes one more character.
pub deeper :
    {p s : List ℕ} (c : ℕ) → Accepts (b'*' ∷ b'*' ∷ p) s → Accepts (b'*' ∷ b'*' ∷ p) (c ∷ s)
unfolding starts_with
deeper c (deep skipped after rest) = deep (c ∷ skipped) after rest
deeper c (segment run alone members_ rest) = cc
deeper c (plain (not_star, _, _) rest) = absurd (not_star refl)

pub longer :
    {p s : List ℕ} (c : ℕ)
    → IsInSegment c
    → starts_with b'*' p ≡ false
    → Accepts (b'*' ∷ p) s
    → Accepts (b'*' ∷ p) (c ∷ s)
unfolding starts_with
longer c ok_c alone (deep skipped after rest) = cc
longer c ok_c alone (segment run alone' run_ok rest) = segment (c ∷ run) alone' (ok_c, run_ok) rest
longer c ok_c alone (plain (not_star, _, _) rest) = absurd (not_star refl)
