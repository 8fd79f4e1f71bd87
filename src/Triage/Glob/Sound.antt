-- ===== src/Triage/Glob/Sound.antt =====
-- What the matcher finds is accepted.
use mathlib.Core.Path.{subst}
use sjbis.Prelude.{
  or_true, and_true, ℕ, zero, suc, ◌≡◌, refl, Bool, true, false, List, [], ◌∷◌, ◌||◌, not,
  if◌then◌else◌, ◌==◌, arith, Bool-cases, inl, inr, Option-cases,
}
use sjbis.Triage.Glob.{
  starts_with, skip_stars, after_deep, character_class_match, glob_matches_at, glob_step, anywhere,
  in_segment, in_class, after_class, exactly,
}
use sjbis.Triage.Glob.Syntax.{after_deep-AfterDeep}
use sjbis.Triage.Glob.Classes.{character_class_match-InClass}
use sjbis.Triage.Glob.Accepts.{
  IsPlain, Accepts, finished, deep, segment, one, class, plain, same_code, no_slash, deeper, longer,
}

-- `next` is right about what it says it accepts.
abbrev Sound : (List ℕ → List ℕ → Bool) → Type 0
Sound next = (p s : List ℕ) → next p s ≡ true → Accepts p s

module _ (next : List ℕ → List ℕ → Bool) (sound : Sound next) where
  deep_sound :
      (p s : List ℕ)
      → (next (after_deep p) s || anywhere next (b'*' ∷ b'*' ∷ p) s) ≡ true
      → Accepts (b'*' ∷ b'*' ∷ p) s
  unfolding anywhere
  deep_sound p s h = elim (or_true (next (after_deep p) s) _ h) [
    | inl skip ↦ deep [] (after_deep-AfterDeep p) (sound (after_deep p) s skip)
    | inr stay ↦ go s stay
  ]
    where
      go : (s : List ℕ) → anywhere next (b'*' ∷ b'*' ∷ p) s ≡ true → Accepts (b'*' ∷ b'*' ∷ p) s
      go [] stay = cc
      go (c ∷ s) stay = deeper c (sound (b'*' ∷ b'*' ∷ p) s stay)

  segment_sound :
      (p s : List ℕ)
      → starts_with b'*' p ≡ false
      → (next p s || in_segment next (b'*' ∷ p) s) ≡ true
      → Accepts (b'*' ∷ p) s
  unfolding in_segment
  segment_sound p s alone h = elim (or_true (next p s) _ h) [
    | inl skip ↦ segment [] alone tt (sound p s skip)
    | inr stay ↦ go s stay
  ]
    where
      go : (s : List ℕ) → in_segment next (b'*' ∷ p) s ≡ true → Accepts (b'*' ∷ p) s
      go [] stay = cc
      go (c ∷ s) stay =
          let (inside, rest) = and_true (not (c == b'/')) _ stay in
          longer c (no_slash c inside) alone (sound (b'*' ∷ p) s rest)

  one_sound : (p s : List ℕ) → in_segment next p s ≡ true → Accepts (b'?' ∷ p) s
  unfolding in_segment
  one_sound p [] h = cc
  one_sound p (c ∷ s) h =
      let (inside, rest) = and_true (not (c == b'/')) _ h in
      one (no_slash c inside) (sound p s rest)

  class_sound : (p s : List ℕ) → in_class next p s ≡ true → Accepts (b'[' ∷ p) s
  unfolding in_class after_class
  class_sound p [] h = cc
  class_sound p (c ∷ s) h = elim (Option-cases (character_class_match p c)) [
    | inl gone ↦ cc (rw gone at h)
    | inr (rest, found) ↦
        class (character_class_match-InClass p c found) (sound rest s (rw found at h))
  ]

  plain_sound : (d : ℕ) (p s : List ℕ) → IsPlain d → exactly next d p s ≡ true → Accepts (d ∷ p) s
  unfolding exactly
  plain_sound d p [] itself h = cc
  plain_sound d p (c ∷ s) itself h =
      let (same, rest) = and_true (d == c) _ h in
      let equal : d ≡ c = ground arith in
      subst (λ x. Accepts (d ∷ p) (x ∷ s)) equal (plain itself (sound p s rest))

  at_star : List ℕ → List ℕ → Bool
  at_star p s =
      if starts_with b'*' p
      then next (after_deep p) s || anywhere next (b'*' ∷ p) s
      else next p s || in_segment next (b'*' ∷ p) s

  star_sound : (p s : List ℕ) → at_star p s ≡ true → Accepts (b'*' ∷ p) s
  unfolding starts_with after_deep skip_stars at_star
  star_sound [] s h = segment_sound [] s refl h
  star_sound (c ∷ p) s h = elim (Bool-cases (c == b'*')) [
    | inl star ↦
        subst (λ x. at_star (x ∷ p) s ≡ true → Accepts (b'*' ∷ x ∷ p) s) (same_code c b'*' star)
          (deep_sound p s) h
    | inr other ↦ segment_sound (c ∷ p) s other (rw other at h)
  ]

  -- A head that tests equal to `k` steps as `k` does.
  step_at :
      {d : ℕ} (k : ℕ) (p s : List ℕ)
      → (d == k) ≡ true
      → (glob_step next k p s ≡ true → Accepts (k ∷ p) s)
      → glob_step next d p s ≡ true
      → Accepts (d ∷ p) s
  step_at {d} k p s hit f =
      subst (λ x. glob_step next x p s ≡ true → Accepts (x ∷ p) s) (same_code d k hit) f

  step_sound : (d : ℕ) (p s : List ℕ) → glob_step next d p s ≡ true → Accepts (d ∷ p) s
  unfolding glob_step at_star
  step_sound d p s h = elim (Bool-cases (d == b'*')) [
    | inl star ↦ step_at b'*' p s star (star_sound p s) h
    | inr not_star ↦ elim (Bool-cases (d == b'?')) [
      | inl question ↦ step_at b'?' p s question (one_sound p s) h
      | inr not_question ↦ elim (Bool-cases (d == b'[')) [
        | inl bracket ↦ step_at b'[' p s bracket (class_sound p s) h
        | inr not_bracket ↦
            plain_sound d p s (ground arith, ground arith, ground arith)
              (rw (not_star, not_question, not_bracket) at h)
      ]
    ]
  ]

pub glob-Sound : (fuel : ℕ) → Sound (glob_matches_at fuel)
unfolding glob_matches_at
glob-Sound zero p s h = cc
glob-Sound (suc fuel) [] [] h = finished
glob-Sound (suc fuel) [] (c ∷ s) h = cc
glob-Sound (suc fuel) (d ∷ p) s h = step_sound (glob_matches_at fuel) (glob-Sound fuel) d p s h
