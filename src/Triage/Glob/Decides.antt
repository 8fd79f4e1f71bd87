-- ===== src/Triage/Glob/Decides.antt =====
-- The matcher finds every path that a pattern accepts, on the fuel it is given, and no other.
use sjbis.Prelude.{
  Bool, ℕ, zero, suc, ◌+◌, ◌<◌, ◌≤◌, ◌≡◌, ◌↔◌, refl, String, true, false, List, [], ◌∷◌, ◌++◌, not,
  ◌==◌, length, codes, arith, or_right, true_or,
}
use sjbis.Triage.Glob.{
  starts_with, skip_stars, after_deep, glob_matches_at, glob_matches, glob_step, anywhere,
  in_segment, in_class, after_class, exactly,
}
use sjbis.Triage.Glob.Syntax.{AfterDeep-after_deep}
use sjbis.Triage.Glob.Classes.{InClass-character_class_match}
use sjbis.Triage.Glob.Sound.{glob-Sound}
use sjbis.Triage.Glob.Accepts.{
  IsInSegment, IsPlain, Accepts, finished, deep, segment, one, class, plain, after_deep-length,
  class_match-length,
}

not_slash : (c : ℕ) → IsInSegment c → not (c == b'/') ≡ true
not_slash c h = ground arith

same_char : (c : ℕ) → (c == c) ≡ true
same_char c = ground arith

plain_step :
    (next : List ℕ → List ℕ → Bool) (d : ℕ) (p s : List ℕ)
    → IsPlain d
    → next p s ≡ true
    → glob_step next d p (d ∷ s) ≡ true
unfolding glob_step exactly
plain_step next d p s itself h =
    let not_star : (d == b'*') ≡ false = ground arith in
    let not_question : (d == b'?') ≡ false = ground arith in
    let not_bracket : (d == b'[') ≡ false = ground arith in
    rw (not_star, not_question, not_bracket, same_char d, h)

none_below : (n : ℕ) → ¬ (n < 0)
none_below n h = omega arith

complete :
    (fuel : ℕ) {p s : List ℕ}
    → Accepts p s
    → length p + length s < fuel
    → glob_matches_at fuel p s ≡ true
unfolding glob_matches_at glob_step anywhere in_segment in_class after_class starts_with after_deep
    skip_stars
complete zero m bound = absurd (none_below _ bound)
complete (suc fuel) finished bound = refl
complete (suc fuel) (deep {p} {q} {s} [] after m) bound =
    let same = AfterDeep-after_deep after in
    let shorter : length q ≤ length p = rw (← same) (after_deep-length p) in
    true_or (glob_matches_at fuel (after_deep p) s) _ (rw same (complete fuel m (omega arith)))
complete (suc fuel) (deep {p} {q} {s} (c ∷ skipped) after m) bound =
    or_right (glob_matches_at fuel (after_deep p) (c ∷ skipped ++ s)) _
      (complete fuel (deep skipped after m) (omega arith))
complete (suc fuel) (segment {p} {s} [] alone run_ok m) bound =
    rw alone (true_or _ _ (complete fuel m (omega arith)))
complete (suc fuel) (segment {p} {s} (c ∷ run) alone (c_ok, run_ok) m) bound =
    rw (alone, not_slash c c_ok)
      (or_right (glob_matches_at fuel p (c ∷ run ++ s)) _
        (complete fuel (segment run alone run_ok m) (omega arith)))
complete (suc fuel) (one {c} c_ok m) bound = rw (not_slash c c_ok) (complete fuel m (omega arith))
complete (suc fuel) (class {c} {p} in_class_ m) bound =
    let found = InClass-character_class_match p c in_class_ in
    let shorter = class_match-length p c found in rw found (complete fuel m (omega arith))
complete (suc fuel) (plain {d} {p} {s} itself m) bound =
    plain_step (glob_matches_at fuel) d p s itself (complete fuel m (omega arith))

-- A path matches a glob pattern exactly when the pattern accepts it: the recursion of the matcher
-- ends within its fuel, and decides the paths that the pattern stands for, where `**` with the stars
-- and the one slash behind it is any text, `*` any text and `?` any character without a slash, and a
-- class any character of its ranges, or behind `!` or `^` any other, but a slash.
pub glob_matches_iff :
    (pattern_ path : String)
    → (glob_matches pattern_ path ≡ true) ↔ Accepts (codes pattern_) (codes path)
unfolding glob_matches
glob_matches_iff pattern_ path =
    (glob-Sound _ (codes pattern_) (codes path), λ m. complete _ m (omega arith))
