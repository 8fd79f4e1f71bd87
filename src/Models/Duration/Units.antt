-- ===== src/Models/Duration/Units.antt =====
-- Which durations `parse_duration` accepts.
use mathlib.Core.List.{reverse-append, reverse-reverse, append_assoc}
use sjbis.Prelude.{
  ℕ, ◌<◌, ◌≤◌, ◌≡◌, refl, sym, ap, ◌∙◌, inl, inr, Bool-cases, false, some, List, [], ◌∷◌, ◌++◌,
  reverse, pos, ltb, arith, trim, trim_start, is_whitespace, unsigned, i64_bound,
}
use sjbis.Prelude.Int.Parse.{parse_int-append_nondigit, parse_int-unsigned, unsigned-head}
use sjbis.Prelude.Text.Trim.{trim-append, trim_start-append}
use sjbis.Models.Duration.{Chrono, failed, or_panic, parse_duration_codes, split_unit, len_utf8}

len_utf8-append_pos : (s : List ℕ) (u : ℕ) → 1 ≤ len_utf8 (s ++ (u ∷ []))
unfolding len_utf8
len_utf8-append_pos [] u = ground arith
len_utf8-append_pos (c ∷ s) u = omega (arith, len_utf8-append_pos s u)

trim_start_ink : (c : ℕ) (r : List ℕ) → is_whitespace c ≡ false → trim_start (c ∷ r) ≡ c ∷ r
unfolding trim_start
trim_start_ink c r e = rw e

-- What `trim` leaves of a number and its unit.
trim-number :
    (s : List ℕ) (n u : ℕ)
    → unsigned s ≡ some n
    → is_whitespace u ≡ false
    → reverse (trim (s ++ (u ∷ []))) ≡ u ∷ reverse s
unfolding trim_start
trim-number s n u h ink =
    let (c, r, same, low, high) = unsigned-head s n h in
    let kept : trim_start s ≡ s = rw same (trim_start_ink c r (ground arith)) in
    rw (trim-append s u ink, kept)

module _ (chrono : Chrono) where
  split_unit-ms : (x : List ℕ) → split_unit chrono (b's' ∷ reverse (x ++ (b'm' ∷ []))) ≡ failed
  unfolding split_unit
  split_unit-ms x = rw (reverse-reverse, parse_int-append_nondigit b'm' refl i64_bound x)

  ends_in_ms :
      (p : List ℕ)
      → reverse (trim (p ++ (b'm' ∷ b's' ∷ []))) ≡ b's' ∷ reverse (trim_start p ++ (b'm' ∷ []))
  unfolding is_whitespace
  ends_in_ms p =
      rw (← append_assoc p (b'm' ∷ []) (b's' ∷ []), trim-append (p ++ (b'm' ∷ [])) b's' refl)
        (rw (trim_start-append p b'm' [] refl))

  -- A text that ends in "ms" is refused, whatever stands before it: the "500ms" form that the
  -- function's comment promises is an error.
  pub milliseconds_refused :
      (p : List ℕ) → parse_duration_codes chrono (p ++ (b'm' ∷ b's' ∷ [])) ≡ failed
  unfolding parse_duration_codes is_whitespace
  milliseconds_refused p = elim (Bool-cases (ltb (len_utf8 (trim (p ++ (b'm' ∷ b's' ∷ [])))) 2)) [
    | inl short ↦ rw short
    | inr long ↦ rw (long, ends_in_ms p, split_unit-ms (trim_start p))
  ]

  split_unit-number :
      (s : List ℕ) (n : ℕ)
      → unsigned s ≡ some n
      → n < i64_bound
      → (split_unit chrono (b's' ∷ reverse s) ≡ or_panic (chrono.seconds (pos n)))
        × (split_unit chrono (b'm' ∷ reverse s) ≡ or_panic (chrono.minutes (pos n)))
        × (split_unit chrono (b'h' ∷ reverse s) ≡ or_panic (chrono.hours (pos n)))
        × (split_unit chrono (b'd' ∷ reverse s) ≡ or_panic (chrono.days (pos n)))
  unfolding split_unit
  split_unit-number s n h lt =
      let e = parse_int-unsigned i64_bound s n h lt in
      (
        rw (reverse-reverse, e),
        rw (reverse-reverse, e),
        rw (reverse-reverse, e),
        rw (reverse-reverse, e),
      )

  long_enough :
      (s : List ℕ) (n u : ℕ)
      → unsigned s ≡ some n
      → is_whitespace u ≡ false
      → ltb (len_utf8 (trim (s ++ (u ∷ [])))) 2 ≡ false
  unfolding len_utf8
  long_enough s n u h ink =
      let (c, r, same, low, high) = unsigned-head s n h in
      let whole : trim (s ++ (u ∷ [])) ≡ s ++ (u ∷ []) =
        sym (reverse-reverse _)
        ∙ ap reverse (trim-number s n u h ink ∙ sym (reverse-append s (u ∷ [])))
        ∙ reverse-reverse _ in
      rw (whole, same) (ground (arith, len_utf8-append_pos r u))

  -- A number in an `i64`'s range with the unit s, m, h or d is read as chrono's duration of that
  -- many seconds, minutes, hours or days where chrono has it, and panics where chrono does, for a
  -- number out of its range.
  pub parse_duration_units :
      (s : List ℕ) (n : ℕ)
      → unsigned s ≡ some n
      → n < i64_bound
      → (parse_duration_codes chrono (s ++ (b's' ∷ [])) ≡ or_panic (chrono.seconds (pos n)))
        × (parse_duration_codes chrono (s ++ (b'm' ∷ [])) ≡ or_panic (chrono.minutes (pos n)))
        × (parse_duration_codes chrono (s ++ (b'h' ∷ [])) ≡ or_panic (chrono.hours (pos n)))
        × (parse_duration_codes chrono (s ++ (b'd' ∷ [])) ≡ or_panic (chrono.days (pos n)))
  unfolding parse_duration_codes is_whitespace
  parse_duration_units s n h lt =
      let (sec, min, hour, day) = split_unit-number s n h lt in
      (
        rw (long_enough s n b's' h refl, trim-number s n b's' h refl) sec,
        rw (long_enough s n b'm' h refl, trim-number s n b'm' h refl) min,
        rw (long_enough s n b'h' h refl, trim-number s n b'h' h refl) hour,
        rw (long_enough s n b'd' h refl, trim-number s n b'd' h refl) day,
      )
