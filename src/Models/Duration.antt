-- ===== src/Models/Duration.antt =====
-- src/models.rs: `parse_duration` and `parse_deadline`. chrono's constructors are a parameter: each
-- answers `none` where chrono documents a panic for a value out of its range.
pub mod Units
use sjbis.Prelude.{
  ℕ, ◌+◌, String, Bool, Option, none, some, List, [], ◌∷◌, reverse, ℤ, if◌then◌else◌, ltb, leb,
  ◌==◌, ◌&&◌, codes, trim, parse_int, i64_bound,
}
use sjbis.Models.Data.{DateTime}

-- What a fallible call does that may also panic; `failed` is the `anyhow` error.
pub data Outcome {ℓ} (A : Type ℓ) : Type ℓ where
  done : A → Outcome A
  failed : Outcome A
  panicked : Outcome A

-- chrono: durations are counted as integers of nanoseconds. With it stands `str::to_lowercase`, which
-- follows the tables of Unicode.
pub record Chrono : Type 0 where
  pub seconds : ℤ → Option ℤ
  pub minutes : ℤ → Option ℤ
  pub hours : ℤ → Option ℤ
  pub days : ℤ → Option ℤ
  pub milliseconds : ℤ → Option ℤ
  pub parse_rfc3339 : String → Option DateTime
  pub add : DateTime → ℤ → Option DateTime
  pub millis_since : DateTime → DateTime → ℤ
  pub seconds_since : DateTime → DateTime → ℤ
  pub to_lowercase : String → String

abbrev pub or_panic {ℓ} : {A : Type ℓ} → Option A → Outcome A
or_panic none = panicked
or_panic (some a) = done a

-- `s.len()`: bytes of UTF-8.
unfoldable pub len_utf8 : List ℕ → ℕ
len_utf8 [] = 0
len_utf8 (c ∷ s) =
    (if ltb c 128 then 1 else if ltb c 2048 then 2 else if ltb c 65536 then 3 else 4) + len_utf8 s

module _ (chrono : Chrono) where
  open chrono use {seconds, minutes, hours, days, milliseconds, parse_rfc3339, add}

  -- The inner `_` arm: the last two characters as the unit. The text comes reversed.
  two_letter_unit : List ℕ → Outcome ℤ
  two_letter_unit [] = failed
  two_letter_unit (u ∷ []) = failed
  two_letter_unit (u ∷ d ∷ r) =
      if leb 3 (len_utf8 (u ∷ d ∷ r))
      then elim (parse_int i64_bound (reverse r)) [
        | none ↦ failed
        | some num ↦ if d == b'm' && u == b's' then or_panic (milliseconds num) else failed
      ]
      else failed

  -- `match unit`, the unit being the last character.
  by_unit : ℕ → List ℕ → ℤ → Outcome ℤ
  unfolding two_letter_unit
  by_unit u r num =
      if u == b's'
      then or_panic (seconds num)
      else if u == b'm'
      then or_panic (minutes num)
      else if u == b'h'
      then or_panic (hours num)
      else if u == b'd'
      then or_panic (days num)
      else two_letter_unit (u ∷ r)

  -- After the length test, on the reversed text; `split_at` panics inside a character.
  split_unit : List ℕ → Outcome ℤ
  unfolding by_unit
  split_unit [] = failed
  split_unit (u ∷ r) =
      if leb 128 u
      then panicked
      else elim (parse_int i64_bound (reverse r)) [ none ↦ failed | some num ↦ by_unit u r num ]

  unfoldable pub parse_duration_codes : List ℕ → Outcome ℤ
  unfolding split_unit len_utf8
  parse_duration_codes text =
      let s = trim text in if ltb (len_utf8 s) 2 then failed else split_unit (reverse s)

  unfoldable pub parse_duration : String → Outcome ℤ
  unfolding parse_duration_codes
  parse_duration s = parse_duration_codes (codes s)

  after : DateTime → Outcome ℤ → Outcome DateTime
  after now failed = failed
  after now panicked = panicked
  after now (done d) = or_panic (add now d)

  unfoldable pub parse_deadline : DateTime → String → Outcome DateTime
  unfolding after
  parse_deadline now s = elim (parse_rfc3339 s) [
    | some dt ↦ done dt
    | none ↦ after now (parse_duration s)
  ]
