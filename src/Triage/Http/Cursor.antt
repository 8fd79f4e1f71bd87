-- ===== src/Triage/Http/Cursor.antt =====
-- The cursor of an export reads back.
use sjbis.Prelude.{
  ℕ, zero, suc, ◌+◌, ◌*◌, ◌-◌, ◌/◌, ◌%◌, ◌<◌, ◌≤◌, ◌≡◌, refl, ap, ◌∙◌, true, some, List, [], ◌∷◌,
  ◌++◌, ◌==◌, ltb, pos, unsigned, digits_value, leb, i64_bound, ok, arith, Bool-cases, inl, inr,
  ok_or,
}
use sjbis.Prelude.Int.Parse.{parse_int-unsigned}
use sjbis.Triage.Http.{
  decimal, cursor_prefix, encode_cursor, strip_codes, event_of, cursor_number, decode_cursor,
  bad_request, invalid_cursor,
}

digits_value-digit :
    (a d : ℕ) (acc : List ℕ)
    → d < 10
    → digits_value a ((48 + d) ∷ acc) ≡ digits_value (a * 10 + d) acc
unfolding digits_value
digits_value-digit a d acc h =
    let low : leb 48 (48 + d) ≡ true = ground arith in
    let high : leb (48 + d) 57 ≡ true = ground arith in
    let back : 48 + d - 48 ≡ d = omega arith in rw (low, high, back)

-- The digits of a number, read before `acc`, give the number.
digits_value-decimal :
    (fuel n : ℕ) (acc : List ℕ)
    → n < fuel
    → digits_value 0 (decimal fuel n acc) ≡ digits_value n acc
unfolding decimal
digits_value-decimal zero n acc h = let clash : ⊥ = omega arith in absurd clash
digits_value-decimal (suc fuel) n acc h = elim (Bool-cases (ltb n 10)) [
  | inl small ↦
      let digit : n < 10 = ground arith in
      let whole : 0 * 10 + n ≡ n = omega arith in
      rw (decimal, small) (digits_value-digit 0 n acc digit ∙ ap (λ a. digits_value a acc) whole)
  | inr large ↦
      let least : 10 ≤ n = ground arith in
      let digit : n % 10 < 10 = omega arith in
      let shorter : n / 10 < fuel = omega arith in
      let whole : n / 10 * 10 + n % 10 ≡ n = omega arith in
      rw (decimal, large)
        (digits_value-decimal fuel (n / 10) ((48 + n % 10) ∷ acc) shorter
          ∙ digits_value-digit (n / 10) (n % 10) acc digit
          ∙ ap (λ a. digits_value a acc) whole)
]

-- There is at least one digit.
unsigned-decimal :
    (fuel n : ℕ) (acc : List ℕ)
    → unsigned (decimal fuel n acc) ≡ digits_value 0 (decimal fuel n acc)
unfolding decimal unsigned
unsigned-decimal zero n acc = refl
unsigned-decimal (suc fuel) n acc = elim (Bool-cases (ltb n 10)) [
  | inl small ↦ rw (decimal, small)
  | inr large ↦ rw (decimal, large) (unsigned-decimal fuel (n / 10) ((48 + n % 10) ∷ acc))
]

unsigned_digits : (n : ℕ) → unsigned (decimal (suc n) n []) ≡ some n
unfolding digits_value
unsigned_digits n =
    let enough : n < suc n = omega arith in
    unsigned-decimal (suc n) n [] ∙ digits_value-decimal (suc n) n [] enough

strip_codes-append : (p s : List ℕ) → strip_codes p (p ++ s) ≡ some s
unfolding strip_codes
strip_codes-append [] s = refl
strip_codes-append (d ∷ p) s =
    let self : (d == d) ≡ true = ground arith in rw self (strip_codes-append p s)

-- The cursor that a page hands out, of an event id in the range of an `i64`, is read as that id.
pub decode_cursor-encode_cursor :
    (n : ℕ) → n < i64_bound → decode_cursor (some (encode_cursor n)) ≡ ok (pos n)
unfolding decode_cursor encode_cursor cursor_number event_of
decode_cursor-encode_cursor n h =
    let stripped = strip_codes-append cursor_prefix (decimal (suc n) n []) in
    let parsed = parse_int-unsigned i64_bound (decimal (suc n) n []) n (unsigned_digits n) h in
    ap (λ o. ok_or (cursor_number o) (bad_request invalid_cursor)) stripped
    ∙ ap (λ o. ok_or (event_of o) (bad_request invalid_cursor)) parsed
