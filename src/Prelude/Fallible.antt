-- ===== src/Prelude/Fallible.antt =====
-- Rust's `Result`, with `?` as bind.
use mathlib.Core.Path.{◌≡◌, refl}
use mathlib.Core.Bool.{Bool, true, false}
use mathlib.Core.Option.{Option, none, some}

pub data Result {ℓ} (E : Type ℓ) (A : Type ℓ) : Type ℓ where
  ok : A → Result E A
  err : E → Result E A

infixl 10 ◌>>=◌ ◌>>◌
abbrev pub ◌>>=◌ {ℓ} : {E A B : Type ℓ} → Result E A → (A → Result E B) → Result E B
ok a >>= f = f a
err e >>= f = err e

abbrev pub ◌>>◌ {ℓ} : {E B : Type ℓ} → Result E (Unit {ℓ}) → Result E B → Result E B
m >> n = m >>= λ _. n

-- `if !b { return Err(e) }`
abbrev pub ensure {ℓ} : {E : Type ℓ} → Bool → E → Result E (Unit {ℓ})
ensure true e = ok tt
ensure false e = err e

-- `o.ok_or(e)?`
abbrev pub ok_or {ℓ} : {E A : Type ℓ} → Option A → E → Result E A
ok_or none e = err e
ok_or (some a) e = ok a

-- A chain that succeeds went through each of its steps: one rule for each kind of step, which
-- hands what the step established to the rest of a proof.
pub from_ensure {ℓ κ} :
    {E B : Type ℓ} {P : Type κ} (b : Bool) (e : E) (m : Result E B) {x : B}
    → (b ≡ true → m ≡ ok x → P)
    → (ensure b e >> m) ≡ ok x
    → P
from_ensure true e m k h = k refl h
from_ensure false e m k h = cc

module _ {ℓ κ} {E A B : Type ℓ} {P : Type κ} where
  pub from_bind :
      (m : Result E A) (f : A → Result E B) {x : B}
      → ((a : A) → m ≡ ok a → f a ≡ ok x → P)
      → (m >>= f) ≡ ok x
      → P
  from_bind (ok a) f k h = k a refl h
  from_bind (err e) f k h = cc

  pub from_ok_or :
      (o : Option A) (e : E) (f : A → Result E B) {x : B}
      → ((a : A) → o ≡ some a → f a ≡ ok x → P)
      → (ok_or o e >>= f) ≡ ok x
      → P
  from_ok_or (some a) e f k h = k a refl h
  from_ok_or none e f k h = cc

pub ok-injective {ℓ} : {E A : Type ℓ} {a b : A} → ◌≡◌ {A = Result E A} (ok a) (ok b) → a ≡ b
ok-injective h = cc

pub ensure-true {ℓ} : {E : Type ℓ} (b : Bool) (e : E) {x : Unit} → ensure b e ≡ ok x → b ≡ true
ensure-true true e h = refl
ensure-true false e h = cc
