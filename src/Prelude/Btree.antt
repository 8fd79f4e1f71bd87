-- ===== src/Prelude/Btree.antt =====
-- `BTreeMap` with text keys: the entries in the order of their keys. Texts compare by code points,
-- which is the order of their UTF-8 bytes.
use Prim.Native.Nat.{ℕ}
use Prim.Native.String.{String}
use mathlib.Core.Path.{◌≡◌, refl, subst}
use mathlib.Core.Logic.{inl, inr}
use mathlib.Core.Bool.{Bool, true, false, ◌&&◌, ◌||◌}
use mathlib.Core.List.{List, [], ◌∷◌}
use mathlib.Core.Option.{Option, none, some}
use native.Mathlib.Omega.{arith}
use text.Mathlib.Text.{◌==◌ as str_eq}
use text.Mathlib.TextEquality.{eq_iff}
use text.Mathlib.TextPositions.{eq_refl}
use text.Mathlib.TextEquality.{Char-path}
use sjbis.Prelude.Tests.{ltb, ◌==◌, if◌then◌else◌, Bool-cases}
use sjbis.Prelude.Text.{codes}
use sjbis.Prelude.Lists.{All}

unfoldable pub codes_ltb : List ℕ → List ℕ → Bool
codes_ltb s [] = false
codes_ltb [] (d ∷ t) = true
codes_ltb (c ∷ s) (d ∷ t) = ltb c d || (c == d && codes_ltb s t)

-- `a < b` on texts
unfoldable pub text_ltb : String → String → Bool
unfolding codes_ltb
text_ltb a b = codes_ltb (codes a) (codes b)

codes_ltb_irrefl : (s : List ℕ) → codes_ltb s s ≡ false
unfolding codes_ltb
codes_ltb_irrefl [] = refl
codes_ltb_irrefl (c ∷ s) = ground (arith, codes_ltb_irrefl s)

codes_ltb_trans :
    (s t u : List ℕ) → codes_ltb s t ≡ true → codes_ltb t u ≡ true → codes_ltb s u ≡ true
unfolding codes_ltb
codes_ltb_trans s t [] h k = cc
codes_ltb_trans s [] (e ∷ u) h k = cc
codes_ltb_trans [] (d ∷ t) (e ∷ u) h k = refl
codes_ltb_trans (c ∷ s) (d ∷ t) (e ∷ u) h k = ground (arith, codes_ltb_trans s t u)

codes_ltb-total : (s t : List ℕ) → codes_ltb s t ≡ false → codes_ltb t s ≡ false → s ≡ t
unfolding codes_ltb
codes_ltb-total [] [] h k = refl
codes_ltb-total [] (d ∷ t) h k = cc
codes_ltb-total (c ∷ s) [] h k = cc
codes_ltb-total (c ∷ s) (d ∷ t) h k = ground (arith, codes_ltb-total s t)

head_codes : {c d : ℕ} {s t : List ℕ} → ◌≡◌ {A = List ℕ} (c ∷ s) (d ∷ t) → (c ≡ d) × (s ≡ t)
head_codes h = (cc, cc)

pub codes-injective : (a b : String) → codes a ≡ codes b → a ≡ b
codes-injective String.[] String.[] h = refl
codes-injective String.[] (String.◌∷◌ d b) h = cc
codes-injective (String.◌∷◌ c a) String.[] h = cc
codes-injective (String.◌∷◌ c a) (String.◌∷◌ d b) h =
    let (first, rest) = head_codes h in
    let same_char = Char-path c d first in let same_rest = codes-injective a b rest in cc

text_ltb_irrefl : (a : String) → text_ltb a a ≡ false
unfolding text_ltb
text_ltb_irrefl a = codes_ltb_irrefl (codes a)

pub text_ltb_trans :
    (a b c : String) → text_ltb a b ≡ true → text_ltb b c ≡ true → text_ltb a c ≡ true
unfolding text_ltb
text_ltb_trans a b c = codes_ltb_trans (codes a) (codes b) (codes c)

text_ltb-total : (a b : String) → str_eq b a ≡ false → text_ltb a b ≡ false → text_ltb b a ≡ true
unfolding text_ltb
text_ltb-total a b differ h = elim (Bool-cases (text_ltb b a)) [
  | inl below ↦ below
  | inr k ↦
      let same = codes-injective a b (codes_ltb-total (codes a) (codes b) h k) in
      let hit : str_eq b a ≡ true = rw same (eq_refl b) in cc
]

pub below_differs : (k i : String) → text_ltb k i ≡ true → str_eq i k ≡ false
below_differs k i h = elim (Bool-cases (str_eq i k)) [
  | inl same ↦
      let equal = (eq_iff i k).0 same in
      let self : text_ltb k k ≡ true = subst (λ x. text_ltb k x ≡ true) equal h in
      let no_self = text_ltb_irrefl k in cc
  | inr other ↦ other
]

module _ {V : Type 0} where
  -- `m.get(k)`
  unfoldable pub get_entry : String → List (String × V) → Option V
  get_entry k [] = none
  get_entry k ((j, v) ∷ m) = let rest = get_entry k m in if str_eq j k then some v else rest

  -- `m.entry(k)`, written to: `f` has the value that was there.
  unfoldable pub put_entry : String → (Option V → V) → List (String × V) → List (String × V)
  unfolding text_ltb
  put_entry k f [] = (k, f none) ∷ []
  put_entry k f ((j, v) ∷ m) =
      let rest = put_entry k f m in
      if str_eq j k
      then (j, f (some v)) ∷ m
      else if text_ltb k j
      then (k, f none) ∷ (j, v) ∷ m
      else (j, v) ∷ rest

  -- `m.into_values()`
  unfoldable pub entry_values : List (String × V) → List V
  entry_values [] = []
  entry_values ((k, v) ∷ m) = v ∷ entry_values m

  -- The keys of `m` are above `k`.
  abbrev pub IsBelow : String → List (String × V) → Type 0
  IsBelow k = All (λ e. text_ltb k e.0 ≡ true)

  -- The entries are in the strict order of their keys.
  abbrev pub IsOrdered : List (String × V) → Type 0
  IsOrdered [] = Unit
  IsOrdered ((k, v) ∷ m) = IsBelow k m × IsOrdered m

  IsBelow-trans :
      (j k : String) (m : List (String × V)) → text_ltb j k ≡ true → IsBelow k m → IsBelow j m
  IsBelow-trans j k [] h b = tt
  IsBelow-trans j k ((i, v) ∷ m) h (b, bs) = (text_ltb_trans j k i h b, IsBelow-trans j k m h bs)

  get_entry-IsBelow : (k : String) (m : List (String × V)) → IsBelow k m → get_entry k m ≡ none
  unfolding get_entry
  get_entry-IsBelow k [] b = refl
  get_entry-IsBelow k ((i, v) ∷ m) (b, bs) = rw (below_differs k i b) (get_entry-IsBelow k m bs)

  put_entry-IsBelow :
      (j k : String) (f : Option V → V) (m : List (String × V))
      → text_ltb j k ≡ true
      → IsBelow j m
      → IsBelow j (put_entry k f m)
  unfolding put_entry
  put_entry-IsBelow j k f [] h b = (h, tt)
  put_entry-IsBelow j k f ((i, v) ∷ m) h (b, bs) = elim (Bool-cases (str_eq i k)) [
    | inl same ↦ rw same (b, bs)
    | inr other ↦ elim (Bool-cases (text_ltb k i)) [
      | inl before ↦ rw (other, before) (h, (b, bs))
      | inr after ↦ rw (other, after) (b, put_entry-IsBelow j k f m h bs)
    ]
  ]

  pub put_entry-IsOrdered :
      (k : String) (f : Option V → V) (m : List (String × V))
      → IsOrdered m
      → IsOrdered (put_entry k f m)
  unfolding put_entry
  put_entry-IsOrdered k f [] o = (tt, tt)
  put_entry-IsOrdered k f ((i, v) ∷ m) (b, o) = elim (Bool-cases (str_eq i k)) [
    | inl same ↦ rw same (b, o)
    | inr other ↦ elim (Bool-cases (text_ltb k i)) [
      | inl before ↦ rw (other, before) ((before, IsBelow-trans k i m before b), (b, o))
      | inr after ↦
          let above = text_ltb-total k i other after in
          rw (other, after) (put_entry-IsBelow i k f m above b, put_entry-IsOrdered k f m o)
    ]
  ]

  -- A write to one key of an ordered map is seen at that key alone.
  pub get_entry-put_entry :
      (k j : String) (f : Option V → V) (m : List (String × V))
      → IsOrdered m
      → get_entry j (put_entry k f m)
        ≡ (if str_eq k j then some (f (get_entry k m)) else get_entry j m)
  unfolding get_entry put_entry
  get_entry-put_entry k j f [] o = refl
  get_entry-put_entry k j f ((i, v) ∷ m) (b, o) = elim (Bool-cases (str_eq i k)) [
    | inl same ↦ let equal = (eq_iff i k).0 same in ground (arith, same, equal, eq_refl k)
    | inr other ↦ elim (Bool-cases (text_ltb k i)) [
      | inl before ↦ ground (
        arith,
        other,
        before,
        get_entry-IsBelow k m (IsBelow-trans k i m before b),
        eq_iff k j,
        eq_iff i j,
      )
      | inr after ↦
          ground
            (arith, other, after, get_entry-put_entry k j f m o, eq_iff i k, eq_iff k j, eq_iff i j)
    ]
  ]
