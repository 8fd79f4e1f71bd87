-- ===== src/Rules/Evaluate/Panics.antt =====
-- When `evaluate` may panic.
use sjbis.Prelude.{
  leb_ℤ, String, ◌≡◌, ◌⊎◌, inl, inr, Bool, true, false, Option, some, List, [], ◌∷◌, if◌then◌else◌,
  Bool-cases, strip_prefix,
}
use sjbis.Json.{Json, get, as_str}
use sjbis.Models.Data.{DateTime, Rule}
use sjbis.Models.Duration.{Chrono, Outcome, done, failed, panicked, parse_deadline}
use sjbis.Rules.Evaluate.{sort_by_priority, in_force, insert_by_priority, neg_i32}

-- The deadline of a "snooze:" action panics, as of a duration that is out of chrono's range.
abbrev pub SnoozePanics : Chrono → DateTime → String → Type 0
SnoozePanics chrono now action =
    (text : String) × (strip_prefix "snooze:" action ≡ some text)
    × (parse_deadline chrono now text ≡ panicked)

-- That of the action of a compiled rule.
abbrev pub CompiledPanics : Chrono → DateTime → Option Json → Type 0
CompiledPanics chrono now compiled =
    (c : Json) × (a : Json) × (action : String) × (compiled ≡ some c)
    × (get c "action" ≡ some a)
    × (as_str a ≡ some action)
    × SnoozePanics chrono now action

-- That of a rule in force.
abbrev pub Panics : Chrono → DateTime → List Rule → Type 0
Panics chrono now [] = ⊥
Panics chrono now (r ∷ rules) =
    ((in_force chrono now r ≡ true) × CompiledPanics chrono now r.compiled)
    ⊎ Panics chrono now rules

-- A condition on every result of an outcome, and one on a panic; `failed` is no result of the loop.
abbrev pub Yields {ℓ} : {A : Type ℓ} → Type 0 → (A → Type 0) → Outcome A → Type 0
Yields Q P (done a) = P a
Yields Q P failed = ⊥
Yields Q P panicked = Q

pub Yields-weaken {ℓ} :
    {A : Type ℓ} (Q : Type 0) (P : A → Type 0) (o : Outcome A)
    → Yields Q P o
    → Yields Q (λ (a : A). Unit {0}) o
Yields-weaken Q P (done a) h = tt
Yields-weaken Q P failed h = h
Yields-weaken Q P panicked h = h

pub Yields-because {ℓ} :
    {A : Type ℓ} (Q R : Type 0) (P : A → Type 0) (o : Outcome A)
    → (Q → R)
    → Yields Q P o
    → Yields R P o
Yields-because Q R P (done a) f h = h
Yields-because Q R P failed f h = h
Yields-because Q R P panicked f h = f h

pub Yields-if {ℓ} :
    {A : Type ℓ} (Q : Type 0) (P : A → Type 0) (b : Bool) (x y : Outcome A)
    → Yields Q P x
    → Yields Q P y
    → Yields Q P (if b then x else y)
Yields-if Q P true x y px py = px
Yields-if Q P false x y px py = py

Panics-behind :
    (chrono : Chrono) (now : DateTime) (r s : Rule) (rules inserted : List Rule)
    → (Panics chrono now inserted → Panics chrono now (r ∷ rules))
    → Panics chrono now (s ∷ inserted)
    → Panics chrono now (r ∷ s ∷ rules)
Panics-behind chrono now r s rules inserted back (inl here) = inr (inl here)
Panics-behind chrono now r s rules inserted back (inr there) = elim (back there) [
  | inl own ↦ inl own
  | inr rest ↦ inr (inr rest)
]

-- A rule that panics is one of the rules, sorted or not.
insert_by_priority-Panics :
    (chrono : Chrono) (now : DateTime) (r : Rule) (rules : List Rule)
    → Panics chrono now (insert_by_priority r rules)
    → Panics chrono now (r ∷ rules)
unfolding insert_by_priority
insert_by_priority-Panics chrono now r [] q = q
insert_by_priority-Panics chrono now r (s ∷ rules) q =
    elim (Bool-cases (leb_ℤ (neg_i32 r.priority) (neg_i32 s.priority))) [
      | inl e ↦ rw e at q
      | inr e ↦
          Panics-behind chrono now r s rules (insert_by_priority r rules)
            (insert_by_priority-Panics chrono now r rules) (rw e at q)
    ]

pub sort_by_priority-Panics :
    (chrono : Chrono) (now : DateTime) (rules : List Rule)
    → Panics chrono now (sort_by_priority rules)
    → Panics chrono now rules
unfolding sort_by_priority
sort_by_priority-Panics chrono now [] q = q
sort_by_priority-Panics chrono now (r ∷ rules) q =
    elim (insert_by_priority-Panics chrono now r (sort_by_priority rules) q) [
      | inl own ↦ inl own
      | inr rest ↦ inr (sort_by_priority-Panics chrono now rules rest)
    ]
