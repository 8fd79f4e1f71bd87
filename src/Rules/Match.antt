-- ===== src/Rules/Match.antt =====
-- src/rules.rs: `match_rule`.
use sjbis.Prelude.{
  String, Bool, true, false, Option, none, some, ℤ, ◌&&◌, ◌||◌, not, str_eq, ltb_ℤ, codes, contains,
}
use sjbis.Json.{Json, null, bool, int, float, str, arr, obj, Items, nil, cons, get, as_str, as_i64}
use sjbis.Models.Data.{Notification}
use sjbis.Models.Duration.{Chrono}

-- `arr.iter().any(|v| v.as_str().map_or(false, test))`
unfoldable pub any_item : (String → Bool) → Items → Bool
any_item test nil = false
any_item test (cons v vs) = (elim (as_str v) [ none ↦ false | some s ↦ test s ]) || any_item test vs

-- A value that is one text, or an array of texts of which one passes.
unfoldable pub text_or_any : (String → Bool) → Json → Bool
unfolding any_item
text_or_any test (str s) = test s
text_or_any test (arr xs) = any_item test xs
text_or_any test null = false
text_or_any test (bool b) = false
text_or_any test (int z) = false
text_or_any test (float b) = false
text_or_any test (obj fs) = false

-- A criterion that is absent holds.
abbrev when_present {ℓ} : {A : Type ℓ} → Option A → (A → Bool) → Bool
when_present none test = true
when_present (some a) test = test a

abbrev i64_of : Option Json → Option ℤ
i64_of none = none
i64_of (some v) = as_i64 v

abbrev str_of : Option Json → Option String
str_of none = none
str_of (some v) = as_str v

module _ (chrono : Chrono) where
  unfoldable pub includes : String → String → Bool
  unfolding contains
  includes text part =
      contains (codes (chrono.to_lowercase part)) (codes (chrono.to_lowercase text))

  same_ignoring_case : String → String → Bool
  same_ignoring_case text other = str_eq (chrono.to_lowercase text) (chrono.to_lowercase other)

  -- The criteria of a `match` object.
  unfoldable pub criteria_hold : Json → Notification → Bool
  unfolding includes text_or_any same_ignoring_case
  criteria_hold m n =
      when_present (get m "agent") (text_or_any (λ s. str_eq s "*" || str_eq s n.agent_name))
      && when_present (i64_of (get m "urgency_min")) (λ least. not (ltb_ℤ n.urgency least))
      && when_present (i64_of (get m "urgency_max")) (λ most. not (ltb_ℤ most n.urgency))
      && when_present (str_of (get m "question_includes")) (λ s. includes n.question s)
      && when_present (get m "source_contains")
          (text_or_any (λ s. str_eq s "*" || includes n.src s))
      && when_present (get m "source_is")
          (text_or_any (λ s. str_eq s "*" || same_ignoring_case n.src s))

  unfoldable pub match_rule : Json → Notification → Bool
  unfolding criteria_hold
  match_rule compiled n = when_present (get compiled "match") (λ m. criteria_hold m n)
