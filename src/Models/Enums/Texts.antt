-- ===== src/Models/Enums/Texts.antt =====
-- The text forms of the enums read back, and the status that does not.
use sjbis.Prelude.{
  String, ◌≡◌, ◌≢◌, ◌↔◌, refl, inl, inr, Option, some, if◌then◌else◌, Bool-cases, str_eq, eq_iff,
  arith,
}
use sjbis.Models.Enums.{
  QuestionType, yes_no, multichoice, free_text, numeric, file, diff, ack, pick_list, schedule, form,
  approval, to_string, from_str, NotificationStatus, open_, timed_out, debug_lower, status_of_text,
}

from_str-to_string : (t : QuestionType) → from_str (to_string t) ≡ some t
unfolding from_str to_string
from_str-to_string yes_no = refl
from_str-to_string _ = refl

-- One test of the `match` in `from_str`.
arm :
    (s literal : String) (t u : QuestionType) (rest : Option QuestionType)
    → to_string u ≡ literal
    → (rest ≡ some t → to_string t ≡ s)
    → (if str_eq s literal then some u else rest) ≡ some t
    → to_string t ≡ s
arm s literal t u rest prints later h = elim (Bool-cases (str_eq s literal)) [
  | inl hit ↦ cc (prints, (eq_iff s literal).0 hit, rw hit at h)
  | inr miss ↦ later (rw miss at h)
]

to_string-from_str : (s : String) (t : QuestionType) → from_str s ≡ some t → to_string t ≡ s
unfolding from_str to_string
to_string-from_str s t = arm s "yesno" t yes_no _ refl (
    arm s "multichoice" t multichoice _ refl (
      arm s "freetext" t free_text _ refl (
        arm s "numeric" t numeric _ refl (
          arm s "file" t file _ refl (
            arm s "diff" t diff _ refl (
              arm s "ack" t ack _ refl (
                arm s "picklist" t pick_list _ refl (
                  arm s "schedule" t schedule _ refl (
                    arm s "form" t form _ refl
                      (arm s "approval" t approval _ refl (λ e. cc)))))))))))

-- A text parses to a question type exactly when it is what that type prints.
pub from_str_iff : (s : String) (t : QuestionType) → (from_str s ≡ some t) ↔ (to_string t ≡ s)
from_str_iff s t = (to_string-from_str s t, λ e. rw (← e) (from_str-to_string t))

-- The text that `update_status` and `insert_notification` write for a status reads back as that
-- status exactly when the status is not TimedOut; TimedOut reads back as Open.
pub status_of_text-debug_lower :
    (s : NotificationStatus)
    → ((status_of_text (debug_lower s) ≡ s) ↔ (s ≢ timed_out))
      × (status_of_text (debug_lower timed_out) ≡ open_)
unfolding status_of_text debug_lower
status_of_text-debug_lower open_ = ground arith
status_of_text-debug_lower _ = ground arith
