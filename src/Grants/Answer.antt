-- ===== src/Grants/Answer.antt =====
-- src/grants.rs: may a verified grant answer an ask, and which answer does it record.
use Prim.Native.String.{◌++◌ as append}
use sjbis.Prelude.{
  String, ◌≡◌, ◌↔◌, Option, none, some, Result, ok, ◌>>◌, ensure, str_eq, arith, eq_iff,
}
use sjbis.Json.{Json}
use sjbis.Models.Enums.{is_open, is_approval, open_, approval, to_string}
use sjbis.Models.Data.{DateTime, Notification, AnswerEnvelope}
use sjbis.Models.Duration.{Chrono}
use sjbis.Grants.Errors.{
  GrantError, notification_not_found, not_approval, not_open, question_mismatch,
}
use sjbis.Grants.Records.{Codec, Envelope, GrantRecord, decision_str}

abbrev pub via_prefix : String
via_prefix = "ta:"

unfoldable pub check_grant_for_notification : GrantRecord → Notification → Result GrantError Unit
unfolding is_approval is_open
check_grant_for_notification grant notif = do
  ensure (str_eq grant.ask_id notif.id) (notification_not_found grant.ask_id)
  ensure (is_approval notif.question_type) (not_approval notif.id)
  ensure (is_open notif.status) (not_open notif.id)
  ensure (str_eq grant.question notif.question) question_mismatch
  ok tt

pub record GrantAnswer : Type 0 where
  pub answer : String
  pub answer_label : String
  pub note : Option String
  pub via : String

-- `o.unwrap_or(d)`
abbrev pub unwrap_or : Option String → String → String
unwrap_or none d = d
unwrap_or (some s) d = s

unfoldable pub grant_answer : GrantRecord → GrantAnswer
unfolding decision_str
grant_answer grant = record {
  answer = decision_str grant.decision;
  answer_label = unwrap_or grant.answer (decision_str grant.decision);
  note = grant.note;
  via = append via_prefix grant.signer;
}

-- `Some(serde_json::to_value(envelope).unwrap_or(Value::Null))`
abbrev pub or_null : Option Json → Json
or_null none = Json.null
or_null (some v) = v

unfoldable pub grant_answer_envelope :
    {Key Sig : Type 0}
    → Codec Key Sig
    → Chrono
    → Notification
    → GrantRecord
    → Envelope
    → DateTime
    → AnswerEnvelope
unfolding grant_answer
grant_answer_envelope codec chrono notif grant envelope answered_at =
    let a = grant_answer grant in
    record {
      id = notif.id;
      answer = some a.answer;
      answer_label = some a.answer_label;
      answered_at = some answered_at;
      latency_ms = some (chrono.millis_since answered_at notif.created_at);
      renderer = to_string notif.question_type;
      src = notif.src;
      via = a.via;
      note = a.note;
      grant = some (or_null (codec.value_of_envelope envelope));
      once = notif.once;
    }

-- A grant may answer a notification exactly when it names it, the notification is an open approval
-- ask, and the signed question is the notification's.
pub check_grant_iff :
    (grant : GrantRecord) (notif : Notification)
    → (check_grant_for_notification grant notif ≡ ok tt) ↔ (
        (grant.ask_id ≡ notif.id)
        × (notif.question_type ≡ approval)
        × (notif.status ≡ open_)
        × (grant.question ≡ notif.question))
unfolding check_grant_for_notification
check_grant_iff grant notif = (
  λ h. ground (arith, eq_iff grant.ask_id notif.id, eq_iff grant.question notif.question),
  λ (a, b, c, d).
      ground (arith, eq_iff grant.ask_id notif.id, eq_iff grant.question notif.question),
)
