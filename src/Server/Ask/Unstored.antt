-- ===== src/Server/Ask/Unstored.antt =====
-- What `ask` leaves in the table where a rule answers at once.

use sjbis.Prelude.{
  String, Bool, ◌≡◌, refl, sym, ap, ◌∙◌, Option, none, some, ℤ, ok, Bool-cases, inl, inr, str_eq,
  eq_iff,
}
use sjbis.Models.Enums.{QuestionType, answered}
use sjbis.Models.Data.{DateTime, Notification, AskRequest, RouterResult}
use sjbis.Models.Duration.{Chrono, done}
use sjbis.Rules.Evaluate.{Verdict, evaluate}
use sjbis.Rules.Evaluate.Frame.{Evaluated, evaluate-Evaluated}
use sjbis.Store.Db.{Db, Row, row_id}
use sjbis.Store.Notifications.{find_row, answer_notification, answer_row, on_row}
use sjbis.Store.Notifications.Reads.{find_row-on_row}
use sjbis.Store.Registers.{get_or_create_agent, list_rules}
use sjbis.Server.App.{App, Response, reply, emit, with_db}
use sjbis.Server.Draft.{Router, existing_ask, classified, ask_type, ask_limits, build}
use sjbis.Server.Ask.{
  auto_answered, decided, ruled, drafted, limited, ask_new, ask_known, ask, ask_deadline,
}
use sjbis.Server.Ask.Guards.{find_row-agent}

on_row-absent :
    (id j : String) (f : Row → Row) (db : Db)
    → ((r : Row) → row_id (f r) ≡ row_id r)
    → find_row id db ≡ none
    → find_row j (on_row id f db) ≡ find_row j db
on_row-absent id j f db keeps absent = elim (Bool-cases (str_eq id j)) [
  | inl hit ↦
      let gone : find_row j db ≡ none = rw (← (eq_iff id j).0 hit) absent in
      (rw (hit, gone) at (find_row-on_row id j f db keeps)) ∙ sym gone
  | inr miss ↦ rw miss at (find_row-on_row id j f db keeps)
]

answer_notification-absent :
    (id j answer : String) (label remark : Option String) (now : DateTime) (db : Db)
    → find_row id db ≡ none
    → find_row j (answer_notification id answer label remark now db) ≡ find_row j db
unfolding answer_notification answer_row
answer_notification-absent id j answer label remark now db = on_row-absent id j _ db (λ r. refl)

-- The ask that a rule answered: the reply says so, and no row was written.
abbrev pub IsUnstored : App → App × Response Notification → Type 0
IsUnstored app result =
    ((n : Notification) × (result.1 ≡ reply n) × (n.status ≡ answered))
    × ((j : String) → find_row j result.0.db ≡ find_row j app.db)

decided-IsUnstored :
    (o : Option String) (answer : String) (n : Notification) (now : DateTime) (app : App)
    → o ≡ some answer
    → find_row n.id app.db ≡ none
    → IsUnstored app (decided o n now app)
unfolding decided auto_answered emit with_db
decided-IsUnstored none answer n now app rule fresh = cc
decided-IsUnstored (some a) answer n now app rule fresh =
    ((_, refl, refl), λ j. answer_notification-absent n.id j a (some a) none now app.db fresh)

-- The tables once the asking agent is known, the router's result, and the type of the ask.
abbrev pub known : AskRequest → App → App
known req app = with_db (get_or_create_agent req.agent_name app.db).0 app

abbrev pub routed : Option Router → AskRequest → DateTime → App → Option RouterResult
routed router req now app = classified router req now (known req app).db

abbrev pub type_of : Option Router → AskRequest → DateTime → App → QuestionType
type_of router req now app = ask_type req.question_type (routed router req now app)

-- A new ask that passes its checks and that a rule answers is reported as answered, and where its
-- id has no row yet, no row of the table is changed or added for it.
pub auto_answered-IsUnstored :
    (chrono : Chrono) (router : Option Router) (req : AskRequest) (id : String) (now : DateTime)
    (app : App) {limits : Option ℤ × Option Bool} {deadline : Option DateTime} {v : Verdict}
    {answer : String}
    → existing_ask req.id now app.db ≡ none
    → find_row id app.db ≡ none
    → ask_limits (type_of router req now app) req ≡ ok limits
    → ask_deadline chrono req.deadline now ≡ some deadline
    → evaluate chrono now
        (list_rules (known req app).db)
        (build req id now (type_of router req now app) (routed router req now app) deadline limits)
      ≡ done v
    → v.auto_answer ≡ some answer
    → IsUnstored app (ask chrono router req id now app)
unfolding ask ask_known ask_new limited drafted ruled with_db
auto_answered-IsUnstored chrono router req id now app {limits = (ttl, once)} {deadline} {v} {answer}
      new_ask fresh allowed timely ruled_ rule =
    let built =
      build req id now (type_of router req now app) (routed router req now app) deadline
        (ttl, once) in
    let framed : Evaluated built v =
      rw ruled_ at (evaluate-Evaluated chrono now (list_rules (known req app).db) built) in
    let same : v.notif.id ≡ id =
      ap (λ (m : Notification). m.id) framed.0.frame ∙ (unfold build in refl) in
    let (told, rows) =
      decided-IsUnstored v.auto_answer answer v.notif now (known req app) rule
        (rw same (find_row-agent id req.agent_name app.db ∙ fresh)) in
    rw (new_ask, allowed, timely, ruled_)
      (told, λ j. rows j ∙ find_row-agent j req.agent_name app.db)
