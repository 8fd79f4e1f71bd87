-- ===== src/Server/Ask/Guards.antt =====
-- `ask` on the rows that are already there, and what it inserts.
use mathlib.Core.Path.{subst}
use sjbis.Prelude.{
  ℕ, String, ◌≡◌, ◌≢◌, ◌⊎◌, refl, sym, ap, ◌∙◌, Bool, Option, none, some, ℤ, Result, ok, err, arith,
  Bool-cases, inl, inr, eq_iff, leb_ℤ, pos,
}
use sjbis.Models.Enums.{NotificationStatus, QuestionType, open_, muted, is_muted, debug_lower}
use sjbis.Models.Data.{DateTime, Notification, AskRequest, RouterResult, Agent}
use sjbis.Models.Duration.{Chrono, Outcome, done, failed, panicked}
use sjbis.Rules.Evaluate.{Verdict}
use sjbis.Rules.Evaluate.Panics.{Panics, Yields}
use sjbis.Rules.Evaluate.Frame.{Evaluated, evaluate-Evaluated}
use sjbis.Store.Table.{get_row}
use sjbis.Store.Db.{Db}
use sjbis.Store.Notifications.{find_row, insert_notification}
use sjbis.Store.Registers.{get_or_create_agent, agent_or_new, upsert_agent, agent_key, list_rules}
use sjbis.Store.Guarded.{Guards, answered-Guards, inserted-Guards, absent-plain}
use sjbis.Server.App.{App, emit, with_db}
use sjbis.Server.Draft.{Router, build}
use sjbis.Server.Ask.{
  auto_answered, announced, send_push_notifications, stored_reply, decided, ruled, drafted, limited,
  ask_new, ask_known, ask, ask_deadline,
}

upsert_agent-rows : (a : Agent) (db : Db) → (upsert_agent a db).notifications ≡ db.notifications
unfolding upsert_agent
upsert_agent-rows a db = ground arith

agent_or_new-rows :
    (o : Option Agent) (name : String) (db : Db)
    → (agent_or_new o name db).0.notifications ≡ db.notifications
unfolding agent_or_new
agent_or_new-rows (some a) name db = refl
agent_or_new-rows none name db = upsert_agent-rows _ db

pub find_row-agent :
    (j name : String) (db : Db) → find_row j (get_or_create_agent name db).0 ≡ find_row j db
unfolding find_row get_or_create_agent
find_row-agent j name db = rw (agent_or_new-rows (get_row agent_key name db.agents) name db)

unanswered_text :
    (s t : NotificationStatus)
    → t ≡ open_
    → (s ≡ t) ⊎ ((s ≡ muted) ⊎ (s ≡ open_))
    → debug_lower s ≢ "answered"
unfolding debug_lower
unanswered_text s t o (inl a) h = cc ((eq_iff "open" "answered").1 (rw (← h) (rw (a, o))))
unanswered_text s t o (inr (inl a)) h = cc ((eq_iff "muted" "answered").1 (rw (← h) (rw a)))
unanswered_text s t o (inr (inr a)) h = cc ((eq_iff "open" "answered").1 (rw (← h) (rw a)))

pub send_push_notifications-db :
    (n : Notification) (app : App) → (send_push_notifications n app).0.db ≡ app.db
unfolding send_push_notifications emit
send_push_notifications-db n app = ground arith

pub announced-db : (n : Notification) (app : App) → (announced n app).0.db ≡ app.db
unfolding announced emit
announced-db n app = elim (Bool-cases (leb_ℤ (pos 2) n.urgency)) [
  | inl e ↦ rw e (send_push_notifications-db n _)
  | inr e ↦ rw e refl
]

module _ (j : String) where
  stored_reply-Guards :
      (o : Option Db) (n : Notification) (app : App)
      → insert_notification n app.db ≡ o
      → debug_lower n.status ≢ "answered"
      → Guards j app.db
      → Guards j (stored_reply o n app).0.db
  unfolding stored_reply with_db
  stored_reply-Guards none n app step other g = g
  stored_reply-Guards (some db) n app step other g = elim (Bool-cases (is_muted n.status)) [
    | inl quiet ↦ rw quiet (inserted-Guards j n app.db step other g)
    | inr loud ↦
        rw loud
          (subst (Guards j) (sym (announced-db n _)) (inserted-Guards j n app.db step other g))
  ]

  decided-Guards :
      (o : Option String) (n : Notification) (now : DateTime) (app : App)
      → find_row n.id app.db ≡ none
      → debug_lower n.status ≢ "answered"
      → Guards j app.db
      → Guards j (decided o n now app).0.db
  unfolding decided auto_answered emit with_db
  decided-Guards (some answer) n now app fresh other g =
      answered-Guards n.id j answer (some answer) none now app.db (absent-plain n.id app.db fresh) g
  decided-Guards none n now app fresh other g = stored_reply-Guards _ n app refl other g

  ruled-Guards :
      (Q : Type 0) (o : Outcome Verdict) (n : Notification) (now : DateTime) (app : App)
      → Yields Q (Evaluated n) o
      → n.status ≡ open_
      → find_row n.id app.db ≡ none
      → Guards j app.db
      → Guards j (ruled o now app).0.db
  unfolding ruled
  ruled-Guards Q (done v) n now app (a, plain) opened fresh g =
      let same : v.notif.id ≡ n.id = ap (λ (m : Notification). m.id) a.frame in
      decided-Guards v.auto_answer v.notif now app (rw same fresh)
        (unanswered_text v.notif.status n.status opened a.status) g
  ruled-Guards Q failed n now app h opened fresh g = g
  ruled-Guards Q panicked n now app h opened fresh g = g

  module _ (chrono : Chrono) where
    drafted-Guards :
        (d : Option (Option DateTime)) (req : AskRequest) (id : String) (now : DateTime)
        (t : QuestionType) (routed : Option RouterResult) (limits : Option ℤ × Option Bool)
        (app : App)
        → find_row id app.db ≡ none
        → Guards j app.db
        → Guards j (drafted chrono d req id now t routed limits app).0.db
    unfolding drafted build
    drafted-Guards none req id now t routed limits app fresh g = g
    drafted-Guards (some d) req id now t routed (ttl, once) app fresh g =
        ruled-Guards (Panics chrono now (list_rules app.db)) _
          (build req id now t routed d (ttl, once)) now app
          (evaluate-Evaluated chrono now (list_rules app.db) _) refl fresh g

    limited-Guards :
        (l : Result (ℕ × String) (Option ℤ × Option Bool)) (req : AskRequest) (id : String)
        (now : DateTime) (t : QuestionType) (routed : Option RouterResult) (app : App)
        → find_row id app.db ≡ none
        → Guards j app.db
        → Guards j (limited chrono l req id now t routed app).0.db
    unfolding limited
    limited-Guards (err (status, text)) req id now t routed app fresh g = g
    limited-Guards (ok limits) req id now t routed app fresh g =
        drafted-Guards (ask_deadline chrono req.deadline now) req id now t routed limits app fresh g

    ask_known-Guards :
        (o : Option Notification) (router : Option Router) (req : AskRequest) (id : String)
        (now : DateTime) (app : App)
        → find_row id app.db ≡ none
        → Guards j app.db
        → Guards j (ask_known chrono o router req id now app).0.db
    unfolding ask_known ask_new with_db
    ask_known-Guards (some n) router req id now app fresh g = g
    ask_known-Guards none router req id now app fresh g =
        limited-Guards _ req id now _ _ _ (find_row-agent id req.agent_name app.db ∙ fresh)
          (λ r found. g r (sym (find_row-agent j req.agent_name app.db) ∙ found))

    pub ask-Guards :
        (router : Option Router) (req : AskRequest) (id : String) (now : DateTime) (app : App)
        → find_row id app.db ≡ none
        → Guards j app.db
        → Guards j (ask chrono router req id now app).0.db
    unfolding ask
    ask-Guards router req id now app = ask_known-Guards _ router req id now app
