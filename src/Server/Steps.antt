-- ===== src/Server/Steps.antt =====
-- src/handlers.rs: the requests that can arrive one after another, other than the posting of a
-- signed grant, and where a sequence of them leads.
use sjbis.Prelude.{ℕ, String, ◌≡◌, ◌≢◌, Option, none, ℤ, some}
use sjbis.Models.Enums.{approval}
use sjbis.Models.Data.{DateTime, AnswerRequest, AskRequest}
use sjbis.Models.Duration.{Chrono}
use sjbis.Store.Db.{Row}
use sjbis.Store.Notifications.{find_row}
use sjbis.Store.Guarded.{Guards}
use sjbis.Server.App.{App, Clock}
use sjbis.Server.Close.{answer, dismiss, snooze, cancel}
use sjbis.Server.Close.Guards.{answer-Guards, dismiss-Guards, snooze-Guards, cancel-Guards}
use sjbis.Server.Wait.{wait_timeout, register}
use sjbis.Server.Wait.Guards.{wait_timeout-Guards}
use sjbis.Server.Draft.{Router}
use sjbis.Server.Ask.{ask}
use sjbis.Server.Ask.Guards.{ask-Guards}

module _ (chrono : Chrono) where
  -- One request, at any time, with any body; the id that an ask draws is new.
  infix 40 ◌⟶◌ ◌⟶*◌
  pub data ◌⟶◌ : App → App → Type 0 where
    asked :
        {app : App} (router : Option Router) (req : AskRequest) (id : String) (now : DateTime)
        → find_row id app.db ≡ none
        → app ⟶ (ask chrono router req id now app).0
    answered :
        {app : App} (id : String) (req : AnswerRequest) (now : Clock)
        → app ⟶ (answer chrono id req now app).0
    dismissed : {app : App} (id : String) (now : Clock) → app ⟶ (dismiss chrono id now app).0
    snoozed :
        {app : App} (id : String) (minutes : ℤ) (now : Clock)
        → app ⟶ (snooze chrono id minutes now app).0
    cancelled : {app : App} (id : String) → app ⟶ (cancel id app).0
    waiting : {app : App} (id : String) (channel : ℕ) → app ⟶ register id channel app
    timed_out : {app : App} (id : String) (now : DateTime) → app ⟶ (wait_timeout id now app).0

  pub data ◌⟶*◌ : App → App → Type 0 where
    here : {app : App} → app ⟶* app
    then : {a b c : App} → a ⟶ b → b ⟶* c → a ⟶* c

  ⟶-Guards : (j : String) {a b : App} → a ⟶ b → Guards j a.db → Guards j b.db
  unfolding register
  ⟶-Guards j (asked router req id now fresh) = ask-Guards j chrono router req id now _ fresh
  ⟶-Guards j (answered id req now) = answer-Guards chrono j id req now _
  ⟶-Guards j (dismissed id now) = dismiss-Guards chrono j id now _
  ⟶-Guards j (snoozed id minutes now) = snooze-Guards chrono j id minutes now _
  ⟶-Guards j (cancelled id) = cancel-Guards j id _
  ⟶-Guards j (waiting id channel) = λ g. g
  ⟶-Guards j (timed_out id now) = wait_timeout-Guards j id now _

  ⟶*-Guards : (j : String) {a b : App} → a ⟶* b → Guards j a.db → Guards j b.db
  ⟶*-Guards j here g = g
  ⟶*-Guards j (then step rest) g = ⟶*-Guards j rest (⟶-Guards j step g)

  -- An approval ask that is not answered stays so through any sequence of asks (each under an id
  -- without a row), plain answers, dismissals, snoozes, cancellations, waits and timeouts: at its
  -- end the row of that id, if it is an approval ask, is not answered.
  pub approval_needs_grant :
      (j : String) {a b : App} (r : Row)
      → a ⟶* b
      → ((s : Row)
          → find_row j a.db ≡ some s
          → s.columns.question_type ≡ approval
          → s.status ≢ "answered")
      → find_row j b.db ≡ some r
      → r.columns.question_type ≡ approval
      → r.status ≢ "answered"
  approval_needs_grant j r steps guarded found = ⟶*-Guards j steps guarded r found
