-- ===== src/Server/App.antt =====
-- src/handlers.rs: the state that the handlers share, with what they send to the outside kept in
-- the order in which it is sent, and the shape of their replies.
pub mod Waking
use sjbis.Prelude.{ℕ, String, Bool, Option, none, some, List, [], ◌∷◌, ◌++◌}
use sjbis.Models.Data.{DateTime, Notification, AnswerEnvelope, SseEvent}
use sjbis.Store.Table.{get_row, delete_row}
use sjbis.Store.Db.{Db}

-- The time as the handler reads it, and a moment later as the statement on the tables does.
pub record Clock : Type 0 where
  pub handler : DateTime
  pub database : DateTime

-- An entry of the waiters map: a notification's id and the channel of the caller that waits.
pub record Waiter : Type 0 where
  pub id : String
  pub channel : ℕ

abbrev pub waiter_id : Waiter → String
waiter_id w = w.id

-- What a handler sends: an SSE broadcast, an envelope to a waiting caller, a web push that an ask
-- was created or closed, an APNs push, and the delivery of an answer to the ask's `reply_to`.
pub data Effect : Type 0 where
  broadcast : SseEvent → Effect
  wake : ℕ → AnswerEnvelope → Effect
  push_created : Notification → Effect
  push_closed : String → String → String → Effect
  send_push : Notification → Effect
  deliver : Notification → AnswerEnvelope → Effect

-- `apns`: is an APNs client configured?
pub record App : Type 0 where
  pub db : Db
  pub waiters : List Waiter
  pub apns : Bool
  pub out : List Effect

-- A reply: a body, or a status with its error text or code; a handler that panics sends none.
pub data Response (A : Type 0) : Type 0 where
  reply : A → Response A
  refuse : ℕ → String → Response A
  crash : Response A

unfoldable pub emit : Effect → App → App
emit e app = record app { out = app.out ++ (e ∷ []) }

wake_found : Option Waiter → String → AnswerEnvelope → App → App
unfolding emit
wake_found none id envelope app = app
wake_found (some w) id envelope app =
    emit (wake w.channel envelope) (record app { waiters = delete_row waiter_id id app.waiters })

-- `if let Some(tx) = waiters.remove(&id) { let _ = tx.send(envelope) }`
unfoldable pub wake_waiter : String → AnswerEnvelope → App → App
unfolding wake_found
wake_waiter id envelope app = wake_found (get_row waiter_id id app.waiters) id envelope app

unfoldable pub with_db : Db → App → App
with_db db app = record app { db = db }
