-- ===== src/Server/App/Waking.antt =====
-- What waking a caller leaves.
use sjbis.Prelude.{String, ◌≡◌, refl, Option, none, some, eq_refl, ◌∙◌}
use sjbis.Models.Data.{AnswerEnvelope}
use sjbis.Store.Table.{get_row, get_row-delete_row}
use sjbis.Server.App.{App, Waiter, waiter_id, emit, wake_waiter, wake_found}

wake_found-db :
    (w : Option Waiter) (id : String) (e : AnswerEnvelope) (app : App)
    → (wake_found w id e app).db ≡ app.db
unfolding wake_found emit
wake_found-db none id e app = refl
wake_found-db (some w) id e app = refl

pub wake_waiter-db :
    (id : String) (e : AnswerEnvelope) (app : App) → (wake_waiter id e app).db ≡ app.db
unfolding wake_waiter
wake_waiter-db id e app = wake_found-db _ id e app

get_row-wake_found :
    (w : Option Waiter) (id : String) (e : AnswerEnvelope) (app : App)
    → get_row waiter_id id app.waiters ≡ w
    → get_row waiter_id id (wake_found w id e app).waiters ≡ none
unfolding wake_found emit
get_row-wake_found none id e app h = h
get_row-wake_found (some w) id e app h =
    get_row-delete_row waiter_id id id app.waiters ∙ rw (eq_refl id)

pub get_row-wake_waiter :
    (id : String) (e : AnswerEnvelope) (app : App)
    → get_row waiter_id id (wake_waiter id e app).waiters ≡ none
unfolding wake_waiter
get_row-wake_waiter id e app = get_row-wake_found _ id e app refl
