-- ===== src/Server/Wait/Guards.antt =====
-- The two steps of `wait_for_answer` on the row of one ask, and the wait's length.
use sjbis.Prelude.{
  ℕ, String, ◌≡◌, refl, Option, none, some, pos, ◌≤ℤ◌, Bool-cases, inl, inr, clamp_ℤ, arith,
}
use sjbis.Models.Enums.{is_open}
use sjbis.Models.Data.{DateTime, Notification, AnswerEnvelope}
use sjbis.Models.Duration.{Chrono}
use sjbis.Grants.Records.{Codec}
use sjbis.Store.Notifications.{get_notification}
use sjbis.Store.Guarded.{Guards, timed_out-Guards}
use sjbis.Server.App.{App, emit, with_db}
use sjbis.Server.Wait.{
  wait_begin, begin_with, register, wait_timeout, mark_timed_out, wait_secs, seconds_left,
  deadline_of,
}

module _ {Key Sig : Type 0} (codec : Codec Key Sig) (chrono : Chrono) where
  begin_with-db :
      (o : Option AnswerEnvelope) (id : String) (channel : ℕ) (now : DateTime) (app : App)
      → (begin_with codec chrono o id channel now app).0.db ≡ app.db
  unfolding begin_with register
  begin_with-db none id channel now app = refl
  begin_with-db (some e) id channel now app = refl

  pub wait_begin-db :
      (id : String) (channel : ℕ) (now : DateTime) (app : App)
      → (wait_begin codec chrono id channel now app).0.db ≡ app.db
  unfolding wait_begin
  wait_begin-db id channel now app = begin_with-db _ id channel now app

  seconds_left-bounds :
      (o : Option DateTime) (now : DateTime)
      → (pos 0 ≤ℤ seconds_left codec chrono o now) × (seconds_left codec chrono o now ≤ℤ pos 600)
  unfolding seconds_left clamp_ℤ
  seconds_left-bounds none now = (omega arith, omega arith)
  seconds_left-bounds (some d) now = ground arith

  -- A caller waits between 0 and 600 seconds, whatever the ask's deadline is, and 600 where the id
  -- is unknown.
  pub wait_secs-bounds :
      (id : String) (now : DateTime) (app : App)
      → (pos 0 ≤ℤ wait_secs codec chrono id now app)
        × (wait_secs codec chrono id now app ≤ℤ pos 600)
        × (get_notification id app.db ≡ none → wait_secs codec chrono id now app ≡ pos 600)
  unfolding wait_secs
  wait_secs-bounds id now app =
      let (low, high) =
        seconds_left-bounds (deadline_of codec chrono (get_notification id app.db)) now in
      (low, high, λ h. rw h (unfold seconds_left deadline_of in refl))

mark_timed_out-Guards :
    (j : String) (o : Option Notification) (id : String) (app : App)
    → Guards j app.db
    → Guards j (mark_timed_out o id app).db
unfolding mark_timed_out with_db
mark_timed_out-Guards j none id app g = g
mark_timed_out-Guards j (some n) id app g = elim (Bool-cases (is_open n.status)) [
  | inl open_now ↦ rw open_now (timed_out-Guards id j app.db g)
  | inr closed ↦ rw closed g
]

pub wait_timeout-Guards :
    (j id : String) (now : DateTime) (app : App)
    → Guards j app.db
    → Guards j (wait_timeout id now app).0.db
unfolding wait_timeout emit
wait_timeout-Guards j id now app g = mark_timed_out-Guards j (get_notification id app.db) id _ g
