-- ===== src/Thread/Silence.antt =====
-- A client that no longer answers: the timeouts of recv() one after another.
use tftp_server.Base.{
  ℕ, zero, suc, ◌+◌, ◌<◌, ◌^◌, List, some, true, false, leb_ℤ, replicate, length-replicate, ℤ, pos,
  ◌≡◌, refl, arith,
}
use tftp_server.Config.{Config}
use tftp_server.Session.{client_to_server, Env, Session, err_no_error, touch, send_packet}
use tftp_server.Send.Ack.{ack_packet, smsg_ack_block, blocks_received}
use tftp_server.Send.Ack.Window.{reset_window_lem}
use tftp_server.Thread.{Event, silence, time_passed, milliseconds}
use tftp_server.Upload.{AllSent}

abbrev pub silences : ℕ → List Event
silences n = replicate n silence

-- The clock's call `n + 1` comes at least the session's timeout after the call before it.
abbrev pub IsLate : Env → ℤ → ℕ → Type 0
IsLate e timeout n = leb_ℤ (milliseconds timeout) (time_passed (e.tick (suc n)) (e.tick n)) ≡ true

-- An upload with its window free, and the stamp taken at the last reading of the clock.
pub record IsQuietUpload (e : Env) (s : Session) (w clock : ℕ) : Type 0 where
  pub direction : s.selected_operation ≡ client_to_server
  pub window : s.window_size ≡ pos w
  pub window_free : s.received ≡ replicate w 0
  pub block : s.first_block_in_window < 2 ^ 16
  pub no_error : s.error ≡ err_no_error
  pub not_done : s.transfer_done ≡ false
  pub socket : ℕ
  pub has_socket : s.comm_socket ≡ some socket
  pub clock_calls : s.tick_calls ≡ suc clock
  pub stamp : s.last_activity_stamp ≡ e.tick clock

module _ (cfg : Config) (e : Env) (sends : AllSent e) where
  -- The session after one more ACK that nobody answers.
  abbrev pub after_ack : Session → Session
  after_ack s = touch e (
      send_packet e (ack_packet s.first_block_in_window)
        (record s { tick_calls = s.tick_calls + 1; window_retry_count = s.window_retry_count + 1 }))

  pub resend-free :
      (s : Session) (w : ℕ)
      → s.window_size ≡ pos w
      → s.received ≡ replicate w 0
      → s.first_block_in_window < 2 ^ 16
      → smsg_ack_block e s ≡ some (touch e (send_packet e (ack_packet s.first_block_in_window) s))
  unfolding smsg_ack_block
  resend-free s w h1 h2 h3 = ground (
    arith,
    sends s.send_calls (ack_packet s.first_block_in_window),
    free w,
    reset_window_lem w (replicate w 0),
    length-replicate {A = ℕ} w 0,
  )
    where
      free : (n : ℕ) → blocks_received n (replicate n 0) ≡ some 0
      free zero = unfold blocks_received in refl
      free (suc n) = unfold blocks_received in refl
