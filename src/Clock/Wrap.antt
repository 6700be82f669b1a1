-- ===== src/Clock/Wrap.antt =====
-- A client that no longer answers, after the clock has started again from 0.
use tftp_server.Base.{
  ℕ, zero, suc, ◌+◌, ◌<◌, ◌^◌, some, false, leb_ℤ, pos, ◌≡◌, arith, ap, subst, ◌∙◌,
}
use tftp_server.Config.{Config}
use tftp_server.Session.{Env, Session, err_no_error}
use tftp_server.Thread.{
  silence, waits, on_event, on_silence, serve, check_end, time_passed, milliseconds,
}
use tftp_server.Thread.Serve.{serve-waits}
use tftp_server.Thread.Silence.{silences}

-- A session that has neither ended nor failed, and has its socket.
pub record IsOpen (s : Session) : Type 0 where
  pub no_error : s.error ≡ err_no_error
  pub not_done : s.transfer_done ≡ false
  pub socket : ℕ
  pub has_socket : s.comm_socket ≡ some socket

-- A reading below the stamp: a negative time has passed, which is below every timeout.
not_late :
    (now stamp seconds : ℕ)
    → now < stamp
    → stamp < 2 ^ 63
    → leb_ℤ (milliseconds (pos seconds)) (time_passed now stamp) ≡ false
not_late now stamp seconds h small = ground arith

module _ (cfg : Config) (e : Env) where
  abbrev pub later : ℕ → Session → Session
  later n s = record s { tick_calls = s.tick_calls + n }

  step_back :
      (s : Session) (seconds : ℕ)
      → IsOpen s
      → s.packet_timeout ≡ pos seconds
      → s.last_activity_stamp < 2 ^ 63
      → e.tick s.tick_calls < s.last_activity_stamp
      → on_event cfg e silence s ≡ some (waits (later 1 s))
  unfolding on_event on_silence check_end
  step_back s seconds is_open timeout small h =
      ground (arith, is_open, timeout, not_late (e.tick s.tick_calls) s.last_activity_stamp seconds)

  -- A session whose clock gives readings below the session's stamp, as it does once it has started
  -- again from 0: however many timeouts of recv() follow one another, the session sends nothing,
  -- counts no retry and does not end, whatever RetryResendPacketMax is.
  pub serve-wrapped :
      (n seconds : ℕ) (s : Session)
      → IsOpen s
      → s.packet_timeout ≡ pos seconds
      → s.last_activity_stamp < 2 ^ 63
      → ((j : ℕ) → j < n → e.tick (s.tick_calls + j) < s.last_activity_stamp)
      → serve cfg e (silences n) (waits s) ≡ some (waits (later n s))
  serve-wrapped zero seconds s is_open timeout small h =
      unfold serve in ap (λ k. some (waits (record s { tick_calls = k }))) (omega arith)
  serve-wrapped (suc n) seconds s is_open timeout small h =
      let step =
        step_back s seconds is_open timeout small
          (subst (λ k. e.tick k < s.last_activity_stamp) (omega arith) (h 0 (omega arith))) in
      serve-waits cfg e silence (silences n) s (later 1 s) step
      ∙ serve-wrapped n seconds (later 1 s) (ground (arith, is_open)) timeout small (λ j less.
        subst (λ k. e.tick k < s.last_activity_stamp) (omega arith) (h (suc j) (omega arith)))
      ∙ ap (λ k. some (waits (record s { tick_calls = k }))) (omega arith)
