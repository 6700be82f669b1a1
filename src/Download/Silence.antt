-- ===== src/Download/Silence.antt =====
-- A client that falls silent in a download.
use tftp_server.Base.{ℕ, suc, ◌+◌, true, pos, ◌≡◌}
use tftp_server.Config.{Config}
use tftp_server.Session.{Env, Session}
use tftp_server.Upload.{AllSent}

module _ (cfg : Config) (e : Env) (sends : AllSent e) (memory : (n : ℕ) → e.malloc n ≡ true) (r : ℕ)
    (max : cfg.retry_resend_packet_max ≡ pos (suc (suc r)))
    (no_limit : cfg.kill_connection_after_x_bytes_received ≡ pos 0) where
  abbrev timed_out : Session → Session
  timed_out s = record s {
    tick_calls = s.tick_calls + 1;
    window_retry_count = s.window_retry_count + 1;
  }
