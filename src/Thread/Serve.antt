-- ===== src/Thread/Serve.antt =====
-- The loop of ThreadDirectComm, one event at a time.
use tftp_server.Base.{ℕ, ◌+◌, ◌<◌, ◌≤◌, length, take, take_all, arith, List, ◌∷◌, some, ◌≡◌}
use tftp_server.Config.{Config}
use tftp_server.Session.{Env, Session, header_size}
use tftp_server.Thread.{Event, waits, ends, on_event, serve, datagram, serve_packet, receive}

module _ (cfg : Config) (e : Env) (ev : Event) (evs : List Event) (s s1 : Session) where
  pub serve-waits :
      on_event cfg e ev s ≡ some (waits s1)
      → serve cfg e (ev ∷ evs) (waits s) ≡ serve cfg e evs (waits s1)
  unfolding serve
  serve-waits h = rw h

  pub serve-ends :
      on_event cfg e ev s ≡ some (ends s1) → serve cfg e (ev ∷ evs) (waits s) ≡ some (ends s1)
  unfolding serve
  serve-ends h = rw h

-- A datagram that fits the buffer is not cut.
pub on_event-datagram :
    (cfg : Config) (e : Env) (d : List ℕ) (s : Session)
    → 0 < length d
    → length d ≤ s.block_size + header_size
    → on_event cfg e (datagram d) s ≡ serve_packet cfg e (length d) (receive d s)
unfolding on_event
on_event-datagram cfg e d s h1 h2 =
    let whole : take (s.block_size + header_size) d ≡ d = take_all _ _ h2 in ground (arith, whole)
