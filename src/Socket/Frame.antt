-- ===== src/Socket/Frame.antt =====
-- What CreateCommUDPSocket may change, and its first try where the system's calls succeed.
use tftp_server.Base.{
  ltb_ℤ, ◌^◌, ℕ, suc, ◌+◌, ◌%◌, List, Option, none, some, true, ◌==◌, if◌then◌else◌, pos, ◌≡◌,
  arith,
}
use tftp_server.Config.{Config}
use tftp_server.Session.{Env, Session}
use tftp_server.Socket.{advance_port, try_ports, create_comm_udp_socket, port_tried, u16_of_ℤ}

-- What CreateCommUDPSocket may change.
pub record Sockets : Type 0 where
  pub comm_socket : Option ℕ
  pub port_prefered : ℕ
  pub server_socket : Option ℕ
  pub next_port_to_use : ℕ
  pub closed : List ℕ
  pub socket_calls : ℕ
  pub connect_calls : ℕ

abbrev pub with_sockets : Sockets → Session → Session
with_sockets x s = record s {
  comm_socket = x.comm_socket;
  port_prefered = x.port_prefered;
  server_socket = x.server_socket;
  next_port_to_use = x.next_port_to_use;
  closed = x.closed;
  socket_calls = x.socket_calls;
  connect_calls = x.connect_calls;
}

-- socket(), bind() and connect() succeed.
pub record HasSockets (e : Env) : Type 0 where
  pub number : ℕ → ℕ
  pub sockets : (n : ℕ) → e.socket n ≡ some (number n)
  pub binds : (n port : ℕ) → e.bind n port ≡ true
  pub connects : (n : ℕ) → e.connect n ≡ true

abbrev connects_after : Option ℕ → ℕ → ℕ
connects_after none n = n
connects_after (some address) n = n + 1

module _ (cfg : Config) (e : Env) (ok : HasSockets e) where
  -- The port of the next session, where the range's end is `suc m`.
  abbrev next_port : ℕ → ℕ → ℕ
  next_port m port =
      let next = (port + 1) % suc m % 2 ^ 16 in
      if ltb_ℤ (pos next) cfg.comm_port_start then u16_of_ℤ cfg.comm_port_start else next

  abbrev pub first_try : ℕ → Session → Sockets
  first_try m s = record {
    comm_socket = some (ok.number s.socket_calls);
    port_prefered = s.port_prefered;
    server_socket = s.server_socket;
    next_port_to_use =
        (if s.port_prefered == 0 then next_port m s.next_port_to_use else s.next_port_to_use);
    closed = s.closed;
    socket_calls = s.socket_calls + 1;
    connect_calls = connects_after s.client s.connect_calls;
  }

  try_ports-first :
      (m n : ℕ) (s : Session)
      → cfg.comm_port_end ≡ pos (suc m)
      → try_ports cfg e (suc n) s ≡ some (with_sockets (first_try m s) s, true)
  unfolding try_ports advance_port
  try_ports-first m n s range = ground (
    arith,
    ok.sockets s.socket_calls,
    ok.binds s.socket_calls (port_tried s),
    ok.connects s.connect_calls,
  )

  -- A session without the server's own socket gets a socket of its own at the first try.
  pub create_comm_udp_socket-first :
      (m : ℕ) (s : Session)
      → cfg.comm_port_end ≡ pos (suc m)
      → s.server_socket ≡ none
      → create_comm_udp_socket cfg e s ≡ some (with_sockets (first_try m s) s, true)
  unfolding create_comm_udp_socket
  create_comm_udp_socket-first m s range own = ground (arith, try_ports-first m 99 s)
