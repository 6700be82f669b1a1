-- ===== src/Socket.antt =====
-- CreateCommUDPSocket of src/TFTP.cpp: the socket on which the server talks to one client.
pub mod Frame
pub mod Range
use tftp_server.Base.{
  ℕ, zero, suc, ◌+◌, ◌%◌, List, [], ◌∷◌, ◌++◌, Option, none, some, Bool, true, false, not, ltb,
  ◌==◌, if◌then◌else◌, ◌>>=◌, u16, ℤ, pos, pos_part, neg_part, ltb_ℤ, ◌-◌, ◌^◌,
}
use tftp_server.Config.{Config}
use tftp_server.Session.{Env, Session}

-- The conversion of an `int` to an `unsigned short`.
abbrev pub u16_of_ℤ : ℤ → ℕ
u16_of_ℤ i = (pos_part i + (2 ^ 16 - neg_part i % 2 ^ 16)) % 2 ^ 16

-- NextPortToUse after a try: the next port, kept in the configured range. The remainder by a
-- negative number is that by its absolute value, and one by zero is undefined.
unfoldable pub advance_port : Config → ℕ → Option ℕ
advance_port cfg port =
    let end = pos_part cfg.comm_port_end + neg_part cfg.comm_port_end in
    let next = u16 ((port + 1) % end) in
    if end == 0
    then none
    else if ltb_ℤ (pos next) cfg.comm_port_start
    then some (u16_of_ℤ cfg.comm_port_start)
    else some next

-- bind(), and connect() unless the client is still unknown, to the socket `fd`.
abbrev pub port_tried : Session → ℕ
port_tried s = if s.port_prefered == 0 then s.next_port_to_use else s.port_prefered

unfoldable pub try_port : Env → ℕ → Session → Session × Bool
try_port e fd s =
    let s1 = record s { comm_socket = some fd; socket_calls = s.socket_calls + 1 } in
    let failed = record s1 { closed = s.closed ++ fd ∷ [] } in
    if e.bind s.socket_calls (port_tried s)
    then elim s.client [
      | none ↦ (s1, true)
      | some address ↦
          if e.connect s.connect_calls
          then (record s1 { connect_calls = s.connect_calls + 1 }, true)
          else (record failed { connect_calls = s.connect_calls + 1 }, false)
    ]
    else (failed, false)

-- The choice of the port of the next try.
unfoldable pub next_try : Config → Bool → Session → Option Session
unfolding advance_port
next_try cfg ok s =
    if s.port_prefered == 0
    then (do
      port ← advance_port cfg s.next_port_to_use
      some (record s { next_port_to_use = port }))
    else (if ok then some s else some (record s { port_prefered = 0 }))

-- The loop, with the number of tries left. The flag is `err == 0`.
unfoldable pub try_ports : Config → Env → ℕ → Session → Option (Session × Bool)
unfolding try_port next_try
try_ports cfg e zero s = some (s, false)
try_ports cfg e (suc n) s = elim (e.socket s.socket_calls) [
  | none ↦ some (record s { comm_socket = none; socket_calls = s.socket_calls + 1 }, false)
  | some fd ↦ next_try cfg (try_port e fd s).1 (try_port e fd s).0 >>= λ s1.
      elim (try_port e fd s).1 [ true ↦ some (s1, true) | false ↦ try_ports cfg e n s1 ]
]

-- MAX_RETRY_CREATE_SOCKET.
abbrev pub max_retry_create_socket : ℕ
max_retry_create_socket = 100

-- The server's own socket is taken over where the session holds one.
unfoldable pub create_comm_udp_socket : Config → Env → Session → Option (Session × Bool)
create_comm_udp_socket cfg e s = elim s.server_socket [
  | none ↦ try_ports cfg e max_retry_create_socket s
  | some fd ↦
      let s1 = record s {
        comm_socket = some fd;
        server_socket = none;
        connect_calls = s.connect_calls + 1;
      } in
      if e.connect s.connect_calls
      then some (s1, true)
      else some (record s1 { closed = s.closed ++ fd ∷ [] }, false)
]
