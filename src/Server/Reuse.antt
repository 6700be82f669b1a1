-- ===== src/Server/Reuse.antt =====
-- CreateUDPSocket, and RunTFTPServer with ReuseServerPortForComm, in src/TFTP.cpp: the listener runs
-- each session itself, and hands its own socket over to it.
pub mod Leak
use tftp_server.Base.{
  ℕ, ◌+◌, ◌<◌, List, [], ◌∷◌, ◌++◌, Option, none, some, Bool, true, false, if◌then◌else◌, ◌>>=◌,
  length,
}
use tftp_server.Config.{Config}
use tftp_server.Session.{Env, Session, close_session}
use tftp_server.Receive.{read_u16}
use tftp_server.Thread.{Event, Turn, waits, ends, cut_datagram, receive, thread_direct_comm}
use tftp_server.Server.{Entry, Server, start_server, admits, register, unregister}

-- `sockfd`, where `none` is INVALID_SOCKET_2; the sockets that CreateUDPSocket has opened, and those
-- that sessions have closed.
pub record Listener : Type 0 where
  pub server : Server
  pub sockfd : Option ℕ
  pub opened : List ℕ
  pub released : List ℕ
  pub socket_calls : ℕ

-- The flag is whether 0 is returned. The socket options' results are only logged, and a socket that
-- cannot be bound is kept.
unfoldable pub create_udp_socket : Env → ℕ → Listener → Listener × Bool
create_udp_socket e port l = elim (e.socket l.socket_calls) [
  | none ↦ (record l { sockfd = none; socket_calls = l.socket_calls + 1 }, false)
  | some fd ↦ (
    record l { sockfd = some fd; opened = l.opened ++ fd ∷ []; socket_calls = l.socket_calls + 1 },
    e.bind l.socket_calls port,
  )
]

-- RunTFTPServer up to its loop.
unfoldable pub start_listener : Config → Env → ℕ → Listener
unfolding create_udp_socket
start_listener cfg e port =
    (create_udp_socket e port (record {
      server = start_server cfg;
      sockfd = none;
      opened = [];
      released = [];
      socket_calls = 0;
    })).0

-- The listener waits for a packet, or is inside a session.
pub data Progress : Type 0 where
  listens : Listener → Progress
  serves : Session → Progress

-- The end of ThreadDirectComm, and the new socket.
unfoldable pub after_thread : Env → ℕ → ℕ → Listener → Turn → Option Progress
unfolding create_udp_socket
after_thread e port id l (waits s) = some (serves s)
after_thread e port id l (ends s) = do
  v ← unregister id l.server
  some (
      listens
        (create_udp_socket e port (record l {
          server = v;
          released = l.released ++ (close_session s).closed;
          socket_calls = s.socket_calls;
        })).0)

-- A packet and its sender, the session that recvfrom stores it in, and what recv() gives the session
-- later.
pub record Arrival : Type 0 where
  pub sender : Entry
  pub packet : List ℕ
  pub session : Session
  pub events : List Event

-- The session with the packet, the client's address and the listener's socket.
abbrev pub handed_over : Arrival → Listener → Session
handed_over a l = record (receive (cut_datagram a.packet a.session) a.session) {
  client = some a.sender.address;
  server_socket = l.sockfd;
  socket_calls = l.socket_calls;
}

-- ThreadDirectComm in the listener's thread.
unfoldable pub run_session : Config → Env → ℕ → Arrival → Listener → Option Progress
unfolding after_thread
run_session cfg e port a l = do
  v ← register a.sender (record l.server { live = a.sender.session ∷ l.server.live })
  t ← thread_direct_comm cfg e (length (cut_datagram a.packet a.session)) a.events (handed_over a l)
  after_thread e port a.sender.session (record l { server = v }) t

-- A round of the loop of RunTFTPServer.
unfoldable pub reuse_turn : Config → Env → ℕ → Arrival → Listener → Option Progress
unfolding run_session
reuse_turn cfg e port a l = do
  op ← read_u16 (handed_over a l).buffer 0
  admitted ← admits cfg (length (cut_datagram a.packet a.session)) op a.sender.address l.server
  if admitted then run_session cfg e port a l else some (listens l)

-- The loop, until it is inside a session that does not end.
unfoldable pub reuse_run : Config → Env → ℕ → List Arrival → Listener → Option Progress
unfolding reuse_turn
reuse_run cfg e port [] l = some (listens l)
reuse_run cfg e port (a ∷ as') l = reuse_turn cfg e port a l >>= λ p. elim p [
  | listens l1 ↦ reuse_run cfg e port as' l1
  | serves s ↦ some (serves s)
]
