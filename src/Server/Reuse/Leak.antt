-- ===== src/Server/Reuse/Leak.antt =====
-- Requests that are cut off before their file's name ends, in a listener that runs the sessions
-- itself.
use tftp_server.Base.{
  ℕ, suc, ◌+◌, ◌-◌, ◌<◌, ◌≤◌, List, [], ◌∷◌, ◌++◌, none, some, true, length, ◌≡◌, ◌⊎◌, refl, arith,
  ap, ◌∙◌, All, pos, ltb_ℤ, drop, set, take_all, length-append, length-drop, length-set, set-append,
  append-nil,
}
use tftp_server.Config.{Config}
use tftp_server.Text.Laws.{IsText, c_string-append}
use tftp_server.Session.{
  Env, Session, not_initialized, err_illegal_operation, header_size, packet_safety_pad, touch,
  close_session,
}
use tftp_server.Request.{cut, read_names, terminate, open_request, cmsg_rrq, cmsg_wrq}
use tftp_server.Dispatch.{dispatch, parse_packet}
use tftp_server.Thread.{
  ends, receive, cut_datagram, forward_packet, check_end, serve_packet, serve, thread_direct_comm,
}
use tftp_server.Server.{
  Server, start_server, remove_live, admits, is_duplicate_client, find_client, register, unregister,
}
use tftp_server.Server.Reuse.{
  Listener, Arrival, listens, start_listener, create_udp_socket, after_thread, handed_over,
  run_session, reuse_turn, reuse_run,
}

-- A request without the byte that ends its file's name, and a session that is new.
pub record IsUnterminated (a : Arrival) : Type 0 where
  pub op : ℕ
  pub name : List ℕ
  pub request : (op ≡ 1) ⊎ (op ≡ 2)
  pub shape : a.packet ≡ 0 ∷ op ∷ name
  pub is_text : IsText name
  pub fits : length name + 2 ≤ a.session.block_size + header_size
  pub idle : a.session.selected_operation ≡ not_initialized
  pub no_socket : a.session.comm_socket ≡ none
  pub none_closed : a.session.closed ≡ []
  pub buffer_size : length a.session.buffer ≡ a.session.block_size + header_size + packet_safety_pad

read_names-cut :
    (op : ℕ) (name rest : List ℕ)
    → IsText name
    → read_names (length (0 ∷ op ∷ name)) (0 ∷ op ∷ (name ++ 0 ∷ rest)) ≡ some cut
unfolding read_names
read_names-cut op name rest text = ground (arith, c_string-append name rest text)

-- The byte behind the packet becomes its terminator.
first_zero : (xs : List ℕ) → 0 < length xs → (ys : List ℕ) × (set xs 0 0 ≡ 0 ∷ ys)
first_zero [] h = absurd (omega arith)
first_zero (x ∷ xs) h = (xs, refl)

created :
    (e : Env) (port fd : ℕ) (l : Listener)
    → e.socket l.socket_calls ≡ some fd
    → (create_udp_socket e port l).0 ≡ record l {
      sockfd = some fd;
      opened = l.opened ++ fd ∷ [];
      socket_calls = l.socket_calls + 1;
    }
unfolding create_udp_socket
created e port fd l opens = rw (create_udp_socket, opens) refl

module _ (cfg : Config) (e : Env) (port : ℕ) (a : Arrival) (l : Listener)
    (u : IsUnterminated a) where
  abbrev packet : List ℕ
  packet = 0 ∷ u.op ∷ u.name

  uncut : cut_datagram a.packet a.session ≡ packet
  uncut =
      rw (u.shape) (take_all (a.session.block_size + header_size) packet (omega (arith, u.fits)))

  -- The session at its end.
  abbrev refused_session : Session
  refused_session = record (touch e (handed_over a l)) {
    buffer = packet ++ set (drop (length packet) a.session.buffer) 0 0;
    error = err_illegal_operation;
  }

  serve_packet-cut :
      serve_packet cfg e (length packet) (touch e (handed_over a l)) ≡ some (ends refused_session)
  unfolding serve_packet parse_packet dispatch cmsg_rrq cmsg_wrq open_request terminate
      forward_packet check_end receive
  serve_packet-cut =
      let left = drop (length packet) a.session.buffer in
      let (ys, zero_first) =
        first_zero left
          (omega (arith, u.fits, u.buffer_size, length-drop (length packet) a.session.buffer)) in
      let names : read_names (length packet) (packet ++ set left 0 0) ≡ some cut =
        rw zero_first (read_names-cut u.op u.name ys u.is_text) in
      ground (
        arith,
        u,
        uncut,
        names,
        length-append u.name left,
        length-drop (length packet) a.session.buffer,
        set-append (length packet) packet left 0 refl,
      )

  thread-cut :
      thread_direct_comm cfg e (length (cut_datagram a.packet a.session)) a.events (handed_over a l)
      ≡ some (ends refused_session)
  unfolding thread_direct_comm serve
  thread-cut = rw (ap length uncut, serve_packet-cut) refl

  -- The listener's socket stays open, and the listener goes on with another.
  abbrev next_listener : Server → ℕ → Listener
  next_listener v fd = record l {
    server = v;
    sockfd = some fd;
    opened = l.opened ++ fd ∷ [];
    socket_calls = l.socket_calls + 1;
  }

  after_thread-refused :
      (fd : ℕ) (l1 : Listener) (v : Server)
      → e.socket refused_session.socket_calls ≡ some fd
      → unregister a.sender.session l1.server ≡ some v
      → l1.released ≡ l.released
      → l1.opened ≡ l.opened
      → after_thread e port a.sender.session l1 (ends refused_session)
        ≡ some (listens (next_listener v fd))
  unfolding after_thread close_session receive
  after_thread-refused fd l1 v opens left same1 same2 =
      let l2 : Listener = record l1 {
        server = v;
        released = l1.released ++ (close_session refused_session).closed;
        socket_calls = refused_session.socket_calls;
      } in
      let none_closed : (close_session refused_session).closed ≡ [] = ground (arith, u) in
      let same : l1.released ++ (close_session refused_session).closed ≡ l.released =
        rw none_closed (append-nil l1.released ∙ same1) in
      rw left
        (ap (λ x. some (listens x)) (created e port fd l2 opens ∙ ground (arith, same, same2)))

  reuse_turn-cut :
      (fd : ℕ)
      → e.socket l.socket_calls ≡ some fd
      → l.server.transfer_counter ≡ 0
      → 0 < length l.server.active
      → ltb_ℤ (pos 0) cfg.parallel_transfers_max ≡ true
      → (v : Server) × (reuse_turn cfg e port a l ≡ some (listens (next_listener v fd)))
        × (v.transfer_counter ≡ 0)
        × (length v.active ≡ length l.server.active)
  unfolding reuse_turn run_session admits is_duplicate_client find_client register unregister
      after_thread receive
  reuse_turn-cut fd opens idle room allowed =
      let tc = l.server.transfer_counter in
      let v : Server = record l.server {
        live = remove_live a.sender.session (a.sender.session ∷ l.server.live);
        active = set (set l.server.active tc (some a.sender)) (tc + 1 - 1) none;
        transfer_counter = tc + 1 - 1;
      } in
      let left : unregister a.sender.session (record l.server {
        live = a.sender.session ∷ l.server.live;
        active = set l.server.active tc (some a.sender);
        transfer_counter = tc + 1;
      })
          ≡ some v =
        ground (arith, length-set l.server.active tc (some a.sender)) in
      (
        v,
        ground (
          arith,
          u,
          uncut,
          thread-cut,
          after_thread-refused fd
              (record l {
                server = record l.server {
                  live = a.sender.session ∷ l.server.live;
                  active = set l.server.active tc (some a.sender);
                  transfer_counter = tc + 1;
                };
              })
              v opens left refl refl,
          length-set l.server.active tc (some a.sender),
        ),
        omega (arith, idle),
        length-set (set l.server.active tc (some a.sender)) (tc + 1 - 1) none
            ∙ length-set l.server.active tc (some a.sender),
      )

module _ (cfg : Config) (e : Env) (port : ℕ) (number : ℕ → ℕ)
    (opens : (n : ℕ) → e.socket n ≡ some (number n))
    (allowed : ltb_ℤ (pos 0) cfg.parallel_transfers_max ≡ true) where
  run-cut :
      (as' : List Arrival) (l : Listener)
      → All IsUnterminated as'
      → l.server.transfer_counter ≡ 0
      → 0 < length l.server.active
      → (l' : Listener) × (reuse_run cfg e port as' l ≡ some (listens l'))
        × (l'.released ≡ l.released)
        × (length l'.opened ≡ length l.opened + length as')
  unfolding reuse_run
  run-cut [] l cut_off idle room = (l, refl, refl, omega arith)
  run-cut (a ∷ as') l cut_off idle room =
      let fd = number l.socket_calls in
      let (v, turn, idle1, same) =
        reuse_turn-cut cfg e port a l cut_off.0 fd (opens l.socket_calls) idle room allowed in
      let l1 = next_listener cfg e port a l cut_off.0 v fd in
      let (l', runs, kept, count) = run-cut as' l1 cut_off.1 idle1 (omega (arith, same)) in
      (l', rw turn runs, kept, omega (arith, count, length-append l.opened (fd ∷ [])))

  -- RunTFTPServer with ReuseServerPortForComm, where ParallelTransfersMax is 1 or more and socket()
  -- succeeds: after a number of requests that are cut off before their file's name ends, each in a
  -- new session, the listener listens again, has opened one socket for itself and one more for each
  -- request, and none of them has been closed.
  pub reuse_run-leaks :
      (as' : List Arrival)
      → All IsUnterminated as'
      → (l : Listener) × (reuse_run cfg e port as' (start_listener cfg e port) ≡ some (listens l))
        × (l.released ≡ [])
        × (length l.opened ≡ suc (length as'))
  unfolding start_listener start_server create_udp_socket
  reuse_run-leaks as' cut_off =
      let l = start_listener cfg e port in
      let first : l.opened ≡ number 0 ∷ [] = ground (arith, opens 0) in
      let (l', runs, kept, count) =
        run-cut as' l cut_off (ground (arith, opens 0)) (ground (arith, opens 0)) in
      (l', runs, kept ∙ ground (arith, opens 0), count ∙ rw first (omega arith))
