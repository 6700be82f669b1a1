-- ===== src/Request/New.antt =====
-- A session that has received nothing yet, and what a plain request makes of it before the file is
-- looked for.
use tftp_server.Base.{
  ℕ, suc, ◌+◌, ◌≤◌, List, ◌++◌, Option, none, some, false, set, set-append, pos, length, drop, ◌≡◌,
  refl, arith, length-append, length-drop,
}
use tftp_server.Config.{Config}
use tftp_server.Text.Laws.{IsText}
use tftp_server.Session.{
  not_initialized, Env, Session, Status, header_size, packet_safety_pad, err_no_error,
  data_block_size, new_session, touch,
}
use tftp_server.Socket.Frame.{HasSockets, first_try, with_sockets, create_comm_udp_socket-first}
use tftp_server.Thread.{receive}
use tftp_server.Request.{terminate, open_request}
use tftp_server.Request.Plain.{request_packet, length-request_packet, read_names-request}

pub record IsNew (s : Session) : Type 0 where
  pub idle : s.selected_operation ≡ not_initialized
  pub no_file : s.file ≡ none
  pub one_block : s.window_size ≡ pos 1
  pub default_size : s.block_size ≡ data_block_size
  pub nothing_handled : s.bytes_handled ≡ 0
  pub no_error : s.error ≡ err_no_error
  pub nothing_read : s.read_done ≡ false
  pub not_done : s.transfer_done ≡ false
  pub own_socket : s.server_socket ≡ none
  pub buffer_size : length s.buffer ≡ data_block_size + header_size + packet_safety_pad

-- The constructor makes such a session, and recvfrom fills in the client's address.
pub new_session-IsNew :
    (cfg : Config) (e : Env) (port address : ℕ)
    → IsNew (record (new_session cfg e port) { client = some address })
unfolding new_session
new_session-IsNew cfg e port address = record {
  idle = refl;
  no_file = refl;
  one_block = refl;
  default_size = refl;
  nothing_handled = refl;
  no_error = refl;
  nothing_read = refl;
  not_done = refl;
  own_socket = refl;
  buffer_size = refl;
}

-- The buffer once the request is terminated.
abbrev pub request_buffer : List ℕ → Session → List ℕ
request_buffer packet s = packet ++ set (drop (length packet) s.buffer) 0 0

abbrev pub opened_session : (cfg : Config) (e : Env) → HasSockets e → ℕ → List ℕ → Session → Session
opened_session cfg e ok m packet s =
    let s1 = record (touch e (receive packet s)) { buffer = request_buffer packet s } in
    with_sockets (first_try cfg e ok m s1) s1

module _ (cfg : Config) (e : Env) (ok : HasSockets e) (m : ℕ)
    (range : cfg.comm_port_end ≡ pos (suc m)) (s : Session) (new : IsNew s) (op : ℕ)
    (file_name mode : List ℕ) (h1 : IsText file_name) (h2 : IsText mode)
    (fits : length file_name + length mode ≤ data_block_size) where
  abbrev packet : List ℕ
  packet = request_packet op file_name mode

  pub open_request-plain :
      (go : List ℕ → ℕ → Session → Option (Session × Status))
      → open_request cfg e (length packet) go (touch e (receive packet s))
        ≡ go file_name (length packet) (opened_session cfg e ok m packet s)
  unfolding open_request terminate receive
  open_request-plain go = ground (
    arith,
    length-request_packet op file_name mode,
    length-append packet (drop (length packet) s.buffer),
    length-drop (length packet) s.buffer,
    new.buffer_size,
    new.own_socket,
    set-append (length packet) packet (drop (length packet) s.buffer) 0 refl,
    read_names-request op file_name mode (set (drop (length packet) s.buffer) 0 0) h1 h2
        (length packet) refl,
    create_comm_udp_socket-first cfg e ok m
        (record (touch e (receive packet s)) { buffer = request_buffer packet s }) range
        new.own_socket,
  )
