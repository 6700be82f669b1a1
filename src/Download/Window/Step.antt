-- ===== src/Download/Window/Step.antt =====
-- One ACK in a download with any number of blocks to the window.
use tftp_server.Base.{
  ℕ, suc, ◌+◌, ◌*◌, ◌<◌, ◌≤◌, ◌^◌, List, [], ◌∷◌, ◌++◌, some, true, false, pos, length, take, ◌≡◌,
  arith, length-drop, of_be16-be16, ◌∙◌,
}
use tftp_server.Config.{Config}
use tftp_server.Session.{
  server_to_client, Env, Session, File, touch, header_size, packet_safety_pad, err_no_error,
}
use tftp_server.Send.Ack.{ack_packet}
use tftp_server.Send.Data.{smsg_data, seek_block, send_window}
use tftp_server.Receive.{take_ack, cmsg_ack, move_window}
use tftp_server.Dispatch.{dispatch, parse_packet}
use tftp_server.Thread.{
  datagram, receive, forward_packet, check_end, serve_packet, on_event, waits, ends,
}
use tftp_server.Thread.Serve.{on_event-datagram}
use tftp_server.Download.Window.{IsSent}

-- The blocks from `k + 1` on have been sent, as many as a window of `w` blocks holds, and the
-- session waits for the ACK of one of them.
pub record IsWindowed (s : Session) (w k : ℕ) (content : List ℕ) : Type 0 where
  pub direction : s.selected_operation ≡ server_to_client
  pub window : s.window_size ≡ pos w
  pub next_block : s.first_block_in_window ≡ suc k
  pub position : ℕ
  pub opened : s.file ≡ some (record { bytes = content; position = position })
  pub no_error : s.error ≡ err_no_error
  pub not_done : s.transfer_done ≡ false
  pub buffer_size : length s.buffer ≡ s.block_size + header_size + packet_safety_pad
  pub socket : ℕ
  pub has_socket : s.comm_socket ≡ some socket

-- The window has moved behind block `nr`.
abbrev pub acknowledged : ℕ → Session → Session
acknowledged nr s = record (receive (ack_packet nr) s) { first_block_in_window = nr + 1 }

-- The file's position has been set.
abbrev pub opened_at : File → ℕ → Session → Session
opened_at f nr s = record (acknowledged nr s) { file = some f }

-- The packet has been passed on to AWS.
abbrev pub passed_on : Session → Session
passed_on s = record s { forwarded = s.forwarded ++ take 4 s.buffer ∷ [] }

-- SMSG_DATA has gone through its loop and come to its end.
abbrev pub refreshed : Env → Session → Session
refreshed e s = touch e (record s { window_retry_count = 0 })

module _ (cfg : Config) (e : Env) (memory : (n : ℕ) → e.malloc n ≡ true) where
  pub smsg_data-window :
      (s s' : Session) (w k : ℕ) (f : File)
      → s.window_size ≡ pos w
      → s.first_block_in_window ≡ suc k
      → s.file ≡ some f
      → k * s.block_size < 2 ^ 31
      → send_window cfg e w 0
          (record f { position = k * s.block_size })
          (record s { file = some (record f { position = k * s.block_size }) })
        ≡ (s', true)
      → smsg_data cfg e s ≡ some (refreshed e s')
  unfolding smsg_data seek_block
  smsg_data-window s s' w k f window first opened fits sent =
      ground (arith, window, first, opened, memory (s.block_size + 4 + 2), sent)

module _ (cfg : Config) (e : Env) (s : Session) (w k : ℕ) (content : List ℕ)
    (down : IsWindowed s w k content) (nr : ℕ) (low : suc k ≤ nr) (high : nr < suc k + w)
    (room : nr < 2 ^ 16) where
  arrived_room : length (receive (ack_packet nr) s).buffer ≡ s.block_size + 6
  unfolding receive
  arrived_room = omega (arith, down.buffer_size, length-drop (length (ack_packet nr)) s.buffer)

  -- The end of the file has been read: the session ends.
  pub on_event-end :
      s.read_done ≡ true
      → on_event cfg e (datagram (ack_packet nr)) s
        ≡ some (ends (passed_on (record (acknowledged nr s) { transfer_done = true })))
  unfolding serve_packet parse_packet dispatch cmsg_ack take_ack move_window forward_packet
      check_end receive
  on_event-end done =
      on_event-datagram cfg e (ack_packet nr) s (omega arith) (omega (arith, down.buffer_size))
      ∙ ground (arith, down, of_be16-be16 nr, arrived_room)

  -- The next window is sent.
  pub on_event-window :
      (f : File) (s' : Session) (packets : List (List ℕ)) (total : ℕ)
      → s.read_done ≡ false
      → smsg_data cfg e (acknowledged nr s) ≡ some (refreshed e s')
      → IsSent (opened_at f nr s) s' content packets total
      → on_event cfg e (datagram (ack_packet nr)) s ≡ some (waits (passed_on (refreshed e s')))
  unfolding serve_packet parse_packet dispatch cmsg_ack take_ack move_window forward_packet
      check_end receive
  on_event-window f s' packets total more runs sent =
      on_event-datagram cfg e (ack_packet nr) s (omega arith) (omega (arith, down.buffer_size))
      ∙ ground (
        arith,
        down,
        of_be16-be16 nr,
        arrived_room,
        runs,
        sent.same_transfer,
        sent.same_error,
        sent.same_done,
      )

  pub IsWindowed-next :
      (f : File) (s' : Session) (packets : List (List ℕ)) (total : ℕ)
      → IsSent (opened_at f nr s) s' content packets total
      → IsWindowed (passed_on (refreshed e s')) w nr content
  unfolding receive
  IsWindowed-next f s' packets total sent = record {
    direction = sent.same_transfer.same_direction ∙ down.direction;
    window = sent.same_transfer.same_window_size ∙ down.window;
    next_block = omega (arith, sent.same_first);
    position = sent.position;
    opened = sent.opened;
    no_error = sent.same_error ∙ down.no_error;
    not_done = sent.same_done ∙ down.not_done;
    buffer_size =
        omega
          (arith, sent.same_transfer.same_room, sent.same_transfer.same_block_size, arrived_room);
    socket = down.socket;
    has_socket = sent.same_transfer.same_socket ∙ down.has_socket;
  }
