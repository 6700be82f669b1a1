-- ===== src/Download/Block.antt =====
-- One block sent, and one ACK that arrives in its turn.
use tftp_server.Base.{
  ℕ, suc, ◌+◌, ◌*◌, ◌<◌, ◌≤◌, ◌^◌, List, [], ◌∷◌, ◌++◌, some, true, false, ltb, if◌then◌else◌, pos,
  length, take, drop, ◌≡◌, refl, arith, length-drop, length-take, of_be16-be16, ◌∙◌,
}
use tftp_server.Config.{Config}
use tftp_server.Session.{Env, Session, touch, send_packet}
use tftp_server.Send.Ack.{ack_packet}
use tftp_server.Send.Data.{
  data_packet, over_limit, smsg_data, seek_block, send_window, round_session, after_block,
}
use tftp_server.Receive.{take_ack, cmsg_ack, move_window}
use tftp_server.Dispatch.{dispatch, parse_packet}
use tftp_server.Thread.{
  datagram, receive, forward_packet, check_end, serve_packet, on_event, waits, ends,
}
use tftp_server.Thread.Serve.{on_event-datagram}
use tftp_server.Upload.{AllSent}
use tftp_server.Download.{IsDownloading}

-- Block `j + 1` of the file, for a block size of `size`.
abbrev pub block_at : ℕ → ℕ → List ℕ → List ℕ
block_at j size content = take size (drop (j * size) content)

-- What SMSG_DATA leaves behind, for a window of one block.
abbrev pub after_send : Env → ℕ → List ℕ → Session → Session
after_send e j content s =
    let block = block_at j s.block_size content in
    touch e (record (send_packet e (data_packet (suc j) block) s) {
      file = some (record { bytes = content; position = j * s.block_size + length block });
      read_done = (if ltb (length block) s.block_size then true else s.read_done);
      bytes_handled = s.bytes_handled + length block;
      window_retry_count = 0;
    })

module _ (cfg : Config) (e : Env) (s : Session) (content : List ℕ) (j p : ℕ)
    (one : s.window_size ≡ pos 1) (first : s.first_block_in_window ≡ suc j)
    (opened : s.file ≡ some (record { bytes = content; position = p }))
    (no_overflow : j * s.block_size < 2 ^ 31) (small : s.bytes_handled + s.block_size < 2 ^ 64)
    (limit : over_limit cfg (s.bytes_handled + length (block_at j s.block_size content)) ≡ false)
    (memory : (n : ℕ) → e.malloc n ≡ true) (sends : AllSent e) where
  block_at-le : length (block_at j s.block_size content) ≤ s.block_size
  block_at-le = omega (arith, length-take s.block_size (drop (j * s.block_size) content))

  pub smsg_data-one : smsg_data cfg e s ≡ some (after_send e j content s)
  unfolding smsg_data seek_block send_window round_session after_block
  smsg_data-one = ground (
    arith,
    block_at-le,
    memory (s.block_size + 4 + 2),
    sends s.send_calls (data_packet (suc j) (block_at j s.block_size content)),
  )

-- The window has moved behind block `k + 1`.
abbrev pub acked : ℕ → Session → Session
acked k s = record (receive (ack_packet (suc k)) s) { first_block_in_window = suc (suc k) }

abbrev pub last_session : ℕ → Session → Session
last_session k s = record (acked k s) {
  transfer_done = true;
  forwarded = s.forwarded ++ ack_packet (suc k) ∷ [];
}

abbrev pub next_session : Env → ℕ → List ℕ → Session → Session
next_session e k content s = record (after_send e (suc k) content (acked k s)) {
  forwarded = s.forwarded ++ ack_packet (suc k) ∷ [];
}

module _ (cfg : Config) (e : Env) (s : Session) (content : List ℕ) (k : ℕ)
    (down : IsDownloading s k content) (room : suc k < 2 ^ 16) where
  size_of_buffer : length s.buffer ≡ s.block_size + 6
  size_of_buffer = omega (arith, down.buffer_size)

  -- The ACK of the last block ends the session.
  serve_packet-last :
      s.read_done ≡ true
      → serve_packet cfg e 4 (receive (ack_packet (suc k)) s) ≡ some (ends (last_session k s))
  unfolding serve_packet parse_packet dispatch cmsg_ack take_ack move_window forward_packet
      check_end receive
  serve_packet-last done = ground (
    arith,
    of_be16-be16 (suc k),
    size_of_buffer,
    length-drop (length (ack_packet (suc k))) s.buffer,
  )

  -- The ACK of an earlier block sends the next one.
  serve_packet-next :
      s.read_done ≡ false
      → suc k * s.block_size < 2 ^ 31
      → s.bytes_handled + s.block_size < 2 ^ 64
      → over_limit cfg (s.bytes_handled + length (block_at (suc k) s.block_size content)) ≡ false
      → ((n : ℕ) → e.malloc n ≡ true)
      → AllSent e
      → serve_packet cfg e 4 (receive (ack_packet (suc k)) s)
        ≡ some (waits (next_session e k content s))
  unfolding serve_packet parse_packet dispatch cmsg_ack take_ack move_window forward_packet
      check_end receive
  serve_packet-next more fits small limit memory sends =
      let sent =
        smsg_data-one cfg e (acked k s) content (suc k) down.position down.one_block refl
          down.opened fits small limit memory sends in
      ground (
        arith,
        sent,
        of_be16-be16 (suc k),
        size_of_buffer,
        length-drop (length (ack_packet (suc k))) s.buffer,
      )

  pub on_event-last :
      s.read_done ≡ true
      → on_event cfg e (datagram (ack_packet (suc k))) s ≡ some (ends (last_session k s))
  on_event-last done =
      on_event-datagram cfg e (ack_packet (suc k)) s (omega arith) (omega arith)
      ∙ serve_packet-last done

  pub on_event-next :
      s.read_done ≡ false
      → suc k * s.block_size < 2 ^ 31
      → s.bytes_handled + s.block_size < 2 ^ 64
      → over_limit cfg (s.bytes_handled + length (block_at (suc k) s.block_size content)) ≡ false
      → ((n : ℕ) → e.malloc n ≡ true)
      → AllSent e
      → on_event cfg e (datagram (ack_packet (suc k))) s ≡ some (waits (next_session e k content s))
  on_event-next more fits small limit memory sends =
      on_event-datagram cfg e (ack_packet (suc k)) s (omega arith) (omega arith)
      ∙ serve_packet-next more fits small limit memory sends

  block_at_short :
      s.read_done ≡ false
      → (if ltb (length (block_at (suc k) s.block_size content)) s.block_size
          then true
          else s.read_done)
        ≡ ltb (length content) (suc (suc k) * s.block_size)
  block_at_short more = ground (
    arith,
    down.block_fits,
    length-take s.block_size (drop (suc k * s.block_size) content),
    length-drop (suc k * s.block_size) content,
  )

  pub next_session-IsDownloading :
      s.read_done ≡ false → IsDownloading (next_session e k content s) (suc k) content
  unfolding receive
  next_session-IsDownloading more = record {
    direction = down.direction;
    one_block = down.one_block;
    next_block = refl;
    position = suc k * s.block_size + length (block_at (suc k) s.block_size content);
    opened = refl;
    end_reached = block_at_short more;
    no_error = down.no_error;
    not_done = down.not_done;
    block_fits = down.block_fits;
    buffer_size = omega (arith, size_of_buffer, length-drop (length (ack_packet (suc k))) s.buffer);
    socket = down.socket;
    has_socket = down.has_socket;
  }
