-- ===== src/Upload/Window.antt =====
-- An upload with more than one block to the window, whose blocks arrive in their order: CMSG__DATA
-- and SMSG_ACK_Block in the loop of ThreadDirectComm.
pub mod Lost
pub mod Transfer
use native.Mathlib.Nat.{suc-mul, mul-le-mul_right}
use tftp_server.Base.{
  ℕ, zero, suc, ◌+◌, ◌-◌, ◌*◌, ◌%◌, ◌<◌, ◌≤◌, ◌^◌, ◌==◌, List, [], ◌∷◌, ◌++◌, some, true, false,
  ltb, if◌then◌else◌, set, replicate, length-set, length-replicate, get_elem?, concat, wire_size,
  pos, length, map, take, drop, ◌≡◌, refl, arith, take-append, append-nil, append_assoc,
  length-append, length-drop, of_be16-be16, ap, sym, ◌∙◌, subst,
}
use tftp_server.Config.{Config}
use tftp_server.Session.{
  client_to_server, Env, Session, header_size, packet_safety_pad, touch, send_packet, accepted,
  err_no_error,
}
use tftp_server.Send.Ack.{smsg_ack_block, ack_packet, blocks_received}
use tftp_server.Send.Ack.Window.{reset_window_lem, get_elem?-replicate}
use tftp_server.Send.Data.{data_packet, over_limit, seek_block}
use tftp_server.Receive.{
  store_in_file, store_block, accept_block, index_in_window, take_data, cmsg_data,
}
use tftp_server.Dispatch.{dispatch, parse_packet}
use tftp_server.Thread.Serve.{on_event-datagram, serve-waits, serve-ends}
use tftp_server.Upload.{AllSent, IsWithinLimit, AreBlocks, data_events}
use tftp_server.Upload.Block.{write_file-append}
use tftp_server.Thread.{
  datagram, receive, forward_packet, check_end, serve_packet, on_event, serve, waits, ends,
}

-- Blocks 1 to `k` have been stored in `content`, and none of the window is marked. The block that
-- has been acknowledged last is `k` or an earlier one.
pub record IsFilling (s : Session) (w k : ℕ) (content : List ℕ) : Type 0 where
  pub direction : s.selected_operation ≡ client_to_server
  pub window : s.window_size ≡ pos (suc (suc w))
  pub window_free : s.received ≡ replicate (suc (suc w)) 0
  pub acknowledged : s.first_block_in_window ≤ k
  pub position : ℕ
  pub stored : s.file ≡ some (record { bytes = content; position = position })
  pub whole : length content ≡ k * s.block_size
  pub no_error : s.error ≡ err_no_error
  pub not_done : s.transfer_done ≡ false
  pub buffer_size : length s.buffer ≡ s.block_size + header_size + packet_safety_pad
  pub socket : ℕ
  pub has_socket : s.comm_socket ≡ some socket

-- One mark is counted if it is the first one.
pub blocks_received-mark :
    (w i v : ℕ)
    → 0 < v
    → blocks_received (suc (suc w)) (set (replicate (suc (suc w)) 0) i v)
      ≡ some (if i == 0 then 1 else 0)
unfolding blocks_received
blocks_received-mark w zero zero h = absurd (omega arith)
blocks_received-mark w zero (suc v) h = ground arith
blocks_received-mark w (suc i) v h = ground arith

module _ (cfg : Config) (e : Env) (s : Session) (content block : List ℕ) (w k : ℕ)
    (up : IsFilling s w k content) (sends : AllSent e) (room : suc k < 2 ^ 16)
    (offset : k * s.block_size < 2 ^ 31) (nonempty : 0 < length block)
    (fits : length block ≤ s.block_size) (small : s.bytes_handled + length block + 4 < 2 ^ 64)
    (limit : over_limit cfg (s.bytes_handled + (length block + 4)) ≡ false) where
  abbrev place : ℕ
  place = k % suc (suc w)

  -- How far SMSG_ACK_Block counts.
  abbrev counted : ℕ
  counted = (if place == 0 then 1 else 0)

  abbrev pub ack_nr : ℕ
  ack_nr = s.first_block_in_window + counted

  abbrev stored_block : Session
  stored_block =
      touch e (record (send_packet e (ack_packet ack_nr) (receive (data_packet (suc k) block) s)) {
        bytes_handled = s.bytes_handled + (length block + 4);
        file = some (record { bytes = content ++ block; position = length content + length block });
        window_retry_count = 0;
        transfer_done =
            (if ltb (length block + 4) (s.block_size + header_size) then true else s.transfer_done);
        first_block_in_window = ack_nr;
        received = replicate (suc (suc w)) 0;
      })

  accept_block-window :
      accept_block e (suc k) (length block + 4) (record (receive (data_packet (suc k) block) s) {
        bytes_handled = s.bytes_handled + (length block + 4);
      })
      ≡ some (stored_block, accepted)
  unfolding accept_block store_block store_in_file seek_block index_in_window smsg_ack_block receive
  accept_block-window =
      let read : get_elem? (replicate {A = ℕ} (suc (suc w)) 0) place ≡ some 0 =
        get_elem?-replicate (suc (suc w)) place (omega arith) in
      let marked = blocks_received-mark w place (length block) nonempty in
      let marks = set (replicate (suc (suc w)) 0) place (length block) in
      let size : length block + 4 - 4 ≡ length block = omega arith in
      let same : take (length block + 4 - 4)
            (block ++ drop (length (data_packet (suc k) block)) s.buffer)
          ≡ block =
        rw size (take-append (length block) block _ refl) in
      ground (
        arith,
        up,
        read,
        marked,
        size,
        same,
        sends s.send_calls (ack_packet ack_nr),
        write_file-append content block,
        reset_window_lem (suc (suc w)) marks,
        length-set (replicate (suc (suc w)) 0) place (length block),
        length-replicate {A = ℕ} (suc (suc w)) 0,
        length-append block (drop (length (data_packet (suc k) block)) s.buffer),
        length-drop (length (data_packet (suc k) block)) s.buffer,
      )

  take_data-window :
      take_data cfg e (length block + 4) (receive (data_packet (suc k) block) s)
      ≡ some (stored_block, accepted)
  unfolding take_data receive
  take_data-window = ground (arith, up, accept_block-window, of_be16-be16 (suc k))

  abbrev pub kept_block : Session
  kept_block = record stored_block { forwarded = s.forwarded ++ data_packet (suc k) block ∷ [] }

  serve_packet-window :
      serve_packet cfg e (length block + 4) (receive (data_packet (suc k) block) s)
      ≡ some (if ltb (length block) s.block_size then ends kept_block else waits kept_block)
  unfolding serve_packet parse_packet dispatch cmsg_data forward_packet check_end receive
  serve_packet-window =
      let read : take (length block + 4)
            (data_packet (suc k) block ++ drop (length (data_packet (suc k) block)) s.buffer)
          ≡ data_packet (suc k) block =
        take-append _ _ _ (omega arith) in
      ground (
        arith,
        up,
        read,
        take_data-window,
        length-append block (drop (length (data_packet (suc k) block)) s.buffer),
        length-drop (length (data_packet (suc k) block)) s.buffer,
      )

  pub on_event-window :
      on_event cfg e (datagram (data_packet (suc k) block)) s
      ≡ some (if ltb (length block) s.block_size then ends kept_block else waits kept_block)
  on_event-window =
      let size : length (data_packet (suc k) block) ≡ length block + 4 = omega arith in
      on_event-datagram cfg e (data_packet (suc k) block) s (omega (arith, up.buffer_size))
        (omega arith)
      ∙ rw size serve_packet-window

  pub kept_block-IsFilling :
      length block ≡ s.block_size → IsFilling kept_block w (suc k) (content ++ block)
  unfolding receive
  kept_block-IsFilling full = record {
    direction = up.direction;
    window = up.window;
    window_free = refl;
    acknowledged = ground (arith, up.acknowledged);
    position = length content + length block;
    stored = refl;
    whole = omega (arith, length-append content block, up.whole, suc-mul k s.block_size, full);
    no_error = up.no_error;
    not_done = ground (arith, up.not_done);
    buffer_size = omega (
      arith,
      up.buffer_size,
      length-append block (drop (length (data_packet (suc k) block)) s.buffer),
      length-drop (length (data_packet (suc k) block)) s.buffer,
    );
    socket = up.socket;
    has_socket = up.has_socket;
  }

  pub kept_block-sent : kept_block.sent ≡ s.sent ++ ack_packet ack_nr ∷ []
  unfolding receive
  kept_block-sent = rw (sends s.send_calls (ack_packet ack_nr)) refl
