-- ===== src/Upload/Block.antt =====
-- One DATA packet that arrives in its turn.
use tftp_server.Base.{
  ℕ, suc, ◌+◌, ◌-◌, ◌<◌, ◌≤◌, ◌^◌, List, [], ◌∷◌, ◌++◌, some, true, false, ltb, if◌then◌else◌, u16,
  pos, length, take, drop, ◌≡◌, refl, arith, take-append, take_all, drop_all, append-nil,
  length-append, length-drop, of_be16-be16, ap, sym, ◌∙◌,
}
use tftp_server.Config.{Config}
use tftp_server.Session.{Env, Session, File, header_size, touch, send_packet, send_ok, accepted}
use tftp_server.Send.Ack.{smsg_ack_block, ack_packet, blocks_received, reset_window}
use tftp_server.Send.Data.{data_packet, over_limit}
use tftp_server.Receive.{
  write_file, store_in_file, store_block, accept_block, index_in_window, take_data, cmsg_data,
}
use tftp_server.Dispatch.{dispatch, parse_packet}
use tftp_server.Thread.Serve.{on_event-datagram}
use tftp_server.Upload.{IsUploading, AllSent}
use tftp_server.Thread.{
  datagram, receive, forward_packet, check_end, serve_packet, on_event, waits, ends,
}

-- A write at the end of the file appends to it.
pub write_file-append :
    (content block : List ℕ)
    → write_file block (record { bytes = content; position = length content })
      ≡ record { bytes = content ++ block; position = length content + length block }
unfolding write_file
write_file-append content block =
    let none_missing : length content - length content ≡ 0 = omega arith in
    let kept : take (length content) (content ++ []) ≡ content =
      rw append-nil (take_all (length content) content (omega arith)) in
    rw (none_missing, kept, drop_all (length content + length block) content (omega arith))
      (simp append-nil)

abbrev pub next_nr : Session → ℕ
next_nr s = u16 (s.first_block_in_window + 1)

module _ (e : Env) (s : Session) (one : s.window_size ≡ pos 1) where
  ack_one :
      (x : ℕ)
      → s.received ≡ x ∷ []
      → 0 < x
      → send_ok e (ack_packet (next_nr s)) s ≡ true
      → smsg_ack_block e s
        ≡ some (
            touch e (record (send_packet e (ack_packet (next_nr s)) s) {
              first_block_in_window = next_nr s;
              received = 0 ∷ [];
            }))
  unfolding smsg_ack_block blocks_received reset_window
  ack_one x r h ok = ground arith

-- What CMSG__DATA leaves behind for block `nr`, which is `block`, at the end of the file `f`.
abbrev pub after_data : Env → ℕ → ℕ → File → Session → Session
after_data e nr size f s = touch e (record (send_packet e (ack_packet nr) s) {
  file = some f;
  window_retry_count = 0;
  transfer_done = (if ltb size (s.block_size + header_size) then true else s.transfer_done);
  first_block_in_window = nr;
  received = 0 ∷ [];
})

pub accept_one :
    (e : Env) (nr size : ℕ) (s : Session) (f : File)
    → s.window_size ≡ pos 1
    → s.received ≡ 0 ∷ []
    → 4 < size
    → size ≤ length s.buffer
    → s.file ≡ some f
    → send_ok e (ack_packet (next_nr s)) s ≡ true
    → accept_block e nr size s
      ≡ some (
        after_data e (next_nr s) size (write_file (take (size - 4) (drop 4 s.buffer)) f) s,
        accepted,
      )
unfolding accept_block store_block index_in_window store_in_file
accept_one e nr size s f w r h1 h2 hf ok = ground (
  arith,
  ack_one e
      (record s {
        file = some (write_file (take (size - 4) (drop 4 s.buffer)) f);
        window_retry_count = 0;
        transfer_done = (if ltb size (s.block_size + 4) then true else s.transfer_done);
        received = (size - 4) ∷ [];
      })
      w (size - 4),
)

-- What the session is after `block`, with the number `k + 1`, has arrived.
module _ (e : Env) (s : Session) (content block : List ℕ) (k : ℕ) where
  abbrev arrived : Session
  arrived = record (receive (data_packet (suc k) block) s) {
    bytes_handled = s.bytes_handled + (length block + 4);
  }

  abbrev after_block : Session
  after_block =
      after_data e (suc k) (length block + 4)
        (record { bytes = content ++ block; position = length content + length block }) arrived

  abbrev pub stored_session : Session
  stored_session = record after_block { forwarded = s.forwarded ++ data_packet (suc k) block ∷ [] }

-- The same through ParsePacket and the tests of CMSG__DATA.
module _ (cfg : Config) (e : Env) (s : Session) (content block : List ℕ) (k : ℕ)
    (up : IsUploading s k content) (room : suc k < 2 ^ 16) (nonempty : 0 < length block)
    (fits : length block ≤ s.block_size) (small : s.bytes_handled + length block + 4 < 2 ^ 64)
    (limit : over_limit cfg (s.bytes_handled + (length block + 4)) ≡ false)
    (sends : AllSent e) where
  accept-step :
      accept_block e (suc k) (length block + 4) (arrived e s content block k)
      ≡ some ((after_block e s content block k), accepted)
  unfolding receive
  accept-step =
      let nr : u16 (s.first_block_in_window + 1) ≡ suc k = omega (arith, up.next_block) in
      let size : length block + 4 - 4 ≡ length block = omega arith in
      let same : take (length block + 4 - 4)
            (block ++ drop (length (data_packet (suc k) block)) s.buffer)
          ≡ block =
        rw size (take-append (length block) block _ refl) in
      ground (
        arith,
        sends s.send_calls (ack_packet (suc k)),
        write_file-append content block,
        length-append block (drop (length (data_packet (suc k) block)) s.buffer),
        length-drop (length (data_packet (suc k) block)) s.buffer,
        accept_one e (suc k) (length block + 4) (arrived e s content block k)
            (record { bytes = content; position = length content }),
      )

  take_data-step :
      take_data cfg e (length block + 4) (receive (data_packet (suc k) block) s)
      ≡ some ((after_block e s content block k), accepted)
  unfolding take_data receive
  take_data-step = ground (arith, accept-step, of_be16-be16 (suc k))

  -- ParsePacket, the call of AWS and the tests for the end.
  serve_packet-block :
      serve_packet cfg e (length block + 4) (receive (data_packet (suc k) block) s)
      ≡ some (
          if ltb (length block) s.block_size
          then ends (stored_session e s content block k)
          else waits (stored_session e s content block k))
  unfolding serve_packet parse_packet dispatch cmsg_data forward_packet check_end receive
  serve_packet-block =
      let read : take (length block + 4)
            (data_packet (suc k) block ++ drop (length (data_packet (suc k) block)) s.buffer)
          ≡ data_packet (suc k) block =
        take-append _ _ _ (omega arith) in
      ground (
        arith,
        read,
        take_data-step,
        length-append block (drop (length (data_packet (suc k) block)) s.buffer),
        length-drop (length (data_packet (suc k) block)) s.buffer,
      )

  -- The packet is acknowledged and its block is in the file; a short block ends the session.
  pub on_event-block :
      on_event cfg e (datagram (data_packet (suc k) block)) s
      ≡ some (
          if ltb (length block) s.block_size
          then ends (stored_session e s content block k)
          else waits (stored_session e s content block k))
  on_event-block =
      let size : length (data_packet (suc k) block) ≡ length block + 4 = omega arith in
      on_event-datagram cfg e (data_packet (suc k) block) s (omega arith) (omega arith)
      ∙ rw size serve_packet-block

  -- After a full block the session waits for the next one.
  pub stored_session-IsUploading :
      length block ≡ s.block_size
      → IsUploading (stored_session e s content block k) (suc k) (content ++ block)
  unfolding receive
  stored_session-IsUploading full = record {
    direction = up.direction;
    one_block = up.one_block;
    window_free = refl;
    next_block = refl;
    stored = ap some (
        ap (λ n. record { bytes = content ++ block; position = n })
          (sym (length-append content block)));
    no_error = up.no_error;
    not_done = ground arith;
    buffer_size = omega (
      arith,
      up.buffer_size,
      length-append block (drop (length (data_packet (suc k) block)) s.buffer),
      length-drop (length (data_packet (suc k) block)) s.buffer,
    );
    socket = up.socket;
    has_socket = up.has_socket;
  }
