-- ===== src/Upload/Faults.antt =====
-- CMSG__DATA on a block that is not the one due, on an empty last block, and in a window of more
-- than one block.
use tftp_server.Base.{
  ℕ, suc, ◌+◌, ◌-◌, ◌*◌, ◌%◌, ◌<◌, ◌^◌, List, [], ◌∷◌, ◌++◌, some, true, false, ltb, ◌≢◌, set,
  replicate, length-set, length-replicate, take-append, length-append, length-drop, of_be16-be16,
  if◌then◌else◌, pos, length, take, drop, ◌≡◌, refl, arith, sym, get_elem?,
}
use tftp_server.Config.{Config}
use tftp_server.Session.{client_to_server, Env, Session, accepted, File, touch, send_packet}
use tftp_server.Send.Ack.{smsg_ack_block, ack_packet, blocks_received, reset_window}
use tftp_server.Send.Data.{over_limit, data_packet, seek_block}
use tftp_server.Receive.{
  cmsg_data, take_data, accept_block, store_block, index_in_window, write_file, store_in_file,
}
use tftp_server.Send.Ack.Window.{blocks_received-later, reset_window_lem, get_elem?-replicate}
use tftp_server.Upload.{IsUploading, AllSent}
use tftp_server.Thread.{receive}

-- A window of `w + 2` blocks, none of them marked. Block `k + 1` is due, and its place in the
-- array is not the first.
pub record IsOffStart (s : Session) (k w : ℕ) (f : File) : Type 0 where
  pub direction : s.selected_operation ≡ client_to_server
  pub blocks : s.window_size ≡ pos (suc (suc w))
  pub window_free : s.received ≡ replicate (suc (suc w)) 0
  pub next_block : s.first_block_in_window ≡ k
  pub off_start : k % suc (suc w) ≢ 0
  pub opened : s.file ≡ some f

module _ (cfg : Config) (e : Env) (sends : AllSent e) where
  pub cmsg_data-empty :
      (s : Session) (content : List ℕ) (k : ℕ)
      → IsUploading s k content
      → suc k < 2 ^ 16
      → 0 < s.block_size
      → s.bytes_handled + 4 < 2 ^ 64
      → over_limit cfg (s.bytes_handled + 4) ≡ false
      → (s' : Session) × (cmsg_data cfg e 4 (receive (data_packet (suc k) []) s)
          ≡ some (s', accepted))
        × (s'.sent ≡ s.sent ++ ack_packet k ∷ [])
        × (s'.file ≡ s.file)
        × (s'.transfer_done ≡ true)
  unfolding cmsg_data take_data receive accept_block store_block index_in_window smsg_ack_block
      blocks_received reset_window
  cmsg_data-empty s content k up room size small limit =
      let arrived = record (receive (data_packet (suc k) []) s) {
        bytes_handled = s.bytes_handled + 4;
        transfer_done = true;
      } in
      let s' = touch e (record (send_packet e (ack_packet k) arrived) {
        first_block_in_window = k;
        received = 0 ∷ [];
      }) in
      (
        s',
        ground (arith, sends s.send_calls (ack_packet k), of_be16-be16 (suc k)),
        rw (sends s.send_calls (ack_packet k)),
        refl,
        refl,
      )

  -- In a window of two blocks or more, none of them stored, the block `k + 1` that is due and whose
  -- place is not the array's first is accepted, and yet block `k` is acknowledged again: the session
  -- waits for the same block as before, with the same empty window.
  pub cmsg_data-stuck :
      (s : Session) (block : List ℕ) (k w : ℕ) (f : File)
      → IsOffStart s k w f
      → suc k < 2 ^ 16
      → 0 < length block
      → k * s.block_size < 2 ^ 31
      → s.bytes_handled + length block + 4 < 2 ^ 64
      → over_limit cfg (s.bytes_handled + (length block + 4)) ≡ false
      → (s' : Session) × (cmsg_data cfg e (length block + 4) (receive (data_packet (suc k) block) s)
          ≡ some (s', accepted))
        × (s'.sent ≡ s.sent ++ ack_packet k ∷ [])
        × (s'.first_block_in_window ≡ k)
        × (s'.received ≡ s.received)
  unfolding cmsg_data take_data receive accept_block store_block index_in_window smsg_ack_block
      store_in_file seek_block
  cmsg_data-stuck s block k w f off room nonempty fits small limit =
      let arrived = record (receive (data_packet (suc k) block) s) {
        bytes_handled = s.bytes_handled + (length block + 4);
      } in
      let i = k % suc (suc w) in
      let read : get_elem? (replicate {A = ℕ} (suc (suc w)) 0) i ≡ some 0 =
        get_elem?-replicate (suc (suc w)) i (omega arith) in
      let size : length block + 4 - 4 ≡ length block = omega arith in
      let same : take (length block + 4 - 4)
            (block ++ drop (length (data_packet (suc k) block)) s.buffer)
          ≡ block =
        rw size (take-append (length block) block _ refl) in
      let s' = touch e (record (send_packet e (ack_packet k) arrived) {
        file = some (write_file block (record f { position = k * s.block_size }));
        window_retry_count = 0;
        transfer_done =
            (if ltb (length block + 4) (s.block_size + 4) then true else s.transfer_done);
        first_block_in_window = k;
        received = replicate (suc (suc w)) 0;
      }) in
      (
        s',
        ground (
          arith,
          read,
          sends s.send_calls (ack_packet k),
          of_be16-be16 (suc k),
          length-append block (drop (length (data_packet (suc k) block)) s.buffer),
          length-drop (length (data_packet (suc k) block)) s.buffer,
          off.off_start,
          blocks_received-later (suc w) i (length block),
          reset_window_lem (suc (suc w)) (set (replicate (suc (suc w)) 0) i (length block)),
          length-set (replicate (suc (suc w)) 0) i (length block),
          length-replicate {A = ℕ} (suc (suc w)) 0,
        ),
        rw (sends s.send_calls (ack_packet k)),
        refl,
        sym off.window_free,
      )
