-- ===== src/Upload/Window/Lost.antt =====
-- An upload with more than one block to the window, of which a block is lost: CMSG__DATA and
-- SMSG_ACK_Block.
use native.Mathlib.Nat.{mul-le-mul_right}
use tftp_server.Base.{
  ℕ, suc, ◌+◌, ◌-◌, ◌*◌, ◌%◌, ◌<◌, ◌≤◌, ◌^◌, List, [], ◌∷◌, ◌++◌, some, true, false, ltb,
  Bool-cases, inl, inr, if◌then◌else◌, set, replicate, length-set, length-replicate, u64, length,
  take, drop, ◌≡◌, refl, arith, take-append, take_all, drop_all, append-nil, length-append,
  length-drop, of_be16-be16, sym,
}
use tftp_server.Config.{Config}
use tftp_server.Session.{
  client_to_server, Env, Session, File, touch, send_packet, accepted, refused, err_disk_full,
}
use tftp_server.Send.Ack.{smsg_ack_block, ack_packet, blocks_received}
use tftp_server.Send.Ack.Window.{reset_window_lem, get_elem?-replicate}
use tftp_server.Send.Data.{data_packet, over_limit, seek_block}
use tftp_server.Receive.{
  write_file, store_in_file, store_block, accept_block, index_in_window, take_data, cmsg_data,
}
use tftp_server.Thread.{receive}
use tftp_server.Upload.{AllSent}
use tftp_server.Upload.Window.{IsFilling}

-- A write behind the end of the file fills the gap with zeros.
write_file-gap :
    (content block : List ℕ) (n : ℕ)
    → length content ≤ n
    → write_file block (record { bytes = content; position = n }) ≡ record {
      bytes = (content ++ replicate (n - length content) 0) ++ block;
      position = n + length block;
    }
unfolding write_file
write_file-gap content block n h =
    let gap = replicate (n - length content) 0 in
    let kept : take n (content ++ gap) ≡ content ++ gap =
      take_all n (content ++ gap) (
        omega
          (arith, length-append content gap, length-replicate {A = ℕ} (n - length content) 0)) in
    rw (kept, drop_all (n + length block) content (omega arith)) (simp append-nil)

-- A block that is not later than the last one acknowledged is refused, whatever it holds.
cmsg_data-late :
    (cfg : Config) (e : Env) (s : Session) (nr : ℕ) (block : List ℕ)
    → s.selected_operation ≡ client_to_server
    → nr ≤ s.first_block_in_window
    → nr < 2 ^ 16
    → (s' : Session) × (cmsg_data cfg e (length block + 4) (receive (data_packet nr block) s)
        ≡ some (s', refused))
      × (s'.file ≡ s.file)
unfolding cmsg_data take_data receive
cmsg_data-late cfg e s nr block direction late small =
    let s1 = record (receive (data_packet nr block) s) {
      bytes_handled = u64 (s.bytes_handled + (length block + 4));
    } in
    elim (Bool-cases (over_limit cfg s1.bytes_handled)) [
      | inl over ↦ (record s1 { error = err_disk_full }, ground (arith, over), refl)
      | inr under ↦ (s1, ground (arith, under, of_be16-be16 nr), refl)
    ]

module _ (cfg : Config) (e : Env) (sends : AllSent e) where
  -- In a window of two blocks or more, none of them marked, where blocks 1 to `k` are stored and
  -- acknowledged: a block that is later than block `k + 1` and has the first place of the array is
  -- stored behind a gap of zeros, where it belongs, but block `k + 1`, which has never arrived, is
  -- acknowledged in its place. If block `k + 1` arrives afterwards, it is refused, whatever it
  -- holds, and the gap stays as it is.
  pub cmsg_data-lost :
      (s : Session) (content block : List ℕ) (w k nr : ℕ)
      → IsFilling s w k content
      → s.first_block_in_window ≡ k
      → suc k < nr
      → nr < 2 ^ 16
      → (nr - 1) % suc (suc w) ≡ 0
      → 0 < length block
      → (nr - 1) * s.block_size < 2 ^ 31
      → s.bytes_handled + length block + 4 < 2 ^ 64
      → over_limit cfg (s.bytes_handled + (length block + 4)) ≡ false
      → (s' : Session) × (cmsg_data cfg e (length block + 4) (receive (data_packet nr block) s)
          ≡ some (s', accepted))
        × (s'.sent ≡ s.sent ++ ack_packet (suc k) ∷ [])
        × (s'.file
            ≡ some (record {
              bytes =
                  (content ++ replicate ((nr - 1) * s.block_size - k * s.block_size) 0) ++ block;
              position = (nr - 1) * s.block_size + length block;
            }))
        × ((late : List ℕ)
            → (s'' : Session) × (cmsg_data cfg e
                  (length late + 4)
                  (receive (data_packet (suc k) late) s')
                ≡ some (s'', refused))
              × (s''.file ≡ s'.file))
  unfolding cmsg_data take_data receive accept_block store_block index_in_window smsg_ack_block
      store_in_file seek_block blocks_received
  cmsg_data-lost s content block w k nr up acked later room first nonempty offset small limit =
      let start = (nr - 1) * s.block_size in
      let stored : File = record {
        bytes = (content ++ replicate (start - k * s.block_size) 0) ++ block;
        position = start + length block;
      } in
      let behind : k * s.block_size ≤ start = mul-le-mul_right s.block_size (omega arith) in
      let kept : write_file block (record { bytes = content; position = start }) ≡ stored =
        rw (sym up.whole) (write_file-gap content block start (omega (arith, up.whole))) in
      let arrived = record (receive (data_packet nr block) s) {
        bytes_handled = s.bytes_handled + (length block + 4);
      } in
      let marks = set (replicate (suc (suc w)) 0) 0 (length block) in
      let size : length block + 4 - 4 ≡ length block = omega arith in
      let same : take (length block + 4 - 4)
            (block ++ drop (length (data_packet nr block)) s.buffer)
          ≡ block =
        rw size (take-append (length block) block _ refl) in
      let s' = touch e (record (send_packet e (ack_packet (suc k)) arrived) {
        file = some stored;
        window_retry_count = 0;
        transfer_done =
            (if ltb (length block + 4) (s.block_size + 4) then true else s.transfer_done);
        first_block_in_window = suc k;
        received = replicate (suc (suc w)) 0;
      }) in
      (
        s',
        ground (
          arith,
          up,
          acked,
          first,
          same,
          sends s.send_calls (ack_packet (suc k)),
          of_be16-be16 nr,
          kept,
          behind,
          get_elem?-replicate (suc (suc w)) 0 (omega arith),
          reset_window_lem (suc (suc w)) marks,
          length-set (replicate {A = ℕ} (suc (suc w)) 0) 0 (length block),
          length-replicate {A = ℕ} (suc (suc w)) 0,
          length-append block (drop (length (data_packet nr block)) s.buffer),
          length-drop (length (data_packet nr block)) s.buffer,
        ),
        rw (sends s.send_calls (ack_packet (suc k))),
        refl,
        λ late. cmsg_data-late cfg e s' (suc k) late up.direction (omega arith) (omega arith),
      )
