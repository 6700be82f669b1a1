-- ===== src/Send/Data.antt =====
-- SMSG_DATA of src/TFTP.cpp, with the `fseek` and `fread` that it makes on the session's file.
use tftp_server.Base.{
  ℕ, zero, suc, ◌+◌, ◌*◌, ◌^◌, List, ◌++◌, Option, none, some, Bool, true, false, not, ◌&&◌, ltb,
  if◌then◌else◌, ◌>>=◌, u64, be16, pos, pos_part, to_u64, eqb_ℤ, length, take, drop,
}
use tftp_server.Config.{Config}
use tftp_server.Session.{
  Env, Session, File, touch, send_ok, send_packet, err_undefined, err_disk_full, header_size,
  packet_safety_pad,
}

-- A product of two `int`s that are not negative; a product that no `int` holds is undefined.
abbrev pub int_mul : ℕ → ℕ → Option ℕ
int_mul a b = if ltb (a * b) (2 ^ 31) then some (a * b) else none

-- fseek(f, (block - 1) * BlockSize, SEEK_SET): a negative offset is refused and nothing moves.
unfoldable pub seek_block : ℕ → ℕ → File → Option File
seek_block zero size f = some f
seek_block (suc n) size f = do offset ← int_mul n size; some (record f { position = offset })

-- fread(p, 1, n, f): the bytes that it stores.
abbrev pub read_bytes : ℕ → File → List ℕ
read_bytes n f = take n (drop f.position f.bytes)

-- The packet: the opcode OP_DATA, the block's number, the block.
abbrev pub data_packet : ℕ → List ℕ → List ℕ
data_packet nr block = be16 3 ++ be16 nr ++ block

-- The limit of both directions: KillConnectionAfterxBytesReceived, where it is not 0.
unfoldable pub over_limit : Config → ℕ → Bool
over_limit cfg n =
    ltb (to_u64 cfg.kill_connection_after_x_bytes_received) n
    && not (eqb_ℤ cfg.kill_connection_after_x_bytes_received (pos 0))

-- One round up to its last test: fread, the end of the file, send, the count of bytes.
unfoldable pub send_block : Env → ℕ → File → Session → Session
send_block e i f s =
    let block = read_bytes s.block_size f in
    let s1 = record s {
      file = some (record f { position = f.position + length block });
      read_done = (if ltb (length block) s.block_size then true else s.read_done);
    } in
    let p = data_packet (s.first_block_in_window + i) block in
    let s2 = send_packet e p s1 in
    if send_ok e p s1
    then record s2 { bytes_handled = u64 (s.bytes_handled + length block) }
    else record s2 { error = err_undefined }

-- How a round goes on.
pub data Round : Type 0 where
  leave next stop : Round

-- `leave` is a return from SMSG_DATA, `stop` the `break` at the end of the file.
unfoldable pub after_block : Config → Env → ℕ → File → Session → Round
after_block cfg e i f s =
    let block = read_bytes s.block_size f in
    if send_ok e (data_packet (s.first_block_in_window + i) block) s
    then (if over_limit cfg (u64 (s.bytes_handled + length block))
        then leave
        else (if ltb (length block) s.block_size then stop else next))
    else leave

-- A round that ends at the limit records the error DISK_FULL.
unfoldable pub round_session : Config → Env → ℕ → File → Session → Session
unfolding send_block
round_session cfg e i f s =
    let block = read_bytes s.block_size f in
    let s1 = send_block e i f s in
    if send_ok e (data_packet (s.first_block_in_window + i) block) s
    then (if over_limit cfg (u64 (s.bytes_handled + length block))
        then record s1 { error = err_disk_full }
        else s1)
    else s1

-- The loop over the window, at index `i` with `n` rounds left; the flag is false after a `return`.
unfoldable pub send_window : Config → Env → ℕ → ℕ → File → Session → Session × Bool
send_window cfg e zero i f s = (s, true)
send_window cfg e (suc n) i f s =
    let s1 = round_session cfg e i f s in
    elim (after_block cfg e i f s) [
      | leave ↦ (s1, false)
      | stop ↦ (s1, true)
      | next ↦
          send_window cfg e n (i + 1)
            (record f { position = f.position + length (read_bytes s.block_size f) }) s1
    ]

-- The end of SMSG_DATA, skipped by a `return`.
abbrev pub refresh : Env → Session × Bool → Session
refresh e (s, true) = touch e (record s { window_retry_count = 0 })
refresh e (s, false) = s

unfoldable pub smsg_data : Config → Env → Session → Option Session
smsg_data cfg e s = elim s.file [
  | none ↦ some s
  | some f ↦ do
    f1 ← seek_block s.first_block_in_window s.block_size f
    let s1 = record s { file = some f1 }
    if e.malloc (s.block_size + header_size + packet_safety_pad)
        then some (refresh e (send_window cfg e (pos_part s.window_size) 0 f1 s1))
        else some (record s1 { error = err_undefined })
]
