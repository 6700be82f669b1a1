-- ===== src/Receive.antt =====
-- CMSG_ACK, CMSG_ERROR and CMSG__DATA of src/TFTP.cpp. The packet is the session's own buffer, of
-- which the first `size` bytes have been received.
pub mod Bytes
pub mod Errors
pub mod Refusal
pub mod Safety
use tftp_server.Base.{
  ℕ, ◌+◌, ◌-◌, ◌%◌, List, ◌++◌, Option, none, some, Bool, true, ◌||◌, ltb, leb, ◌==◌, if◌then◌else◌,
  ◌>>=◌, u64, of_be16, ℤ, pos, pos_part, neg_part, eqb_ℤ, length, get_elem?, set, take, drop,
  replicate,
}
use tftp_server.Config.{Config}
use tftp_server.Text.{c_string_at}
use tftp_server.Session.{
  client_to_server, server_to_client, Env, File, Session, Status, accepted, refused, header_size,
  err_illegal_operation, err_disk_full,
}
use tftp_server.Send.Ack.{smsg_ack_block}
use tftp_server.Send.Data.{smsg_data, seek_block, over_limit}

-- ntohs(*(unsigned short*)&packet[i]).
abbrev pub read_u16 : List ℕ → ℕ → Option ℕ
read_u16 packet i = do hi ← get_elem? packet i; lo ← get_elem? packet (i + 1); some (of_be16 hi lo)

-- EnsureHaveEnoughPacketBytes: what it does where the packet is too small.
abbrev pub too_small : Session → Option (Session × Status)
too_small s = some (record s { error = err_illegal_operation }, refused)

-- ACKBlockNr > FirstBlockInWindow + WindowSize - 1, as integers.
abbrev pub after_window : ℕ → Session → Bool
after_window nr s =
    ltb (s.first_block_in_window + pos_part s.window_size) (nr + 1 + neg_part s.window_size)

-- The window moves behind the acknowledged block; then the transfer ends or more data goes out.
unfoldable pub move_window : Config → Env → ℕ → Session → Option (Session × Status)
move_window cfg e nr s =
    let s1 = record s { first_block_in_window = nr + 1 } in
    if s.read_done
    then some (record s1 { transfer_done = true }, accepted)
    else (do s2 ← smsg_data cfg e s1; some (s2, accepted))

-- The part of CMSG_ACK behind the test of the session's state.
unfoldable pub take_ack : Config → Env → ℕ → Session → Option (Session × Status)
take_ack cfg e size s = if ltb size 4 then too_small s else (do
  nr ← read_u16 s.buffer 2
  if ltb nr s.first_block_in_window || after_window nr s
      then some (s, refused)
      else move_window cfg e nr s)

unfoldable pub cmsg_ack : Config → Env → ℕ → Session → Option (Session × Status)
cmsg_ack cfg e size s = elim s.selected_operation [
  | server_to_client ↦ take_ack cfg e size s
  | _ ↦ too_small s
]

-- The message is only logged, but its length is taken first.
unfoldable pub cmsg_error : ℕ → Session → Option (Session × Status)
cmsg_error size s = if ltb size 4 then too_small s else (do
  code ← read_u16 s.buffer 2
  if ltb size 5
      then too_small s
      else (do message ← c_string_at s.buffer 4; some (record s { error = code }, accepted)))

-- fwrite(data, 1, n, f): a gap before the position reads as zeros.
unfoldable pub write_file : List ℕ → File → File
write_file content f = record {
  bytes =
      take f.position (f.bytes ++ replicate (f.position - length f.bytes) 0)
      ++ content
      ++ drop (f.position + length content) f.bytes;
  position = f.position + length content;
}

-- Where the window holds more than one block, the position is set first.
unfoldable pub store_in_file : Session → ℕ → List ℕ → File → Option File
store_in_file s nr content f = do
  f1 ← (if eqb_ℤ s.window_size (pos 1) then some f else seek_block nr s.block_size f)
  some (write_file content f1)

-- The bytes of the block: packet[4] up to packet[size - 1].
abbrev pub packet_block : ℕ → Session → Option (List ℕ)
packet_block size s =
    if ltb (length s.buffer) size
    then none
    else some (take (size - header_size) (drop header_size s.buffer))

-- `if (size > TFTP_HEADER_SIZE) …`.
unfoldable pub store_block : ℕ → ℕ → Session → Option Session
store_block nr size s =
    if ltb header_size size
    then elim s.file [
      | none ↦ some (record s { window_retry_count = 0 })
      | some f ↦ do
        content ← packet_block size s
        f1 ← store_in_file s nr content f
        some (record s { file = some f1; window_retry_count = 0 })
    ]
    else some s

-- (BlockNr - 1) % WindowSize.
unfoldable pub index_in_window : ℕ → ℤ → Option ℕ
index_in_window nr w =
    let divisor = pos_part w + neg_part w in
    if divisor == 0 then none else some ((nr - 1) % divisor)

-- The rest of CMSG__DATA from the index on.
unfoldable pub accept_block : Env → ℕ → ℕ → Session → Option (Session × Status)
accept_block e nr size s = do
  i ← index_in_window nr s.window_size
  old ← get_elem? s.received i
  if old == 0
      then (do
        s1 ← store_block nr size (record s { received = set s.received i (size - header_size) })
        let s2 = record s1 {
          transfer_done =
              (if ltb size (s.block_size + header_size) then true else s1.transfer_done);
        }
        s3 ← smsg_ack_block e s2
        some (s3, accepted))
      else some (s, refused)

-- The part of CMSG__DATA behind the test of the session's state: the count, and the number.
unfoldable pub take_data : Config → Env → ℕ → Session → Option (Session × Status)
take_data cfg e size s =
    let s1 = record s { bytes_handled = u64 (s.bytes_handled + size) } in
    if ltb size 4
    then too_small s
    else if over_limit cfg s1.bytes_handled
    then some (record s1 { error = err_disk_full }, refused)
    else (do
      nr ← read_u16 s.buffer 2
      if leb nr s.first_block_in_window then some (s1, refused) else accept_block e nr size s1)

unfoldable pub cmsg_data : Config → Env → ℕ → Session → Option (Session × Status)
cmsg_data cfg e size s = elim s.selected_operation [
  | client_to_server ↦ take_data cfg e size s
  | _ ↦ too_small s
]
