-- ===== src/Send/Ack.antt =====
-- SMSG_ACK_Block of src/TFTP.cpp.
pub mod Window
use tftp_server.Base.{
  ℕ, zero, suc, ◌+◌, List, [], ◌∷◌, ◌++◌, Option, none, some, ltb, if◌then◌else◌, ◌>>=◌, u16, be16,
  pos_part,
}
use tftp_server.Session.{Env, Session, touch, send_ok, send_packet, err_undefined}

-- The first loop: how many entries at the start of the window are set. `none` is a read past the
-- end of the array.
unfoldable pub blocks_received : ℕ → List ℕ → Option ℕ
blocks_received zero array = some 0
blocks_received (suc n) [] = none
blocks_received (suc n) (x ∷ xs) =
    let rest = (do k ← blocks_received n xs; some (suc k)) in if ltb 0 x then rest else some 0

-- The second loop: the window's entries are reset.
unfoldable pub reset_window : ℕ → List ℕ → Option (List ℕ)
reset_window zero array = some array
reset_window (suc n) [] = none
reset_window (suc n) (x ∷ xs) = do rest ← reset_window n xs; some (0 ∷ rest)

-- The packet: the opcode OP_ACK and the block's number.
abbrev pub ack_packet : ℕ → List ℕ
ack_packet nr = be16 4 ++ be16 nr

unfoldable pub smsg_ack_block : Env → Session → Option Session
smsg_ack_block e s = do
  n ← blocks_received (pos_part s.window_size) s.received
  let nr = u16 (s.first_block_in_window + n)
  let s1 = send_packet e (ack_packet nr) s
  if send_ok e (ack_packet nr) s
      then (do
        array ← reset_window (pos_part s.window_size) s.received
        some (touch e (record s1 { first_block_in_window = nr; received = array })))
      else some (record s1 { error = err_undefined })
