-- ===== src/Download/Faults.antt =====
-- CMSG_ACK and CMSG__DATA at the end of the block numbers.
use tftp_server.Base.{ℕ, ◌-◌, ◌^◌, some, ◌≡◌, arith, get_elem?}
use mathlib.Core.Option
use tftp_server.Config.{Config}
use tftp_server.Session.{Env, Session, Status}
use tftp_server.Receive.{cmsg_data, take_data, cmsg_ack, take_ack, move_window}
use tftp_server.Receive.Bytes.{AreBytes, get_elem?-lt}
use tftp_server.Receive.Refusal.{IsUnmoved}

-- When the window starts at block 2 ^ 16, no packet of bytes moves the transfer: no ACK can name
-- such a block.
cmsg_ack-exhausted :
    (cfg : Config) (e : Env) (size : ℕ) (s s' : Session) (st : Status)
    → AreBytes s.buffer
    → s.first_block_in_window ≡ 2 ^ 16
    → cmsg_ack cfg e size s ≡ some (s', st)
    → IsUnmoved s s'
unfolding cmsg_ack take_ack move_window
cmsg_ack-exhausted cfg e size s s' st h first e' = ground (
  arith,
  get_elem?-lt 2 (Option.get_or (get_elem? s.buffer 2) 0) s.buffer h,
  get_elem?-lt 3 (Option.get_or (get_elem? s.buffer 3) 0) s.buffer h,
)

-- When block 2 ^ 16 - 1 is acknowledged, no packet of bytes moves the transfer: no DATA packet can
-- name a later block.
cmsg_data-exhausted :
    (cfg : Config) (e : Env) (size : ℕ) (s s' : Session) (st : Status)
    → AreBytes s.buffer
    → s.first_block_in_window ≡ 2 ^ 16 - 1
    → cmsg_data cfg e size s ≡ some (s', st)
    → IsUnmoved s s'
unfolding cmsg_data take_data
cmsg_data-exhausted cfg e size s s' st h first e' = ground (
  arith,
  get_elem?-lt 2 (Option.get_or (get_elem? s.buffer 2) 0) s.buffer h,
  get_elem?-lt 3 (Option.get_or (get_elem? s.buffer 3) 0) s.buffer h,
)
