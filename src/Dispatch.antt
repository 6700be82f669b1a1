-- ===== src/Dispatch.antt =====
-- ParsePacket of src/TFTP.cpp: a received packet goes to the handler of its opcode.
pub mod Kept
use tftp_server.Base.{ℕ, Option, some, ltb, ◌==◌, if◌then◌else◌, ◌>>=◌}
use tftp_server.Config.{Config}
use tftp_server.Session.{Env, Session, Status, accepted, err_undefined}
use tftp_server.Receive.{read_u16, too_small, cmsg_ack, cmsg_error, cmsg_data}
use tftp_server.Request.{cmsg_rrq, cmsg_wrq}

-- The `switch`.
unfoldable pub dispatch : Config → Env → ℕ → ℕ → Session → Option (Session × Status)
dispatch cfg e op size s =
    if op == 1
    then cmsg_rrq cfg e size s
    else if op == 2
    then cmsg_wrq cfg e size s
    else if op == 4
    then cmsg_ack cfg e size s
    else if op == 3
    then cmsg_data cfg e size s
    else if op == 5
    then cmsg_error size s
    else some (record s { error = err_undefined }, accepted)

unfoldable pub parse_packet : Config → Env → ℕ → Session → Option (Session × Status)
unfolding dispatch
parse_packet cfg e size s =
    if ltb size 2 then too_small s else (do op ← read_u16 s.buffer 0; dispatch cfg e op size s)
