-- ===== src/Thread.antt =====
-- ThreadDirectComm of src/TFTP.cpp: the loop that serves one client. The datagrams and the
-- timeouts of recv() are a list of events, so that every sequence of them is a run.
-- ServerIsRunning is set once, to 1, and never changed.
pub mod Kept
pub mod Serve
pub mod Silence
use tftp_server.Base.{
  ℕ, ◌+◌, ◌-◌, ◌*◌, ◌^◌, List, [], ◌∷◌, ◌++◌, Option, none, some, Bool, true, false, ltb, leb, ◌==◌,
  if◌then◌else◌, ◌>>=◌, u64, ℤ, pos, negsuc, pos_part, neg_part, leb_ℤ, length, take, drop,
}
use tftp_server.Config.{Config}
use tftp_server.Session.{
  Operation, not_initialized, client_to_server, server_to_client, Env, Session, header_size,
  err_no_error, touch,
}
use tftp_server.Dispatch.{parse_packet}
use tftp_server.Send.Ack.{smsg_ack_block}
use tftp_server.Send.Data.{smsg_data}
use tftp_server.Send.Error.{smsg_error}

-- What recv() returns: a datagram, or nothing within SOCKET_TIMEOUT_SECONDS.
pub data Event : Type 0 where
  datagram : List ℕ → Event
  silence : Event

-- recv(): a datagram is cut at BlockSize + TFTP_HEADER_SIZE and stored at the buffer's start.
abbrev pub cut_datagram : List ℕ → Session → List ℕ
cut_datagram d s = take (s.block_size + header_size) d

unfoldable pub receive : List ℕ → Session → Session
receive d s = record s { buffer = d ++ drop (length d) s.buffer }

-- The body of the loop up to recv(): whether the session goes on.
pub data Turn : Type 0 where
  waits ends : Session → Turn

-- AWS_SQS_OnPacketArrived reads `size` bytes of the buffer; without a socket it returns at once.
unfoldable pub forward_packet : ℕ → Session → Option Session
forward_packet size s = elim s.comm_socket [
  | none ↦ some s
  | some fd ↦
      if ltb (length s.buffer) size
      then none
      else some (record s { forwarded = s.forwarded ++ take size s.buffer ∷ [] })
]

-- The three reasons to leave the loop, in their order.
unfoldable pub check_end : Env → Session → Turn
check_end e s = elim s.comm_socket [
  | none ↦ ends s
  | some fd ↦
      if s.error == err_no_error
      then (if s.transfer_done then ends s else waits s)
      else ends (smsg_error e s)
]

unfoldable pub serve_packet : Config → Env → ℕ → Session → Option Turn
unfolding forward_packet check_end
serve_packet cfg e size s = do
  (s1, _) ← parse_packet cfg e size s
  s2 ← forward_packet size s1
  some (check_end e s2)

-- `getTick() - LastActivityStamp` as a signed 64-bit number.
abbrev pub time_passed : ℕ → ℕ → ℤ
time_passed now stamp =
    let w = u64 (now + (2 ^ 64 - stamp)) in
    if ltb w (2 ^ 63) then pos w else negsuc (2 ^ 64 - w - 1)

-- PacketTimeout * 1000. The overflow of this product of `int`s, from 2147484 seconds on, is not
-- modelled.
abbrev pub milliseconds : ℤ → ℤ
milliseconds (pos n) = pos (n * 1000)
milliseconds (negsuc n) = negsuc (n * 1000 + 999)

-- The retry: the last block, or the last ACK, is sent again.
unfoldable pub resend : Config → Env → Session → Option Session
resend cfg e s = elim s.selected_operation [
  | server_to_client ↦ smsg_data cfg e s
  | client_to_server ↦ smsg_ack_block e s
  | not_initialized ↦ some s
]

-- What a timeout of recv() leads to, and the part of the loop before the next recv(): an empty
-- packet is neither parsed nor passed on.
unfoldable pub on_silence : Config → Env → Session → Option Turn
unfolding resend check_end
on_silence cfg e s =
    let s1 = record s { tick_calls = s.tick_calls + 1 } in
    let s2 = record s1 { window_retry_count = s.window_retry_count + 1 } in
    if leb_ℤ (milliseconds s.packet_timeout)
      (time_passed (e.tick s.tick_calls) s.last_activity_stamp)
    then (if leb_ℤ cfg.retry_resend_packet_max (pos (s.window_retry_count + 1))
        then some (ends s2)
        else (do s3 ← resend cfg e s2; some (check_end e s3)))
    else some (check_end e s1)

unfoldable pub on_event : Config → Env → Event → Session → Option Turn
unfolding receive serve_packet on_silence
on_event cfg e silence s = on_silence cfg e s
on_event cfg e (datagram d) s =
    if length (cut_datagram d s) == 0
    then on_silence cfg e s
    else serve_packet cfg e (length (cut_datagram d s)) (receive (cut_datagram d s) s)

-- The loop over the events that recv() gives, until the session ends.
unfoldable pub serve : Config → Env → List Event → Turn → Option Turn
serve cfg e evs (ends s) = some (ends s)
serve cfg e [] (waits s) = some (waits s)
serve cfg e (ev ∷ evs) (waits s) = do t ← on_event cfg e ev s; serve cfg e evs t

-- The thread's start: the packet that opened the session is in its buffer.
unfoldable pub thread_direct_comm : Config → Env → ℕ → List Event → Session → Option Turn
unfolding serve
thread_direct_comm cfg e size evs s = do t ← serve_packet cfg e size (touch e s); serve cfg e evs t
