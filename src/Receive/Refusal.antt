-- ===== src/Receive/Refusal.antt =====
-- What a DATA or ACK packet that is refused, or accepted, says of the session.
use tftp_server.Base.{u64, ℕ, ◌+◌, ◌≤◌, some, false, ◌≡◌, arith}
use tftp_server.Config.{Config}
use tftp_server.Session.{client_to_server, Env, Session, accepted, refused}
use tftp_server.Send.Data.{over_limit}
use tftp_server.Receive.{cmsg_data, take_data, accept_block, cmsg_ack, take_ack, move_window}

-- Nothing of the transfer has moved.
pub record IsUnmoved (s s' : Session) : Type 0 where
  pub same_file : s'.file ≡ s.file
  pub same_sent : s'.sent ≡ s.sent
  pub same_first : s'.first_block_in_window ≡ s.first_block_in_window
  pub same_window : s'.received ≡ s.received
  pub same_operation : s'.selected_operation ≡ s.selected_operation
  pub same_done : s'.transfer_done ≡ s.transfer_done
  pub same_retries : s'.window_retry_count ≡ s.window_retry_count
  pub same_stamp : s'.last_activity_stamp ≡ s.last_activity_stamp

-- A DATA packet that is refused moves nothing: the file, the packets sent, the window and its
-- start, the direction, the end of the transfer, the count of retries and the time stamp stay.
pub cmsg_data-refused :
    (cfg : Config) (e : Env) (size : ℕ) (s s' : Session)
    → cmsg_data cfg e size s ≡ some (s', refused)
    → IsUnmoved s s'
unfolding cmsg_data take_data accept_block
cmsg_data-refused cfg e size s s' h = ground arith

-- An ACK that is refused moves nothing: the file, the packets sent, the window and its start, the
-- direction, the end of the transfer, the count of retries and the time stamp stay.
pub cmsg_ack-refused :
    (cfg : Config) (e : Env) (size : ℕ) (s s' : Session)
    → cmsg_ack cfg e size s ≡ some (s', refused)
    → IsUnmoved s s'
unfolding cmsg_ack take_ack move_window
cmsg_ack-refused cfg e size s s' h = ground arith

-- A DATA packet is accepted only in an upload, with a whole header, and while the bytes handled,
-- its own included, are not over the limit.
pub cmsg_data-accepted :
    (cfg : Config) (e : Env) (size : ℕ) (s s' : Session)
    → cmsg_data cfg e size s ≡ some (s', accepted)
    → (s.selected_operation ≡ client_to_server)
      × (4 ≤ size)
      × (over_limit cfg (u64 (s.bytes_handled + size)) ≡ false)
unfolding cmsg_data take_data accept_block
cmsg_data-accepted cfg e size s s' h = ground arith
