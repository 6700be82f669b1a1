-- ===== src/Download.antt =====
-- A download with one block to the window: CMSG_ACK and SMSG_DATA in the loop of ThreadDirectComm.
pub mod Allowed
pub mod Answers
pub mod Negotiated
pub mod Block
pub mod Safety
pub mod Silence
pub mod Faults
pub mod Start
pub mod Transfer
pub mod Window
use tftp_server.Base.{
  ℕ, zero, suc, ◌+◌, ◌*◌, ◌<◌, ◌≤◌, List, [], ◌∷◌, ◌++◌, Option, some, Bool, false, ℤ, pos, length,
  take, drop, ltb, ◌≡◌,
}
use tftp_server.Session.{
  Operation, server_to_client, Session, File, err_no_error, header_size, packet_safety_pad,
}
use tftp_server.Send.Ack.{ack_packet}
use tftp_server.Send.Data.{data_packet}
use tftp_server.Thread.{Event, datagram}

-- Block `k + 1` of the file `content` has been sent, and the session waits for its ACK.
pub record IsDownloading (s : Session) (k : ℕ) (content : List ℕ) : Type 0 where
  pub direction : s.selected_operation ≡ server_to_client
  pub one_block : s.window_size ≡ pos 1
  pub next_block : s.first_block_in_window ≡ suc k
  pub position : ℕ
  pub opened : s.file ≡ some (record { bytes = content; position = position })
  pub end_reached : s.read_done ≡ ltb (length content) (suc k * s.block_size)
  pub no_error : s.error ≡ err_no_error
  pub not_done : s.transfer_done ≡ false
  pub block_fits : 0 < s.block_size
  pub buffer_size : length s.buffer ≡ s.block_size + header_size + packet_safety_pad
  pub socket : ℕ
  pub has_socket : s.comm_socket ≡ some socket

-- The first `n` blocks of a text.
abbrev pub blocks : ℕ → ℕ → List ℕ → List (List ℕ)
blocks zero size content = []
blocks (suc n) size content = take size content ∷ blocks n size (drop size content)

-- The DATA packets behind block `k`, and the ACKs of `n` blocks behind block `k`.
abbrev pub data_packets : ℕ → List (List ℕ) → List (List ℕ)
data_packets k [] = []
data_packets k (b ∷ bs) = data_packet (suc k) b ∷ data_packets (suc k) bs

abbrev pub ack_events : ℕ → ℕ → List Event
ack_events k zero = []
ack_events k (suc n) = datagram (ack_packet (suc k)) ∷ ack_events (suc k) n
