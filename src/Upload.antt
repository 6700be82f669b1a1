-- ===== src/Upload.antt =====
-- An upload with one block to the window, which is what a client gets that asks for no other:
-- CMSG__DATA and SMSG_ACK_Block in the loop of ThreadDirectComm.
pub mod Block
pub mod Faults
pub mod Negotiated
pub mod Noise
pub mod Start
pub mod Transfer
pub mod Window
use tftp_server.Base.{
  ℕ, suc, ◌+◌, ◌<◌, ◌≤◌, ◌^◌, List, [], ◌∷◌, ◌++◌, Option, some, Bool, true, false, u64, ℤ, pos,
  length, ◌≡◌,
}
use tftp_server.Config.{Config}
use tftp_server.Session.{
  Operation, client_to_server, Env, Session, File, err_no_error, header_size, packet_safety_pad,
}
use tftp_server.Send.Ack.{ack_packet}
use tftp_server.Send.Data.{data_packet, over_limit}
use tftp_server.Thread.{Event, datagram}

-- The session waits for block `k + 1`, and has stored `content` from the blocks before it.
pub record IsUploading (s : Session) (k : ℕ) (content : List ℕ) : Type 0 where
  pub direction : s.selected_operation ≡ client_to_server
  pub one_block : s.window_size ≡ pos 1
  pub window_free : s.received ≡ 0 ∷ []
  pub next_block : s.first_block_in_window ≡ k
  pub stored : s.file ≡ some (record { bytes = content; position = length content })
  pub no_error : s.error ≡ err_no_error
  pub not_done : s.transfer_done ≡ false
  pub buffer_size : length s.buffer ≡ s.block_size + header_size + packet_safety_pad
  pub socket : ℕ
  pub has_socket : s.comm_socket ≡ some socket

-- Every packet that the server sends goes out whole.
abbrev pub AllSent : Env → Type 0
AllSent e = (n : ℕ) (p : List ℕ) → e.send n p ≡ true

-- So many bytes do not reach the limit of the configuration.
abbrev pub IsWithinLimit : Config → ℕ → Type 0
IsWithinLimit cfg total = (n : ℕ) → n ≤ total → over_limit cfg n ≡ false

-- The blocks of an upload: full ones, and a last one that is short and not empty.
abbrev pub AreBlocks : ℕ → List (List ℕ) → Type 0
AreBlocks size [] = ⊥
AreBlocks size (b ∷ []) = (0 < length b) × (length b < size)
AreBlocks size (b ∷ c ∷ bs) = (length b ≡ size) × (0 < size) × AreBlocks size (c ∷ bs)

-- The client's DATA packets behind block `k`, and the numbers that the server acknowledges.
abbrev pub data_events : ℕ → List (List ℕ) → List Event
data_events k [] = []
data_events k (b ∷ bs) = datagram (data_packet (suc k) b) ∷ data_events (suc k) bs

abbrev pub ack_packets : ℕ → List (List ℕ) → List (List ℕ)
ack_packets k [] = []
ack_packets k (b ∷ bs) = ack_packet (suc k) ∷ ack_packets (suc k) bs
