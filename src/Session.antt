-- ===== src/Session.antt =====
-- src/TFTP.h and the constructor and destructor in src/TFTP.cpp: the state of one client session.
-- What the operating system answers is an argument, `Env`; the calls are numbered in the session,
-- so that each call may be answered differently.
use tftp_server.Base.{
  ℕ, zero, suc, ◌+◌, List, [], ◌∷◌, ◌++◌, Option, none, some, Bool, false, ℤ, pos, if◌then◌else◌,
}
use tftp_server.Config.{Config}

-- TFTP_SessionOperations.
pub data Operation : Type 0 where
  not_initialized client_to_server server_to_client : Operation

-- TFTP_ERROR_CODES: the field also takes any code that a client sends.
abbrev pub err_undefined : ℕ
err_undefined = 0

abbrev pub err_file_not_found : ℕ
err_file_not_found = 1

abbrev pub err_disk_full : ℕ
err_disk_full = 3

abbrev pub err_illegal_operation : ℕ
err_illegal_operation = 4

abbrev pub err_no_error : ℕ
err_no_error = 0xFF

-- TFTP_HEADER_SIZE, TFTP_DATA_BLOCK_SIZE, TFTP_PACKET_SAFETY_PAD.
abbrev pub header_size : ℕ
header_size = 4

abbrev pub data_block_size : ℕ
data_block_size = 512

abbrev pub packet_safety_pad : ℕ
packet_safety_pad = 2

-- An open `FILE*`: what the file holds, and the position in it.
pub record File : Type 0 where
  pub bytes : List ℕ
  pub position : ℕ

-- The answers of the operating system and of the allocator. The first argument of a function is
-- the number of earlier calls of that function, unless said otherwise; `true` is a success.
pub record Env : Type 0 where
  -- getTick(): milliseconds, 32 bits.
  pub tick : ℕ → ℕ
  -- send() reports the full length of the packet.
  pub send : ℕ → List ℕ → Bool
  -- socket(): `none` is INVALID_SOCKET_2.
  pub socket : ℕ → Option ℕ
  -- bind() to a port, and connect() to the client.
  pub bind : ℕ → ℕ → Bool
  pub connect : ℕ → Bool
  -- malloc() of so many bytes, in SMSG_DATA.
  pub malloc : ℕ → Bool
  -- The bytes of memory that nothing has been written to.
  pub uninitialized : ℕ → ℕ
  -- realloc() to a size returns another address.
  pub realloc_moves : ℕ → Bool
  -- fopen(name, "rb") with the file's contents, and fopen(name, "wb").
  pub open_read : List ℕ → Option (List ℕ)
  pub open_write : List ℕ → Bool

-- TFTPSession. `buffer` is the block that LastRecvPacket points to, `received` the array
-- BlockNrInWindowReceived, empty for NULL. The last fields stand outside the class: the port
-- NextPortToUse, the packets sent so far, those passed to AWS, the sockets closed, and the numbers of calls made.
pub record Session : Type 0 where
  pub file : Option File
  pub selected_operation : Operation
  pub bytes_handled : ℕ
  pub client : Option ℕ
  pub last_activity_stamp : ℕ
  pub window_retry_count : ℕ
  pub error : ℕ
  pub buffer : List ℕ
  pub comm_socket : Option ℕ
  pub port_prefered : ℕ
  pub read_done : Bool
  pub transfer_done : Bool
  pub block_size : ℕ
  pub packet_timeout : ℤ
  pub window_size : ℤ
  pub first_block_in_window : ℕ
  pub received : List ℕ
  pub server_socket : Option ℕ
  pub next_port_to_use : ℕ
  pub sent : List (List ℕ)
  pub forwarded : List (List ℕ)
  pub closed : List ℕ
  pub tick_calls : ℕ
  pub send_calls : ℕ
  pub socket_calls : ℕ
  pub connect_calls : ℕ

-- `n` bytes of a fresh block, from index `i` on.
unfoldable pub fresh : Env → ℕ → ℕ → List ℕ
fresh e i zero = []
fresh e i (suc n) = e.uninitialized i ∷ fresh e (suc i) n

-- TFTPSession::TFTPSession, with the member initialisers.
unfoldable pub new_session : Config → Env → ℕ → Session
unfolding fresh
new_session cfg e next_port = record {
  file = none;
  selected_operation = not_initialized;
  bytes_handled = 0;
  client = none;
  last_activity_stamp = 0;
  window_retry_count = 0;
  error = err_no_error;
  buffer = fresh e 0 (data_block_size + header_size + packet_safety_pad);
  comm_socket = none;
  port_prefered = 0;
  read_done = false;
  transfer_done = false;
  block_size = data_block_size;
  packet_timeout = cfg.client_timeout_sec_min;
  window_size = pos 1;
  first_block_in_window = 0;
  received = [];
  server_socket = none;
  next_port_to_use = next_port;
  sent = [];
  forwarded = [];
  closed = [];
  tick_calls = 0;
  send_calls = 0;
  socket_calls = 0;
  connect_calls = 0;
}

-- TFTPSession::~TFTPSession: the file and the communication socket are closed.
unfoldable pub close_session : Session → Session
close_session s = elim s.comm_socket [
  | none ↦ record s { buffer = []; file = none; received = [] }
  | some fd ↦ record s {
    buffer = [];
    file = none;
    comm_socket = none;
    received = [];
    closed = s.closed ++ fd ∷ [];
  }
]

-- sess->LastActivityStamp = getTick().
abbrev pub touch : Env → Session → Session
touch e s = record s { last_activity_stamp = e.tick s.tick_calls; tick_calls = s.tick_calls + 1 }

-- send(sess->CommSocket, packet, ...): whether the whole packet went out.
abbrev pub send_ok : Env → List ℕ → Session → Bool
send_ok e p s = e.send s.send_calls p

abbrev pub send_packet : Env → List ℕ → Session → Session
send_packet e p s = record s {
  sent = (if send_ok e p s then s.sent ++ p ∷ [] else s.sent);
  send_calls = s.send_calls + 1;
}

-- What a handler returns: 0 or -1.
pub data Status : Type 0 where
  accepted refused : Status
