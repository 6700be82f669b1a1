-- ===== src/Tests.antt =====
-- Runs of the code at concrete inputs, which show that the theorems' conditions can be met: the
-- transfers here, the parts of the server in the children.
pub mod Answers
pub mod Clock
pub mod Exchange
pub mod Files
pub mod Lists
pub mod Negotiation
pub mod Parts
pub mod Queue
pub mod Reuse
pub mod Runs
pub mod Setup
pub mod Shared
pub mod Steps
pub mod Windows
use tftp_server.Base.{
  ℕ, suc, ◌+◌, ◌*◌, ◌≤◌, ◌<◌, ◌^◌, List, [], ◌∷◌, ◌++◌, Option, some, true, false, pos, negsuc,
  replicate, concat, wire_size, length, ◌≡◌, refl, arith,
}
use tftp_server.Config.{Config, default_config}
use tftp_server.Text.{strcmp_eq, stricmp_eq, to_lower}
use tftp_server.Session.{Env, Session, client_to_server, server_to_client, new_session}
use tftp_server.Socket.Frame.{HasSockets}
use tftp_server.Send.Ack.{ack_packet}
use tftp_server.Send.Data.{over_limit}
use tftp_server.Send.Error.{codes}
use tftp_server.Thread.{thread_direct_comm, receive, ends}
use tftp_server.Request.{is_uploadable, is_downloadable}
use tftp_server.Request.Plain.{request_packet}
use tftp_server.Request.New.{IsNew, new_session-IsNew}
use tftp_server.Upload.{IsWithinLimit, data_events, ack_packets}
use tftp_server.Upload.Transfer.{IsUploaded}
use tftp_server.Upload.Start.{IsUploadOpen, upload_lem}
use tftp_server.Download.{IsDownloading, blocks, data_packets, ack_events}
use tftp_server.Download.Transfer.{IsDownloaded}
use tftp_server.Download.Start.{download_lem}

abbrev pub file_text : List ℕ
file_text = replicate 512 7 ++ codes "end"

-- A system without faults, whose clock advances by two seconds between readings.
abbrev pub example_env : Env
example_env = record {
  tick = λ n. n * 2000;
  send = λ n p. true;
  socket = λ n. some (n + 3);
  bind = λ n port. true;
  connect = λ n. true;
  malloc = λ n. true;
  uninitialized = λ n. 0xCD;
  realloc_moves = λ n. false;
  open_read = λ name. some file_text;
  open_write = λ name. true;
}

abbrev pub example_config : Config
example_config = record default_config {
  downloadable_file_names = codes "a.bin" ∷ [];
  uploadable_file_names = codes "b.bin" ∷ [];
}

abbrev pub example_session : Session
example_session = record (new_session example_config example_env 49152) { client = some 1 }

abbrev pub example_HasSockets : HasSockets example_env
example_HasSockets = record {
  number = λ n. n + 3;
  sockets = λ n. refl;
  binds = λ n port. refl;
  connects = λ n. refl;
}

pub example_IsNew : IsNew example_session
example_IsNew = new_session-IsNew example_config example_env 49152 1

pub within_limit : (total : ℕ) → total ≤ 1000 → IsWithinLimit example_config total
unfolding over_limit
within_limit total h n le = ground arith

abbrev pub example_blocks : List (List ℕ)
example_blocks = replicate 512 7 ∷ codes "end" ∷ []

pub example_IsUploadOpen : IsUploadOpen example_config example_env (codes "b.bin")
unfolding is_uploadable strcmp_eq
example_IsUploadOpen = record { allowed = refl; writes = refl; opens = refl }

upload_lem_example :
    (s' : Session) × (thread_direct_comm example_config example_env
        (length (request_packet 2 (codes "b.bin") (codes "octet")))
        (data_events 0 example_blocks)
        (receive (request_packet 2 (codes "b.bin") (codes "octet")) example_session)
      ≡ some (ends s'))
    × IsUploaded example_session s'
        (concat example_blocks)
        (ack_packet 0 ∷ ack_packets 0 example_blocks)
upload_lem_example =
    upload_lem example_config example_env (λ n p. refl) example_HasSockets 65534 refl
      example_session example_IsNew (codes "b.bin") (codes "octet") (omega arith) (omega arith)
      (omega arith) example_IsUploadOpen example_blocks (omega arith) (omega arith) (omega arith)
      (within_limit (wire_size example_blocks) (omega arith))

pub example_downloadable :
    is_downloadable (codes "A.BIN") example_config.downloadable_file_names ≡ true
unfolding is_downloadable stricmp_eq to_lower
example_downloadable = refl

download_lem_example :
    (s' : Session) × (thread_direct_comm example_config example_env
        (length (request_packet 1 (codes "A.BIN") (codes "octet")))
        (ack_events 0 2)
        (receive (request_packet 1 (codes "A.BIN") (codes "octet")) example_session)
      ≡ some (ends s'))
    × IsDownloaded example_session s' (data_packets 0 (blocks 2 512 file_text))
    × (concat (blocks 2 512 file_text) ≡ file_text)
download_lem_example =
    download_lem example_config example_env (λ n p. refl) (λ n. refl) example_HasSockets 65534 refl
      example_session example_IsNew (codes "A.BIN") (codes "octet") file_text (omega arith)
      (omega arith) (omega arith) example_downloadable refl
      (within_limit (length file_text) (omega arith)) 1 (omega arith) (omega arith) (omega arith)

-- An upload whose block 5 has been acknowledged.
abbrev quiet_session : Session
quiet_session = record example_session {
  selected_operation = client_to_server;
  received = 0 ∷ [];
  first_block_in_window = 5;
  comm_socket = some 3;
  packet_timeout = pos 1;
  tick_calls = 1;
}

-- A download whose last block, of three bytes, has been sent.
abbrev sending_session : Session
sending_session = record example_session {
  selected_operation = server_to_client;
  first_block_in_window = 2;
  file = some (record { bytes = file_text; position = 515 });
  read_done = true;
  comm_socket = some 3;
}

sending : IsDownloading sending_session 1 file_text
unfolding new_session
sending = record {
  direction = refl;
  one_block = refl;
  next_block = refl;
  position = 515;
  opened = refl;
  end_reached = refl;
  no_error = refl;
  not_done = refl;
  block_fits = omega arith;
  buffer_size = refl;
  socket = 3;
  has_socket = refl;
}

sending_start :
    (sending_session.window_retry_count ≡ 0)
    × (1 * sending_session.block_size < 2 ^ 31)
    × (sending_session.bytes_handled + 1000 * sending_session.block_size < 2 ^ 64)
unfolding new_session
sending_start = (refl, omega arith, omega arith)

abbrev unlimited : Config
unlimited = record example_config { kill_connection_after_x_bytes_received = pos 0 }
