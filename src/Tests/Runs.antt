-- ===== src/Tests/Runs.antt =====
-- Runs of whole transfers with windows and with noise, and of the requests.
use tftp_server.Base.{
  ℕ, ◌+◌, ◌*◌, ◌≤◌, List, [], ◌∷◌, ◌++◌, none, some, false, pos, replicate, concat, drop, wire_size,
  length, ◌≡◌, ◌≢◌, refl, arith,
}
use tftp_server.Session.{
  Session, accepted, server_to_client, not_initialized, new_session, touch, err_file_not_found,
}
use tftp_server.Send.Data.{data_packet}
use tftp_server.Send.Error.{codes, smsg_error}
use tftp_server.Thread.{Event, datagram, silence, receive, serve, waits, ends}
use tftp_server.Thread.Kept.{serve-IsKept}
use tftp_server.Dispatch.Kept.{IsKept}
use tftp_server.Request.{cmsg_wrq}
use tftp_server.Request.Plain.{request_packet}
use tftp_server.Request.Access.{IsAllowedUpload, cmsg_wrq-IsAllowed}
use tftp_server.Receive.{cmsg_error}
use tftp_server.Receive.Errors.{cmsg_error-smsg_error}
use tftp_server.Upload.{data_events}
use tftp_server.Upload.Transfer.{IsUploaded, serve-blocks}
use tftp_server.Upload.Start.{wrq-accepted}
use tftp_server.Upload.Noise.{IsNoisy, last, block, duplicate, timeout, Acknowledges, serve-noisy}
use tftp_server.Upload.Window.{IsFilling}
use tftp_server.Upload.Window.Transfer.{IsFilled, ack_numbers, serve-filling}
use tftp_server.Download.{blocks, data_packets}
use tftp_server.Download.Transfer.{IsDownloaded}
use tftp_server.Download.Window.Step.{IsWindowed}
use tftp_server.Download.Window.Transfer.{window_acks, serve-windows}
use tftp_server.Tests.{
  example_env, example_config, example_session, example_HasSockets, within_limit, example_blocks,
  example_IsUploadOpen, example_IsNew,
}
use tftp_server.Tests.Parts.{uploading, uploading_start}

-- An upload of two blocks.
upload_run :
    (s' : Session) × (serve example_config example_env
        (data_events 0 example_blocks)
        (waits uploading)
      ≡ some (ends s'))
upload_run =
    let (s', runs, r) =
      serve-blocks example_config example_env (λ n p. refl) example_blocks uploading 0 []
        uploading_start (omega arith) (omega arith) (omega arith)
        (within_limit (wire_size example_blocks) (omega arith)) in
    (s', runs)

begun_upload : uploading.selected_operation ≢ not_initialized
begun_upload = ground arith

serve-IsKept_example : IsKept uploading upload_run.0
serve-IsKept_example =
    serve-IsKept example_config example_env (data_events 0 example_blocks) uploading
      (ends upload_run.0) begun_upload (omega (arith, uploading_start.buffer_size)) upload_run.1

-- The same blocks, with timeouts, a block 0 and a second block 1 in between.
abbrev noise : List Event
noise =
    datagram (data_packet 0 [])
    ∷ silence
    ∷ datagram (data_packet 1 (replicate 512 7))
    ∷ datagram (data_packet 1 (codes "x"))
    ∷ silence
    ∷ datagram (data_packet 2 (codes "end"))
    ∷ []

noise-IsNoisy : IsNoisy 512 4 0 0 example_blocks noise
noise-IsNoisy = duplicate 0 [] _ (omega arith) (omega arith) (
    timeout (omega arith) (
      block (replicate 512 7) _ _ (omega arith) refl (
        duplicate 1 (codes "x") _ (omega arith) (omega arith)
          (timeout (omega arith) (last (codes "end") [] (omega arith) (omega arith))))))

no_timeout_yet : uploading.window_retry_count ≤ 0
unfolding new_session
no_timeout_yet = omega arith

serve-noisy_example :
    (s' : Session) × (acks : List (List ℕ)) × (serve example_config example_env noise
        (waits uploading)
      ≡ some (ends s'))
    × IsUploaded uploading s' (concat example_blocks) acks
    × Acknowledges 2 0 acks
serve-noisy_example =
    serve-noisy example_config example_env (λ n p. refl) 4 refl 1000 (omega arith)
      (within_limit 1000 (omega arith)) 512 2 (omega arith) noise-IsNoisy uploading []
      uploading_start refl no_timeout_yet refl (omega arith)

-- An upload with two blocks to the window.
abbrev filling : Session
filling = record uploading { window_size = pos 2; received = 0 ∷ 0 ∷ [] }

filling_start : IsFilling filling 0 0 []
unfolding new_session
filling_start = record {
  direction = refl;
  window = refl;
  window_free = refl;
  acknowledged = omega arith;
  position = 0;
  stored = refl;
  whole = refl;
  no_error = refl;
  not_done = refl;
  buffer_size = refl;
  socket = 3;
  has_socket = refl;
}

serve-filling_example :
    (s' : Session) × (serve example_config example_env
        (data_events 0 example_blocks)
        (waits filling)
      ≡ some (ends s'))
    × IsFilled filling s' (concat example_blocks) (1 ∷ 1 ∷ [])
unfolding ack_numbers new_session
serve-filling_example =
    serve-filling example_config example_env (λ n p. refl) 0 512 2 (omega arith) (omega arith)
      example_blocks filling 0 [] filling_start refl (omega arith) refl (omega arith)
      (within_limit (wire_size example_blocks) (omega arith))

-- A download in blocks of eight bytes, with two of them to the window: the first window has been
-- sent, and the ACK of its last block is due.
abbrev sending : Session
sending = record example_session {
  selected_operation = server_to_client;
  window_size = pos 2;
  block_size = 8;
  bytes_handled = 16;
  first_block_in_window = 1;
  file = some (record { bytes = replicate 34 7; position = 16 });
  read_done = false;
  buffer = replicate 14 0;
  comm_socket = some 3;
}

sending_start : IsWindowed sending 2 0 (replicate 34 7)
unfolding new_session
sending_start = record {
  direction = refl;
  window = refl;
  next_block = refl;
  position = 16;
  opened = refl;
  no_error = refl;
  not_done = refl;
  buffer_size = refl;
  socket = 3;
  has_socket = refl;
}

serve-windows_example :
    (s' : Session) × (serve example_config example_env (window_acks 2 1 0 0) (waits sending)
      ≡ some (ends s'))
    × IsDownloaded sending s'
        (data_packets (0 + 2) (blocks (1 * 2 + 1) 8 (drop ((0 + 2) * 8) (replicate 34 7))))
serve-windows_example =
    serve-windows example_config example_env (λ n p. refl) (λ n. refl) (replicate 34 7) 2 8
      (omega arith) (omega arith) 1000 (omega arith) (within_limit 1000 (omega arith)) 1 0 0 sending
      sending_start refl refl (omega arith) (omega arith) (omega arith) (omega arith) (omega arith)

-- A request for a file on the list.
abbrev write_request : List ℕ
write_request = request_packet 2 (codes "b.bin") (codes "octet")

abbrev asked : List ℕ → Session
asked request = touch example_env (receive request example_session)

wrq_run :
    (s' : Session) × (cmsg_wrq example_config example_env
        (length write_request)
        (asked write_request)
      ≡ some (s', accepted))
wrq_run = (
  _,
  wrq-accepted example_config example_env (λ n p. refl) example_HasSockets 65534 refl
      example_session example_IsNew (codes "b.bin") (codes "octet") (omega arith) (omega arith)
      (omega arith) example_IsUploadOpen,
)

none_open : (request : List ℕ) → (asked request).file ≡ none
unfolding new_session receive
none_open request = refl

cmsg_wrq-IsAllowed_example :
    IsAllowedUpload example_config example_env
      (length write_request)
      (asked write_request)
      wrq_run.0
cmsg_wrq-IsAllowed_example =
    cmsg_wrq-IsAllowed example_config example_env (length write_request) (asked write_request)
      wrq_run.0 accepted (none_open write_request) wrq_run.1

-- A session whose file was not found tells the client so.
abbrev failed : Session
failed = record example_session { error = err_file_not_found }

cmsg_error-smsg_error_example :
    (p : List ℕ) × ((smsg_error example_env failed).sent ≡ failed.sent ++ p ∷ [])
    × (cmsg_error (length p) (receive p example_session)
        ≡ some (record (receive p example_session) { error = 1 }, accepted))
cmsg_error-smsg_error_example =
    cmsg_error-smsg_error example_env failed example_session (omega arith) refl
