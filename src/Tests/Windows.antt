-- ===== src/Tests/Windows.antt =====
-- Runs with windows in which a block is lost: block 2 of an upload, and block 5 of a download.
use tftp_server.Base.{
  ℕ, List, [], ◌∷◌, ◌++◌, ◌+◌, ◌*◌, ◌-◌, some, pos, replicate, length, ◌≡◌, refl, arith, drop,
  false,
}
use tftp_server.Session.{Session, server_to_client, new_session, accepted, refused}
use tftp_server.Send.Error.{codes}
use tftp_server.Send.Ack.{ack_packet}
use tftp_server.Send.Data.{data_packet}
use tftp_server.Receive.{cmsg_data}
use tftp_server.Thread.{receive, datagram, serve, waits, ends}
use tftp_server.Download.{blocks, data_packets}
use tftp_server.Download.Transfer.{IsDownloaded}
use tftp_server.Download.Window.Step.{IsWindowed}
use tftp_server.Download.Window.Early.{serve-early}
use tftp_server.Upload.Window.{IsFilling}
use tftp_server.Upload.Window.Lost.{cmsg_data-lost}
use tftp_server.Tests.{example_config, example_env, example_session, within_limit}
use tftp_server.Tests.Parts.{uploading}

abbrev first_stored : Session
first_stored = record uploading {
  window_size = pos 2;
  received = 0 ∷ 0 ∷ [];
  first_block_in_window = 1;
  file = some (record { bytes = replicate 512 7; position = 512 });
}

first_stored-IsFilling : IsFilling first_stored 0 1 (replicate 512 7)
unfolding new_session
first_stored-IsFilling = record {
  direction = refl;
  window = refl;
  window_free = refl;
  acknowledged = omega arith;
  position = 512;
  stored = refl;
  whole = refl;
  no_error = refl;
  not_done = refl;
  buffer_size = refl;
  socket = 3;
  has_socket = refl;
}

cmsg_data-lost_example :
    (s' : Session) × (cmsg_data example_config example_env 7
        (receive (data_packet 3 (codes "end")) first_stored)
      ≡ some (s', accepted))
    × (s'.sent ≡ first_stored.sent ++ ack_packet 2 ∷ [])
    × (s'.file
        ≡ some (record {
          bytes = (replicate 512 7 ++ replicate ((3 - 1) * 512 - 1 * 512) 0) ++ codes "end";
          position = (3 - 1) * 512 + 3;
        }))
    × ((late : List ℕ)
        → (s'' : Session) × (cmsg_data example_config example_env
              (length late + 4)
              (receive (data_packet 2 late) s')
            ≡ some (s'', refused))
          × (s''.file ≡ s'.file))
cmsg_data-lost_example =
    cmsg_data-lost example_config example_env (λ n p. refl) first_stored (replicate 512 7)
      (codes "end") 0 1 3 first_stored-IsFilling refl (omega arith) (omega arith) refl (omega arith)
      (omega arith) (omega arith) (within_limit 7 (omega arith) 7 (omega arith))

-- A window of three blocks, and three blocks behind it, of which the second is lost.
abbrev wide : Session
wide = record example_session {
  selected_operation = server_to_client;
  window_size = pos 3;
  block_size = 8;
  bytes_handled = 24;
  first_block_in_window = 1;
  read_done = false;
  buffer = replicate 14 0;
  comm_socket = some 3;
  file = some (record { bytes = replicate 44 7; position = 24 });
}

wide_start : IsWindowed wide 3 0 (replicate 44 7)
unfolding new_session
wide_start = record {
  direction = refl;
  window = refl;
  next_block = refl;
  position = 24;
  opened = refl;
  no_error = refl;
  not_done = refl;
  buffer_size = refl;
  socket = 3;
  has_socket = refl;
}

serve-early_example :
    (s' : Session) × (serve example_config example_env
        (datagram (ack_packet 3) ∷ datagram (ack_packet 4) ∷ datagram (ack_packet 4) ∷ [])
        (waits wide)
      ≡ some (ends s'))
    × IsDownloaded wide s' (data_packets 3 (blocks 3 8 (drop 24 (replicate 44 7))))
serve-early_example =
    serve-early example_config example_env (λ n p. refl) (λ n. refl) (replicate 44 7) 3 8
      (omega arith) 1000 (omega arith) (within_limit 1000 (omega arith)) 1 2 0 wide
      (datagram (ack_packet 4) ∷ []) wide_start refl refl (omega arith) (omega arith) (omega arith)
      (omega arith) (omega arith) (omega arith) (omega arith)
