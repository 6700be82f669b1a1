-- ===== src/Tests/Answers.antt =====
-- A run of a download whose client sends what it should not.
use tftp_server.Base.{List, [], ◌∷◌, some, false, pos, replicate, ◌≡◌, refl, arith}
use tftp_server.Session.{Session, server_to_client, new_session}
use tftp_server.Send.Ack.{ack_packet}
use tftp_server.Send.Data.{
  data_packet, smsg_data, seek_block, send_window, round_session, after_block, over_limit,
}
use tftp_server.Send.Error.{codes}
use tftp_server.Receive.{cmsg_ack, cmsg_data, take_ack, move_window}
use tftp_server.Dispatch.{parse_packet}
use tftp_server.Request.{cmsg_rrq, is_downloadable}
use tftp_server.Text.{c_string}
use tftp_server.Socket.{create_comm_udp_socket, try_ports}
use tftp_server.Options.{parse_options}
use tftp_server.Request.Plain.{request_packet}
use tftp_server.Thread.{
  Event, datagram, silence, waits, ends, receive, thread_direct_comm, serve, on_event, serve_packet,
}
use tftp_server.Download.Allowed.{IsAllowed}
use tftp_server.Download.Answers.{IsServing}
use tftp_server.Download.Allowed.Run.{thread_direct_comm-IsAllowed}
use tftp_server.Tests.{example_config, example_env, example_session}

-- The first window of two blocks of eight bytes has been sent.
abbrev serving : Session
serving = record example_session {
  selected_operation = server_to_client;
  window_size = pos 2;
  block_size = 8;
  bytes_handled = 16;
  first_block_in_window = 1;
  file = some (record { bytes = replicate 34 7; position = 16 });
  read_done = false;
  buffer = replicate 14 0;
  comm_socket = some 3;
}

serving-IsServing : IsServing (replicate 34 7) 8 serving
serving-IsServing = record { direction = refl; opened = refl; block_size = refl; due = omega arith }

-- An ACK outside the window, the ACK of the first block only, a timeout, and a DATA packet.
abbrev odd_events : List Event
odd_events =
    datagram (ack_packet 9)
    ∷ datagram (ack_packet 1)
    ∷ silence
    ∷ datagram (data_packet 1 (codes "abc"))
    ∷ []

odd_run :
    (s' : Session) × (serve example_config example_env odd_events (waits serving) ≡ some (ends s'))
unfolding serve on_event serve_packet parse_packet cmsg_ack take_ack new_session cmsg_data
    move_window smsg_data seek_block send_window after_block over_limit round_session
odd_run = (_, refl)

-- The request, and the events behind it.
abbrev asked : Session
asked = receive (request_packet 1 (codes "A.BIN") (codes "octet")) example_session

asked_run :
    (s' : Session) × (thread_direct_comm example_config example_env 14
        (datagram (ack_packet 9) ∷ datagram (data_packet 1 (codes "abc")) ∷ [])
        asked
      ≡ some (ends s'))
unfolding thread_direct_comm serve on_event serve_packet parse_packet cmsg_ack take_ack new_session
    cmsg_data smsg_data seek_block send_window after_block over_limit round_session cmsg_rrq
    c_string create_comm_udp_socket try_ports is_downloadable parse_options
asked_run = (_, refl)

thread_direct_comm-IsAllowed_example : IsAllowed example_config example_env asked asked_run.0
unfolding receive new_session
thread_direct_comm-IsAllowed_example =
    thread_direct_comm-IsAllowed example_config example_env 14
      (datagram (ack_packet 9) ∷ datagram (data_packet 1 (codes "abc")) ∷ []) asked
      (ends asked_run.0) refl refl refl asked_run.1
