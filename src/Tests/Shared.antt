-- ===== src/Tests/Shared.antt =====
-- Runs of the options, of the list of clients, and of the encoding.
use tftp_server.Base.{
  ◌%◌, ◌==◌, Bool, ℕ, List, [], ◌∷◌, ◌++◌, none, some, false, pos, replicate, ◌≡◌, refl, arith,
  be16, inl,
}
use tftp_server.Config.{Config, default_config}
use tftp_server.Session.{Session, new_session}
use tftp_server.Text.{c_string, stricmp_eq, atoi, print_int}
use tftp_server.Send.Error.{codes}
use tftp_server.Send.Oack.{empty_oack, put_text}
use tftp_server.Options.{Options, parse_loop, parse_options}
use tftp_server.Options.Fuel.{Runs, IsEnded, parse_loop-Runs}
use tftp_server.Options.Bounds.{IsNegotiated, parse_options-IsNegotiated}
use tftp_server.Server.{Entry, Server, admits, run, start_server, thread_starts, is_live}
use tftp_server.Server.Registry.{Holds, admits_iff}
use tftp_server.Server.Overrun.{requests, run-overrun}
use tftp_server.Base64.{base64_encode}
use tftp_server.Base64.RoundTrip.{decode, decode-base64_encode}
use tftp_server.Session.{Env}
use tftp_server.Socket.{create_comm_udp_socket}
use tftp_server.Socket.Range.{InRange, Accounted, create_comm_udp_socket-Accounted}
use tftp_server.Sqs.{
  Client, Interface, inet, Call, packet_arrives, socket_closes, run_calls, sqs_init, initial,
}
use tftp_server.Sqs.Lost.{run_calls-initial}
use tftp_server.Tests.{example_config, example_env, example_session}

-- Two clients, and a list with room for two.
abbrev alice : Entry
alice = record { session = 1; address = 10 }

abbrev bob : Entry
bob = record { session = 2; address = 20 }

abbrev two_clients : Server
two_clients = record {
  active = some alice ∷ some bob ∷ none ∷ [];
  transfer_counter = 2;
  live = 1 ∷ 2 ∷ [];
  pending = [];
}

abbrev three_transfers : Config
three_transfers = record default_config { parallel_transfers_max = pos 3 }

clients_Holds : Holds (alice ∷ bob ∷ []) two_clients.live two_clients.active
unfolding is_live
clients_Holds = (refl, refl, (refl, refl, tt))

admits_iff_example : admits three_transfers 30 2 20 two_clients ≡ some false
admits_iff_example =
    admits_iff three_transfers 30 2 20 two_clients (alice ∷ bob ∷ []) refl clients_Holds
      (omega arith) refl

run-overrun_example :
    run default_config
      (requests (alice ∷ bob ∷ alice ∷ []) ++ replicate 3 thread_starts)
      (start_server default_config)
    ≡ none
run-overrun_example = run-overrun default_config 0 (alice ∷ bob ∷ alice ∷ []) refl refl

decode-base64_encode_example :
    (out : List ℕ) × (base64_encode (codes "TFTP") ≡ some out) × (decode out ≡ some (codes "TFTP"))
decode-base64_encode_example = decode-base64_encode (codes "TFTP") (omega arith) (omega arith)

abbrev asking : Session
asking = record example_session {
  block_size = 512;
  packet_timeout = pos 1;
  buffer = codes "windowsize" ++ 0 ∷ codes "4" ++ 0 ∷ replicate 505 0;
}

abbrev start : Options
start = record { session = asking; packet = asking.buffer; oack = empty_oack }

parse_loop-Runs_example :
    Runs example_config example_env 13 0 start (parse_loop example_config example_env 13 13 0 start)
    × IsEnded 13 (parse_loop example_config example_env 13 13 0 start)
parse_loop-Runs_example = parse_loop-Runs example_config example_env 13 13 0 start (omega arith)

asking-IsNegotiated : IsNegotiated example_config asking
unfolding new_session
asking-IsNegotiated = record {
  buffer_size = refl;
  block_low = omega arith;
  block_high = omega arith;
  window_low = omega arith;
  window_floor = inl refl;
  window_high = omega arith;
  timeout_low = omega arith;
  timeout_high = omega arith;
}

abbrev answered : Session
answered = record asking {
  window_size = pos 4;
  sent = (be16 6 ++ codes "windowsize" ++ 0 ∷ codes "4") ∷ [];
  send_calls = 1;
}

parsed : parse_options example_config example_env 13 0 asking ≡ some answered
unfolding parse_options new_session c_string stricmp_eq atoi put_text print_int
parsed = refl

parse_options-IsNegotiated_example : IsNegotiated example_config answered
parse_options-IsNegotiated_example =
    parse_options-IsNegotiated example_config example_env
      (record { windows = omega arith; ordered = omega arith; timeouts = omega arith }) 13 0 asking
      answered asking-IsNegotiated parsed

-- Every other port cannot be bound.
abbrev busy_env : Env
busy_env = record example_env { bind = λ n port. port % 2 == 1 }

new_session-InRange : InRange 49152 65535 example_session
unfolding new_session
new_session-InRange = (omega arith, omega arith)

no_server_socket : example_session.server_socket ≡ none
unfolding new_session
no_server_socket = refl

create_comm_udp_socket-Accounted_example :
    (s' : Session) × (ok : Bool) × (create_comm_udp_socket example_config busy_env example_session
      ≡ some (s', ok))
    × InRange 49152 65535 s'
    × Accounted busy_env example_session s' ok
create_comm_udp_socket-Accounted_example =
    create_comm_udp_socket-Accounted example_config busy_env 49152 65535 refl refl (omega arith)
      (omega arith) example_session no_server_socket new_session-InRange

abbrev pub print_guid : ℕ → List ℕ
print_guid n = codes "session"

-- Two packets on one socket, and its end.
abbrev two_packets : List Call
two_packets =
    packet_arrives (codes "RRQ") (some 3) (codes "10.0.0.2")
    ∷ packet_arrives (codes "ACK") (some 3) (codes "10.0.0.2")
    ∷ socket_closes 3
    ∷ []

-- The loopback interface, and one with an address.
abbrev pub two_interfaces : List Interface
two_interfaces = inet (127 ∷ 0 ∷ 0 ∷ 1 ∷ []) ∷ inet (10 ∷ 0 ∷ 0 ∷ 1 ∷ []) ∷ []

abbrev pub example_ntop : Interface → List ℕ
example_ntop i = codes "10.0.0.1"

abbrev pub example_client : Client
example_client = record {
  sessions = [];
  server_id = some (codes "lab");
  server_port = 69;
  server_ip = some (codes "10.0.0.1");
  guids_made = 0;
  messages = [];
}

pub example_client_set_up :
    sqs_init example_ntop two_interfaces (codes "lab") 69 initial ≡ some example_client
unfolding sqs_init initial
example_client_set_up = refl

run_calls-initial_example :
    (c : Client) × (run_calls print_guid two_packets example_client ≡ some c)
    × (c.sessions ≡ [])
    × (c.guids_made ≡ 2)
run_calls-initial_example =
    run_calls-initial print_guid example_ntop two_interfaces (codes "lab") 69 two_packets
      example_client example_client_set_up
