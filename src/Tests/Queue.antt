-- ===== src/Tests/Queue.antt =====
-- A run of the messages.
use tftp_server.Base.{ℕ, All, List, [], ◌∷◌, map, some, ◌≡◌, arith}
use tftp_server.Send.Error.{codes}
use tftp_server.Sqs.{Client, run_calls}
use tftp_server.Sqs.Message.{IsDatagram, IsGuid, read_message}
use tftp_server.Sqs.Delivery.{Datagram, arrive, with_guids, read_message-run_calls}
use tftp_server.Tests.Shared.{
  print_guid, two_interfaces, example_ntop, example_client, example_client_set_up,
}

-- Two packets on two sockets.
abbrev two_arrivals : List Datagram
two_arrivals =
    record { packet = 0 ∷ 4 ∷ 0 ∷ 1 ∷ []; socket = 3; ip = codes "10.0.0.2" }
    ∷ record { packet = 0 ∷ 4 ∷ 0 ∷ 39 ∷ 255 ∷ []; socket = 4; ip = codes "10.0.0.3" }
    ∷ []

two_arrivals-IsDatagram : All (λ a. IsDatagram a.packet) two_arrivals
two_arrivals-IsDatagram = (
  record {
    bytes = (omega arith, (omega arith, (omega arith, (omega arith, tt))));
    not_empty = omega arith;
    one_datagram = omega arith;
  },
  (
    record {
      bytes = (omega arith, (omega arith, (omega arith, (omega arith, (omega arith, tt)))));
      not_empty = omega arith;
      one_datagram = omega arith;
    },
    tt,
  ),
)

print_guid-IsGuid : (n : ℕ) → IsGuid (print_guid n)
print_guid-IsGuid n = record { plain = ground arith; short = omega arith }

read_message-run_calls_example :
    (c : Client) × (run_calls print_guid (map arrive two_arrivals) example_client ≡ some c)
    × (map read_message c.messages ≡ with_guids print_guid 0 two_arrivals)
read_message-run_calls_example =
    read_message-run_calls print_guid example_ntop two_interfaces (codes "lab") 69 two_arrivals
      example_client print_guid-IsGuid two_arrivals-IsDatagram example_client_set_up
