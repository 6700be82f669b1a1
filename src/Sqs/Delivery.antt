-- ===== src/Sqs/Delivery.antt =====
-- What src/AWSSQS.cpp hands to the SDK for the packets that arrive.
use tftp_server.Base.{
  ℕ, ◌+◌, ◌-◌, List, [], ◌∷◌, ◌++◌, Option, some, take, map, ◌≡◌, refl, arith, ◌∙◌, All, sym,
  append_assoc, append-nil,
}
use mathlib.Core.List.{map-append}
use tftp_server.Base64.{base64_encode}
use tftp_server.Base64.RoundTrip.{decode, decode-base64_encode}
use tftp_server.Sqs.{
  Client, Call, packet_arrives, queue_encoded, run_call, run_calls, message_text,
  message_buffer_size, count_queued, Interface, sqs_init, initial,
}
use tftp_server.Sqs.Lost.{
  IsSetUp, sqs_init-IsSetUp, queue_message-IsSetUp, made_session, counted, arrival,
}
use tftp_server.Sqs.Message.{IsDatagram, IsGuid, read_message, read_message-cut}

-- A packet, its socket, and the address that inet_ntoa gives.
pub record Datagram : Type 0 where
  pub packet : List ℕ
  pub socket : ℕ
  pub ip : List ℕ

abbrev pub arrive : Datagram → Call
arrive a = packet_arrives a.packet (some a.socket) a.ip

-- Every packet with an identifier of its own.
abbrev pub with_guids : (ℕ → List ℕ) → ℕ → List Datagram → List (List ℕ × Option (List ℕ))
with_guids create_guid n [] = []
with_guids create_guid n (a ∷ rest) =
    (create_guid n, some a.packet) ∷ with_guids create_guid (n + 1) rest

module _ (create_guid : ℕ → List ℕ) (guids : (n : ℕ) → IsGuid (create_guid n)) where
  -- The client after one arrival.
  record After (a : Datagram) (c c' : Client) : Type 0 where
    ran : run_call create_guid (arrive a) c ≡ some c'
    up : IsSetUp c'
    no_session : c'.sessions ≡ []
    one_more : c'.guids_made ≡ c.guids_made + 1
    message : List ℕ
    added : c'.messages ≡ c.messages ++ message ∷ []
    says : read_message message ≡ (create_guid c.guids_made, some a.packet)

  arrival-queued :
      (b d socket : ℕ) (bs ds ip : List ℕ) (c : Client) (up : IsSetUp c)
      → c.sessions ≡ []
      → IsDatagram (b ∷ bs)
      → base64_encode (b ∷ bs) ≡ some (d ∷ ds)
      → (c' : Client) × After (record { packet = b ∷ bs; socket = socket; ip = ip }) c c'
  unfolding run_call queue_encoded count_queued
  arrival-queued b d socket bs ds ip c up empty datagram encoded =
      let keeps : IsSetUp (counted create_guid c) = record {
        id = up.id;
        has_id = up.has_id;
        ip = up.ip;
        has_ip = up.has_ip;
      } in
      let text =
        take (message_buffer_size - 1) (
          message_text (create_guid c.guids_made) (d ∷ ds) c.server_port up.ip up.id
            (take 16 ip)) in
      (
        record (counted create_guid c) {
          sessions = count_queued socket c.sessions;
          messages = c.messages ++ text ∷ [];
        },
        record {
          ran =
              arrival create_guid b bs socket ip c empty
              ∙ rw encoded (
                  queue_message-IsSetUp (made_session create_guid socket ip c) (d ∷ ds)
                    (counted create_guid c) keeps);
          up = record { id = up.id; has_id = up.has_id; ip = up.ip; has_ip = up.has_ip };
          no_session = rw empty refl;
          one_more = refl;
          message = text;
          added = refl;
          says =
              read_message-cut (create_guid c.guids_made) (d ∷ ds) (b ∷ bs) c.server_port up.ip
                up.id (take 16 ip) (guids c.guids_made) datagram encoded;
        },
      )

  arrival-After :
      (a : Datagram) (c : Client)
      → IsSetUp c
      → c.sessions ≡ []
      → IsDatagram a.packet
      → (c' : Client) × After a c c'
  unfolding decode
  arrival-After a c up empty datagram =
      let (out, encoded, decoded) =
        decode-base64_encode a.packet datagram.bytes (omega (arith, datagram.one_datagram)) in
      split a.packet out datagram encoded decoded
    where
      split :
          (packet out : List ℕ)
          → IsDatagram packet
          → base64_encode packet ≡ some out
          → decode out ≡ some packet
          → (c' : Client) × After (record a { packet = packet }) c c'
      split [] out h encoded decoded = absurd (omega (arith, h.not_empty))
      split (b ∷ bs) [] h encoded decoded = absurd cc
      split (b ∷ bs) (d ∷ ds) h encoded decoded =
          arrival-queued b d a.socket bs ds a.ip c up empty h encoded

  run_calls-read :
      (arrivals : List Datagram) (c : Client)
      → IsSetUp c
      → c.sessions ≡ []
      → All (λ a. IsDatagram a.packet) arrivals
      → (c' : Client) × (run_calls create_guid (map arrive arrivals) c ≡ some c')
        × (map read_message c'.messages
            ≡ map read_message c.messages ++ with_guids create_guid c.guids_made arrivals)
  unfolding run_calls
  run_calls-read [] c up empty h = (c, refl, sym (append-nil (map read_message c.messages)))
  run_calls-read (a ∷ rest) c up empty (h, hs) =
      let (c1, after) = arrival-After a c up empty h in
      let (c', runs, reads) = run_calls-read rest c1 after.up after.no_session hs in
      (
        c',
        rw after.ran runs,
        reads
            ∙ rw
                (
                  after.added,
                  after.one_more,
                  map-append read_message c.messages (after.message ∷ []),
                  after.says,
                )
                (append_assoc (map read_message c.messages) _ _),
      )

-- From the start of the program, once AWS_SQS_Init has run, and for identifiers that, as those of
-- uuid_unparse_lower, have no quotes and at most 36 characters: whatever packets arrive, each of the
-- size of a datagram and not empty, on whatever sockets and from whatever addresses, the messages
-- that are handed to the SDK, read by taking each apart at its quotes and decoding what stands at
-- `cmd` by RFC 4648, say exactly the packets, in their order, each with a session of its own.
pub read_message-run_calls :
    (create_guid : ℕ → List ℕ) (inet_ntop : Interface → List ℕ) (interfaces : List Interface)
    (id : List ℕ) (port : ℕ) (arrivals : List Datagram) (c0 : Client)
    → ((n : ℕ) → IsGuid (create_guid n))
    → All (λ a. IsDatagram a.packet) arrivals
    → sqs_init inet_ntop interfaces id port initial ≡ some c0
    → (c : Client) × (run_calls create_guid (map arrive arrivals) c0 ≡ some c)
      × (map read_message c.messages ≡ with_guids create_guid 0 arrivals)
unfolding initial
read_message-run_calls create_guid inet_ntop interfaces id port arrivals c0 guids h set_up =
    let (up, empty, none_made, no_message) =
      sqs_init-IsSetUp inet_ntop interfaces id port initial c0 set_up in
    let (c, runs, reads) = run_calls-read create_guid guids arrivals c0 up empty h in
    (c, runs, reads ∙ rw (none_made, no_message) refl)
