-- ===== src/Sqs.antt =====
-- src/AWSSQS.cpp: the list of sessions around the AWS SDK, of which each passes on the packets of
-- one socket, and the messages that it hands to the SDK. The SDK's own state and its calls are not
-- modelled.
pub mod Lost
pub mod Message
pub mod Delivery
use tftp_server.Base.{
  ℕ, zero, suc, ◌+◌, ◌-◌, ◌*◌, ◌<◌, List, [], ◌∷◌, ◌++◌, Option, none, some, Bool, true, false,
  ◌==◌, ◌||◌, ltb, if◌then◌else◌, length, drop, take, ◌>>=◌, pos,
}
use tftp_server.Base64.{base64_encode}
use tftp_server.Send.Error.{codes}
use tftp_server.Text.{print_int}

-- SQS_SocketSessionParams, less the SDK's objects: `guid` is uuid_str.
pub record Params : Type 0 where
  pub client_socket : ℕ
  pub guid : List ℕ
  pub client_ip : List ℕ
  pub messages_queued_for_send : ℕ
  pub messages_sent : ℕ
  pub messages_failed_to_send : ℕ

-- The globals Sessions, ServerID, ServerPort, and ServerIP, where `none` is NULL, with the number of
-- identifiers made, and the messages handed to SendMessageAsync.
pub record Client : Type 0 where
  pub sessions : List Params
  pub server_id : Option (List ℕ)
  pub server_port : ℕ
  pub server_ip : Option (List ℕ)
  pub guids_made : ℕ
  pub messages : List (List ℕ)

-- The globals at the start of the program.
unfoldable pub initial : Client
initial = record {
  sessions = [];
  server_id = none;
  server_port = 0;
  server_ip = none;
  guids_made = 0;
  messages = [];
}

-- An element of the list that getifaddrs makes: the bytes of its address, if it is one of IP.
-- `no_address` has NULL for ifa_addr.
pub data Interface : Type 0 where
  no_address other : Interface
  inet inet6 : List ℕ → Interface

-- 127.x.x.x and 0.x.x.x.
abbrev pub is_local : List ℕ → Bool
is_local [] = false
is_local (b ∷ bs) = b == 127 || b == 0

-- FillLocalIP, with inet_ntop as a parameter. NULL for ifa_addr is read through, which is undefined.
unfoldable pub fill_local_ip : (Interface → List ℕ) → List Interface → Option (List ℕ)
fill_local_ip inet_ntop [] = some []
fill_local_ip inet_ntop (no_address ∷ rest) = none
fill_local_ip inet_ntop (other ∷ rest) = fill_local_ip inet_ntop rest
fill_local_ip inet_ntop (inet address ∷ rest) =
    let later = fill_local_ip inet_ntop rest in
    if is_local address then later else some (inet_ntop (inet address))
fill_local_ip inet_ntop (inet6 address ∷ rest) = some (inet_ntop (inet6 address))

-- AWS_SQS_Init.
unfoldable pub sqs_init :
    (Interface → List ℕ) → List Interface → List ℕ → ℕ → Client → Option Client
unfolding fill_local_ip
sqs_init inet_ntop interfaces id port c = do
  ip ← fill_local_ip inet_ntop interfaces
  some (record c { server_id = some id; server_port = port; server_ip = some ip })

-- AWS_SQS_Destroy.
unfoldable pub sqs_destroy : Client → Client
sqs_destroy c = record c { server_id = none; server_ip = none; sessions = [] }

unfoldable pub find_session : ℕ → List Params → Option Params
find_session socket [] = none
find_session socket (x ∷ xs) =
    let rest = find_session socket xs in if x.client_socket == socket then some x else rest

-- GetCreateSession, for a valid socket and a client. create_guid is a parameter of the number of
-- calls made so far; `ip` is what inet_ntoa gives. The new element is not added to Sessions.
unfoldable pub get_create_session : (ℕ → List ℕ) → ℕ → List ℕ → Client → Params × Client
unfolding find_session
get_create_session create_guid socket ip c = elim (find_session socket c.sessions) [
  | some x ↦ (x, c)
  | none ↦ (
    record {
      client_socket = socket;
      guid = create_guid c.guids_made;
      client_ip = take 16 ip;
      messages_queued_for_send = 0;
      messages_sent = 0;
      messages_failed_to_send = 0;
    },
    record c { guids_made = c.guids_made + 1 },
  )
]

-- params->MessagesQueuedForSend++, in the element of the list if it is there.
unfoldable pub count_queued : ℕ → List Params → List Params
count_queued socket [] = []
count_queued socket (x ∷ xs) =
    let rest = count_queued socket xs in
    if x.client_socket == socket
    then record x { messages_queued_for_send = x.messages_queued_for_send + 1 } ∷ xs
    else x ∷ rest

-- SQS_MESSAGE_BUFFER_SIZE.
abbrev pub message_buffer_size : ℕ
message_buffer_size = 15 * 1024 * 1024

-- What the format of AWS_SQS_OnPacketArrived gives.
unfoldable pub message_text : List ℕ → List ℕ → ℕ → List ℕ → List ℕ → List ℕ → List ℕ
message_text guid encoded port server_ip server_id client_ip =
    codes "{'weather':'','msg':{'session':'"
    ++ (guid
        ++ (codes "','cmd':'"
            ++ (encoded
                ++ (codes "'},'port':"
                    ++ (print_int (pos port)
                        ++ (codes ",'server_ip':'"
                            ++ (server_ip
                                ++ (codes "','server_id':'"
                                    ++ (server_id
                                        ++ (codes "','cid':'','sensor':'','proto': 'tcp','ip':'"
                                            ++ (client_ip ++ codes "'}")))))))))))

-- snprintf cuts the text to the buffer. NULL for ServerIP or ServerID is read through.
unfoldable pub queue_message : Params → List ℕ → Client → Option Client
unfolding count_queued
queue_message params encoded c = do
  ip ← c.server_ip
  id ← c.server_id
  some (record c {
    sessions = count_queued params.client_socket c.sessions;
    messages =
        c.messages
        ++ take (message_buffer_size - 1)
            (message_text params.guid encoded c.server_port ip id params.client_ip)
          ∷ [];
  })

-- Without an encoded packet, or with an empty one, nothing is queued.
unfoldable pub queue_encoded : Params → Option (List ℕ) → Client → Option Client
unfolding queue_message
queue_encoded params none c = some c
queue_encoded params (some []) c = some c
queue_encoded params (some (b ∷ bs)) c = queue_message params (b ∷ bs) c

-- AWS_SQS_OnPacketArrived for `size` bytes of the packet; `none` for the socket is INVALID_SOCKET.
unfoldable pub on_packet_arrived :
    (ℕ → List ℕ) → List ℕ → Option ℕ → List ℕ → Client → Option Client
on_packet_arrived create_guid [] socket ip c = some c
on_packet_arrived create_guid packet none ip c = some c
on_packet_arrived create_guid packet (some socket) ip c =
    let made = get_create_session create_guid socket ip c in
    queue_encoded made.0 (base64_encode packet) made.1

-- SQS_MessageCallback: the counters of the sessions whose client object `is_client` picks.
unfoldable pub count_outcome : (Params → Bool) → Bool → List Params → List Params
count_outcome is_client success [] = []
count_outcome is_client success (x ∷ xs) =
    let rest = count_outcome is_client success xs in
    if is_client x
    then (if success
        then record x { messages_sent = x.messages_sent + 1 } ∷ rest
        else record x { messages_failed_to_send = x.messages_failed_to_send + 1 } ∷ rest)
    else x ∷ rest

-- AWS_SQS_SessionClose: the iterator of an erased element is advanced, which is undefined.
unfoldable pub close_sessions : ℕ → List Params → Option (List Params)
close_sessions socket [] = some []
close_sessions socket (x ∷ xs) =
    let rest = close_sessions socket xs in
    if x.client_socket == socket then none else (do ys ← rest; some (x ∷ ys))

-- What the server and the SDK call, in any order.
pub data Call : Type 0 where
  packet_arrives : List ℕ → Option ℕ → List ℕ → Call
  message_done : (Params → Bool) → Bool → Call
  socket_closes : ℕ → Call

unfoldable pub run_call : (ℕ → List ℕ) → Call → Client → Option Client
unfolding on_packet_arrived count_outcome close_sessions
run_call create_guid (packet_arrives packet socket ip) c =
    on_packet_arrived create_guid packet socket ip c
run_call create_guid (message_done is_client success) c =
    some (record c { sessions = count_outcome is_client success c.sessions })
run_call create_guid (socket_closes socket) c = do
  sessions ← close_sessions socket c.sessions
  some (record c { sessions = sessions })

unfoldable pub run_calls : (ℕ → List ℕ) → List Call → Client → Option Client
unfolding run_call
run_calls create_guid [] c = some c
run_calls create_guid (x ∷ xs) c = do c1 ← run_call create_guid x c; run_calls create_guid xs c1
