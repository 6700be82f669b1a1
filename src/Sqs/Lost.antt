-- ===== src/Sqs/Lost.antt =====
-- What becomes of the sessions of src/AWSSQS.cpp.
use tftp_server.Base.{
  ℕ, suc, ◌+◌, ◌-◌, ◌++◌, take, ap, Option-cases, inl, inr, List, [], ◌∷◌, none, some, ◌≡◌, ◌∙◌,
  refl, arith,
}
use tftp_server.Base64.{base64_encode}
use tftp_server.Sqs.{
  Params, Client, Call, packet_arrives, message_done, socket_closes, run_call, run_calls,
  on_packet_arrived, queue_message, queue_encoded, message_text, message_buffer_size, Interface,
  fill_local_ip, get_create_session, count_queued, find_session, count_outcome, close_sessions,
  initial, sqs_init,
}

-- The packets that are not empty and come on a valid socket.
abbrev pub packets : List Call → ℕ
packets [] = 0
packets (packet_arrives (b ∷ bs) (some socket) ip ∷ xs) = suc (packets xs)
packets (packet_arrives [] socket ip ∷ xs) = packets xs
packets (packet_arrives (b ∷ bs) none ip ∷ xs) = packets xs
packets (message_done is_client success ∷ xs) = packets xs
packets (socket_closes socket ∷ xs) = packets xs

-- AWS_SQS_Init has run: the texts of the messages are there.
pub record IsSetUp (c : Client) : Type 0 where
  pub id : List ℕ
  pub has_id : c.server_id ≡ some id
  pub ip : List ℕ
  pub has_ip : c.server_ip ≡ some ip

pub sqs_init-IsSetUp :
    (inet_ntop : Interface → List ℕ) (interfaces : List Interface) (id : List ℕ) (port : ℕ)
    (c c' : Client)
    → sqs_init inet_ntop interfaces id port c ≡ some c'
    → IsSetUp c'
      × (c'.sessions ≡ c.sessions)
      × (c'.guids_made ≡ c.guids_made)
      × (c'.messages ≡ c.messages)
unfolding sqs_init
sqs_init-IsSetUp inet_ntop interfaces id port c c' h =
    elim (Option-cases (fill_local_ip inet_ntop interfaces)) [
      | inl fault ↦ absurd (ground (arith, fault))
      | inr (ip, found) ↦
          let result : c'
              ≡ record c { server_id = some id; server_port = port; server_ip = some ip } =
            ground (arith, found) in
          (
            record {
              id = id;
              has_id = ap (λ x. x.server_id) result;
              ip = ip;
              has_ip = ap (λ x. x.server_ip) result;
            },
            ap (λ x. x.sessions) result,
            ap (λ x. x.guids_made) result,
            ap (λ x. x.messages) result,
          )
    ]

pub queue_message-IsSetUp :
    (params : Params) (encoded : List ℕ) (c : Client) (up : IsSetUp c)
    → queue_message params encoded c
      ≡ some (record c {
        sessions = count_queued params.client_socket c.sessions;
        messages =
            c.messages
            ++ take
                (message_buffer_size - 1)
                (message_text params.guid encoded c.server_port up.ip up.id params.client_ip)
              ∷ [];
      })
unfolding queue_message
queue_message-IsSetUp params encoded c up = rw (up.has_ip, up.has_id) refl

module _ (create_guid : ℕ → List ℕ) where
  -- A packet for which a new session is made.
  abbrev pub made_session : ℕ → List ℕ → Client → Params
  made_session socket ip c = record {
    client_socket = socket;
    guid = create_guid c.guids_made;
    client_ip = take 16 ip;
    messages_queued_for_send = 0;
    messages_sent = 0;
    messages_failed_to_send = 0;
  }

  get_create_session-new :
      (socket : ℕ) (ip : List ℕ) (c : Client)
      → c.sessions ≡ []
      → get_create_session create_guid socket ip c
        ≡ (made_session socket ip c, record c { guids_made = c.guids_made + 1 })
  unfolding get_create_session find_session
  get_create_session-new socket ip c empty = rw empty refl

  abbrev pub counted : Client → Client
  counted c = record c { guids_made = c.guids_made + 1 }

  pub arrival :
      (b : ℕ) (bs : List ℕ) (socket : ℕ) (ip : List ℕ) (c : Client)
      → c.sessions ≡ []
      → on_packet_arrived create_guid (b ∷ bs) (some socket) ip c
        ≡ queue_encoded (made_session socket ip c) (base64_encode (b ∷ bs)) (counted c)
  unfolding on_packet_arrived
  arrival b bs socket ip c empty = rw (get_create_session-new socket ip c empty) refl

  arrival-kept :
      (b : ℕ) (bs : List ℕ) (socket : ℕ) (ip : List ℕ) (c : Client)
      → IsSetUp c
      → c.sessions ≡ []
      → (c' : Client) × (on_packet_arrived create_guid (b ∷ bs) (some socket) ip c ≡ some c')
        × IsSetUp c'
        × (c'.sessions ≡ [])
        × (c'.guids_made ≡ c.guids_made + 1)
  unfolding count_queued queue_encoded
  arrival-kept b bs socket ip c up empty =
      let step = arrival b bs socket ip c empty in
      let keeps : IsSetUp (counted c) = record {
        id = up.id;
        has_id = up.has_id;
        ip = up.ip;
        has_ip = up.has_ip;
      } in
      elim (Option-cases (base64_encode (b ∷ bs))) [
        | inl too_long ↦ (counted c, step ∙ rw too_long refl, keeps, empty, refl)
        | inr ([], encoded) ↦ (counted c, step ∙ rw encoded refl, keeps, empty, refl)
        | inr (d ∷ ds, encoded) ↦
            let text =
              message_text (create_guid c.guids_made) (d ∷ ds) c.server_port up.ip up.id
                (take 16 ip) in
            (
              record (counted c) {
                sessions = count_queued socket c.sessions;
                messages = c.messages ++ take (message_buffer_size - 1) text ∷ [];
              },
              step
                  ∙ rw encoded
                      (queue_message-IsSetUp (made_session socket ip c) (d ∷ ds) (counted c) keeps),
              record { id = up.id; has_id = up.has_id; ip = up.ip; has_ip = up.has_ip },
              rw empty refl,
              refl,
            )
      ]

  run_calls-empty :
      (calls : List Call) (c : Client)
      → IsSetUp c
      → c.sessions ≡ []
      → (c' : Client) × (run_calls create_guid calls c ≡ some c')
        × (c'.sessions ≡ [])
        × (c'.guids_made ≡ c.guids_made + packets calls)
  unfolding run_calls run_call on_packet_arrived count_outcome close_sessions
  run_calls-empty [] c up empty = (c, refl, empty, omega arith)
  run_calls-empty (packet_arrives (b ∷ bs) (some socket) ip ∷ xs) c up empty =
      let (c1, step, up1, none_kept, one_more) = arrival-kept b bs socket ip c up empty in
      let (c', runs, empty', guids) = run_calls-empty xs c1 up1 none_kept in
      (c', ground (arith, step, runs), empty', omega (arith, guids, one_more))
  run_calls-empty (packet_arrives [] socket ip ∷ xs) c up empty = run_calls-empty xs c up empty
  run_calls-empty (packet_arrives (b ∷ bs) none ip ∷ xs) c up empty = run_calls-empty xs c up empty
  run_calls-empty (message_done is_client success ∷ xs) c up empty =
      let (c', runs, empty', guids) =
        run_calls-empty xs (record c { sessions = [] })
          (record { id = up.id; has_id = up.has_id; ip = up.ip; has_ip = up.has_ip }) refl in
      (c', ground (arith, runs), empty', guids)
  run_calls-empty (socket_closes socket ∷ xs) c up empty =
      let (c', runs, empty', guids) =
        run_calls-empty xs (record c { sessions = [] })
          (record { id = up.id; has_id = up.has_id; ip = up.ip; has_ip = up.has_ip }) refl in
      (c', ground (arith, runs), empty', guids)

-- From the start of the program, once AWS_SQS_Init has run, whatever packets arrive, whichever
-- messages are sent or fail and whichever sockets are closed: Sessions stays empty, and as many
-- identifiers of sessions are made as packets arrive that are not empty and come on a valid socket,
-- on the same one or on others.
pub run_calls-initial :
    (create_guid : ℕ → List ℕ) (inet_ntop : Interface → List ℕ) (interfaces : List Interface)
    (id : List ℕ) (port : ℕ) (calls : List Call) (c0 : Client)
    → sqs_init inet_ntop interfaces id port initial ≡ some c0
    → (c : Client) × (run_calls create_guid calls c0 ≡ some c)
      × (c.sessions ≡ [])
      × (c.guids_made ≡ packets calls)
unfolding initial
run_calls-initial create_guid inet_ntop interfaces id port calls c0 h =
    let (up, empty, none_made, _) = sqs_init-IsSetUp inet_ntop interfaces id port initial c0 h in
    let (c, runs, empty', guids) = run_calls-empty create_guid calls c0 up empty in
    (c, runs, empty', omega (arith, guids, none_made))
