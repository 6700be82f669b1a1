-- ===== src/Dispatch/Kept.antt =====
-- What the handlers leave of a transfer once it has begun.
use tftp_server.Base.{
  ℕ, zero, suc, ◌+◌, List, Option, none, some, Bool, true, false, ◌≢◌, ◌≡◌, refl, arith, length,
  ◌∙◌, Option-cases, Bool-cases, ◌⊎◌, inl, inr, set, ◌-◌, ltb, if◌then◌else◌, ◌>>=◌, u64, pos_part,
}
use tftp_server.Config.{Config}
use tftp_server.Session.{
  Operation, not_initialized, server_to_client, client_to_server, Env, Session, Status, File,
  accepted, header_size,
}
use tftp_server.Send.Ack.{smsg_ack_block}
use tftp_server.Send.Data.{
  seek_block, read_bytes, smsg_data, send_window, send_block, round_session, refresh,
}
use tftp_server.Send.Error.{smsg_error}
use tftp_server.Receive.{
  cmsg_ack, cmsg_data, cmsg_error, take_ack, take_data, move_window, accept_block, store_block,
  index_in_window, read_u16,
}
use tftp_server.Request.{cmsg_rrq, cmsg_wrq}
use tftp_server.Dispatch.{dispatch, parse_packet}

-- The direction and what has been negotiated stay, as do the client and the socket.
pub record IsSameTransfer (s s' : Session) : Type 0 where
  pub same_direction : s'.selected_operation ≡ s.selected_operation
  pub same_block_size : s'.block_size ≡ s.block_size
  pub same_window_size : s'.window_size ≡ s.window_size
  pub same_timeout : s'.packet_timeout ≡ s.packet_timeout
  pub same_client : s'.client ≡ s.client
  pub same_socket : s'.comm_socket ≡ s.comm_socket
  pub same_room : length s'.buffer ≡ length s.buffer

pub IsSameTransfer-refl : (s : Session) → IsSameTransfer s s
IsSameTransfer-refl s = ground arith

pub IsSameTransfer-trans :
    (s t u : Session) → IsSameTransfer s t → IsSameTransfer t u → IsSameTransfer s u
IsSameTransfer-trans s t u a b = ground arith

pub smsg_ack_block-IsSameTransfer :
    (e : Env) (s s' : Session) → smsg_ack_block e s ≡ some s' → IsSameTransfer s s'
unfolding smsg_ack_block
smsg_ack_block-IsSameTransfer e s s' h = ground arith

store_block-IsSameTransfer :
    (nr size : ℕ) (s s' : Session) → store_block nr size s ≡ some s' → IsSameTransfer s s'
unfolding store_block
store_block-IsSameTransfer nr size s s' h = ground arith

-- What the open file holds.
abbrev pub file_bytes : Session → Option (List ℕ)
file_bytes s = elim s.file [ none ↦ none | some f ↦ some f.bytes ]

-- SMSG_DATA reads the file only.
abbrev pub IsReadOnly : Session → Session → Type 0
IsReadOnly s s' = IsSameTransfer s s' × (file_bytes s' ≡ file_bytes s)

-- The transfer stays, and so does what the file holds, unless it is an upload.
abbrev pub IsKept : Session → Session → Type 0
IsKept s s' =
    IsSameTransfer s s'
    × ((s.selected_operation ≡ client_to_server) ⊎ (file_bytes s' ≡ file_bytes s))

pub IsKept-trans : (s t u : Session) → IsKept s t → IsKept t u → IsKept s u
IsKept-trans s t u a b = (IsSameTransfer-trans s t u a.0 b.0, ground arith)

pub Operation-cases :
    (op : Operation) → (op ≡ not_initialized) ⊎ (op ≡ client_to_server) ⊎ (op ≡ server_to_client)
Operation-cases not_initialized = inl refl
Operation-cases client_to_server = inr (inl refl)
Operation-cases server_to_client = inr (inr refl)

round_session-IsReadOnly :
    (cfg : Config) (e : Env) (i : ℕ) (f : File) (s : Session)
    → file_bytes s ≡ some f.bytes
    → IsReadOnly s (round_session cfg e i f s)
unfolding round_session send_block
round_session-IsReadOnly cfg e i f s h = ground arith

send_window-IsReadOnly :
    (cfg : Config) (e : Env) (n i : ℕ) (f : File) (s : Session)
    → file_bytes s ≡ some f.bytes
    → IsReadOnly s (send_window cfg e n i f s).0
unfolding send_window
send_window-IsReadOnly cfg e zero i f s h = (IsSameTransfer-refl s, refl)
send_window-IsReadOnly cfg e (suc n) i f s h =
    let s1 = round_session cfg e i f s in
    let f1 : File = record f { position = f.position + length (read_bytes s.block_size f) } in
    let (same, bytes) = round_session-IsReadOnly cfg e i f s h in
    let rest = send_window-IsReadOnly cfg e n (i + 1) f1 s1 (bytes ∙ h) in
    ground (arith, same, bytes, rest)

seek_block-bytes : (nr size : ℕ) (f f1 : File) → seek_block nr size f ≡ some f1 → f1.bytes ≡ f.bytes
unfolding seek_block
seek_block-bytes zero size f f1 h = ground arith
seek_block-bytes (suc nr) size f f1 h = ground arith

refresh-IsReadOnly :
    (e : Env) (s : Session) (r : Session × Bool) → IsReadOnly s r.0 → IsReadOnly s (refresh e r)
refresh-IsReadOnly e s (t, true) h = ground arith
refresh-IsReadOnly e s (t, false) h = h

pub smsg_data-IsReadOnly :
    (cfg : Config) (e : Env) (s s' : Session) → smsg_data cfg e s ≡ some s' → IsReadOnly s s'
unfolding smsg_data
smsg_data-IsReadOnly cfg e s s' h = elim (Option-cases s.file) [
  | inl closed ↦ ground (arith, closed)
  | inr (f, opened) ↦ elim (Option-cases (seek_block s.first_block_in_window s.block_size f)) [
    | inl overflow ↦ absurd (ground arith)
    | inr (f1, sought) ↦
        let s1 : Session = record s { file = some f1 } in
        let sent = send_window cfg e (pos_part s.window_size) 0 f1 s1 in
        let bytes = seek_block-bytes s.first_block_in_window s.block_size f f1 sought in
        ground (
          arith,
          bytes,
          refresh-IsReadOnly e s1 sent
              (send_window-IsReadOnly cfg e (pos_part s.window_size) 0 f1 s1 refl),
        )
  ]
]

pub smsg_error-IsReadOnly : (e : Env) (s : Session) → IsReadOnly s (smsg_error e s)
unfolding smsg_error
smsg_error-IsReadOnly e s = ground arith

-- Through a handler, once a direction has been chosen.
abbrev acknowledge : Env → Session → Option (Session × Status)
acknowledge e s = do s1 ← smsg_ack_block e s; some (s1, accepted)

ack_stored-IsSameTransfer :
    (e : Env) (s : Session) (done : Bool) (s' : Session) (st : Status)
    → acknowledge e (record s { transfer_done = done }) ≡ some (s', st)
    → IsSameTransfer s s'
ack_stored-IsSameTransfer e s done s' st h =
    let s2 : Session = record s { transfer_done = done } in
    elim (Option-cases (smsg_ack_block e s2)) [
      | inl fault ↦ absurd (ground (arith, fault))
      | inr (s3, sent) ↦ ground (arith, sent, smsg_ack_block-IsSameTransfer e s2 s3 sent)
    ]

module _ (e : Env) (size : ℕ) (s s' : Session) (st : Status) where
  accept_block-IsSameTransfer :
      (nr : ℕ) → accept_block e nr size s ≡ some (s', st) → IsSameTransfer s s'
  unfolding accept_block
  accept_block-IsSameTransfer nr h = elim (Option-cases (index_in_window nr s.window_size)) [
    | inl fault ↦ absurd (ground (arith, fault))
    | inr (i, found) ↦
        let s0 : Session = record s { received = set s.received i (size - header_size) } in
        elim (Option-cases (store_block nr size s0)) [
          | inl fault ↦ ground (arith, found, fault)
          | inr (s1, stored) ↦ ground (
            arith,
            found,
            stored,
            store_block-IsSameTransfer nr size s0 s1 stored,
            ack_stored-IsSameTransfer e s1
                (if ltb size (s.block_size + header_size) then true else s1.transfer_done) s' st,
          )
        ]
  ]

module _ (cfg : Config) (e : Env) (size : ℕ) (s s' : Session) (st : Status) where
  move_window-IsReadOnly : (nr : ℕ) → move_window cfg e nr s ≡ some (s', st) → IsReadOnly s s'
  unfolding move_window
  move_window-IsReadOnly nr h =
      let s1 : Session = record s { first_block_in_window = nr + 1 } in
      elim (Option-cases (smsg_data cfg e s1)) [
        | inl fault ↦ ground (arith, fault)
        | inr (s2, sent) ↦ ground (arith, sent, smsg_data-IsReadOnly cfg e s1 s2 sent)
      ]

  cmsg_ack-IsReadOnly : cmsg_ack cfg e size s ≡ some (s', st) → IsReadOnly s s'
  unfolding cmsg_ack take_ack
  cmsg_ack-IsReadOnly h = elim (Option-cases (read_u16 s.buffer 2)) [
    | inl fault ↦ ground (arith, fault)
    | inr (nr, found) ↦ ground (arith, found, move_window-IsReadOnly nr)
  ]

  cmsg_data-IsSameTransfer : cmsg_data cfg e size s ≡ some (s', st) → IsSameTransfer s s'
  unfolding cmsg_data take_data
  cmsg_data-IsSameTransfer h = elim (Option-cases (read_u16 s.buffer 2)) [
    | inl fault ↦ ground (arith, fault)
    | inr (nr, found) ↦
        let s1 : Session = record s { bytes_handled = u64 (s.bytes_handled + size) } in
        ground (arith, found, accept_block-IsSameTransfer e size s1 s' st nr)
  ]

  -- A second request is refused and changes nothing.
  dispatch-IsKept :
      (op : ℕ)
      → s.selected_operation ≢ not_initialized
      → dispatch cfg e op size s ≡ some (s', st)
      → IsKept s s'
  unfolding dispatch cmsg_rrq cmsg_wrq cmsg_error cmsg_data
  dispatch-IsKept op begun h = elim (Operation-cases s.selected_operation) [
    | inl idle ↦ absurd (begun idle)
    | inr (inl up) ↦ (ground (arith, cmsg_ack-IsReadOnly, cmsg_data-IsSameTransfer), inl up)
    | inr (inr down) ↦
        let r : IsReadOnly s s' = ground (arith, down, cmsg_ack-IsReadOnly) in (r.0, inr r.1)
  ]

  pub parse_packet-IsKept :
      s.selected_operation ≢ not_initialized
      → parse_packet cfg e size s ≡ some (s', st)
      → IsKept s s'
  unfolding parse_packet
  parse_packet-IsKept begun h = elim (Option-cases (read_u16 s.buffer 0)) [
    | inl fault ↦ let r : IsReadOnly s s' = ground (arith, fault) in (r.0, inr r.1)
    | inr (op, found) ↦ elim (Bool-cases (ltb size 2)) [
      | inl short ↦ let r : IsReadOnly s s' = ground (arith, short) in (r.0, inr r.1)
      | inr long ↦ dispatch-IsKept op begun (ground (arith, found, long))
    ]
  ]
