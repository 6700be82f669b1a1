-- ===== src/Receive/Safety.antt =====
-- CMSG__DATA on packets of every content: its arrays, its division, its `int`s.
use native.Mathlib.Nat.{mul-le-mul_right}
use tftp_server.Base.{
  ℕ, zero, suc, ◌+◌, ◌-◌, ◌*◌, ◌%◌, ◌<◌, ◌≤◌, ◌^◌, Option, none, some, true, ltb, leb, ◌==◌, inl,
  inr, ◌≢◌, of_be16, u64, set, length-set, length-replicate, replicate, Bool-cases, Option-cases,
  if◌then◌else◌, ◌>>=◌, pos, length, ◌≡◌, refl, arith, ap, sym, subst, ◌∙◌,
}
use tftp_server.Config.{Config}
use tftp_server.Session.{
  client_to_server, Env, Session, Status, accepted, refused, header_size, packet_safety_pad,
  err_illegal_operation, err_disk_full,
}
use tftp_server.Send.Ack.{smsg_ack_block, reset_window}
use tftp_server.Send.Ack.Window.{blocks_received-le, reset_window_lem}
use tftp_server.Send.Data.{seek_block, over_limit}
use tftp_server.Receive.Bytes.{AreBytes, get_elem?-lt, get_elem?-some}
use tftp_server.Receive.{
  cmsg_data, take_data, accept_block, store_block, store_in_file, index_in_window,
}

-- An upload whose array has one entry for each block of the window, and whose buffer is as long as
-- its blocks need.
pub record IsReceiving (s : Session) : Type 0 where
  pub direction : s.selected_operation ≡ client_to_server
  pub last : ℕ
  pub window : s.window_size ≡ pos (suc last)
  pub array : length s.received ≡ suc last
  pub buffer_size : length s.buffer ≡ s.block_size + header_size + packet_safety_pad
  pub offsets : 2 ^ 16 * s.block_size < 2 ^ 31

-- What stays of an upload's shape.
pub record IsSameShape (s s' : Session) : Type 0 where
  pub same_direction : s'.selected_operation ≡ s.selected_operation
  pub same_window : s'.window_size ≡ s.window_size
  pub same_array : length s'.received ≡ length s.received
  pub same_buffer : length s'.buffer ≡ length s.buffer
  pub same_block : s'.block_size ≡ s.block_size

IsReceiving-shape : {s s' : Session} → IsSameShape s s' → IsReceiving s → IsReceiving s'
IsReceiving-shape same r = record {
  direction = same.same_direction ∙ r.direction;
  last = r.last;
  window = same.same_window ∙ r.window;
  array = same.same_array ∙ r.array;
  buffer_size =
      same.same_buffer
      ∙ r.buffer_size
      ∙ ap (λ b. b + header_size + packet_safety_pad) (sym same.same_block);
  offsets = subst (λ b. 2 ^ 16 * b < 2 ^ 31) (sym same.same_block) r.offsets;
}

same_shape :
    (s s' : Session)
    → s'.selected_operation ≡ s.selected_operation
    → s'.window_size ≡ s.window_size
    → s'.received ≡ s.received
    → s'.buffer ≡ s.buffer
    → s'.block_size ≡ s.block_size
    → IsSameShape s s'
same_shape s s' a b c d f = record {
  same_direction = a;
  same_window = b;
  same_array = ap length c;
  same_buffer = ap length d;
  same_block = f;
}

module _ (e : Env) (s : Session) (r : IsReceiving s) where
  reset : reset_window (suc r.last) s.received ≡ some (replicate (suc r.last) 0)
  reset = reset_window_lem (suc r.last) s.received r.array

  smsg_ack_block-ne-none : smsg_ack_block e s ≢ none
  unfolding smsg_ack_block
  smsg_ack_block-ne-none h =
      let (k, counted, _) = blocks_received-le (suc r.last) s.received (omega (arith, r.array)) in
      ground (arith, counted, reset)

  smsg_ack_block-IsSameShape : (s' : Session) → smsg_ack_block e s ≡ some s' → IsSameShape s s'
  unfolding smsg_ack_block
  smsg_ack_block-IsSameShape s' h =
      let (k, counted, _) = blocks_received-le (suc r.last) s.received (omega (arith, r.array)) in
      ground (arith, counted, reset, length-replicate {A = ℕ} (suc r.last) 0)

  store_block-ne-none :
      (n size : ℕ) → size ≤ length s.buffer → n < 2 ^ 16 → store_block (suc n) size s ≢ none
  unfolding store_block store_in_file seek_block
  store_block-ne-none n size fits room h =
      let offset : n * s.block_size ≤ 2 ^ 16 * s.block_size =
        mul-le-mul_right s.block_size (omega arith) in
      ground (arith, offset, r.offsets)

  store_block-IsSameShape :
      (nr size : ℕ) (s' : Session) → store_block nr size s ≡ some s' → IsSameShape s s'
  unfolding store_block
  store_block-IsSameShape nr size s' h = ground arith

  set-IsSameShape : (i v : ℕ) → IsSameShape s (record s { received = set s.received i v })
  set-IsSameShape i v = record {
    same_direction = refl;
    same_window = refl;
    same_array = length-set s.received i v;
    same_buffer = refl;
    same_block = refl;
  }

-- A step that cannot fault and keeps the shape ends in such a session.
module _ (e : Env) where
  -- A handler that returns, with a session of the same shape.
  abbrev Returns : Session → Option (Session × Status) → Type 0
  Returns s result = (s' : Session) × (st : Status) × (result ≡ some (s', st)) × IsReceiving s'

  ack_stored :
      (s : Session) → IsReceiving s → Returns s (smsg_ack_block e s >>= λ s3. some (s3, accepted))
  ack_stored s r = elim (Option-cases (smsg_ack_block e s)) [
    | inl fault ↦ absurd (smsg_ack_block-ne-none e s r fault)
    | inr (s3, runs) ↦
        (s3, accepted, rw runs, IsReceiving-shape (smsg_ack_block-IsSameShape e s r s3 runs) r)
  ]

  accept_block-total :
      (n size : ℕ) (s : Session)
      → IsReceiving s
      → size ≤ length s.buffer
      → n < 2 ^ 16
      → Returns s (accept_block e (suc n) size s)
  unfolding accept_block index_in_window
  accept_block-total n size s r fits room =
      let i = n % suc r.last in
      let (old, read) = get_elem?-some i s.received (omega (arith, r.array)) in
      let s0 = record s { received = set s.received i (size - header_size) } in
      let r0 : IsReceiving s0 =
        IsReceiving-shape (set-IsSameShape e s r i (size - header_size)) r in
      elim (Bool-cases (old == 0)) [
        | inr used ↦ (s, refused, ground (arith, read, r.window), r)
        | inl free ↦ elim (Option-cases (store_block (suc n) size s0)) [
          | inl fault ↦ absurd (store_block-ne-none e s0 r0 n size fits room fault)
          | inr (s1, runs) ↦
              let r1 : IsReceiving s1 =
                IsReceiving-shape (store_block-IsSameShape e s0 r0 (suc n) size s1 runs) r0 in
              let s2 = record s1 {
                transfer_done =
                    (if ltb size (s.block_size + header_size) then true else s1.transfer_done);
              } in
              let r2 : IsReceiving s2 =
                IsReceiving-shape (same_shape s1 s2 refl refl refl refl refl) r1 in
              let (s3, st, acked, r3) = ack_stored s2 r2 in
              (s3, st, ground (arith, read, r.window, runs, acked), r3)
        ]
      ]

  accept_block-Returns :
      (nr size : ℕ) (s : Session)
      → IsReceiving s
      → size ≤ length s.buffer
      → 0 < nr
      → nr < 2 ^ 16
      → Returns s (accept_block e nr size s)
  accept_block-Returns zero size s r fits positive room = absurd (omega arith)
  accept_block-Returns (suc n) size s r fits positive room =
      accept_block-total n size s r fits (omega arith)

  numbered :
      (nr size : ℕ) (s : Session)
      → IsReceiving s
      → size ≤ length s.buffer
      → nr < 2 ^ 16
      → Returns s
          (if leb nr s.first_block_in_window then some (s, refused) else accept_block e nr size s)
  numbered nr size s r fits room = elim (Bool-cases (leb nr s.first_block_in_window)) [
    | inl old ↦ (s, refused, rw old, r)
    | inr new ↦
        let (s', st, runs, r') = accept_block-Returns nr size s r fits (ground arith) room in
        (s', st, rw new runs, r')
  ]

module _ (cfg : Config) (e : Env) (size : ℕ) (s : Session) (r : IsReceiving s)
    (bytes : AreBytes s.buffer) (fits : size ≤ length s.buffer) where
  -- In an upload with an entry of the array for each block of the window, and with a block size of
  -- which 2 ^ 16 times is below 2 ^ 31 (so below 2 ^ 15; the option blksize allows more), CMSG__DATA
  -- returns, whatever bytes the buffer holds and whichever size up to the buffer's
  -- the packet has: no read or write of an array is out of range, nothing is divided by zero and no
  -- `int` overflows. The session keeps the shape of an upload.
  pub cmsg_data-total :
      (s' : Session) × (st : Status) × (cmsg_data cfg e size s ≡ some (s', st)) × IsReceiving s'
  unfolding cmsg_data take_data
  cmsg_data-total =
      let (hi, e1) = get_elem?-some 2 s.buffer (omega (arith, r.buffer_size)) in
      let (lo, e2) = get_elem?-some 3 s.buffer (omega (arith, r.buffer_size)) in
      let high = get_elem?-lt 2 hi s.buffer bytes e1 in
      let low = get_elem?-lt 3 lo s.buffer bytes e2 in
      let s1 = record s { bytes_handled = u64 (s.bytes_handled + size) } in
      let r1 : IsReceiving s1 = IsReceiving-shape (same_shape s s1 refl refl refl refl refl) r in
      elim (Bool-cases (ltb size 4)) [
        | inl short ↦ (
          record s { error = err_illegal_operation },
          refused,
          ground (arith, r.direction),
          IsReceiving-shape (same_shape s _ refl refl refl refl refl) r,
        )
        | inr long ↦ elim (Bool-cases (over_limit cfg s1.bytes_handled)) [
          | inl over ↦ (
            record s1 { error = err_disk_full },
            refused,
            ground (arith, r.direction),
            IsReceiving-shape (same_shape s _ refl refl refl refl refl) r,
          )
          | inr under ↦
              let (s', st, runs, r') = numbered e (of_be16 hi lo) size s1 r1 fits (omega arith) in
              (s', st, ground (arith, r.direction, e1, e2, runs), r')
        ]
      ]
