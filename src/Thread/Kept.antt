-- ===== src/Thread/Kept.antt =====
-- The loop of ThreadDirectComm once a transfer has begun.
use tftp_server.Base.{
  ℕ, ◌+◌, ◌≤◌, List, [], ◌∷◌, some, ◌≢◌, ◌≡◌, refl, arith, length, ◌∙◌, Option-cases, Bool-cases,
  inl, inr, drop, length-append, length-drop, length-take, ◌==◌, sym, subst,
}
use tftp_server.Config.{Config}
use tftp_server.Session.{not_initialized, Env, Session, header_size}
use tftp_server.Dispatch.{parse_packet}
use tftp_server.Dispatch.Kept.{
  IsSameTransfer-refl, IsReadOnly, IsKept, IsKept-trans, Operation-cases, smsg_error-IsReadOnly,
  smsg_data-IsReadOnly, smsg_ack_block-IsSameTransfer, parse_packet-IsKept,
}
use tftp_server.Thread.{
  Event, datagram, silence, Turn, waits, ends, cut_datagram, receive, forward_packet, check_end,
  serve_packet, resend, on_silence, on_event, serve,
}

-- The session of a turn.
abbrev pub session_of : Turn → Session
session_of (waits s) = s
session_of (ends s) = s

read_only : (s s' : Session) → IsReadOnly s s' → IsKept s s'
read_only s s' r = (r.0, inr r.1)

check_end-IsReadOnly : (e : Env) (s : Session) → IsReadOnly s (session_of (check_end e s))
unfolding check_end
check_end-IsReadOnly e s = ground (arith, smsg_error-IsReadOnly e s)

forward_packet-IsReadOnly :
    (size : ℕ) (s s' : Session) → forward_packet size s ≡ some s' → IsReadOnly s s'
unfolding forward_packet
forward_packet-IsReadOnly size s s' h = ground arith

receive-IsReadOnly :
    (d : List ℕ) (s : Session) → length d ≤ length s.buffer → IsReadOnly s (receive d s)
unfolding receive
receive-IsReadOnly d s room =
    ground (arith, length-append d (drop (length d) s.buffer), length-drop (length d) s.buffer)

module _ (cfg : Config) (e : Env) where
  serve_packet-IsKept :
      (size : ℕ) (s : Session) (t : Turn)
      → s.selected_operation ≢ not_initialized
      → serve_packet cfg e size s ≡ some t
      → IsKept s (session_of t)
  unfolding serve_packet
  serve_packet-IsKept size s t begun h = elim (Option-cases (parse_packet cfg e size s)) [
    | inl fault ↦ absurd (ground (arith, fault))
    | inr ((s1, st), parsed) ↦ elim (Option-cases (forward_packet size s1)) [
      | inl fault ↦ absurd (ground (arith, parsed, fault))
      | inr (s2, passed_on) ↦
          let first = parse_packet-IsKept cfg e size s s1 st begun parsed in
          let second = read_only s1 s2 (forward_packet-IsReadOnly size s1 s2 passed_on) in
          let third = read_only s2 (session_of (check_end e s2)) (check_end-IsReadOnly e s2) in
          let result : t ≡ check_end e s2 = ground (arith, parsed, passed_on) in
          subst (λ x. IsKept s (session_of x)) (sym result)
            (IsKept-trans s s2 _ (IsKept-trans s s1 s2 first second) third)
    ]
  ]

  resend-IsKept : (s s' : Session) → resend cfg e s ≡ some s' → IsKept s s'
  unfolding resend
  resend-IsKept s s' h = elim (Operation-cases s.selected_operation) [
    | inl idle ↦ ground (arith, idle)
    | inr (inl up) ↦ (smsg_ack_block-IsSameTransfer e s s' (ground (arith, up)), inl up)
    | inr (inr down) ↦ read_only s s' (smsg_data-IsReadOnly cfg e s s' (ground (arith, down)))
  ]

  on_silence-IsKept :
      (s : Session) (t : Turn) → on_silence cfg e s ≡ some t → IsKept s (session_of t)
  unfolding on_silence
  on_silence-IsKept s t h =
      let s1 : Session = record s { tick_calls = s.tick_calls + 1 } in
      let s2 : Session = record s1 { window_retry_count = s.window_retry_count + 1 } in
      elim (Option-cases (resend cfg e s2)) [
        | inl fault ↦ ground (arith, fault, check_end-IsReadOnly e s1)
        | inr (s3, sent) ↦
            let again =
              IsKept-trans s2 s3 _ (resend-IsKept s2 s3 sent)
                (read_only s3 _ (check_end-IsReadOnly e s3)) in
            ground (arith, sent, again, check_end-IsReadOnly e s1)
      ]

  on_event-IsKept :
      (ev : Event) (s : Session) (t : Turn)
      → s.selected_operation ≢ not_initialized
      → s.block_size + header_size ≤ length s.buffer
      → on_event cfg e ev s ≡ some t
      → IsKept s (session_of t)
  unfolding on_event
  on_event-IsKept silence s t begun room h = on_silence-IsKept s t h
  on_event-IsKept (datagram d) s t begun room h =
      let cut = cut_datagram d s in
      let arrived = receive cut s in
      let same : IsReadOnly s arrived =
        receive-IsReadOnly cut s (omega (arith, length-take (s.block_size + header_size) d)) in
      elim (Bool-cases (length cut == 0)) [
        | inl empty ↦ on_silence-IsKept s t (ground (arith, empty))
        | inr some_bytes ↦ IsKept-trans s arrived (session_of t) (read_only s arrived same) (
            serve_packet-IsKept (length cut) arrived t
              (λ idle. begun (sym (same.0.same_direction) ∙ idle)) (ground (arith, some_bytes)))
      ]

  -- Once a transfer has begun and the buffer fits its blocks, no sequence of packets and timeouts
  -- changes the transfer's direction, block size, window size, timeout, client, socket or buffer
  -- size; and the bytes of the file change in an upload only.
  pub serve-IsKept :
      (evs : List Event) (s : Session) (t : Turn)
      → s.selected_operation ≢ not_initialized
      → s.block_size + header_size ≤ length s.buffer
      → serve cfg e evs (waits s) ≡ some t
      → IsKept s (session_of t)
  unfolding serve
  serve-IsKept [] s t begun room h = ground (arith, read_only s s (IsSameTransfer-refl s, refl))
  serve-IsKept (ev ∷ evs) s t begun room h = elim (Option-cases (on_event cfg e ev s)) [
    | inl fault ↦ absurd (ground (arith, fault))
    | inr (ends s1, runs) ↦
        let stays = on_event-IsKept ev s (ends s1) begun room runs in
        let result : t ≡ ends s1 = ground (arith, runs) in
        subst (λ x. IsKept s (session_of x)) (sym result) stays
    | inr (waits s1, runs) ↦
        let stays = on_event-IsKept ev s (waits s1) begun room runs in
        IsKept-trans s s1 (session_of t) stays (
          serve-IsKept evs s1 t (λ idle. begun (sym (stays.0.same_direction) ∙ idle))
            (ground (arith, stays.0, room)) (ground (arith, runs)))
  ]
