-- ===== src/Download/Safety/Loop.antt =====
-- What a download sends, whatever the client does: the loop of ThreadDirectComm.
use tftp_server.Base.{
  ℕ, ◌+◌, List, [], ◌∷◌, some, ◌⊎◌, inl, inr, ◌≡◌, refl, arith, ◌==◌, leb_ℤ, pos, length, sym,
  subst, Bool-cases, Option-cases,
}
use tftp_server.Config.{Config}
use tftp_server.Session.{Env, Session, send_ok, err_no_error}
use tftp_server.Send.Error.{error_packet, smsg_error, error_message, error_sent}
use tftp_server.Dispatch.{parse_packet}
use tftp_server.Thread.{
  Event, datagram, silence, Turn, waits, ends, cut_datagram, receive, forward_packet, check_end,
  serve_packet, resend, on_silence, milliseconds, time_passed, on_event, serve,
}
use tftp_server.Thread.Kept.{session_of}
use tftp_server.Download.Answers.{IsServing, IsAnswered}
use tftp_server.Download.Safety.{Goes, Goes-trans, Goes-quiet, smsg_data-Goes, parse_packet-Goes}

module _ (content : List ℕ) (size : ℕ) (cfg : Config) (e : Env) where
  smsg_error-Goes : (s : Session) → IsServing content size s → Goes content size s (smsg_error e s)
  unfolding smsg_error
  smsg_error-Goes s g =
      let code = error_sent s.error in
      let message = error_message s.error in
      let p = error_packet code message in
      elim (Bool-cases (send_ok e p s)) [
        | inl goes_out ↦ record {
          serving = record {
            direction = g.direction;
            opened = g.opened;
            block_size = g.block_size;
            due = g.due;
          };
          answered = record {
            added = p ∷ [];
            sent = ground (arith, goes_out);
            answers = (inr (code, message, refl), tt);
          };
        }
        | inr fails ↦ Goes-quiet content size s (smsg_error e s) g (ground (arith, fails))
      ]

  check_end-cases :
      (s : Session)
      → (session_of (check_end e s) ≡ s) ⊎ (session_of (check_end e s) ≡ smsg_error e s)
  unfolding check_end
  check_end-cases s = elim (Option-cases s.comm_socket) [
    | inl closed ↦ inl (ground (arith, closed))
    | inr (fd, opened) ↦ elim (Bool-cases (s.error == err_no_error)) [
      | inl none_yet ↦ inl (ground (arith, opened, none_yet))
      | inr failed ↦ inr (ground (arith, opened, failed))
    ]
  ]

  pub check_end-Goes :
      (s : Session) → IsServing content size s → Goes content size s (session_of (check_end e s))
  check_end-Goes s g = elim (check_end-cases s) [
    | inl stays ↦
        subst (Goes content size s) (sym stays) (Goes-quiet content size s s g (ground arith))
    | inr fails ↦ subst (Goes content size s) (sym fails) (smsg_error-Goes s g)
  ]

  pub forward_packet-Goes :
      (n : ℕ) (s s' : Session)
      → IsServing content size s
      → forward_packet n s ≡ some s'
      → Goes content size s s'
  unfolding forward_packet
  forward_packet-Goes n s s' g h = Goes-quiet content size s s' g (ground arith)

  serve_packet-Goes :
      (n : ℕ) (s : Session) (t : Turn)
      → IsServing content size s
      → serve_packet cfg e n s ≡ some t
      → Goes content size s (session_of t)
  unfolding serve_packet
  serve_packet-Goes n s t g h = elim (Option-cases (parse_packet cfg e n s)) [
    | inl fault ↦ absurd (ground (arith, fault))
    | inr ((s1, st), parsed) ↦ elim (Option-cases (forward_packet n s1)) [
      | inl fault ↦ absurd (ground (arith, parsed, fault))
      | inr (s2, passed_on) ↦
          let first = parse_packet-Goes content size cfg e n s s1 st g parsed in
          let second = forward_packet-Goes n s1 s2 first.serving passed_on in
          let third = check_end-Goes s2 second.serving in
          let result : check_end e s2 ≡ t = ground (arith, parsed, passed_on) in
          subst (λ x. Goes content size s (session_of x)) result
            (Goes-trans content size s s2 _ (Goes-trans content size s s1 s2 first second) third)
    ]
  ]

  resend-Goes :
      (s s' : Session)
      → IsServing content size s
      → resend cfg e s ≡ some s'
      → Goes content size s s'
  unfolding resend
  resend-Goes s s' g h = smsg_data-Goes content size cfg e s s' g (ground (arith, g.direction))

  on_silence-Goes :
      (s : Session) (t : Turn)
      → IsServing content size s
      → on_silence cfg e s ≡ some t
      → Goes content size s (session_of t)
  unfolding on_silence
  on_silence-Goes s t g h =
      let s1 : Session = record s { tick_calls = s.tick_calls + 1 } in
      let s2 : Session = record s1 { window_retry_count = s.window_retry_count + 1 } in
      let read : Goes content size s s1 = Goes-quiet content size s s1 g (ground arith) in
      let counted : Goes content size s s2 = Goes-quiet content size s s2 g (ground arith) in
      let goes_on = Goes-trans content size s s1 _ read (check_end-Goes s1 read.serving) in
      elim (Bool-cases (
        leb_ℤ (milliseconds s.packet_timeout)
          (time_passed (e.tick s.tick_calls) s.last_activity_stamp))) [
            | inl late ↦
                elim (Bool-cases
                  (leb_ℤ cfg.retry_resend_packet_max (pos (s.window_retry_count + 1)))) [
                    | inl last ↦
                        let result : ends s2 ≡ t = ground (arith, late, last) in
                        subst (λ x. Goes content size s (session_of x)) result counted
                    | inr again ↦ elim (Option-cases (resend cfg e s2)) [
                      | inl fault ↦ absurd (ground (arith, late, again, fault))
                      | inr (s3, sent) ↦
                          let third = resend-Goes s2 s3 counted.serving sent in
                          let result : check_end e s3 ≡ t = ground (arith, late, again, sent) in
                          subst (λ x. Goes content size s (session_of x)) result
                            (Goes-trans content size s s3 _
                              (Goes-trans content size s s2 s3 counted third)
                              (check_end-Goes s3 third.serving))
                    ]
                  ]
            | inr early ↦
                let result : check_end e s1 ≡ t = ground (arith, early) in
                subst (λ x. Goes content size s (session_of x)) result goes_on
          ]

  on_event-Goes :
      (ev : Event) (s : Session) (t : Turn)
      → IsServing content size s
      → on_event cfg e ev s ≡ some t
      → Goes content size s (session_of t)
  unfolding on_event receive
  on_event-Goes silence s t g h = on_silence-Goes s t g h
  on_event-Goes (datagram d) s t g h =
      let cut = cut_datagram d s in
      let arrived = receive cut s in
      let first : Goes content size s arrived =
        Goes-quiet content size s arrived g (ground arith) in
      elim (Bool-cases (length cut == 0)) [
        | inl empty ↦ on_silence-Goes s t g (ground (arith, empty))
        | inr some_bytes ↦
            Goes-trans content size s arrived (session_of t) first
              (serve_packet-Goes (length cut) arrived t first.serving (ground (arith, some_bytes)))
      ]

  serve-Goes :
      (evs : List Event) (s : Session) (t : Turn)
      → IsServing content size s
      → serve cfg e evs (waits s) ≡ some t
      → Goes content size s (session_of t)
  unfolding serve
  serve-Goes [] s t g h =
      let result : waits s ≡ t = ground arith in
      subst (λ x. Goes content size s (session_of x)) result
        (Goes-quiet content size s s g (ground arith))
  serve-Goes (ev ∷ evs) s t g h = elim (Option-cases (on_event cfg e ev s)) [
    | inl fault ↦ absurd (ground (arith, fault))
    | inr (ends s1, runs) ↦
        let result : ends s1 ≡ t = ground (arith, runs) in
        subst (λ x. Goes content size s (session_of x)) result (on_event-Goes ev s (ends s1) g runs)
    | inr (waits s1, runs) ↦
        let first = on_event-Goes ev s (waits s1) g runs in
        Goes-trans content size s s1 (session_of t) first
          (serve-Goes evs s1 t first.serving (ground (arith, runs)))
  ]

  -- In a download whose window starts at block 1 or later, on any sequence of packets and timeouts
  -- on which the code's behaviour is defined, each packet that the server sends is an error or a
  -- DATA packet with the block of the file that belongs to its number, which is sent modulo 2 ^ 16,
  -- where the file is what the
  -- session had opened; and the download stays one of that file, with the same block size.
  pub serve-IsAnswered :
      (evs : List Event) (s : Session) (t : Turn)
      → IsServing content size s
      → serve cfg e evs (waits s) ≡ some t
      → IsAnswered content size s (session_of t) × IsServing content size (session_of t)
  serve-IsAnswered evs s t g h = let goes = serve-Goes evs s t g h in (goes.answered, goes.serving)
