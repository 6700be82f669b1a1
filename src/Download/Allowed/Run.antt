-- ===== src/Download/Allowed/Run.antt =====
-- What a client can get from the server by an RRQ: the loop of ThreadDirectComm behind CMSG_RRQ.
use tftp_server.Base.{
  ℕ, List, none, some, ◌⊎◌, inl, inr, ◌≡◌, ◌≢◌, refl, arith, sym, subst, ◌∙◌, Option-cases,
}
use tftp_server.Config.{Config}
use tftp_server.Session.{Env, Session, not_initialized, send_packet, touch, err_no_error}
use tftp_server.Send.Error.{error_packet, error_sent, error_message, smsg_error}
use tftp_server.Receive.{read_u16}
use tftp_server.Dispatch.{parse_packet}
use tftp_server.Thread.{
  Event, Turn, waits, ends, forward_packet, check_end, serve_packet, serve, thread_direct_comm,
}
use tftp_server.Thread.Kept.{session_of}
use tftp_server.Download.Safety.Loop.{serve-IsAnswered, forward_packet-Goes, check_end-Goes}
use tftp_server.Download.Allowed.{
  IsAllowed, IsAllowed-same, IsAllowed-trans, IsAllowed-send, IsAllowed-answers,
}
use tftp_server.Download.Allowed.Begin.{Serves, parse_packet-Begins}

module _ (cfg : Config) (e : Env) where
  smsg_error-IsAllowed : (s : Session) → IsAllowed cfg e s (smsg_error e s)
  unfolding smsg_error
  smsg_error-IsAllowed s =
      let s1 : Session = record s { error = error_sent s.error } in
      let p = error_packet s1.error (error_message s.error) in
      IsAllowed-trans cfg e s s1 _ (IsAllowed-same cfg e s s1 refl) (
        IsAllowed-trans cfg e s1 (send_packet e p s1) _
          (IsAllowed-send cfg e s1 p (inr (inr (s1.error, error_message s.error, refl))))
          (IsAllowed-same cfg e (send_packet e p s1) _ refl))

  -- A session with an error ends.
  check_end-fails :
      (s : Session)
      → s.error ≢ err_no_error
      → (s' : Session) × (check_end e s ≡ ends s') × IsAllowed cfg e s s'
  unfolding check_end
  check_end-fails s failed = elim (Option-cases s.comm_socket) [
    | inl closed ↦ (s, ground (arith, closed), IsAllowed-same cfg e s s refl)
    | inr (fd, opened) ↦ (smsg_error e s, ground (arith, opened, failed), smsg_error-IsAllowed s)
  ]

  forward_packet-same :
      (size : ℕ) (s s' : Session)
      → forward_packet size s ≡ some s'
      → (s'.sent ≡ s.sent) × (s'.error ≡ s.error)
  unfolding forward_packet
  forward_packet-same size s s' h = ground arith

  -- After the request the session has ended, or it serves a file on the list.
  serve_packet-Begins :
      (size : ℕ) (s : Session) (t : Turn)
      → s.selected_operation ≡ not_initialized
      → s.file ≡ none
      → read_u16 s.buffer 0 ≡ some 1
      → serve_packet cfg e size s ≡ some t
      → ((s' : Session) × (t ≡ ends s') × IsAllowed cfg e s s') ⊎ Serves cfg e s (session_of t)
  unfolding serve_packet
  serve_packet-Begins size s t idle closed rrq h = elim (Option-cases (parse_packet cfg e size s)) [
    | inl fault ↦ absurd (ground (arith, fault))
    | inr ((s1, st), parsed) ↦ elim (Option-cases (forward_packet size s1)) [
      | inl fault ↦ absurd (ground (arith, parsed, fault))
      | inr (s2, passed_on) ↦
          let result : t ≡ check_end e s2 = ground (arith, parsed, passed_on) in
          let (kept, error) = forward_packet-same size s1 s2 passed_on in
          elim (parse_packet-Begins cfg e size s s1 st idle closed rrq parsed) [
            | inl (failed, same) ↦
                let (s', stops, a) =
                  check_end-fails s2 (λ none_yet. failed (sym error ∙ none_yet)) in
                inl (
                  s',
                  result ∙ stops,
                  IsAllowed-trans cfg e s s2 s' (IsAllowed-same cfg e s s2 (kept ∙ same)) a,
                )
            | inr begun ↦
                let passed =
                  forward_packet-Goes begun.file.content begun.size cfg e size s1 s2 begun.serving
                    passed_on in
                let goes = check_end-Goes begun.file.content begun.size cfg e s2 passed.serving in
                inr (
                  subst (λ x. Serves cfg e s (session_of x)) (sym result)
                    (record {
                      file = begun.file;
                      size = begun.size;
                      serving = goes.serving;
                      allowed = IsAllowed-trans cfg e s s1 _ begun.allowed (
                          IsAllowed-trans cfg e s1 s2 _
                            (IsAllowed-answers cfg e begun.file begun.size s1 s2 passed.answered)
                            (IsAllowed-answers cfg e begun.file begun.size s2 _ goes.answered));
                    }))
          ]
    ]
  ]

  -- The loop behind the request.
  serve-IsAllowed :
      (evs : List Event) (s : Session) (t0 t : Turn)
      → ((s' : Session) × (t0 ≡ ends s') × IsAllowed cfg e s s') ⊎ Serves cfg e s (session_of t0)
      → serve cfg e evs t0 ≡ some t
      → IsAllowed cfg e s (session_of t)
  unfolding serve
  serve-IsAllowed evs s t0 t (inl (s', ended, a)) h =
      let result : ends s' ≡ t = ground (arith, ended) in
      subst (λ x. IsAllowed cfg e s (session_of x)) result a
  serve-IsAllowed evs s (ends s1) t (inr begun) h =
      let result : ends s1 ≡ t = ground arith in
      subst (λ x. IsAllowed cfg e s (session_of x)) result begun.allowed
  serve-IsAllowed evs s (waits s1) t (inr begun) h =
      let (answered, _) =
        serve-IsAnswered begun.file.content begun.size cfg e evs s1 t begun.serving h in
      IsAllowed-trans cfg e s s1 (session_of t) begun.allowed
        (IsAllowed-answers cfg e begun.file begun.size s1 (session_of t) answered)

  -- A session thread that has no open file yet and whose first packet is an RRQ, of any content, and
  -- then any sequence of packets and timeouts, on which the code's behaviour is defined: all that
  -- the server sends are OACKs, errors, and DATA packets with blocks of one file or another whose
  -- name is on the list DownloadableFileNames, as the system has it under that name, each with the
  -- block that belongs to its number, which is sent modulo 2 ^ 16.
  pub thread_direct_comm-IsAllowed :
      (size : ℕ) (evs : List Event) (s : Session) (t : Turn)
      → s.selected_operation ≡ not_initialized
      → s.file ≡ none
      → read_u16 s.buffer 0 ≡ some 1
      → thread_direct_comm cfg e size evs s ≡ some t
      → IsAllowed cfg e s (session_of t)
  unfolding thread_direct_comm
  thread_direct_comm-IsAllowed size evs s t idle closed rrq h =
      elim (Option-cases (serve_packet cfg e size (touch e s))) [
        | inl fault ↦ absurd (ground (arith, fault))
        | inr (t0, first) ↦
            IsAllowed-trans cfg e s (touch e s) (session_of t)
              (IsAllowed-same cfg e s (touch e s) refl)
              (serve-IsAllowed evs (touch e s) t0 t
                (serve_packet-Begins size (touch e s) t0 idle closed rrq first)
                (ground (arith, first)))
      ]
