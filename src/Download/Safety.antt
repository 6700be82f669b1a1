-- ===== src/Download/Safety.antt =====
-- What a download sends, whatever the packet: CMSG_ACK and ParsePacket.
pub mod Loop
use tftp_server.Base.{
  ℕ, suc, ◌+◌, ◌-◌, ◌*◌, ◌<◌, ◌≤◌, List, [], ◌∷◌, ◌++◌, Option, none, some, Bool, true, false, ◌⊎◌,
  inl, inr, ◌≡◌, ◌≢◌, refl, arith, ltb, ◌==◌, ◌||◌, leb_ℤ, pos, if◌then◌else◌, ◌>>=◌, length, take,
  drop, All, ap, sym, subst, ◌∙◌, Bool-cases, Option-cases,
}
use tftp_server.Config.{Config}
use tftp_server.Session.{
  Env, Session, File, Status, server_to_client, send_ok, touch, accepted, refused, err_no_error,
}
use tftp_server.Send.Data.{smsg_data}
use tftp_server.Send.Error.{error_packet, smsg_error, error_message, error_sent}
use tftp_server.Receive.{
  cmsg_ack, cmsg_data, cmsg_error, take_ack, move_window, read_u16, after_window,
}
use tftp_server.Request.{cmsg_rrq, cmsg_wrq}
use tftp_server.Dispatch.{dispatch, parse_packet}
use tftp_server.Dispatch.Kept.{file_bytes, smsg_data-IsReadOnly}
use tftp_server.Thread.{
  Event, datagram, silence, Turn, waits, ends, cut_datagram, receive, forward_packet, check_end,
  serve_packet, resend, on_silence, milliseconds, time_passed, on_event, serve,
}
use tftp_server.Thread.Kept.{session_of}
use tftp_server.Download.Answers.{
  IsAnswer, IsServing, IsAnswered, IsAnswered-same, IsAnswered-trans, smsg_data-IsAnswered,
}

module _ (content : List ℕ) (size : ℕ) where
  -- The download goes on, and its packets are answers.
  pub record Goes (s s' : Session) : Type 0 where
    pub serving : IsServing content size s'
    pub answered : IsAnswered content size s s'

  pub Goes-trans : (s t u : Session) → Goes s t → Goes t u → Goes s u
  Goes-trans s t u a b = record {
    serving = b.serving;
    answered = IsAnswered-trans content size s t u a.answered b.answered;
  }

  -- What a step that sends nothing keeps.
  abbrev pub IsQuiet : Session → Session → Type 0
  IsQuiet s s' =
      (s'.sent ≡ s.sent)
      × (s'.selected_operation ≡ s.selected_operation)
      × (file_bytes s' ≡ file_bytes s)
      × (s'.block_size ≡ s.block_size)
      × (s.first_block_in_window ≤ s'.first_block_in_window)

  pub Goes-quiet : (s s' : Session) → IsServing content size s → IsQuiet s s' → Goes s s'
  Goes-quiet s s' g (sent, direction, file, block, first) = record {
    serving = record {
      direction = direction ∙ g.direction;
      opened = file ∙ g.opened;
      block_size = block ∙ g.block_size;
      due = omega (arith, first, g.due);
    };
    answered = IsAnswered-same content size s s' sent;
  }

  module _ (cfg : Config) (e : Env) where
    pub smsg_data-Goes :
        (s s' : Session) → IsServing content size s → smsg_data cfg e s ≡ some s' → Goes s s'
    smsg_data-Goes s s' g h =
        let (sent, first) = smsg_data-IsAnswered content size cfg e s s' g h in
        let (same, file) = smsg_data-IsReadOnly cfg e s s' h in
        record {
          serving = record {
            direction = same.same_direction ∙ g.direction;
            opened = file ∙ g.opened;
            block_size = same.same_block_size ∙ g.block_size;
            due = omega (arith, first, g.due);
          };
          answered = sent;
        }

    move_window-Goes :
        (nr : ℕ) (s s' : Session) (st : Status)
        → IsServing content size s
        → move_window cfg e nr s ≡ some (s', st)
        → Goes s s'
    unfolding move_window
    move_window-Goes nr s s' st g h =
        let s1 : Session = record s { first_block_in_window = nr + 1 } in
        let g1 : IsServing content size s1 = record {
          direction = g.direction;
          opened = g.opened;
          block_size = g.block_size;
          due = omega arith;
        } in
        let moved : Goes s s1 = record {
          serving = g1;
          answered = IsAnswered-same content size s s1 refl;
        } in
        elim (Bool-cases s.read_done) [
          | inl done ↦
              let result : record s1 { transfer_done = true } ≡ s' = ground (arith, done) in
              Goes-trans s s1 s' moved (Goes-quiet s1 s' g1 (ground (arith, result)))
          | inr more ↦ elim (Option-cases (smsg_data cfg e s1)) [
            | inl fault ↦ absurd (ground (arith, more, fault))
            | inr (s2, sent) ↦
                let result : s2 ≡ s' = ground (arith, more, sent) in
                subst (Goes s) result (Goes-trans s s1 s2 moved (smsg_data-Goes s1 s2 g1 sent))
          ]
        ]

    cmsg_ack-Goes :
        (n : ℕ) (s s' : Session) (st : Status)
        → IsServing content size s
        → cmsg_ack cfg e n s ≡ some (s', st)
        → Goes s s'
    unfolding cmsg_ack take_ack
    cmsg_ack-Goes n s s' st g h = elim (Bool-cases (ltb n 4)) [
      | inl short ↦ Goes-quiet s s' g (ground (arith, short, g.direction))
      | inr long ↦ elim (Option-cases (read_u16 s.buffer 2)) [
        | inl fault ↦ absurd (ground (arith, long, fault, g.direction))
        | inr (nr, found) ↦
            elim (Bool-cases (ltb nr s.first_block_in_window || after_window nr s)) [
              | inl outside ↦ Goes-quiet s s' g (ground (arith, long, found, outside, g.direction))
              | inr inside ↦
                  move_window-Goes nr s s' st g (ground (arith, long, found, inside, g.direction))
            ]
      ]
    ]

    -- Every other packet is refused, or read only.
    dispatch-Goes :
        (op n : ℕ) (s s' : Session) (st : Status)
        → IsServing content size s
        → dispatch cfg e op n s ≡ some (s', st)
        → Goes s s'
    unfolding dispatch cmsg_rrq cmsg_wrq cmsg_error cmsg_data
    dispatch-Goes op n s s' st g h = elim (Bool-cases (op == 4)) [
      | inl ack ↦ cmsg_ack-Goes n s s' st g (ground (arith, ack))
      | inr other ↦ Goes-quiet s s' g (ground (arith, other, g.direction))
    ]

    pub parse_packet-Goes :
        (n : ℕ) (s s' : Session) (st : Status)
        → IsServing content size s
        → parse_packet cfg e n s ≡ some (s', st)
        → Goes s s'
    unfolding parse_packet
    parse_packet-Goes n s s' st g h = elim (Bool-cases (ltb n 2)) [
      | inl short ↦ Goes-quiet s s' g (ground (arith, short))
      | inr long ↦ elim (Option-cases (read_u16 s.buffer 0)) [
        | inl fault ↦ absurd (ground (arith, long, fault))
        | inr (op, found) ↦ dispatch-Goes op n s s' st g (ground (arith, long, found))
      ]
    ]
