-- ===== src/Upload/Negotiated.antt =====
-- An upload from a request on that asks for a block size and a window size.
use tftp_server.Base.{
  ℕ, suc, ◌*◌, ◌<◌, ◌≤◌, ◌^◌, List, [], ◌∷◌, ◌++◌, some, true, false, concat, wire_size, pos,
  length, ltb, leb_ℤ, if◌then◌else◌, replicate, be16, map, take, ◌≡◌, refl, arith, ap, append_assoc,
  ◌∙◌,
}
use tftp_server.Config.{Config}
use tftp_server.Text.Laws.{IsText}
use tftp_server.Session.{client_to_server, Env, Session, accepted, touch, send_packet, err_no_error}
use tftp_server.Socket.Frame.{HasSockets}
use tftp_server.Send.Ack.{ack_packet}
use tftp_server.Send.Error.{codes}
use tftp_server.Thread.{
  waits, ends, receive, serve_packet, thread_direct_comm, forward_packet, check_end,
}
use tftp_server.Thread.Silence.{resend-free}
use tftp_server.Dispatch.{dispatch, parse_packet}
use tftp_server.Options.{parse_options}
use tftp_server.Options.Encoded.{encode}
use tftp_server.Options.Encoded.Answers.{sizes, answer_text, IsAgreed}
use tftp_server.Request.{cmsg_wrq, open_upload, start_upload, new_window}
use tftp_server.Request.Plain.{request_packet, length-request_packet}
use tftp_server.Request.Sized.{asking, open_request-options, parse_options-asking}
use tftp_server.Request.New.{IsNew}
use tftp_server.Upload.{AllSent, IsWithinLimit, AreBlocks, data_events}
use tftp_server.Upload.Start.{IsUploadOpen}
use tftp_server.Upload.Window.{IsFilling}
use tftp_server.Upload.Window.Transfer.{IsFilled, ack_numbers, serve-filling}

module _ (cfg : Config) (e : Env) (sends : AllSent e) (ok : HasSockets e) (m : ℕ)
    (range : cfg.comm_port_end ≡ pos (suc m)) (s : Session) (new : IsNew s)
    (file_name mode : List ℕ) (h1 : IsText file_name) (h2 : IsText mode) (b w : ℕ)
    (fits : length (request_packet 2 file_name mode ++ encode (sizes b w)) ≤ 512) where
  abbrev plain : List ℕ
  plain = request_packet 2 file_name mode

  abbrev packet : List ℕ
  packet = plain ++ encode (sizes b w)

  module _ (opens : IsUploadOpen cfg e file_name) (stays : (n : ℕ) → e.realloc_moves n ≡ false)
      (most n : ℕ) (b1 : 8 ≤ b) (b2 : b ≤ 65464) (w1 : 1 ≤ w) (w2 : w ≤ 65535)
      (least : leb_ℤ cfg.window_size_min (pos w) ≡ true) (top : cfg.window_size_max ≡ pos most)
      (small : length packet ≤ b) (agree : (if ltb most w then most else w) ≡ suc (suc n)) where
    abbrev oack : List ℕ
    oack =
        be16 6 ++ answer_text (codes "blksize") b ++ answer_text (codes "windowsize") (suc (suc n))

    -- The request is answered by an OACK and by ACK 0, and block 1 is due.
    record IsAnswered (s1 : Session) : Type 0 where
      filling : IsFilling s1 n 0 []
      size : s1.block_size ≡ b
      answers : s1.sent ≡ s.sent ++ oack ∷ ack_packet 0 ∷ []
      handled : s1.bytes_handled ≡ 0

    agreed :
        (s1 : Session) × (parse_options cfg e
            (length packet)
            (length plain)
            (asking cfg e ok m range s new 2 file_name mode h1 h2 b w fits [])
          ≡ some s1)
        × IsAgreed
            (asking cfg e ok m range s new 2 file_name mode h1 h2 b w fits [])
            s1
            b
            (suc (suc n))
    agreed =
        parse_options-asking cfg e ok m range s new 2 file_name mode h1 h2 b w fits sends stays most
          (suc (suc n)) [] b1 b2 w1 w2 least top small agree

    -- The session with its window.
    abbrev windowed : Session
    windowed = record agreed.0 {
      selected_operation = client_to_server;
      received = replicate (suc (suc n)) 0;
      first_block_in_window = 0;
    }

    abbrev confirmed : Session
    confirmed = touch e (send_packet e (ack_packet 0) windowed)

    wrq-accepted :
        cmsg_wrq cfg e (length packet) (touch e (receive packet s)) ≡ some (confirmed, accepted)
    unfolding cmsg_wrq open_upload start_upload new_window receive
    wrq-accepted = ground (
      arith,
      new.idle,
      opens.allowed,
      opens.writes,
      opens.opens,
      open_request-options cfg e ok m range s new 2 file_name mode h1 h2 b w fits
          (open_upload cfg e (length packet)),
      agreed.1,
      agreed.2.window,
      resend-free cfg e sends windowed (suc (suc n)) agreed.2.window refl (omega arith),
    )

    abbrev served : Session
    served = record confirmed {
      forwarded = s.forwarded ++ take (length packet) agreed.0.buffer ∷ [];
    }

    request_served :
        serve_packet cfg e (length packet) (touch e (receive packet s)) ≡ some (waits served)
    unfolding serve_packet parse_packet dispatch forward_packet check_end receive
    request_served =
        let error : agreed.0.error ≡ err_no_error =
          ap (λ x. x.error) agreed.2.rest_stays ∙ new.no_error in
        let going : agreed.0.transfer_done ≡ false =
          ap (λ x. x.transfer_done) agreed.2.rest_stays ∙ new.not_done in
        let socket : agreed.0.comm_socket ≡ some (ok.number s.socket_calls) =
          ap (λ x. x.comm_socket) agreed.2.rest_stays in
        let past : agreed.0.forwarded ≡ s.forwarded = ap (λ x. x.forwarded) agreed.2.rest_stays in
        ground (
          arith,
          wrq-accepted,
          error,
          going,
          socket,
          past,
          agreed.2.room,
          small,
          length-request_packet 2 file_name mode,
        )

    served-IsAnswered : IsAnswered served
    unfolding receive
    served-IsAnswered = record {
      filling = record {
        direction = refl;
        window = agreed.2.window;
        window_free = refl;
        acknowledged = omega arith;
        position = 0;
        stored = ap (λ x. x.file) agreed.2.rest_stays;
        whole = omega arith;
        no_error = ap (λ x. x.error) agreed.2.rest_stays ∙ new.no_error;
        not_done = ap (λ x. x.transfer_done) agreed.2.rest_stays ∙ new.not_done;
        buffer_size = ground (arith, agreed.2.room, agreed.2.blocks);
        socket = ok.number s.socket_calls;
        has_socket = ap (λ x. x.comm_socket) agreed.2.rest_stays;
      };
      size = agreed.2.blocks;
      answers = rw (sends agreed.0.send_calls (ack_packet 0)) (
          ap (λ t. t ++ ack_packet 0 ∷ []) agreed.2.answer_sent
          ∙ append_assoc s.sent (oack ∷ []) (ack_packet 0 ∷ []));
      handled = ap (λ x. x.bytes_handled) agreed.2.rest_stays ∙ new.nothing_handled;
    }

    -- A session thread that is given a WRQ with the options blksize and windowsize, for a file that the
    -- server may store, and then the blocks of the file in their order, in the block size asked for,
    -- the last one shorter and not empty: it ends without an error, with the transfer done, has sent
    -- the OACK, ACK 0 and one ACK for each block, whose number grows by one at the blocks that come
    -- first in a window and stays as it was at the others, and the file holds the blocks one after
    -- another.
    -- The sizes are decimal numbers in the bounds of the code and of the configuration, the window
    -- agreed on has two blocks or more, and the whole request fits 512 bytes and a block. The calls
    -- of the system succeed, realloc does not move the buffer, the blocks are fewer than 2 ^ 16, the
    -- file has less than 2 ^ 31 bytes, and the bytes received are within the limit.
    pub thread_direct_comm-sizes :
        (blocks : List (List ℕ))
        → AreBlocks b blocks
        → length blocks < 2 ^ 16
        → length blocks * b < 2 ^ 31
        → wire_size blocks < 2 ^ 64
        → IsWithinLimit cfg (wire_size blocks)
        → (s' : Session) × (thread_direct_comm cfg e
              (length packet)
              (data_events 0 blocks)
              (receive packet s)
            ≡ some (ends s'))
          × IsFilled
              (record s { sent = s.sent ++ oack ∷ ack_packet 0 ∷ [] })
              s'
              (concat blocks)
              (ack_numbers n 0 0 (length blocks))
    unfolding thread_direct_comm
    thread_direct_comm-sizes blocks shape room offsets counted limit =
        let a = served-IsAnswered in
        let (s', runs, r) =
          serve-filling cfg e sends n b (length blocks) room offsets blocks served 0 [] a.filling
            a.size shape (omega arith) (omega (arith, a.handled))
            (λ k h. limit k (omega (arith, a.handled))) in
        (
          s',
          rw request_served runs,
          record {
            stored_bytes = r.stored_bytes;
            answered =
                r.answered
                ∙ ap (λ t. t ++ map ack_packet (ack_numbers n 0 0 (length blocks))) a.answers;
            error_free = r.error_free;
            done = r.done;
          },
        )
