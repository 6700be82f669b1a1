-- ===== src/Download/Negotiated.antt =====
-- A download from a request on that asks for a block size and a window size.
use tftp_server.Base.{
  ℕ, suc, ◌+◌, ◌*◌, ◌<◌, ◌≤◌, ◌^◌, List, [], ◌∷◌, ◌++◌, some, true, false, concat, pos, length, ltb,
  leb_ℤ, if◌then◌else◌, be16, take, drop, ◌≡◌, refl, arith, ap, append_assoc, ◌∙◌,
}
use tftp_server.Config.{Config}
use tftp_server.Text.Laws.{IsText}
use tftp_server.Session.{server_to_client, Env, Session, accepted, touch}
use tftp_server.Socket.Frame.{HasSockets}
use tftp_server.Send.Error.{codes}
use tftp_server.Thread.{
  waits, ends, receive, serve_packet, thread_direct_comm, forward_packet, check_end,
}
use tftp_server.Dispatch.{dispatch, parse_packet}
use tftp_server.Options.{parse_options}
use tftp_server.Options.Encoded.{encode}
use tftp_server.Options.Encoded.Answers.{sizes, answer_text, IsAgreed}
use tftp_server.Request.{cmsg_rrq, open_download, start_download, is_downloadable}
use tftp_server.Request.Plain.{request_packet, length-request_packet}
use tftp_server.Request.Sized.{asking, open_request-options, parse_options-asking}
use tftp_server.Request.New.{IsNew}
use tftp_server.Upload.{AllSent, IsWithinLimit}
use tftp_server.Send.Data.{smsg_data, send_window}
use tftp_server.Download.{blocks, data_packets}
use tftp_server.Download.Start.{concat-blocks}
use tftp_server.Download.Transfer.{IsDownloaded}
use tftp_server.Download.Window.{IsSent, send_window-full}
use tftp_server.Download.Window.Step.{IsWindowed, refreshed, smsg_data-window}
use tftp_server.Download.Window.Transfer.{window_acks, joined_windows, serve-windows}
use tftp_server.Session.{File}
use native.Mathlib.Nat.{zero-mul, suc-mul, add-mul, mul_assoc}

module _ (cfg : Config) (e : Env) (sends : AllSent e) (memory : (n : ℕ) → e.malloc n ≡ true)
    (ok : HasSockets e) (m : ℕ) (range : cfg.comm_port_end ≡ pos (suc m)) (s : Session)
    (new : IsNew s) (file_name mode : List ℕ) (h1 : IsText file_name) (h2 : IsText mode) (b w : ℕ)
    (fits : length (request_packet 1 file_name mode ++ encode (sizes b w)) ≤ 512) where
  abbrev plain : List ℕ
  plain = request_packet 1 file_name mode

  abbrev packet : List ℕ
  packet = plain ++ encode (sizes b w)

  module _ (content : List ℕ)
      (allowed : is_downloadable file_name cfg.downloadable_file_names ≡ true)
      (opens : e.open_read file_name ≡ some content) (stays : (n : ℕ) → e.realloc_moves n ≡ false)
      (most n : ℕ) (b1 : 8 ≤ b) (b2 : b ≤ 65464) (w1 : 1 ≤ w) (w2 : w ≤ 65535)
      (least : leb_ℤ cfg.window_size_min (pos w) ≡ true) (top : cfg.window_size_max ≡ pos most)
      (small : length packet ≤ b) (agree : (if ltb most w then most else w) ≡ n) (positive : 0 < n)
      (total : ℕ) (no_wrap : total < 2 ^ 64) (limit : IsWithinLimit cfg total)
      (within : length content ≤ total) (long : n * b ≤ length content) where
    abbrev oack : List ℕ
    oack = be16 6 ++ answer_text (codes "blksize") b ++ answer_text (codes "windowsize") n

    agreed :
        (s1 : Session) × (parse_options cfg e
            (length packet)
            (length plain)
            (asking cfg e ok m range s new 1 file_name mode h1 h2 b w fits content)
          ≡ some s1)
        × IsAgreed (asking cfg e ok m range s new 1 file_name mode h1 h2 b w fits content) s1 b n
    agreed =
        parse_options-asking cfg e ok m range s new 1 file_name mode h1 h2 b w fits sends stays most
          n content b1 b2 w1 w2 least top small agree

    abbrev sending : Session
    sending = record agreed.0 { selected_operation = server_to_client; first_block_in_window = 1 }

    abbrev file_at : File
    file_at = record { bytes = content; position = 0 * agreed.0.block_size }

    -- The first window.
    first_window :
        (s2 : Session) × (send_window cfg e n 0 file_at (record sending { file = some file_at })
          ≡ (s2, true))
        × IsSent
            (record sending { file = some file_at })
            s2
            content
            (data_packets 0 (blocks n b (drop (0 * agreed.0.block_size) content)))
            (n * b)
        × (s2.read_done ≡ agreed.0.read_done)
    unfolding receive
    first_window =
        let none : 0 * agreed.0.block_size ≡ 0 = zero-mul agreed.0.block_size in
        let handled : agreed.0.bytes_handled ≡ 0 =
          ap (λ x. x.bytes_handled) agreed.2.rest_stays ∙ new.nothing_handled in
        send_window-full cfg e sends b content total no_wrap limit n 0 0 (0 * agreed.0.block_size)
          (record sending { file = some file_at }) agreed.2.blocks refl refl
          (omega (arith, none, long)) (omega (arith, handled, within, long))

    abbrev delivered : Session
    delivered = refreshed e first_window.0

    data_sent : smsg_data cfg e sending ≡ some delivered
    data_sent =
        let none : 0 * agreed.0.block_size ≡ 0 = zero-mul agreed.0.block_size in
        smsg_data-window cfg e memory sending first_window.0 n 0
          (record { bytes = content; position = 0 }) agreed.2.window refl
          (ap (λ x. x.file) agreed.2.rest_stays) (omega (arith, none)) first_window.1

    rrq-accepted :
        cmsg_rrq cfg e (length packet) (touch e (receive packet s)) ≡ some (delivered, accepted)
    unfolding cmsg_rrq open_download start_download receive
    rrq-accepted = ground (
      arith,
      new.idle,
      allowed,
      opens,
      open_request-options cfg e ok m range s new 1 file_name mode h1 h2 b w fits
          (open_download cfg e (length packet)),
      agreed.1,
      data_sent,
    )

    abbrev served : Session
    served = record delivered {
      forwarded = s.forwarded ++ take (length packet) delivered.buffer ∷ [];
    }

    served-IsWindowed : IsWindowed served n 0 content
    unfolding receive
    served-IsWindowed =
        let sent = first_window.2 in
        let same = agreed.2.rest_stays in
        record {
          direction = sent.same_transfer.same_direction;
          window = sent.same_transfer.same_window_size ∙ agreed.2.window;
          next_block = sent.same_first;
          position = sent.position;
          opened = sent.opened;
          no_error = sent.same_error ∙ ap (λ x. x.error) same ∙ new.no_error;
          not_done = sent.same_done ∙ ap (λ x. x.transfer_done) same ∙ new.not_done;
          buffer_size = omega (
            arith, sent.same_transfer.same_room, sent.same_transfer.same_block_size, agreed.2.room,
            agreed.2.blocks,
          );
          socket = ok.number s.socket_calls;
          has_socket = sent.same_transfer.same_socket ∙ ap (λ x. x.comm_socket) same;
        }

    request_served :
        serve_packet cfg e (length packet) (touch e (receive packet s)) ≡ some (waits served)
    unfolding serve_packet parse_packet dispatch forward_packet check_end receive
    request_served =
        let down = served-IsWindowed in
        let past : delivered.forwarded ≡ s.forwarded =
          first_window.2.same_forwarded ∙ ap (λ x. x.forwarded) agreed.2.rest_stays in
        ground (
          arith,
          rrq-accepted,
          down.no_error,
          down.not_done,
          down.has_socket,
          past,
          first_window.2.same_transfer.same_room,
          agreed.2.room,
          small,
          length-request_packet 1 file_name mode,
        )

    -- A session thread that is given an RRQ with the options blksize and windowsize, for a file that
    -- clients may read, of `v + 1` full windows, `j` full blocks and a shorter one, in the sizes
    -- agreed on, and then the ACK of the last block of each window and of the last block: it ends
    -- without an error, with the transfer done, and has sent the OACK and the blocks of the file in
    -- their order, which together are the file, and no other packet.
    -- The sizes are decimal numbers in the bounds of the code and of the configuration, and the whole
    -- request fits 512 bytes and a block. The calls of the system succeed, realloc does not move the
    -- buffer, the blocks' numbers stay below 2 ^ 16, and the file has less than 2 ^ 31 bytes and is
    -- within the limit.
    pub thread_direct_comm-windows :
        (v j : ℕ)
        → length content < 2 ^ 31
        → j < n
        → n * b + v * (n * b) + j * b ≤ length content
        → length content < n * b + v * (n * b) + j * b + b
        → n + v * n + suc j < 2 ^ 16
        → (s' : Session) × (thread_direct_comm cfg e
              (length packet)
              (window_acks n v j 0)
              (receive packet s)
            ≡ some (ends s'))
          × IsDownloaded
              (record s { sent = s.sent ++ oack ∷ [] })
              s'
              (data_packets 0 (blocks (suc v * n + suc j) b content))
          × (concat (blocks (suc v * n + suc j) b content) ≡ content)
    unfolding thread_direct_comm receive
    thread_direct_comm-windows v j file_small below low high room =
        let sent = first_window.2 in
        let zero_n : 0 + n ≡ n = omega arith in
        let fresh : agreed.0.bytes_handled ≡ 0 =
          ap (λ x. x.bytes_handled) agreed.2.rest_stays ∙ new.nothing_handled in
        let handled : served.bytes_handled ≡ n * b = omega (arith, sent.counted, fresh) in
        let more : served.read_done ≡ false =
          first_window.3 ∙ ap (λ x. x.read_done) agreed.2.rest_stays ∙ new.nothing_read in
        let first = data_packets 0 (blocks n b (drop (0 * agreed.0.block_size) content)) in
        let next = data_packets (0 + n) (blocks (v * n + suc j) b (drop ((0 + n) * b) content)) in
        let begun = s.sent ++ oack ∷ [] in
        let all : first ++ next ≡ data_packets 0 (blocks (suc v * n + suc j) b content) =
          ap (λ x. data_packets 0 (blocks n b (drop (0 * x) content)) ++ next) agreed.2.blocks
          ∙ joined_windows 0 n v j b content
          ∙ ap (λ x. data_packets 0 (blocks (suc v * n + suc j) b (drop x content))) (zero-mul b) in
        let enough : length content ≤ (suc v * n + suc j) * b = omega (
          arith,
          high,
          add-mul (suc v * n) (suc j) b,
          ap (λ x. x * b) (suc-mul v n),
          add-mul (v * n) n b,
          mul_assoc v n b,
          suc-mul j b,
        ) in
        let (s', runs, r) =
          serve-windows cfg e sends memory content n b positive file_small total no_wrap limit v j 0
            served served-IsWindowed (sent.same_transfer.same_block_size ∙ agreed.2.blocks) more
            below (rw zero_n low) (rw zero_n high) (rw zero_n room)
            (rw zero_n (omega (arith, handled, within))) in
        (
          s',
          rw request_served runs,
          record {
            delivered =
                r.delivered
                ∙ ap (λ t. t ++ next) (sent.delivered ∙ ap (λ t. t ++ first) agreed.2.answer_sent)
                ∙ append_assoc begun first next
                ∙ ap (λ t. begun ++ t) all;
            no_error = r.no_error;
            done = r.done;
          },
          concat-blocks (suc v * n + suc j) b content enough,
        )
