-- ===== src/Download/Start.antt =====
-- A download from its request on.
use native.Mathlib.Nat.{suc-mul, zero-mul}
use tftp_server.Base.{
  min, length-take, ℕ, zero, suc, ◌+◌, ◌*◌, ◌<◌, ◌≤◌, ◌^◌, List, [], ◌∷◌, ◌++◌, some, true, set,
  concat, pos, length, take, drop, ◌≡◌, refl, arith, append_assoc, length-append, length-drop, ap,
  sym, subst, ◌∙◌, length-set, take-append, take-append-drop,
}
use tftp_server.Config.{Config}
use tftp_server.Text.Laws.{IsText}
use tftp_server.Session.{server_to_client, Env, Session, accepted, data_block_size, touch}
use tftp_server.Socket.Frame.{HasSockets}
use tftp_server.Send.Data.{smsg_data, data_packet}
use tftp_server.Thread.{
  waits, ends, receive, serve_packet, thread_direct_comm, forward_packet, check_end,
}
use tftp_server.Dispatch.{dispatch, parse_packet}
use tftp_server.Request.{is_downloadable, cmsg_rrq, open_download, start_download}
use tftp_server.Request.Plain.{request_packet, length-request_packet, parse_options-end}
use tftp_server.Request.New.{IsNew, opened_session, open_request-plain}
use tftp_server.Upload.{AllSent, IsWithinLimit}
use tftp_server.Download.{IsDownloading, blocks, data_packets, ack_events}
use tftp_server.Download.Block.{block_at, after_send, smsg_data-one}
use tftp_server.Download.Transfer.{IsDownloaded, serve-acks}

-- The blocks together are the text, if there are enough of them.
pub concat-blocks :
    (n size : ℕ) (content : List ℕ)
    → length content ≤ n * size
    → concat (blocks n size content) ≡ content
concat-blocks zero size [] h = refl
concat-blocks zero size (c ∷ cs) h = absurd (omega arith)
concat-blocks (suc n) size content h =
    ap (λ t. take size content ++ t)
      (concat-blocks n size (drop size content)
        (omega (arith, length-drop size content, suc-mul n size)))
    ∙ take-append-drop size content

first_size :
    (size : ℕ) (content : List ℕ) → length (block_at 0 size content) ≡ min size (length content)
first_size size content =
    ap (λ k. length (take size (drop k content))) (zero-mul size) ∙ length-take size content

module _ (cfg : Config) (e : Env) (sends : AllSent e) (memory : (n : ℕ) → e.malloc n ≡ true)
    (ok : HasSockets e) (m : ℕ) (range : cfg.comm_port_end ≡ pos (suc m)) (s : Session)
    (new : IsNew s) (file_name mode content : List ℕ) (h1 : IsText file_name) (h2 : IsText mode)
    (fits : length file_name + length mode ≤ data_block_size)
    (allowed : is_downloadable file_name cfg.downloadable_file_names ≡ true)
    (opens : e.open_read file_name ≡ some content)
    (limit : IsWithinLimit cfg (length content)) where
  abbrev request : List ℕ
  request = request_packet 1 file_name mode

  abbrev pub ready : Session
  ready = record (opened_session cfg e ok m request s) {
    file = some (record { bytes = content; position = 0 });
    selected_operation = server_to_client;
    first_block_in_window = 1;
  }

  abbrev pub begun : Session
  begun = after_send e 0 content ready

  begins : smsg_data cfg e ready ≡ some begun
  unfolding receive
  begins =
      let size : length (block_at 0 s.block_size content) ≡ min s.block_size (length content) =
        first_size s.block_size content in
      smsg_data-one cfg e ready content 0 0 new.one_block refl refl (omega arith)
        (omega (arith, new.nothing_handled, new.default_size))
        (limit _ (omega (arith, size, new.nothing_handled))) memory sends

  pub rrq-accepted :
      cmsg_rrq cfg e (length request) (touch e (receive request s)) ≡ some (begun, accepted)
  unfolding cmsg_rrq open_download start_download receive
  rrq-accepted = ground (
    arith,
    new.idle,
    allowed,
    opens,
    begins,
    open_request-plain cfg e ok m range s new 1 file_name mode h1 h2 fits
        (open_download cfg e (length request)),
    parse_options-end cfg e (length request) (length request)
        (record (opened_session cfg e ok m request s) {
          file = some (record { bytes = content; position = 0 });
        }),
  )

  abbrev waiting : Session
  waiting = record begun { forwarded = s.forwarded ++ request ∷ [] }

  request_served :
      serve_packet cfg e (length request) (touch e (receive request s)) ≡ some (waits waiting)
  unfolding serve_packet parse_packet dispatch forward_packet check_end receive
  request_served = ground (
    arith,
    rrq-accepted,
    new.no_error,
    new.not_done,
    new.buffer_size,
    length-request_packet 1 file_name mode,
    length-append request (set (drop (length request) s.buffer) 0 0),
    take-append (length request) request (set (drop (length request) s.buffer) 0 0) refl,
  )

  waiting-IsDownloading : IsDownloading waiting 0 content
  unfolding receive
  waiting-IsDownloading = record {
    direction = refl;
    one_block = new.one_block;
    next_block = refl;
    position = 0 * s.block_size + length (block_at 0 s.block_size content);
    opened = refl;
    end_reached =
        ground (arith, new.nothing_read, new.default_size, first_size s.block_size content);
    no_error = new.no_error;
    not_done = new.not_done;
    block_fits = omega (arith, new.default_size);
    buffer_size = omega (
      arith,
      new.buffer_size,
      new.default_size,
      length-request_packet 1 file_name mode,
      length-append request (set (drop (length request) s.buffer) 0 0),
      length-set (drop (length request) s.buffer) 0 0,
      length-drop (length request) s.buffer,
    );
    socket = ok.number s.socket_calls;
    has_socket = refl;
  }

  -- A session thread that is given a plain RRQ for a file that clients may read, of `n` full blocks
  -- and a shorter one, below 2 ^ 16 in all and within the limit on bytes, and then the ACK of each
  -- block, where the calls of the system succeed and name and mode fit a block: it ends without an
  -- error, with the transfer done, and has sent the blocks of the file in their order, which
  -- together are the file, and no other packet.
  pub download_lem :
      (n : ℕ)
      → n * data_block_size ≤ length content
      → length content < n * data_block_size + data_block_size
      → suc n < 2 ^ 16
      → (s' : Session) × (thread_direct_comm cfg e
            (length request)
            (ack_events 0 (suc n))
            (receive request s)
          ≡ some (ends s'))
        × IsDownloaded s s' (data_packets 0 (blocks (suc n) data_block_size content))
        × (concat (blocks (suc n) data_block_size content) ≡ content)
  unfolding thread_direct_comm receive
  download_lem n low high room =
      let bytes : waiting.bytes_handled ≡ length (block_at 0 s.block_size content) =
        omega (arith, new.nothing_handled) in
      let size = new.default_size in
      let taken : length (block_at 0 s.block_size content) ≡ min s.block_size (length content) =
        first_size s.block_size content in
      let (s', runs, r) =
        serve-acks cfg e sends memory n waiting 0 content waiting-IsDownloading
          (subst (λ b. (0 + n) * b ≤ length content) (sym size)
            (subst (λ k. k * data_block_size ≤ length content) (omega arith) low))
          (subst (λ b. length content < (0 + n) * b + b) (sym size)
            (subst (λ k. length content < k * data_block_size + data_block_size) (omega arith)
              high))
          (omega arith) (omega arith) (omega arith) (omega arith) (λ k h. limit k (omega arith)) in
      (
        s',
        rw request_served runs,
        record {
          delivered =
              r.delivered
              ∙ rw (sends s.send_calls (data_packet 1 (block_at 0 s.block_size content))) (
                  ap
                    (λ b.
                      (s.sent ++ data_packet 1 (block_at 0 b content) ∷ [])
                      ++ data_packets 1 (blocks n b (drop (1 * b) content)))
                    size
                  ∙ simp append_assoc);
          no_error = r.no_error;
          done = r.done;
        },
        concat-blocks (suc n) data_block_size content (omega (arith, suc-mul n data_block_size)),
      )
