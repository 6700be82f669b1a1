-- ===== src/Upload/Start.antt =====
-- An upload from its request on.
use tftp_server.Base.{
  ℕ, suc, ◌+◌, ◌<◌, ◌≤◌, ◌^◌, List, [], ◌∷◌, ◌++◌, some, true, set, concat, wire_size, pos, length,
  drop, ◌≡◌, refl, arith, append_assoc, length-append, length-drop, sym, subst, ◌∙◌, length-set,
  take-append,
}
use tftp_server.Config.{Config}
use tftp_server.Text.Laws.{IsText}
use tftp_server.Session.{
  client_to_server, Env, Session, accepted, data_block_size, touch, send_packet,
}
use tftp_server.Socket.Frame.{HasSockets}
use tftp_server.Send.Ack.{smsg_ack_block, ack_packet, blocks_received, reset_window}
use tftp_server.Thread.{
  waits, ends, receive, serve_packet, thread_direct_comm, forward_packet, check_end,
}
use tftp_server.Dispatch.{dispatch, parse_packet}
use tftp_server.Request.{is_uploadable, cmsg_wrq, open_upload, start_upload, new_window}
use tftp_server.Request.Plain.{request_packet, length-request_packet, parse_options-end}
use tftp_server.Request.New.{IsNew, opened_session, open_request-plain}
use tftp_server.Upload.{IsUploading, AllSent, IsWithinLimit, AreBlocks, data_events, ack_packets}
use tftp_server.Upload.Transfer.{IsUploaded, serve-blocks}

-- The server may store the file, and can.
pub record IsUploadOpen (cfg : Config) (e : Env) (file_name : List ℕ) : Type 0 where
  pub allowed : is_uploadable file_name cfg.uploadable_file_names ≡ true
  pub writes : cfg.no_file_write_on_server ≡ pos 0
  pub opens : e.open_write file_name ≡ true

module _ (cfg : Config) (e : Env) (sends : AllSent e) (ok : HasSockets e) (m : ℕ)
    (range : cfg.comm_port_end ≡ pos (suc m)) (s : Session) (new : IsNew s)
    (file_name mode : List ℕ) (h1 : IsText file_name) (h2 : IsText mode)
    (fits : length file_name + length mode ≤ data_block_size)
    (opens : IsUploadOpen cfg e file_name) where
  abbrev request : List ℕ
  request = request_packet 2 file_name mode

  abbrev pub ready : Session
  ready = record (opened_session cfg e ok m request s) {
    file = some (record { bytes = []; position = 0 });
    selected_operation = client_to_server;
    received = 0 ∷ [];
    first_block_in_window = 0;
  }

  abbrev pub begun : Session
  begun = touch e (send_packet e (ack_packet 0) ready)

  begins : smsg_ack_block e ready ≡ some begun
  unfolding smsg_ack_block blocks_received reset_window receive
  begins = ground (arith, new.one_block, sends s.send_calls (ack_packet 0))

  pub wrq-accepted :
      cmsg_wrq cfg e (length request) (touch e (receive request s)) ≡ some (begun, accepted)
  unfolding cmsg_wrq open_upload start_upload receive new_window
  wrq-accepted = ground (
    arith,
    new.idle,
    opens.allowed,
    opens.writes,
    opens.opens,
    begins,
    new.one_block,
    open_request-plain cfg e ok m range s new 2 file_name mode h1 h2 fits
        (open_upload cfg e (length request)),
    parse_options-end cfg e (length request) (length request)
        (record (opened_session cfg e ok m request s) {
          file = some (record { bytes = []; position = 0 });
        }),
  )

  abbrev waiting : Session
  waiting = record begun { forwarded = s.forwarded ++ request ∷ [] }

  request_served :
      serve_packet cfg e (length request) (touch e (receive request s)) ≡ some (waits waiting)
  unfolding serve_packet parse_packet dispatch forward_packet check_end receive
  request_served = ground (
    arith,
    wrq-accepted,
    new.no_error,
    new.not_done,
    new.buffer_size,
    length-request_packet 2 file_name mode,
    length-append request (set (drop (length request) s.buffer) 0 0),
    take-append (length request) request (set (drop (length request) s.buffer) 0 0) refl,
  )

  waiting-IsUploading : IsUploading waiting 0 []
  unfolding receive
  waiting-IsUploading = record {
    direction = refl;
    one_block = new.one_block;
    window_free = refl;
    next_block = refl;
    stored = refl;
    no_error = new.no_error;
    not_done = new.not_done;
    buffer_size = omega (
      arith,
      new.buffer_size,
      new.default_size,
      length-request_packet 2 file_name mode,
      length-append request (set (drop (length request) s.buffer) 0 0),
      length-set (drop (length request) s.buffer) 0 0,
      length-drop (length request) s.buffer,
    );
    socket = ok.number s.socket_calls;
    has_socket = refl;
  }

  -- A session thread that is given a plain WRQ for a file the server may store, and then the blocks
  -- of the file in their order, full ones and a last one that is shorter and not empty, below 2 ^ 16
  -- of them and, headers included, within the limit on bytes, where the calls of the system succeed
  -- and name and mode fit a block: it ends without an error, with the transfer done, has sent ACK 0
  -- and the ACK of each block, and the file holds the blocks one after another.
  pub upload_lem :
      (blocks : List (List ℕ))
      → AreBlocks data_block_size blocks
      → length blocks < 2 ^ 16
      → wire_size blocks < 2 ^ 64
      → IsWithinLimit cfg (wire_size blocks)
      → (s' : Session) × (thread_direct_comm cfg e
            (length request)
            (data_events 0 blocks)
            (receive request s)
          ≡ some (ends s'))
        × IsUploaded s s' (concat blocks) (ack_packet 0 ∷ ack_packets 0 blocks)
  unfolding thread_direct_comm receive
  upload_lem blocks shape room small limit =
      let bytes : waiting.bytes_handled ≡ 0 = new.nothing_handled in
      let (s', runs, r) =
        serve-blocks cfg e sends blocks waiting 0 [] waiting-IsUploading
          (subst (λ size. AreBlocks size blocks) (sym new.default_size) shape) (omega arith)
          (omega arith) (λ n h. limit n (omega arith)) in
      (
        s',
        rw request_served runs,
        record {
          whole = r.whole;
          acknowledged =
              r.acknowledged ∙ rw (sends s.send_calls (ack_packet 0)) (simp append_assoc);
          no_error = r.no_error;
          done = r.done;
        },
      )
