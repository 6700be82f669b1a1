-- ===== src/Request/Sized.antt =====
-- A request that asks for a block size and a window size, up to the point where its options have been
-- read.
use tftp_server.Base.{
  ℕ, suc, ◌≤◌, List, ◌++◌, some, true, false, set, pos, length, ltb, leb_ℤ, if◌then◌else◌, drop,
  Option, ◌≡◌, refl, arith, append_assoc, length-append, length-drop, subst, set-append,
}
use tftp_server.Config.{Config}
use tftp_server.Text.Laws.{IsText}
use tftp_server.Session.{Status, Env, Session, touch}
use tftp_server.Socket.Frame.{HasSockets, create_comm_udp_socket-first}
use tftp_server.Thread.{receive}
use tftp_server.Options.{parse_options}
use tftp_server.Options.Encoded.{encode}
use tftp_server.Options.Encoded.Answers.{sizes, IsAgreed, parse_options-sizes}
use tftp_server.Request.{open_request, terminate}
use tftp_server.Request.Plain.{request_packet, read_names-options}
use tftp_server.Request.New.{IsNew, request_buffer, opened_session}
use tftp_server.Upload.{AllSent}

module _ (cfg : Config) (e : Env) (ok : HasSockets e) (m : ℕ)
    (range : cfg.comm_port_end ≡ pos (suc m)) (s : Session) (new : IsNew s) (op : ℕ)
    (file_name mode : List ℕ) (h1 : IsText file_name) (h2 : IsText mode) (b w : ℕ)
    (fits : length (request_packet op file_name mode ++ encode (sizes b w)) ≤ 512) where
  abbrev plain : List ℕ
  plain = request_packet op file_name mode

  abbrev packet : List ℕ
  packet = plain ++ encode (sizes b w)

  abbrev behind : List ℕ
  behind = set (drop (length packet) s.buffer) 0 0

  pub open_request-options :
      (go : List ℕ → ℕ → Session → Option (Session × Status))
      → open_request cfg e (length packet) go (touch e (receive packet s))
        ≡ go file_name (length plain) (opened_session cfg e ok m packet s)
  unfolding open_request terminate receive
  open_request-options go =
      let names =
        read_names-options op file_name mode (encode (sizes b w) ++ behind) h1 h2 (length packet)
          (omega (arith, length-append plain (encode (sizes b w)))) in
      ground (
        arith,
        length-append packet (drop (length packet) s.buffer),
        length-drop (length packet) s.buffer,
        new.buffer_size,
        new.own_socket,
        set-append (length packet) packet (drop (length packet) s.buffer) 0 refl,
        append_assoc plain (encode (sizes b w)) behind,
        names,
        create_comm_udp_socket-first cfg e ok m
            (record (touch e (receive packet s)) { buffer = request_buffer packet s }) range
            new.own_socket,
      )

  -- The session before its options are read, with a file that holds `content`.
  abbrev pub asking : List ℕ → Session
  asking content = record (opened_session cfg e ok m packet s) {
    file = some (record { bytes = content; position = 0 });
  }

  pub parse_options-asking :
      AllSent e
      → ((n : ℕ) → e.realloc_moves n ≡ false)
      → (most n : ℕ) (content : List ℕ) → 8 ≤ b
      → b ≤ 65464
      → 1 ≤ w
      → w ≤ 65535
      → leb_ℤ cfg.window_size_min (pos w) ≡ true
      → cfg.window_size_max ≡ pos most
      → length packet ≤ b
      → (if ltb most w then most else w) ≡ n
      → (s1 : Session) × (parse_options cfg e (length packet) (length plain) (asking content)
          ≡ some s1)
        × IsAgreed (asking content) s1 b n
  unfolding receive
  parse_options-asking sends stays most n content b1 b2 w1 w2 least top small agree =
      let (s1, parsed, a) =
        parse_options-sizes cfg e stays sends b w most plain behind (asking content) b1 b2 w1 w2
          least top refl small in
      (s1, parsed, subst (IsAgreed (asking content) s1 b) agree a)
