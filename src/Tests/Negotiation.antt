-- ===== src/Tests/Negotiation.antt =====
-- Runs of ParseOptions on requests with options.
use tftp_server.Base.{
  ◌+◌, ◌*◌, replicate, concat, wire_size, be16, ℕ, ◌≤◌, List, [], ◌∷◌, ◌++◌, some, pos, ◌>>=◌,
  length, ◌≡◌, refl, arith, inl, All,
}
use tftp_server.Config.{Config}
use tftp_server.Text.{stricmp_eq, to_lower, print_int}
use tftp_server.Session.{Session}
use tftp_server.Send.Error.{codes}
use tftp_server.Request.Plain.{request_packet}
use tftp_server.Options.{parse_options}
use tftp_server.Options.Encoded.{Choice, encode, apply_all, IsChoice}
use tftp_server.Options.Encoded.Refines.{start, answered, parse_options-encoded}
use tftp_server.Options.Encoded.Answers.{answer_text, sizes, IsAgreed, parse_options-sizes}
use tftp_server.Thread.{thread_direct_comm, receive, ends}
use tftp_server.Send.Ack.{ack_packet}
use tftp_server.Upload.{data_events}
use tftp_server.Upload.Window.Transfer.{IsFilled, ack_numbers}
use tftp_server.Upload.Negotiated.{thread_direct_comm-sizes}
use tftp_server.Download.{blocks, data_packets}
use tftp_server.Download.Transfer.{IsDownloaded}
use tftp_server.Download.Window.Transfer.{window_acks}
use tftp_server.Download.Negotiated.{thread_direct_comm-windows}
use tftp_server.Tests.{
  file_text, example_downloadable, within_limit, example_HasSockets, example_IsNew,
  example_IsUploadOpen, example_config, example_env, example_session,
}

abbrev plain : List ℕ
plain = request_packet 1 (codes "A.BIN") (codes "octet")

-- A timeout, and an option that the server does not know.
abbrev choices : List Choice
choices =
    record { name = codes "timeout"; value = codes "5" }
    ∷ record { name = codes "speed"; value = codes "9" }
    ∷ []

abbrev received : List Choice → Session
received cs = record example_session { buffer = (plain ++ encode cs) ++ 0 ∷ [] }

choices_fit : All (IsChoice (length (plain ++ encode choices))) choices
unfolding stricmp_eq to_lower
choices_fit = (
  record { name_text = omega arith; value_text = omega arith; roomy = inl refl },
  (record { name_text = omega arith; value_text = omega arith; roomy = inl refl }, tt),
)

parse_options-encoded_example :
    parse_options example_config example_env
      (length (plain ++ encode choices))
      (length plain)
      (received choices)
    ≡ (apply_all example_config example_env choices (start (received choices))
        >>= answered example_env)
parse_options-encoded_example =
    parse_options-encoded example_config example_env (λ n. refl) choices plain (0 ∷ [])
      (received choices) refl choices_fit

-- At most four blocks to the window.
abbrev four_blocks : Config
four_blocks = record example_config { window_size_max = pos 4 }

sizes_fit : length (plain ++ encode (sizes 1024 9)) ≤ 1024
unfolding print_int
sizes_fit = omega arith

parse_options-sizes_example :
    (s' : Session) × (parse_options four_blocks example_env
        (length (plain ++ encode (sizes 1024 9)))
        (length plain)
        (received (sizes 1024 9))
      ≡ some s')
    × IsAgreed (received (sizes 1024 9)) s' 1024 4
parse_options-sizes_example =
    parse_options-sizes four_blocks example_env (λ n. refl) (λ n p. refl) 1024 9 4 plain (0 ∷ [])
      (received (sizes 1024 9)) (omega arith) (omega arith) (omega arith) (omega arith) refl refl
      refl sizes_fit

-- A whole upload in blocks of 64 bytes, with nine of them to the window.
abbrev two_blocks : List (List ℕ)
two_blocks = replicate 64 7 ∷ codes "end" ∷ []

abbrev sized_request : List ℕ
sized_request = request_packet 2 (codes "b.bin") (codes "octet") ++ encode (sizes 64 9)

abbrev agreed_oack : List ℕ
agreed_oack = be16 6 ++ answer_text (codes "blksize") 64 ++ answer_text (codes "windowsize") 9

sized_request_fits : length sized_request ≤ 64
unfolding print_int
sized_request_fits = omega arith

thread_direct_comm-sizes_example :
    (s' : Session) × (thread_direct_comm example_config example_env
        (length sized_request)
        (data_events 0 two_blocks)
        (receive sized_request example_session)
      ≡ some (ends s'))
    × IsFilled
        (record example_session { sent = example_session.sent ++ agreed_oack ∷ ack_packet 0 ∷ [] })
        s'
        (concat two_blocks)
        (1 ∷ 1 ∷ [])
unfolding ack_numbers
thread_direct_comm-sizes_example =
    thread_direct_comm-sizes example_config example_env (λ n p. refl) example_HasSockets 65534 refl
      example_session example_IsNew (codes "b.bin") (codes "octet") (omega arith) (omega arith) 64 9
      (omega (arith, sized_request_fits)) example_IsUploadOpen (λ n. refl) 65535 7 (omega arith)
      (omega arith) (omega arith) (omega arith) refl refl sized_request_fits refl two_blocks
      (omega arith) (omega arith) (omega arith) (omega arith)
      (within_limit (wire_size two_blocks) (omega arith))

-- A whole download in blocks of 64 bytes, with two of them to the window.
abbrev read_request : List ℕ
read_request = request_packet 1 (codes "A.BIN") (codes "octet") ++ encode (sizes 64 2)

abbrev read_oack : List ℕ
read_oack = be16 6 ++ answer_text (codes "blksize") 64 ++ answer_text (codes "windowsize") 2

read_request_fits : length read_request ≤ 64
unfolding print_int
read_request_fits = omega arith

thread_direct_comm-windows_example :
    (s' : Session) × (thread_direct_comm example_config example_env
        (length read_request)
        (window_acks 2 3 0 0)
        (receive read_request example_session)
      ≡ some (ends s'))
    × IsDownloaded
        (record example_session { sent = example_session.sent ++ read_oack ∷ [] })
        s'
        (data_packets 0 (blocks (4 * 2 + 1) 64 file_text))
    × (concat (blocks (4 * 2 + 1) 64 file_text) ≡ file_text)
thread_direct_comm-windows_example =
    thread_direct_comm-windows example_config example_env (λ n p. refl) (λ n. refl)
      example_HasSockets 65534 refl example_session example_IsNew (codes "A.BIN") (codes "octet")
      (omega arith) (omega arith) 64 2 (omega (arith, read_request_fits)) file_text
      example_downloadable refl (λ n. refl) 65535 2 (omega arith) (omega arith) (omega arith)
      (omega arith) refl refl read_request_fits refl (omega arith) 1000 (omega arith)
      (within_limit 1000 (omega arith)) (omega arith) (omega arith) 3 0 (omega arith) (omega arith)
      (omega arith) (omega arith) (omega arith)
