-- ===== src/Tests/Exchange.antt =====
-- A run of an upload and a download of the same file.
use tftp_server.Base.{[], ◌∷◌, ◌++◌, some, true, length, ◌≡◌, refl, arith}
use tftp_server.Config.{Config}
use tftp_server.Session.{Session}
use tftp_server.Send.Error.{codes}
use tftp_server.Send.Data.{over_limit}
use tftp_server.Text.{strcmp_eq, stricmp_eq}
use tftp_server.Thread.{ends, receive, thread_direct_comm}
use tftp_server.Request.{is_downloadable, is_uploadable}
use tftp_server.Request.Plain.{request_packet}
use tftp_server.Upload.{data_events, IsWithinLimit}
use tftp_server.Upload.Start.{IsUploadOpen}
use tftp_server.Download.{data_packets, ack_events}
use tftp_server.Exchange.{saved, IsServed, download-upload}
use tftp_server.Tests.{
  example_config, example_env, example_session, example_HasSockets, example_IsNew, example_blocks,
}

-- The file may be stored and read.
abbrev shared_config : Config
shared_config = record example_config { downloadable_file_names = codes "b.bin" ∷ [] }

shared_downloadable : is_downloadable (codes "b.bin") shared_config.downloadable_file_names ≡ true
unfolding is_downloadable stricmp_eq
shared_downloadable = refl

shared_IsUploadOpen : IsUploadOpen shared_config example_env (codes "b.bin")
unfolding is_uploadable strcmp_eq
shared_IsUploadOpen = record { allowed = refl; writes = refl; opens = refl }

shared_limit : IsWithinLimit shared_config 1000
unfolding over_limit
shared_limit n le = ground arith

example_IsServed : IsServed example_env example_session
example_IsServed = record {
  sends = λ n p. refl;
  memory = λ n. refl;
  sockets = example_HasSockets;
  new = example_IsNew;
}

download-upload_example :
    (s' d' : Session) × (thread_direct_comm shared_config example_env
        (length (request_packet 2 (codes "b.bin") (codes "octet")))
        (data_events 0 example_blocks)
        (receive (request_packet 2 (codes "b.bin") (codes "octet")) example_session)
      ≡ some (ends s'))
    × (thread_direct_comm shared_config
          (saved (codes "b.bin") s' example_env)
          (length (request_packet 1 (codes "b.bin") (codes "octet")))
          (ack_events 0 2)
          (receive (request_packet 1 (codes "b.bin") (codes "octet")) example_session)
        ≡ some (ends d'))
    × (d'.sent ≡ example_session.sent ++ data_packets 0 example_blocks)
    × (d'.transfer_done ≡ true)
download-upload_example =
    download-upload shared_config 65534 refl (codes "b.bin") (codes "octet") (codes "octet")
      (omega arith) (omega arith) (omega arith) (omega arith) (omega arith) example_env example_env
      example_session example_session example_IsServed example_IsServed shared_IsUploadOpen
      shared_downloadable example_blocks (omega arith) (omega arith) (omega arith)
      (λ n le. shared_limit n (omega (arith, le)))
