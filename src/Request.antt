-- ===== src/Request.antt =====
-- CMSG_RRQ and CMSG_WRQ of src/TFTP.cpp: the requests that open a transfer.
pub mod Sized
pub mod Access
pub mod Plain
pub mod NameSet
pub mod New
pub mod Opened
use tftp_server.Base.{
  ℕ, ◌+◌, ◌<◌, List, [], ◌∷◌, Option, none, some, Bool, true, false, ◌||◌, ltb, ◌==◌, if◌then◌else◌,
  ◌>>=◌, ℤ, pos, negsuc, eqb_ℤ, length, set, replicate,
}
use tftp_server.Config.{Config}
use tftp_server.Text.{c_string_at, strcmp_eq, stricmp_eq}
use tftp_server.Session.{
  Operation, not_initialized, client_to_server, server_to_client, Env, File, Session, Status,
  accepted, refused, err_illegal_operation, err_file_not_found,
}
use tftp_server.Socket.{create_comm_udp_socket}
use tftp_server.Options.{parse_options}
use tftp_server.Send.Ack.{smsg_ack_block}
use tftp_server.Send.Data.{smsg_data}
use tftp_server.Receive.{too_small}

-- packet[size] = 0.
unfoldable pub terminate : ℕ → Session → Option Session
terminate size s =
    if ltb size (length s.buffer) then some (record s { buffer = set s.buffer size 0 }) else none

-- The file's name and the index behind the mode, or a packet that ends before them.
pub data Names : Type 0 where
  cut : Names
  names : List ℕ → ℕ → Names

unfoldable pub read_names : ℕ → List ℕ → Option Names
read_names size packet = if ltb size 3 then some cut else (do
  file_name ← c_string_at packet 2
  let n = 2 + length file_name + 1
  if ltb size (n + 1)
      then some cut
      else (do mode ← c_string_at packet n; some (names file_name (n + length mode + 1))))

-- The search of the lists of names that the configuration allows.
unfoldable pub is_downloadable : List ℕ → List (List ℕ) → Bool
unfolding stricmp_eq
is_downloadable name [] = false
is_downloadable name (n ∷ ns) = stricmp_eq name n || is_downloadable name ns

unfoldable pub is_uploadable : List ℕ → List (List ℕ) → Bool
unfolding strcmp_eq
is_uploadable name [] = false
is_uploadable name (n ∷ ns) = strcmp_eq name n || is_uploadable name ns

abbrev pub not_found : Session → Option (Session × Status)
not_found s = some (record s { error = err_file_not_found }, refused)

-- CMSG_RRQ behind the opening of the file.
unfoldable pub start_download : Config → Env → ℕ → ℕ → Session → Option (Session × Status)
start_download cfg e size n s = do
  s1 ← parse_options cfg e size n s
  s2 ←
      smsg_data cfg e
        (record s1 { selected_operation = server_to_client; first_block_in_window = 1 })
  some (s2, accepted)

-- CMSG_RRQ behind the creation of the socket.
unfoldable pub open_download : Config → Env → ℕ → List ℕ → ℕ → Session → Option (Session × Status)
unfolding start_download
open_download cfg e size file_name n s =
    if is_downloadable file_name cfg.downloadable_file_names
    then elim (e.open_read file_name) [
      | none ↦ not_found s
      | some content ↦
          start_download cfg e size n
            (record s { file = some (record { bytes = content; position = 0 }) })
    ]
    else not_found s

-- malloc and memset of BlockNrInWindowReceived; a negative number of entries is no array.
unfoldable pub new_window : ℤ → Option (List ℕ)
new_window (pos w) = some (replicate w 0)
new_window (negsuc w) = none

-- CMSG_WRQ behind the opening of the file.
unfoldable pub start_upload : Config → Env → ℕ → ℕ → Session → Option (Session × Status)
unfolding new_window
start_upload cfg e size n s = do
  s1 ← parse_options cfg e size n s
  array ← new_window s1.window_size
  s2 ← smsg_ack_block e (record s1 {
    selected_operation = client_to_server;
    received = array;
    first_block_in_window = 0;
  })
  some (s2, accepted)

-- CMSG_WRQ behind the creation of the socket. In relay mode no file is opened.
unfoldable pub open_upload : Config → Env → ℕ → List ℕ → ℕ → Session → Option (Session × Status)
unfolding start_upload
open_upload cfg e size file_name n s =
    if is_uploadable file_name cfg.uploadable_file_names
    then (if eqb_ℤ cfg.no_file_write_on_server (pos 0)
        then (if e.open_write file_name
            then start_upload cfg e size n
                (record s { file = some (record { bytes = []; position = 0 }) })
            else not_found s)
        else start_upload cfg e size n s)
    else not_found s

-- What both requests do first. The answer of CreateCommUDPSocket is only logged.
unfoldable pub open_request :
    Config
    → Env
    → ℕ
    → (List ℕ → ℕ → Session → Option (Session × Status))
    → Session
    → Option (Session × Status)
unfolding terminate read_names
open_request cfg e size go s = do
  s1 ← terminate size s
  found ← read_names size s1.buffer
  elim found [
    | cut ↦ too_small s1
    | names file_name n ↦ create_comm_udp_socket cfg e s1 >>= λ r. go file_name n r.0
  ]

unfoldable pub cmsg_rrq : Config → Env → ℕ → Session → Option (Session × Status)
unfolding open_request open_download
cmsg_rrq cfg e size s = elim s.selected_operation [
  | not_initialized ↦ open_request cfg e size (open_download cfg e size) s
  | _ ↦ some (s, refused)
]

unfoldable pub cmsg_wrq : Config → Env → ℕ → Session → Option (Session × Status)
unfolding open_request open_upload
cmsg_wrq cfg e size s = elim s.selected_operation [
  | not_initialized ↦ open_request cfg e size (open_upload cfg e size) s
  | _ ↦ some (s, refused)
]
