-- ===== src/Loader.antt =====
-- src/config.cpp: the settings from the lines of the configuration file. A line is the text that
-- fgets stores, without its terminator.
pub mod File
pub mod Lines
pub mod Values
use tftp_server.Base.{
  ℕ, zero, suc, ◌+◌, List, [], ◌∷◌, ◌++◌, Option, none, some, Bool, true, false, ◌||◌, ◌&&◌, ltb,
  ◌==◌, if◌then◌else◌, ℤ, pos, negsuc, drop, eqb_ℤ, ltb_ℤ, pos_part,
}
use tftp_server.Text.{atoi}
use tftp_server.Config.{Config, default_config}
use tftp_server.Send.Error.{codes}
use tftp_server.Loader.Lines.{line_size}

-- chrpos from index `i` on.
unfoldable pub chrpos_from : ℕ → List ℕ → ℕ → ℕ → ℤ
chrpos_from i [] c max_len = negsuc 0
chrpos_from i (x ∷ str) c max_len =
    let rest = chrpos_from (i + 1) str c max_len in
    if ltb i max_len then (if x == c then pos i else rest) else negsuc 0

unfoldable pub chrpos : List ℕ → ℕ → ℕ → ℤ
unfolding chrpos_from
chrpos str c max_len = chrpos_from 0 str c max_len

-- strcmp2 from index `i` on: whether it returns 0.
unfoldable pub strcmp2_from : ℕ → List ℕ → List ℕ → ℕ → Bool
strcmp2_from i s1 [] max_len = true
strcmp2_from i [] (y ∷ s2) max_len = false
strcmp2_from i (x ∷ s1) (y ∷ s2) max_len =
    let rest = strcmp2_from (i + 1) s1 s2 max_len in if x == y && ltb i max_len then rest else false

unfoldable pub strcmp2 : List ℕ → List ℕ → ℕ → Bool
unfolding strcmp2_from
strcmp2 s1 s2 max_len = strcmp2_from 0 s1 s2 max_len

-- RemoveEOL from index `i` on, as the text up to the first terminator.
unfoldable pub remove_eol_from : ℕ → List ℕ → ℕ → List ℕ
remove_eol_from i [] max_len = []
remove_eol_from i (x ∷ s) max_len =
    let rest = remove_eol_from (i + 1) s max_len in
    if ltb i max_len then (if x == 10 || x == 13 then [] else x ∷ rest) else x ∷ s

unfoldable pub remove_eol : List ℕ → ℕ → List ℕ
unfolding remove_eol_from
remove_eol s max_len = remove_eol_from 0 s max_len

-- The value on a line, if the line's name is the one looked for and there is a `=` behind the
-- line's start.
unfoldable pub value_on : List ℕ → List ℕ → Option (List ℕ)
unfolding chrpos strcmp2 remove_eol
value_on line conf_name =
    let i = chrpos line 61 line_size in
    if strcmp2 line conf_name line_size && ltb_ℤ (pos 0) i
    then some (remove_eol (drop (pos_part i + 1) line) line_size)
    else none

-- GenericStrLoader and GetStrConfig on an open file: the value on the first such line.
unfoldable pub generic_str_loader : List (List ℕ) → List ℕ → Option (List ℕ)
unfolding value_on
generic_str_loader [] conf_name = none
generic_str_loader (line ∷ lines) conf_name =
    let rest = generic_str_loader lines conf_name in
    elim (value_on line conf_name) [ some v ↦ some v | none ↦ rest ]

-- LoadMultiLineValue: the values on all such lines.
unfoldable pub load_multi_line_value : List (List ℕ) → List ℕ → List (List ℕ)
unfolding value_on
load_multi_line_value [] conf_name = []
load_multi_line_value (line ∷ lines) conf_name =
    let rest = load_multi_line_value lines conf_name in
    elim (value_on line conf_name) [ some v ↦ v ∷ rest | none ↦ rest ]

-- GetIntConfig: the setting, which stays as it was without a value.
unfoldable pub get_int_config : List (List ℕ) → List ℕ → ℤ → ℤ
unfolding generic_str_loader
get_int_config lines conf_name store = elim (generic_str_loader lines conf_name) [
  | some v ↦ atoi v
  | none ↦ store
]

-- GetFloatConfig, for any type of values and with atof as a parameter.
unfoldable pub get_float_config {ℓ} : {F : Type ℓ} → (List ℕ → F) → List (List ℕ) → List ℕ → F → F
unfolding generic_str_loader
get_float_config atof lines conf_name store = elim (generic_str_loader lines conf_name) [
  | some v ↦ atof v
  | none ↦ store
]

-- InitConfig, less the level of the log. A file that cannot be opened has no lines here.
unfoldable pub init_config : List (List ℕ) → Config → Config
unfolding get_int_config load_multi_line_value
init_config lines cfg = record {
  retry_resend_packet_max =
      get_int_config lines (codes "RetryResendPacketMax") cfg.retry_resend_packet_max;
  parallel_transfers_max =
      get_int_config lines (codes "ParallelTransfersMax") cfg.parallel_transfers_max;
  comm_port_start = get_int_config lines (codes "CommPortRangeStart") cfg.comm_port_start;
  comm_port_end = get_int_config lines (codes "CommPortRangeEnd") cfg.comm_port_end;
  kill_connection_after_x_bytes_received =
      get_int_config lines (codes "MaxFileSizeUpload") cfg.kill_connection_after_x_bytes_received;
  kill_connection_after_x_bytes_sent =
      get_int_config lines (codes "MaxFileSizeDownload") cfg.kill_connection_after_x_bytes_sent;
  allow_tsize_option = get_int_config lines (codes "AllowFileSizeQuery") cfg.allow_tsize_option;
  client_timeout_sec_min = get_int_config lines (codes "TimeoutSecMin") cfg.client_timeout_sec_min;
  client_timeout_sec_max = get_int_config lines (codes "TimeoutSecMax") cfg.client_timeout_sec_max;
  window_size_min = get_int_config lines (codes "WindowSizeMin") cfg.window_size_min;
  window_size_max = get_int_config lines (codes "WindowSizeMax") cfg.window_size_max;
  no_file_write_on_server = get_int_config lines (codes "NoFileWrite") cfg.no_file_write_on_server;
  reuse_server_port_for_comm =
      get_int_config lines (codes "UseServerPortForComm") cfg.reuse_server_port_for_comm;
  downloadable_file_names =
      cfg.downloadable_file_names ++ load_multi_line_value lines (codes "DownloadableFileName");
  uploadable_file_names =
      cfg.uploadable_file_names ++ load_multi_line_value lines (codes "UploadableFileName");
}
