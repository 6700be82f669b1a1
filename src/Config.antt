-- ===== src/Config.antt =====
-- src/config.h: the settings `sConf`, which every other part reads. The numbers are C `int`s, taken
-- from the configuration file as they stand there, so they may be negative.
use tftp_server.Base.{ℕ, ◌*◌, List, [], ℤ, pos}

pub record Config : Type 0 where
  pub kill_connection_after_x_bytes_received : ℤ
  pub kill_connection_after_x_bytes_sent : ℤ
  pub downloadable_file_names : List (List ℕ)
  pub uploadable_file_names : List (List ℕ)
  pub retry_resend_packet_max : ℤ
  pub comm_port_start : ℤ
  pub comm_port_end : ℤ
  pub parallel_transfers_max : ℤ
  pub allow_tsize_option : ℤ
  pub client_timeout_sec_min : ℤ
  pub client_timeout_sec_max : ℤ
  pub window_size_min : ℤ
  pub window_size_max : ℤ
  pub no_file_write_on_server : ℤ
  pub reuse_server_port_for_comm : ℤ

-- The member initialisers.
abbrev pub default_config : Config
default_config = record {
  kill_connection_after_x_bytes_received = pos (15 * 1025 * 1024);
  kill_connection_after_x_bytes_sent = pos (15 * 1025 * 1024);
  downloadable_file_names = [];
  uploadable_file_names = [];
  retry_resend_packet_max = pos 4;
  comm_port_start = pos 49152;
  comm_port_end = pos 65535;
  parallel_transfers_max = pos 1;
  allow_tsize_option = pos 1;
  client_timeout_sec_min = pos 1;
  client_timeout_sec_max = pos 255;
  window_size_min = pos 1;
  window_size_max = pos 65535;
  no_file_write_on_server = pos 0;
  reuse_server_port_for_comm = pos 0;
}
