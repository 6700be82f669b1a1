-- ===== src/Main.antt =====
-- src/main.cpp: what main sets up before RunTFTPServer, in a build without _DEBUG.
pub mod Port
use tftp_server.Base.{
  ℕ, List, [], ◌∷◌, Option, none, some, ℤ, pos, length, ◌==◌, if◌then◌else◌, ◌>>=◌,
}
use tftp_server.Config.{Config, default_config}
use tftp_server.Text.{atoi}
use tftp_server.Socket.{u16_of_ℤ}
use tftp_server.Send.Error.{codes}
use tftp_server.Loader.{get_int_config, init_config}
use tftp_server.Loader.Lines.{config_lines}
use tftp_server.Logger.{Logger, set_log_level_flags}
use tftp_server.Sqs.{Interface, Client, initial, sqs_init}

-- The globals sConf and sLogger, those of src/AWSSQS.cpp, and the port.
pub record Program : Type 0 where
  pub config : Config
  pub logger : Logger
  pub client : Client
  pub port : ℕ

-- The lines of InitConfig about the log.
unfoldable pub init_log_level : List (List ℕ) → Logger → Logger
init_log_level lines l =
    set_log_level_flags (get_int_config lines (codes "LogVerbosityFlags") (pos 0)) l

-- `none` is the message on usage, or what FillLocalIP leaves undefined. `file` is what init.cfg holds,
-- `args` is argv, `l` is sLogger; inet_ntop and the list of getifaddrs are parameters.
unfoldable pub start_program :
    (Interface → List ℕ)
    → List Interface
    → Option (List ℕ)
    → List (List ℕ)
    → Logger
    → Option Program
unfolding init_log_level
start_program inet_ntop interfaces file (name ∷ port ∷ server_id ∷ []) l =
    let lines = config_lines file in
    let port_number = u16_of_ℤ (atoi port) in
    sqs_init inet_ntop interfaces server_id port_number initial >>= λ client. some (record {
      config = init_config lines default_config;
      logger = init_log_level lines (set_log_level_flags (pos 0) l);
      client = client;
      port = port_number;
    })
start_program inet_ntop interfaces file args l = none
