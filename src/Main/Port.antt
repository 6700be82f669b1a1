-- ===== src/Main/Port.antt =====
-- The port and the level of the log that the program starts with.
use tftp_server.Base.{
  ℕ, ◌<◌, ◌^◌, List, [], ◌∷◌, Option, some, none, pos, ◌≡◌, refl, arith, ap, ◌∙◌,
}
use tftp_server.Config.{default_config}
use tftp_server.Text.{print_int, atoi}
use tftp_server.Text.Decimal.{atoi-print_int}
use tftp_server.Loader.Lines.{config_lines}
use tftp_server.Logger.{Logger, set_log_level_flags}
use tftp_server.Socket.{u16_of_ℤ}
use tftp_server.Loader.{init_config, generic_str_loader, get_int_config}
use tftp_server.Sqs.{Interface, fill_local_ip, initial, sqs_init}
use tftp_server.Send.Error.{codes}
use tftp_server.Main.{Program, init_log_level, start_program}

-- A port below 2 ^ 16 that is given in decimal is the one that the server listens on, and the one
-- that the client of AWS reports, with the identifier that is given and the address that
-- FillLocalIP finds; the settings are those of the file. Where the file says nothing of the log, no
-- flag of the log is set.
start_program_lem :
    (inet_ntop : Interface → List ℕ) (interfaces : List Interface) (ip : List ℕ)
    (file : Option (List ℕ)) (name server_id : List ℕ) (port : ℕ) (l : Logger)
    → fill_local_ip inet_ntop interfaces ≡ some ip
    → port < 2 ^ 16
    → generic_str_loader (config_lines file) (codes "LogVerbosityFlags") ≡ none
    → (p : Program) × (start_program inet_ntop interfaces file
          (name ∷ print_int (pos port) ∷ server_id ∷ [])
          l
        ≡ some p)
      × (p.port ≡ port)
      × (p.client.server_port ≡ port)
      × (p.client.server_id ≡ some server_id)
      × (p.client.server_ip ≡ some ip)
      × (p.config ≡ init_config (config_lines file) default_config)
      × (p.logger.severity_filter ≡ 0)
unfolding start_program init_log_level sqs_init get_int_config set_log_level_flags
start_program_lem inet_ntop interfaces ip file name server_id port l found small silent =
    let number : u16_of_ℤ (atoi (print_int (pos port))) ≡ port =
      ap u16_of_ℤ (atoi-print_int port) ∙ omega arith in
    let p : Program = record {
      config = init_config (config_lines file) default_config;
      logger = set_log_level_flags (pos 0) (set_log_level_flags (pos 0) l);
      client = record initial {
        server_id = some server_id;
        server_port = u16_of_ℤ (atoi (print_int (pos port)));
        server_ip = some ip;
      };
      port = u16_of_ℤ (atoi (print_int (pos port)));
    } in
    (p, ground (arith, found, silent), number, number, refl, refl, refl, refl)
