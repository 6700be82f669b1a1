-- ===== src/Tests/Setup.antt =====
-- Runs of the log, and of what main sets up.
use tftp_server.Base.{ℕ, List, [], ◌∷◌, ◌++◌, Option, none, some, false, ◌≡◌, refl, arith, All}
use tftp_server.Send.Error.{codes}
use tftp_server.Logger.{Logger, Severity, Message, trace, info, error, log_all}
use tftp_server.Logger.Filter.{selected}
use tftp_server.Logger.Bounds.{IsLogged, log_all-IsLogged}
use tftp_server.Loader.{generic_str_loader, value_on}
use tftp_server.Loader.Lines.{config_lines}
use tftp_server.Sqs.{fill_local_ip}
use tftp_server.Tests.Shared.{two_interfaces, example_ntop}

-- A log without the messages of the level INFO.
abbrev example_logger : Logger
example_logger = record {
  log_file = some [];
  log_to_console = false;
  severity_filter = 5;
  console = [];
}

abbrev message : Severity → List ℕ → Message
message severity text = record {
  severity = severity;
  time = record { month = 10; day = 26; hour = 12; minute = 0; second = 5; tick = 123456 };
  function = codes "main";
  line = 7;
  text = text;
}

abbrev messages : List Message
messages =
    message trace (codes "one") ∷ message info (codes "two") ∷ message error (codes "three") ∷ []

message-IsLogged : (severity : Severity) (text : List ℕ) → IsLogged (message severity text)
message-IsLogged severity text = record {
  time = record {
    month = omega arith;
    day = omega arith;
    hour = omega arith;
    minute = omega arith;
    second = omega arith;
  };
  function = omega arith;
  line = omega arith;
}

messages-IsLogged : All IsLogged messages
messages-IsLogged = (
  message-IsLogged trace (codes "one"),
  (message-IsLogged info (codes "two"), (message-IsLogged error (codes "three"), tt)),
)

log_all-IsLogged_example :
    (l : Logger) × (log_all messages example_logger ≡ some l)
    × (l.log_file ≡ some ([] ++ selected 5 messages))
    × (l.severity_filter ≡ 5)
log_all-IsLogged_example = log_all-IsLogged messages example_logger [] refl messages-IsLogged

abbrev settings : Option (List ℕ)
settings = some (codes "ParallelTransfersMax=5")

no_log_level : generic_str_loader (config_lines settings) (codes "LogVerbosityFlags") ≡ none
unfolding generic_str_loader value_on config_lines
no_log_level = refl

local_ip : fill_local_ip example_ntop two_interfaces ≡ some (codes "10.0.0.1")
unfolding fill_local_ip
local_ip = refl
