-- ===== src/Tests/Steps.antt =====
-- A run of the listener and its threads.
use tftp_server.Base.{[], ◌∷◌, some, none, pos}
use tftp_server.Config.{Config, default_config}
use tftp_server.Server.{Entry, Server}

abbrev two_at_once : Config
two_at_once = record default_config { parallel_transfers_max = pos 2 }

abbrev carol : Entry
carol = record { session = 7; address = 30 }

abbrev dave : Entry
dave = record { session = 8; address = 40 }

-- A session has begun by an RRQ of 20 bytes.
abbrev one_running : Server
one_running = record {
  active = some carol ∷ none ∷ none ∷ [];
  transfer_counter = 1;
  live = 7 ∷ [];
  pending = [];
}
