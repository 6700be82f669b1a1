-- ===== src/Clock.antt =====
-- getTick of src/pthread_win.cpp, in a build for Linux: the milliseconds that the sessions' timeouts
-- are measured in.
pub mod Elapsed
pub mod Wrap
use tftp_server.Base.{ℕ, ◌+◌, ◌*◌, ◌/◌, ◌%◌, ◌^◌, List, [], ◌∷◌}

-- What clock_gettime stores.
pub record Instant : Type 0 where
  pub seconds : ℕ
  pub nanoseconds : ℕ

-- `theTick` is an `unsigned int`.
unfoldable pub get_tick : Instant → ℕ
get_tick t = let tick = t.nanoseconds / 1000000 % 2 ^ 32 in (tick + t.seconds * 1000) % 2 ^ 32
