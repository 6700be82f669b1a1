-- ===== src/Tests/Clock.antt =====
-- Runs over the start of a new period of the clock.
use tftp_server.Base.{ℕ, ◌+◌, ◌-◌, ◌*◌, ◌<◌, ◌^◌, some, negsuc, ◌≡◌, refl, arith}
use tftp_server.Session.{Env, Session, new_session}
use tftp_server.Thread.{time_passed, serve, waits}
use tftp_server.Thread.Silence.{silences}
use tftp_server.Clock.{Instant, get_tick}
use tftp_server.Clock.Elapsed.{time_passed-get_tick}
use tftp_server.Clock.Wrap.{IsOpen, later, serve-wrapped}
use tftp_server.Tests.{example_config, example_env}
use tftp_server.Tests.Parts.{uploading}

abbrev at : ℕ → Instant
at n = record { seconds = n; nanoseconds = 500000000 }

-- The period of 2 ^ 32 milliseconds ends in the second 4294967.
time_passed-get_tick_example :
    time_passed (get_tick (at 4294968)) (get_tick (at 4294966)) ≡ negsuc (2 ^ 32 - 1 - 2000)
time_passed-get_tick_example =
    time_passed-get_tick (at 4294966) (at 4294968) (omega arith) (omega arith)

-- The clock is read every two seconds.
abbrev wrapping_env : Env
wrapping_env = record example_env { tick = λ n. get_tick (at (4294966 + n * 2)) }

abbrev stamped : Session
stamped = record uploading { last_activity_stamp = get_tick (at 4294966); tick_calls = 1 }

stamped-IsOpen : IsOpen stamped
unfolding new_session
stamped-IsOpen = record { no_error = refl; not_done = refl; socket = 3; has_socket = refl }

stamp_small : stamped.last_activity_stamp < 2 ^ 63
unfolding get_tick
stamp_small = omega arith

readings : (j : ℕ) → j < 1000 → wrapping_env.tick (1 + j) < stamped.last_activity_stamp
unfolding get_tick
readings j h = omega arith

serve-wrapped_example :
    serve example_config wrapping_env (silences 1000) (waits stamped)
    ≡ some (waits (later example_config wrapping_env 1000 stamped))
serve-wrapped_example =
    serve-wrapped example_config wrapping_env 1000 1 stamped stamped-IsOpen refl stamp_small
      readings
