-- ===== src/Clock/Elapsed.antt =====
-- The time between two readings of the clock, as ThreadDirectComm computes it.
use tftp_server.Base.{
  ℕ, ◌+◌, ◌-◌, ◌*◌, ◌/◌, ◌%◌, ◌^◌, ◌<◌, ◌≤◌, Bool-cases, inl, inr, ◌==◌, if◌then◌else◌, u64, pos,
  negsuc, ◌≡◌, ◌≢◌, arith,
}
use tftp_server.Thread.{time_passed}
use tftp_server.Clock.{Instant, get_tick}

-- The milliseconds since the epoch.
abbrev pub ms : Instant → ℕ
ms t = t.seconds * 1000 + t.nanoseconds / 1000000

get_tick-ms : (t : Instant) → get_tick t ≡ ms t % 2 ^ 32
unfolding get_tick
get_tick-ms t = omega arith

-- The difference of two readings as an unsigned number.
same_period :
    (a b : ℕ) → a ≤ b → b / 2 ^ 32 ≡ a / 2 ^ 32 → u64 (b % 2 ^ 32 + (2 ^ 64 - a % 2 ^ 32)) ≡ b - a
same_period a b order same = omega arith

next_period :
    (a b : ℕ)
    → a ≤ b
    → b < a + 2 ^ 32
    → b / 2 ^ 32 ≢ a / 2 ^ 32
    → u64 (b % 2 ^ 32 + (2 ^ 64 - a % 2 ^ 32)) ≡ 2 ^ 64 - (2 ^ 32 - (b - a))
next_period a b order near other = omega arith

-- Two readings of the clock less than 2 ^ 32 milliseconds apart: the time between them is what has
-- passed if both are in the same period of 2 ^ 32 milliseconds, and 2 ^ 32 less, which is negative,
-- if they are not.
pub time_passed-get_tick :
    (before now : Instant)
    → ms before ≤ ms now
    → ms now < ms before + 2 ^ 32
    → time_passed (get_tick now) (get_tick before) ≡ (
        if ms now / 2 ^ 32 == ms before / 2 ^ 32
        then pos (ms now - ms before)
        else negsuc (2 ^ 32 - 1 - (ms now - ms before)))
time_passed-get_tick before now order near =
    rw (get_tick-ms before, get_tick-ms now)
      (elim (Bool-cases (ms now / 2 ^ 32 == ms before / 2 ^ 32)) [
        | inl same ↦ ground (arith, same, same_period (ms before) (ms now))
        | inr other ↦ ground (arith, other, next_period (ms before) (ms now))
      ])
