-- ===== src/Base/Word.antt =====
-- The fixed widths of the source, and the byte order of the network.
use Prim.Native.Nat.{ℕ, ◌+◌, ◌*◌, ◌/◌, ◌%◌, ◌^◌}
use mathlib.Core.Path.{◌≡◌}
use mathlib.Core.List.{List, [], ◌∷◌}
use native.Mathlib.Omega.{arith}

abbrev pub u16 : ℕ → ℕ
u16 n = n % 2 ^ 16

abbrev pub u64 : ℕ → ℕ
u64 n = n % 2 ^ 64

-- `*(unsigned short*)p = htons(n)`: the high byte first.
abbrev pub be16 : ℕ → List ℕ
be16 n = (n % 2 ^ 16 / 256) ∷ (n % 256) ∷ []

-- `ntohs(*(unsigned short*)p)` of two bytes.
abbrev pub of_be16 : ℕ → ℕ → ℕ
of_be16 hi lo = hi * 256 + lo

pub of_be16-be16 : (n : ℕ) → of_be16 (n % 2 ^ 16 / 256) (n % 256) ≡ n % 2 ^ 16
of_be16-be16 n = omega arith
