-- ===== src/Send/Ack/Window.antt =====
-- The array BlockNrInWindowReceived: counting and resetting.
use tftp_server.Base.{
  ℕ, zero, suc, ◌<◌, ◌≤◌, List, [], ◌∷◌, some, ◌≡◌, refl, arith, ◌≢◌, get_elem?, length, set,
  replicate,
}
use tftp_server.Send.Ack.{blocks_received, reset_window}

-- A window as long as its array is counted within its bounds.
pub blocks_received-le :
    (n : ℕ) (array : List ℕ)
    → n ≤ length array
    → (k : ℕ) × (blocks_received n array ≡ some k) × (k ≤ n)
unfolding blocks_received
blocks_received-le zero array h = (0, refl, omega arith)
blocks_received-le (suc n) [] h = absurd (omega arith)
blocks_received-le (suc n) (zero ∷ xs) h = (0, refl, omega arith)
blocks_received-le (suc n) (suc x ∷ xs) h =
    let (k, e, l) = blocks_received-le n xs (omega arith) in (suc k, ground (arith, e), omega arith)

pub reset_window_lem :
    (n : ℕ) (array : List ℕ) → length array ≡ n → reset_window n array ≡ some (replicate n 0)
unfolding reset_window
reset_window_lem zero [] h = refl
reset_window_lem zero (x ∷ xs) h = absurd (omega arith)
reset_window_lem (suc n) [] h = absurd (omega arith)
reset_window_lem (suc n) (x ∷ xs) h = rw (reset_window_lem n xs (omega arith))

-- A mark that is not the first one is not counted.
pub blocks_received-later :
    (n i v : ℕ) → i ≢ 0 → blocks_received (suc n) (set (replicate (suc n) 0) i v) ≡ some 0
unfolding blocks_received
blocks_received-later n zero v h = absurd (h refl)
blocks_received-later n (suc i) v h = refl

pub get_elem?-replicate : (n i : ℕ) → i < n → get_elem? (replicate {A = ℕ} n 0) i ≡ some 0
get_elem?-replicate zero i h = absurd (omega arith)
get_elem?-replicate (suc n) zero h = refl
get_elem?-replicate (suc n) (suc i) h = get_elem?-replicate n i (omega arith)
