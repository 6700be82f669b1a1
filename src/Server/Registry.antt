-- ===== src/Server/Registry.antt =====
-- Who is found in the list of active clients.
use tftp_server.Base.{
  ℕ, ◌<◌, List, [], ◌∷◌, Option, some, Bool, true, false, not, ◌&&◌, ◌||◌, ◌==◌, pos, ltb_ℤ, length,
  ◌≡◌, refl, arith,
}
use tftp_server.Config.{Config}
use tftp_server.Server.{Entry, Server, is_live, find_client, is_duplicate_client, admits}

-- The first `n` elements are `entries`, and each of their sessions exists.
abbrev pub Holds : List Entry → List ℕ → List (Option Entry) → Type 0
Holds [] live active = Unit {0}
Holds (x ∷ xs) live [] = ⊥
Holds (x ∷ xs) live (slot ∷ rest) =
    (slot ≡ some x) × (is_live x.session live ≡ true) × Holds xs live rest

abbrev pub is_client : ℕ → List Entry → Bool
is_client address [] = false
is_client address (x ∷ xs) = address == x.address || is_client address xs

find_client-Holds :
    (address : ℕ) (xs : List Entry) (live : List ℕ) (active : List (Option Entry))
    → Holds xs live active
    → find_client address (length xs) live active ≡ some (is_client address xs)
unfolding find_client
find_client-Holds address [] live active h = refl
find_client-Holds address (x ∷ xs) live [] h = absurd h
find_client-Holds address (x ∷ xs) live (slot ∷ rest) h =
    ground (arith, find_client-Holds address xs live rest h.2)

-- While there is room, and the list's entries are of sessions that exist: a WRQ is admitted if and
-- only if no session in the list has its client's address, an RRQ always, another packet never.
pub admits_iff :
    (cfg : Config) (size op address : ℕ) (v : Server) (xs : List Entry)
    → length xs ≡ v.transfer_counter
    → Holds xs v.live v.active
    → 0 < size
    → ltb_ℤ (pos v.transfer_counter) cfg.parallel_transfers_max ≡ true
    → admits cfg size op address v ≡ some (op == 1 || op == 2 && not (is_client address xs))
unfolding admits is_duplicate_client
admits_iff cfg size op address v xs n h positive room =
    ground (arith, find_client-Holds address xs v.live v.active h)
