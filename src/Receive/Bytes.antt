-- ===== src/Receive/Bytes.antt =====
-- The bytes of a packet.
use tftp_server.Base.{
  ℕ, zero, suc, ◌<◌, List, [], ◌∷◌, some, ◌≡◌, refl, arith, length, get_elem?, All,
}

abbrev pub AreBytes : List ℕ → Type 0
AreBytes = All (λ b. b < 256)

-- A byte inside an array can be read.
pub get_elem?-some :
    (i : ℕ) (bytes : List ℕ) → i < length bytes → (b : ℕ) × (get_elem? bytes i ≡ some b)
get_elem?-some i [] h = absurd (omega arith)
get_elem?-some zero (b ∷ bs) h = (b, refl)
get_elem?-some (suc i) (b ∷ bs) h = get_elem?-some i bs (omega arith)

pub get_elem?-lt :
    (i b : ℕ) (bytes : List ℕ) → AreBytes bytes → get_elem? bytes i ≡ some b → b < 256
get_elem?-lt i b [] h e = cc
get_elem?-lt zero b (x ∷ xs) h e = ground arith
get_elem?-lt (suc i) b (x ∷ xs) h e = get_elem?-lt i b xs h.1 e
