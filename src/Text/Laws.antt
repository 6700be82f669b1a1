-- ===== src/Text/Laws.antt =====
-- Strings in a packet.
use tftp_server.Base.{ℕ, ◌<◌, List, [], ◌∷◌, ◌++◌, some, ◌≡◌, refl, arith, All}
use tftp_server.Text.{c_string}

-- A text without a zero byte.
abbrev pub IsText : List ℕ → Type 0
IsText = All (λ c. 0 < c)

-- A text with its terminator is read back, whatever follows.
pub c_string-append : (t rest : List ℕ) → IsText t → c_string (t ++ 0 ∷ rest) ≡ some t
unfolding c_string
c_string-append [] rest h = refl
c_string-append (c ∷ t) rest h = ground (arith, c_string-append t rest h.1)
