-- ===== src/Base/Bytes.antt =====
-- What holds of all the elements of a list, and the concatenation of a list of blocks.
use tftp_server.Base.Lists.{length}
use Prim.Native.Nat.{ℕ, ◌+◌}
use mathlib.Core.List.{List, [], ◌∷◌, ◌++◌}

abbrev pub All {ℓ κ} : {A : Type ℓ} → (A → Type κ) → List A → Type κ
All P [] = Unit
All P (x ∷ xs) = P x × All P xs

abbrev pub concat {ℓ} : {A : Type ℓ} → List (List A) → List A
concat [] = []
concat (xs ∷ xss) = xs ++ concat xss

-- The bytes on the wire of a list of DATA packets with these blocks.
abbrev pub wire_size {ℓ} : {A : Type ℓ} → List (List A) → ℕ
wire_size [] = 0
wire_size (b ∷ bs) = length b + 4 + wire_size bs
