-- ===== src/Base64.antt =====
-- base64_encode of src/pthread_win.cpp. Shifts and masks are written as `/` and `%` by powers of 2.
pub mod RoundTrip
pub mod Plain
use tftp_server.Base.{
  ℕ, zero, suc, ◌+◌, ◌-◌, ◌*◌, ◌/◌, ◌%◌, ◌^◌, List, [], ◌∷◌, ◌++◌, Option, none, some, ltb, ◌==◌,
  if◌then◌else◌, length, set, get_elem?,
}
use tftp_server.Send.Error.{codes}

-- encoding_table.
unfoldable pub encoding_table : List ℕ
encoding_table = codes "ABCDEFGHIJKLMNOPQRSTUVWXYZabcdefghijklmnopqrstuvwxyz0123456789+/"

-- encoding_table[i]. The masks keep `i` below 64.
unfoldable pub table_at : ℕ → List ℕ → ℕ
table_at i [] = 0
table_at zero (c ∷ cs) = c
table_at (suc i) (c ∷ cs) = table_at i cs

-- The four characters of three octets.
unfoldable pub encode_triple : ℕ → ℕ → ℕ → List ℕ
encode_triple a b c =
    let triple = a * 2 ^ 16 + b * 2 ^ 8 + c in
    table_at (triple / 2 ^ 18 % 64) encoding_table
    ∷ table_at (triple / 2 ^ 12 % 64) encoding_table
    ∷ table_at (triple / 2 ^ 6 % 64) encoding_table
    ∷ table_at (triple % 64) encoding_table
    ∷ []

-- The first loop: octets behind the end are 0.
unfoldable pub encode_rounds : List ℕ → List ℕ
unfolding encode_triple
encode_rounds [] = []
encode_rounds (a ∷ []) = encode_triple a 0 0
encode_rounds (a ∷ b ∷ []) = encode_triple a b 0
encode_rounds (a ∷ b ∷ c ∷ rest) = encode_triple a b c ++ encode_rounds rest

-- mod_table.
unfoldable pub padding : ℕ → ℕ
padding n = if n % 3 == 0 then 0 else if n % 3 == 1 then 2 else 1

-- The second loop, with `left` rounds left at index `i`.
unfoldable pub put_padding : ℕ → ℕ → List ℕ → List ℕ
put_padding zero i out = out
put_padding (suc left) i out = put_padding left (i + 1) (set out (length out - 1 - i) b'=')

-- More than 15 MB give NULL.
unfoldable pub base64_encode : List ℕ → Option (List ℕ)
unfolding encode_rounds padding put_padding
base64_encode octets =
    if ltb (15 * 1024 * 1024) (length octets)
    then none
    else some (put_padding (padding (length octets)) 0 (encode_rounds octets))
