-- ===== src/Base64/RoundTrip.antt =====
-- A decoder of RFC 4648, written without the program's table, and the round trip.
use tftp_server.Base.{
  leb, ◌&&◌, Bool-cases, inl, inr, length-set, ℕ, zero, suc, ◌+◌, ◌-◌, ◌*◌, ◌/◌, ◌%◌, ◌^◌, ◌<◌, ◌≤◌,
  List, [], ◌∷◌, ◌++◌, Option, none, some, Bool, true, false, ◌==◌, if◌then◌else◌, length, set, ◌≡◌,
  refl, arith, ◌>>=◌, ap, length-append, ◌∙◌,
}
use tftp_server.Base64.{
  encoding_table, table_at, encode_triple, encode_rounds, padding, put_padding, base64_encode,
}
use tftp_server.Receive.Bytes.{AreBytes}

-- The characters from `low` to `high` stand for the values from `first` on.
abbrev from_to : ℕ → ℕ → ℕ → ℕ → Option ℕ → Option ℕ
from_to low high first c others =
    if leb low c && leb c high then some (first + (c - low)) else others

-- The value of a character in table 1 of RFC 4648: the capital letters, the small letters, the
-- digits, and + and /, in this order.
unfoldable pub value : ℕ → Option ℕ
value c = from_to b'A' b'Z' 0 c (
    from_to b'a' b'z' 26 c
      (from_to b'0' b'9' 52 c (from_to b'+' b'+' 62 c (from_to b'/' b'/' 63 c none))))

-- A test that every number below a bound passes.
unfoldable pub passes_before : (ℕ → Bool) → ℕ → Bool
passes_before test zero = true
passes_before test (suc last) =
    let earlier = passes_before test last in if test last then earlier else false

pub passed :
    (test : ℕ → Bool) (bound i : ℕ) → i < bound → passes_before test bound ≡ true → test i ≡ true
unfolding passes_before
passed test zero i inside all_pass = absurd (omega arith)
passed test (suc last) i inside all_pass = elim (Bool-cases (test last)) [
  | inl here ↦ ground (arith, passed test last i)
  | inr fails ↦ absurd (ground arith)
]

abbrev is_value : ℕ → Option ℕ → Bool
is_value i none = false
is_value i (some j) = i == j

table_places : passes_before (λ i. is_value i (value (table_at i encoding_table))) 64 ≡ true
unfolding passes_before value encoding_table table_at
table_places = refl

value-table_at : (i : ℕ) → i < 64 → value (table_at i encoding_table) ≡ some i
value-table_at i h = found (value (table_at i encoding_table)) (passed _ 64 i h table_places)
  where
    found : (o : Option ℕ) → is_value i o ≡ true → o ≡ some i
    found none e = cc
    found (some j) e = ground arith

table_plain :
    passes_before (λ i. if table_at i encoding_table == b'=' then false else true) 64 ≡ true
unfolding passes_before encoding_table table_at
table_plain = refl

table_at-ne-pad : (i : ℕ) → i < 64 → (table_at i encoding_table == b'=') ≡ false
table_at-ne-pad i h =
    let t : (if table_at i encoding_table == b'=' then false else true) ≡ true =
      passed (λ i. if table_at i encoding_table == b'=' then false else true) 64 i h table_plain in
    ground arith

-- Four characters, the last two of which may be padding.
unfoldable pub decode_four : ℕ → ℕ → ℕ → ℕ → Option (List ℕ)
decode_four p q r t = do
  w ← value p
  x ← value q
  if t == b'='
      then (if r == b'='
          then some ((w * 4 + x / 16) ∷ [])
          else (do y ← value r; some ((w * 4 + x / 16) ∷ (x % 16 * 16 + y / 4) ∷ [])))
      else (do
        y ← value r
        z ← value t
        some ((w * 4 + x / 16) ∷ (x % 16 * 16 + y / 4) ∷ (y % 4 * 64 + z) ∷ []))

unfoldable pub decode : List ℕ → Option (List ℕ)
decode [] = some []
decode (p ∷ []) = none
decode (p ∷ q ∷ []) = none
decode (p ∷ q ∷ r ∷ []) = none
decode (p ∷ q ∷ r ∷ t ∷ rest) = do
  first ← decode_four p q r t
  later ← decode rest
  some (first ++ later)

module _ (a b c : ℕ) (ha : a < 256) (hb : b < 256) where
  abbrev triple : ℕ
  triple = a * 2 ^ 16 + b * 2 ^ 8 + c

  abbrev char_at : ℕ → ℕ
  char_at i = table_at i encoding_table

  decode_three :
      c < 256
      → decode_four
          (char_at (triple / 2 ^ 18 % 64))
          (char_at (triple / 2 ^ 12 % 64))
          (char_at (triple / 2 ^ 6 % 64))
          (char_at (triple % 64))
        ≡ some (a ∷ b ∷ c ∷ [])
  unfolding decode_four
  decode_three hc =
      rw
        (
          value-table_at (triple / 2 ^ 18 % 64) (omega arith),
          value-table_at (triple / 2 ^ 12 % 64) (omega arith),
          table_at-ne-pad (triple % 64) (omega arith),
          value-table_at (triple / 2 ^ 6 % 64) (omega arith),
          value-table_at (triple % 64) (omega arith),
        )
        (ground arith)

  decode_two :
      c ≡ 0
      → decode_four
          (char_at (triple / 2 ^ 18 % 64))
          (char_at (triple / 2 ^ 12 % 64))
          (char_at (triple / 2 ^ 6 % 64))
          b'='
        ≡ some (a ∷ b ∷ [])
  unfolding decode_four
  decode_two hc =
      rw
        (
          value-table_at (triple / 2 ^ 18 % 64) (omega arith),
          value-table_at (triple / 2 ^ 12 % 64) (omega arith),
          table_at-ne-pad (triple / 2 ^ 6 % 64) (omega arith),
          value-table_at (triple / 2 ^ 6 % 64) (omega arith),
        )
        (ground arith)

  decode_one :
      b ≡ 0
      → c ≡ 0
      → decode_four (char_at (triple / 2 ^ 18 % 64)) (char_at (triple / 2 ^ 12 % 64)) b'=' b'='
        ≡ some (a ∷ [])
  unfolding decode_four
  decode_one hb' hc =
      rw
        (
          value-table_at (triple / 2 ^ 18 % 64) (omega arith),
          value-table_at (triple / 2 ^ 12 % 64) (omega arith),
        )
        (ground arith)

set-append_right :
    (i j : ℕ) (xs ys : List ℕ) (v : ℕ) → j ≡ length xs + i → set (xs ++ ys) j v ≡ xs ++ set ys i v
set-append_right i j [] ys v e = ap (λ k. set ys k v) (omega arith)
set-append_right i zero (x ∷ xs) ys v e = absurd (omega arith)
set-append_right i (suc j) (x ∷ xs) ys v e =
    ap (λ t. x ∷ t) (set-append_right i j xs ys v (omega arith))

put_padding-append :
    (left i : ℕ) (xs ys : List ℕ)
    → left + i ≤ length ys
    → put_padding left i (xs ++ ys) ≡ xs ++ put_padding left i ys
unfolding put_padding
put_padding-append zero i xs ys h = refl
put_padding-append (suc left) i xs ys h =
    ap (put_padding left (i + 1)) (
      set-append_right (length ys - 1 - i) (length (xs ++ ys) - 1 - i) xs ys b'='
        (omega (arith, length-append xs ys)))
    ∙ put_padding-append left (i + 1) xs (set ys (length ys - 1 - i) b'=')
        (omega (arith, length-set ys (length ys - 1 - i) b'='))

padding-three : (n : ℕ) → padding (suc (suc (suc n))) ≡ padding n
unfolding padding
padding-three n = ground arith

length-encode_rounds : (xs : List ℕ) → padding (length xs) ≤ length (encode_rounds xs)
unfolding encode_rounds encode_triple padding
length-encode_rounds [] = omega arith
length-encode_rounds (a ∷ []) = ground arith
length-encode_rounds (a ∷ b ∷ []) = ground arith
length-encode_rounds (a ∷ b ∷ c ∷ rest) = ground (arith, length-encode_rounds rest)

-- Three octets at a time.
decode-triple :
    (a b c : ℕ) (rest out : List ℕ)
    → a < 256
    → b < 256
    → c < 256
    → decode out ≡ some rest
    → decode (encode_triple a b c ++ out) ≡ some (a ∷ b ∷ c ∷ rest)
unfolding decode encode_triple
decode-triple a b c rest out ha hb hc h = rw (decode_three a b c ha hb hc, h)

decode-padded :
    (xs : List ℕ)
    → AreBytes xs
    → decode (put_padding (padding (length xs)) 0 (encode_rounds xs)) ≡ some xs
unfolding decode encode_rounds put_padding padding
decode-padded [] h = refl
decode-padded (a ∷ []) h = rw (decode_one a 0 0 h.0 (omega arith) refl refl)
decode-padded (a ∷ b ∷ []) h = rw (decode_two a b 0 h.0 h.1.0 refl)
decode-padded (a ∷ b ∷ c ∷ rest) h =
    ap (λ n. decode (put_padding n 0 (encode_triple a b c ++ encode_rounds rest)))
      (padding-three (length rest))
    ∙ ap decode (
        put_padding-append (padding (length rest)) 0 (encode_triple a b c) (encode_rounds rest)
          (omega (arith, length-encode_rounds rest)))
    ∙ decode-triple a b c rest _ h.0 h.1.0 h.1.1.0 (decode-padded rest h.1.1.1)

-- Up to 15 MiB of bytes are encoded, and a decoder of RFC 4648, with the alphabet of its table 1,
-- gives them back.
pub decode-base64_encode :
    (xs : List ℕ)
    → AreBytes xs
    → length xs ≤ 15 * 1024 * 1024
    → (out : List ℕ) × (base64_encode xs ≡ some out) × (decode out ≡ some xs)
unfolding base64_encode
decode-base64_encode xs h small =
    (put_padding (padding (length xs)) 0 (encode_rounds xs), ground arith, decode-padded xs h)
