-- ===== src/Base64/Plain.antt =====
-- Encoded text has no quotes.
use tftp_server.Base.{
  ℕ, zero, suc, ◌+◌, ◌-◌, ◌*◌, ◌<◌, List, [], ◌∷◌, ◌++◌, some, ◌≤◌, length-set, ap, ◌∙◌, true,
  false, ltb, ◌==◌, if◌then◌else◌, length, set, ◌≡◌, ◌≢◌, refl, arith, All, subst, Bool-cases, inl,
  inr,
}
use tftp_server.Base64.{
  encoding_table, table_at, encode_triple, encode_rounds, padding, put_padding, base64_encode,
}
use tftp_server.Base64.RoundTrip.{passes_before, passed}

abbrev IsPlain : List ℕ → Type 0
IsPlain = All (λ c. c ≢ 39)

table_plain : passes_before (λ i. if table_at i encoding_table == 39 then false else true) 64 ≡ true
unfolding passes_before encoding_table table_at
table_plain = refl

table_at-ne : (i : ℕ) → i < 64 → table_at i encoding_table ≢ 39
table_at-ne i h =
    let t : (if table_at i encoding_table == 39 then false else true) ≡ true =
      passed (λ i. if table_at i encoding_table == 39 then false else true) 64 i h table_plain in
    ground (arith, t)

All-append : (xs ys : List ℕ) → IsPlain xs → IsPlain ys → IsPlain (xs ++ ys)
All-append [] ys h k = k
All-append (x ∷ xs) ys h k = (h.0, All-append xs ys h.1 k)

All-set : (xs : List ℕ) (i v : ℕ) → IsPlain xs → v ≢ 39 → IsPlain (set xs i v)
All-set [] i v h k = h
All-set (x ∷ xs) zero v h k = (k, h.1)
All-set (x ∷ xs) (suc i) v h k = (h.0, All-set xs i v h.1 k)

encode_triple-IsPlain : (a b c : ℕ) → IsPlain (encode_triple a b c)
unfolding encode_triple
encode_triple-IsPlain a b c = (
  table_at-ne _ (omega arith),
  (table_at-ne _ (omega arith), (table_at-ne _ (omega arith), (table_at-ne _ (omega arith), tt))),
)

encode_rounds-IsPlain : (xs : List ℕ) → IsPlain (encode_rounds xs)
unfolding encode_rounds
encode_rounds-IsPlain [] = tt
encode_rounds-IsPlain (a ∷ []) = encode_triple-IsPlain a 0 0
encode_rounds-IsPlain (a ∷ b ∷ []) = encode_triple-IsPlain a b 0
encode_rounds-IsPlain (a ∷ b ∷ c ∷ rest) =
    All-append (encode_triple a b c) (encode_rounds rest) (encode_triple-IsPlain a b c)
      (encode_rounds-IsPlain rest)

put_padding-IsPlain : (left i : ℕ) (out : List ℕ) → IsPlain out → IsPlain (put_padding left i out)
unfolding put_padding
put_padding-IsPlain zero i out h = h
put_padding-IsPlain (suc left) i out h =
    put_padding-IsPlain left (i + 1) _ (All-set out (length out - 1 - i) b'=' h (omega arith))

pub base64_encode-IsPlain : (xs out : List ℕ) → base64_encode xs ≡ some out → All (λ c. c ≢ 39) out
unfolding base64_encode
base64_encode-IsPlain xs out h = elim (Bool-cases (ltb (15 * 1024 * 1024) (length xs))) [
  | inl long ↦ absurd (ground (arith, long))
  | inr short ↦
      let same : put_padding (padding (length xs)) 0 (encode_rounds xs) ≡ out =
        ground (arith, short) in
      subst IsPlain same
        (put_padding-IsPlain (padding (length xs)) 0 (encode_rounds xs) (encode_rounds-IsPlain xs))
]

length-put_padding : (left i : ℕ) (out : List ℕ) → length (put_padding left i out) ≡ length out
unfolding put_padding
length-put_padding zero i out = refl
length-put_padding (suc left) i out =
    length-put_padding left (i + 1) (set out (length out - 1 - i) b'=')
    ∙ length-set out (length out - 1 - i) b'='

length-encode_rounds_le : (xs : List ℕ) → length (encode_rounds xs) ≤ 4 * length xs
unfolding encode_rounds encode_triple
length-encode_rounds_le [] = omega arith
length-encode_rounds_le (a ∷ []) = omega arith
length-encode_rounds_le (a ∷ b ∷ []) = omega arith
length-encode_rounds_le (a ∷ b ∷ c ∷ rest) = omega (arith, length-encode_rounds_le rest)

pub length-base64_encode :
    (xs out : List ℕ) → base64_encode xs ≡ some out → length out ≤ 4 * length xs
unfolding base64_encode
length-base64_encode xs out h = elim (Bool-cases (ltb (15 * 1024 * 1024) (length xs))) [
  | inl long ↦ absurd (ground (arith, long))
  | inr short ↦
      let same : put_padding (padding (length xs)) 0 (encode_rounds xs) ≡ out =
        ground (arith, short) in
      omega (
        arith,
        ap length same,
        length-put_padding (padding (length xs)) 0 (encode_rounds xs),
        length-encode_rounds_le xs,
      )
]
