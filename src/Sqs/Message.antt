-- ===== src/Sqs/Message.antt =====
-- The messages of src/AWSSQS.cpp, as a reader sees them that takes them apart at their quotes.
use tftp_server.Base.{
  ℕ, zero, suc, ◌+◌, ◌-◌, ◌<◌, ◌≤◌, List, [], ◌∷◌, ◌++◌, Option, some, take, length, ◌≡◌, ◌≢◌, refl,
  arith, ap, ◌∙◌, All, sym, ◌==◌, if◌then◌else◌, length-append, append_assoc,
}
use tftp_server.Send.Error.{codes}
use tftp_server.Base64.{base64_encode}
use tftp_server.Base64.Plain.{base64_encode-IsPlain, length-base64_encode}
use tftp_server.Base64.RoundTrip.{decode, decode-base64_encode}
use tftp_server.Receive.Bytes.{AreBytes}
use tftp_server.Sqs.{message_text, message_buffer_size}

-- The text up to the first quote, and the text behind it.
abbrev pub until_quote : List ℕ → List ℕ
until_quote [] = []
until_quote (c ∷ cs) = let rest = until_quote cs in if c == 39 then [] else c ∷ rest

abbrev pub behind_quote : List ℕ → List ℕ
behind_quote [] = []
behind_quote (c ∷ cs) = let rest = behind_quote cs in if c == 39 then cs else rest

-- The text between quote `n` and the next one.
abbrev pub piece : ℕ → List ℕ → List ℕ
piece zero text = until_quote text
piece (suc n) text = piece n (behind_quote text)

-- A text without quotes.
abbrev pub IsPlain : List ℕ → Type 0
IsPlain = All (λ c. c ≢ 39)

until_quote-append : (t rest : List ℕ) → IsPlain t → until_quote (t ++ 39 ∷ rest) ≡ t
until_quote-append [] rest h = refl
until_quote-append (c ∷ t) rest h = ground (arith, h.0, until_quote-append t rest h.1)

behind_quote-append : (t rest : List ℕ) → IsPlain t → behind_quote (t ++ 39 ∷ rest) ≡ rest
behind_quote-append [] rest h = refl
behind_quote-append (c ∷ t) rest h = ground (arith, h.0, behind_quote-append t rest h.1)

-- The start of a message, and any end.
abbrev framed : List ℕ → List ℕ → List ℕ → List ℕ
framed guid encoded end =
    codes "{'weather':'','msg':{'session':'"
    ++ (guid ++ (codes "','cmd':'" ++ (encoded ++ 39 ∷ end)))

module _ (guid encoded end : List ℕ) (guid_plain : IsPlain guid)
    (encoded_plain : IsPlain encoded) where
  piece-session : piece 9 (framed guid encoded end) ≡ guid
  piece-session = until_quote-append guid _ guid_plain

  piece-command : piece 13 (framed guid encoded end) ≡ encoded
  piece-command =
      rw (behind_quote-append guid _ guid_plain) (until_quote-append encoded _ encoded_plain)

-- A text that is cut behind a prefix keeps it.
take-prefix :
    (n : ℕ) (xs : List ℕ) (y : ℕ) (ys : List ℕ)
    → length xs < n
    → (rest : List ℕ) × (take n (xs ++ y ∷ ys) ≡ xs ++ y ∷ rest)
take-prefix zero xs y ys h = absurd (omega arith)
take-prefix (suc n) [] y ys h = (take n ys, refl)
take-prefix (suc n) (x ∷ xs) y ys h =
    let (rest, e) = take-prefix n xs y ys (omega arith) in (rest, ap (λ t. x ∷ t) e)

abbrev head : List ℕ
head = codes "{'weather':'','msg':{'session':'"

framed-append :
    (guid encoded end : List ℕ)
    → (head ++ (guid ++ (codes "','cmd':'" ++ encoded))) ++ 39 ∷ end ≡ framed guid encoded end
framed-append guid encoded end =
    ap (λ t. head ++ t) (append_assoc guid (codes "','cmd':'" ++ encoded) (39 ∷ end))

take-framed :
    (n : ℕ) (guid encoded end : List ℕ)
    → length guid + length encoded + 41 < n
    → (rest : List ℕ) × (take n (framed guid encoded end) ≡ framed guid encoded rest)
take-framed n guid encoded end h =
    let (rest, e) =
      take-prefix n (head ++ (guid ++ (codes "','cmd':'" ++ encoded))) 39 end
        (omega (arith, length-append guid (codes "','cmd':'" ++ encoded))) in
    (rest, ap (take n) (sym (framed-append guid encoded end)) ∙ e ∙ framed-append guid encoded rest)

-- What a session of the SDK is given for one packet.
message_text-framed :
    (guid encoded : List ℕ) (port : ℕ) (server_ip server_id client_ip : List ℕ)
    → (end : List ℕ) × (message_text guid encoded port server_ip server_id client_ip
        ≡ framed guid encoded end)
unfolding message_text
message_text-framed guid encoded port server_ip server_id client_ip = (_, refl)

-- A packet that TFTP hands over: bytes, of the size of a datagram.
pub record IsDatagram (packet : List ℕ) : Type 0 where
  pub bytes : AreBytes packet
  pub not_empty : 0 < length packet
  pub one_datagram : length packet < 65536

-- The identifiers, as uuid_unparse_lower writes them.
pub record IsGuid (text : List ℕ) : Type 0 where
  pub plain : IsPlain text
  pub short : length text ≤ 36

-- What a reader of the queue sees: the session and the packet.
abbrev pub read_message : List ℕ → List ℕ × Option (List ℕ)
read_message m = (piece 9 m, decode (piece 13 m))

pub read_message-cut :
    (guid encoded packet : List ℕ) (port : ℕ) (server_ip server_id client_ip : List ℕ)
    → IsGuid guid
    → IsDatagram packet
    → base64_encode packet ≡ some encoded
    → read_message (
        take
          (message_buffer_size - 1)
          (message_text guid encoded port server_ip server_id client_ip))
      ≡ (guid, some packet)
read_message-cut guid encoded packet port server_ip server_id client_ip g d h =
    let (end, text) = message_text-framed guid encoded port server_ip server_id client_ip in
    let small = d.one_datagram in
    let short = g.short in
    let (out, same, decoded) = decode-base64_encode packet d.bytes (omega arith) in
    let (rest, cut) =
      take-framed (message_buffer_size - 1) guid encoded end
        (omega (arith, length-base64_encode packet encoded h)) in
    let found : out ≡ encoded = ground (arith, same, h) in
    let encoded_plain = base64_encode-IsPlain packet encoded h in
    ap (λ t. read_message (take (message_buffer_size - 1) t)) text
    ∙ ap read_message cut
    ∙ rw
        (
          piece-session guid encoded rest g.plain encoded_plain,
          piece-command guid encoded rest g.plain encoded_plain,
        )
        (rw (sym found, decoded) refl)
