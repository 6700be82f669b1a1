-- ===== src/Options/Encoded/Refines.antt =====
-- ParseOptions on the bytes of a list of options, against the options one after another.
use tftp_server.Base.{
  ℕ, zero, suc, ◌+◌, ◌≤◌, List, [], ◌∷◌, ◌++◌, Option, some, true, false, ltb, ◌>>=◌, ◌==◌,
  if◌then◌else◌, length, drop, ◌≡◌, refl, arith, le→ltb, ap, sym, ◌∙◌, Option-cases, inl, inr, All,
  append_assoc, append-nil, length-append, drop-append,
}
use tftp_server.Config.{Config}
use tftp_server.Text.{c_string, c_string_at}
use tftp_server.Text.Laws.{IsText, c_string-append}
use tftp_server.Session.{Env, Session, accepted}
use tftp_server.Send.Oack.{empty_oack, smsg_oack}
use tftp_server.Options.{
  Options, Parsed, apply_option, parse_option, parse_loop, finish_options, parse_options,
}
use tftp_server.Options.Encoded.{Choice, encode, apply_all, IsChoice, Reads, apply_option-Reads}

-- The text of a packet from index `n` on is a string and its terminator.
read_at :
    (text before t tail : List ℕ) (n : ℕ) (o : Options)
    → Reads text o
    → text ≡ before ++ (t ++ 0 ∷ tail)
    → length before ≡ n
    → IsText t
    → c_string_at o.packet n ≡ some t
read_at text before t tail n o r split at is_text =
    let shape : o.packet ≡ before ++ (t ++ 0 ∷ (tail ++ r.rest)) =
      r.begins ∙ ap (λ x. x ++ r.rest) split ∙ simp append_assoc in
    let behind : drop n o.packet ≡ t ++ 0 ∷ (tail ++ r.rest) =
      ap (drop n) shape ∙ drop-append n before _ (sym at) in
    ap c_string behind ∙ c_string-append t (tail ++ r.rest) is_text

abbrev pub parsed_to : ℕ → Options → Option Parsed
parsed_to size o = some (record { options = o; bytes_read = size; status = accepted })

module _ (cfg : Config) (e : Env) (stays : (n : ℕ) → e.realloc_moves n ≡ false)
    (text : List ℕ) where
  abbrev size : ℕ
  size = length text

  bytes_left :
      (before : List ℕ) (c : Choice) (cs : List Choice)
      → text ≡ before ++ encode (c ∷ cs)
      → size ≡ length before + (length c.name + suc (length c.value + suc (length (encode cs))))
  bytes_left before c cs split =
      ap length split
      ∙ omega (
        arith,
        length-append before (encode (c ∷ cs)),
        length-append c.name (0 ∷ (c.value ++ 0 ∷ encode cs)),
        length-append c.value (0 ∷ encode cs),
      )

  parse_option-encoded :
      (go : ℕ → Options → Option Parsed) (before : List ℕ) (c : Choice) (cs : List Choice) (n : ℕ)
      (o : Options)
      → Reads text o
      → text ≡ before ++ encode (c ∷ cs)
      → length before ≡ n
      → IsChoice size c
      → parse_option cfg e size go n o ≡ (
          apply_option cfg e c.name c.value o >>= λ o1.
          go (n + length c.name + 1 + length c.value + 1) o1)
  unfolding parse_option
  parse_option-encoded go before c cs n o r split at choice =
      let n1 = n + length c.name + 1 in
      let bytes = bytes_left before c cs split in
      let name : c_string_at o.packet n ≡ some c.name =
        read_at text before c.name (c.value ++ 0 ∷ encode cs) n o r split at choice.name_text in
      let value : c_string_at o.packet n1 ≡ some c.value =
        read_at text (before ++ (c.name ++ 0 ∷ [])) c.value (encode cs) n1 o r
          (split ∙ simp append_assoc)
          (omega (arith, length-append before (c.name ++ 0 ∷ []), length-append c.name (0 ∷ [])))
          choice.value_text in
      elim (Option-cases (apply_option cfg e c.name c.value o)) [
        | inl fault ↦ ground (arith, name, value, bytes, fault)
        | inr (o1, applied) ↦ ground (arith, name, value, bytes, applied)
      ]

  parse_loop-encoded :
      (cs : List Choice) (before : List ℕ) (f n : ℕ) (o : Options)
      → Reads text o
      → text ≡ before ++ encode cs
      → length before ≡ n
      → size ≤ n + f
      → All (IsChoice size) cs
      → parse_loop cfg e size f n o ≡ (apply_all cfg e cs o >>= parsed_to size)
  unfolding parse_loop
  parse_loop-encoded [] before zero n o r split at enough choices =
      let end : n ≡ size = sym at ∙ ap length (sym (append-nil before) ∙ sym split) in
      ap (λ k. parsed_to k o) end
  parse_loop-encoded [] before (suc f) n o r split at enough choices =
      let end : n ≡ size = sym at ∙ ap length (sym (append-nil before) ∙ sym split) in
      rw (le→ltb n size (omega (arith, end))) (ap (λ k. parsed_to k o) end)
  parse_loop-encoded (c ∷ cs) before zero n o r split at enough choices =
      absurd (omega (arith, bytes_left before c cs split, at))
  parse_loop-encoded (c ∷ cs) before (suc f) n o r split at enough choices =
      let bytes = bytes_left before c cs split in
      let inside : ltb n size ≡ true = ground (arith, bytes, at) in
      let round =
        parse_option-encoded (parse_loop cfg e size f) before c cs n o r split at choices.0 in
      let behind = before ++ ((c.name ++ 0 ∷ []) ++ (c.value ++ 0 ∷ [])) in
      let n1 = n + length c.name + 1 + length c.value + 1 in
      elim (Option-cases (apply_option cfg e c.name c.value o)) [
        | inl fault ↦ ground (arith, inside, round, fault)
        | inr (o1, applied) ↦
            let more =
              parse_loop-encoded cs behind f n1 o1
                (apply_option-Reads e stays cfg text c o o1 choices.0 r applied)
                (split ∙ simp append_assoc)
                (omega (
                  arith,
                  at,
                  length-append before ((c.name ++ 0 ∷ []) ++ (c.value ++ 0 ∷ [])),
                  length-append (c.name ++ 0 ∷ []) (c.value ++ 0 ∷ []),
                  length-append c.name (0 ∷ []),
                  length-append c.value (0 ∷ []),
                ))
                (omega arith) choices.1 in
            ground (arith, inside, round, applied, more)
      ]

-- The state of ParseOptions before its loop, and what follows the loop.
abbrev pub start : Session → Options
start s = record { session = s; packet = s.buffer; oack = empty_oack }

abbrev pub answered : Env → Options → Option Session
answered e o = if o.oack.bytes_added == 2 then some o.session else smsg_oack e o.oack o.session

-- On a packet that holds, behind `before`, the names and values of a list of options, ParseOptions
-- does what the options do one after another, and answers if one was accepted. The names and values
-- have no zero byte, a proposed block size is at least the packet's size, and realloc does not move
-- the buffer.
pub parse_options-encoded :
    (cfg : Config) (e : Env)
    → ((n : ℕ) → e.realloc_moves n ≡ false)
    → (cs : List Choice) (before rest : List ℕ) (s : Session)
    → s.buffer ≡ (before ++ encode cs) ++ rest
    → All (IsChoice (length (before ++ encode cs))) cs
    → parse_options cfg e (length (before ++ encode cs)) (length before) s
      ≡ (apply_all cfg e cs (start s) >>= answered e)
unfolding parse_options finish_options
parse_options-encoded cfg e stays cs before rest s buffer choices =
    let text = before ++ encode cs in
    let looped =
      parse_loop-encoded cfg e stays text cs before (length text) (length before) (start s)
        (record { same = refl; rest = rest; begins = buffer }) refl refl (omega arith) choices in
    elim (Option-cases (apply_all cfg e cs (start s))) [
      | inl fault ↦ ground (arith, looped, fault)
      | inr (o, applied) ↦ ground (arith, looped, applied)
    ]
