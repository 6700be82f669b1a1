-- ===== src/Options/Encoded.antt =====
-- What ParseOptions makes of a request that RFC 2347 describes: the options as a list of names and
-- values, each with its terminator.
pub mod Answers
pub mod Refines
use tftp_server.Base.{
  ℕ, zero, suc, ◌+◌, ◌-◌, ◌<◌, ◌≤◌, ◌^◌, List, [], ◌∷◌, ◌++◌, Option, none, some, Bool, true, false,
  ltb, ◌>>=◌, ◌==◌, if◌then◌else◌, length, take, drop, ◌≡◌, refl, arith, ap, sym, subst, ◌∙◌,
  Bool-cases, Option-cases, ◌⊎◌, inl, inr, All, append_assoc, append-nil, length-append,
  length-drop, length-take, take-append, take-append-drop, drop-append, ℤ, pos, pos_part,
}
use tftp_server.Config.{Config}
use tftp_server.Text.{c_string, c_string_at, stricmp_eq, atoi}
use tftp_server.Text.Laws.{IsText, c_string-append}
use tftp_server.Session.{Env, Session, accepted, fresh}
use tftp_server.Send.Error.{codes}
use tftp_server.Send.Oack.{empty_oack, put_text}
use tftp_server.Options.{
  Options, Parsed, answer, tsize_option, timeout_option, blksize_option, windowsize_option,
  resize_buffer, realloc, apply_option, parse_option, parse_loop, finish_options, parse_options,
}

-- An option of a request.
pub record Choice : Type 0 where
  pub name : List ℕ
  pub value : List ℕ

abbrev pub encode : List Choice → List ℕ
encode [] = []
encode (c ∷ cs) = c.name ++ 0 ∷ (c.value ++ 0 ∷ encode cs)

-- The options one after another.
abbrev pub apply_all : Config → Env → List Choice → Options → Option Options
apply_all cfg e [] o = some o
apply_all cfg e (c ∷ cs) o = apply_option cfg e c.name c.value o >>= λ o1. apply_all cfg e cs o1

-- Name and value are texts, and a block size is large enough for the whole request, so that realloc
-- cuts off none of it.
pub record IsChoice (size : ℕ) (c : Choice) : Type 0 where
  pub name_text : IsText c.name
  pub value_text : IsText c.value
  pub roomy : (stricmp_eq (codes "blksize") c.name ≡ false) ⊎ (size ≤ pos_part (atoi c.value))

-- The packet is the session's buffer, and begins with `text`.
pub record Reads (text : List ℕ) (o : Options) : Type 0 where
  pub same : o.packet ≡ o.session.buffer
  pub rest : List ℕ
  pub begins : o.packet ≡ text ++ rest

take-append_more :
    (n : ℕ) (xs ys : List ℕ) → length xs ≤ n → take n (xs ++ ys) ≡ xs ++ take (n - length xs) ys
take-append_more n [] ys h = ap (λ k. take k ys) (omega arith)
take-append_more zero (x ∷ xs) ys h = absurd (omega arith)
take-append_more (suc n) (x ∷ xs) ys h =
    ap (λ t. x ∷ t)
      (take-append_more n xs ys (omega arith) ∙ ap (λ k. xs ++ take k ys) (omega arith))

-- What a packet and a buffer begin with is all that `Reads` is about.
Reads-same :
    (text : List ℕ) (o o' : Options)
    → o'.packet ≡ o.packet
    → o'.session.buffer ≡ o.session.buffer
    → Reads text o
    → Reads text o'
Reads-same text o o' h1 h2 r = record {
  same = h1 ∙ r.same ∙ sym h2;
  rest = r.rest;
  begins = h1 ∙ r.begins;
}

module _ (e : Env) (stays : (n : ℕ) → e.realloc_moves n ≡ false) where
  realloc-Reads :
      (text : List ℕ) (n : ℕ) (o : Options)
      → Reads text o
      → length text ≤ n
      → Reads text (resize_buffer e n o)
  unfolding resize_buffer realloc
  realloc-Reads text n o r h =
      let total = n + 4 + 2 in
      let new = fresh e (length o.session.buffer) (total - length o.session.buffer) in
      let block : (resize_buffer e n o).packet ≡ take total (o.session.buffer ++ new) =
        ground (arith, stays total) in
      record {
        same = ground (arith, stays total);
        rest = take (total - length text) (r.rest ++ new);
        begins =
            block
            ∙ ap (λ t. take total (t ++ new)) (sym r.same ∙ r.begins)
            ∙ ap (take total) (append_assoc text r.rest new)
            ∙ take-append_more total text (r.rest ++ new) (omega (arith, h));
      }

  -- An option leaves packet and buffer as they are, or resizes the buffer.
  apply_option-memory :
      (cfg : Config) (name value : List ℕ) (o o' : Options)
      → apply_option cfg e name value o ≡ some o'
      → ((o'.packet ≡ o.packet) × (o'.session.buffer ≡ o.session.buffer))
        ⊎ ((stricmp_eq (codes "blksize") name ≡ true)
            × (o'.packet ≡ (resize_buffer e (pos_part (atoi value)) o).packet)
            × (o'.session.buffer ≡ (resize_buffer e (pos_part (atoi value)) o).session.buffer))
  unfolding apply_option tsize_option timeout_option blksize_option windowsize_option answer
  apply_option-memory cfg name value o o' h = ground arith

  pub apply_option-Reads :
      (cfg : Config) (text : List ℕ) (c : Choice) (o o' : Options)
      → IsChoice (length text) c
      → Reads text o
      → apply_option cfg e c.name c.value o ≡ some o'
      → Reads text o'
  apply_option-Reads cfg text c o o' choice r h =
      elim (apply_option-memory cfg c.name c.value o o' h) [
        | inl (p, b) ↦ Reads-same text o o' p b r
        | inr (block, p, b) ↦
            Reads-same text (resize_buffer e (pos_part (atoi c.value)) o) o' p b (
              realloc-Reads text (pos_part (atoi c.value)) o r
                (ground (arith, choice.roomy, block)))
      ]
