-- ===== src/Options/Induction.antt =====
-- What every option keeps, ParseOptions keeps.
use tftp_server.Base.{
  ℕ, zero, suc, ◌+◌, List, Option, some, length, ltb, ◌≡◌, arith, subst, Bool-cases, Option-cases,
  ◌⊎◌, inl, inr, ◌++◌, be16,
}
use tftp_server.Config.{Config}
use tftp_server.Text.{c_string_at}
use tftp_server.Session.{Env, Session, send_packet, err_illegal_operation}
use tftp_server.Send.Oack.{empty_oack, smsg_oack}
use tftp_server.Options.{
  Options, Parsed, apply_option, parse_option, parse_loop, finish_options, parse_options,
}

module _ {ℓ} (cfg : Config) (e : Env) (size : ℕ) (P : Session → Type ℓ)
    (option : (name value : List ℕ) (o o' : Options)
      → P o.session
      → apply_option cfg e name value o ≡ some o'
      → P o'.session)
    (error : (s : Session) → P s → P (record s { error = err_illegal_operation }))
    (packet : (s : Session) (content : List ℕ)
      → P s
      → P (send_packet e (be16 6 ++ content) s)) where
  result : (q p : Parsed) → some q ≡ some p → P q.options.session → P p.options.session
  result q p h holds =
      let same : q ≡ p = cc in subst (λ (x : Parsed). P x.options.session) same holds

  parse_option-keeps :
      (go : ℕ → Options → Option Parsed) (n : ℕ) (o : Options) (p : Parsed)
      → ((k : ℕ) (o1 : Options) (q : Parsed)
          → P o1.session
          → go k o1 ≡ some q
          → P q.options.session)
      → P o.session
      → parse_option cfg e size go n o ≡ some p
      → P p.options.session
  unfolding parse_option
  parse_option-keeps go n o p next holds h = elim (Bool-cases (ltb size (n + 1))) [
    | inl cut ↦ result _ p (rw cut at h) (error o.session holds)
    | inr a ↦ elim (Option-cases (c_string_at o.packet n)) [
      | inl fault ↦ absurd (ground (arith, a, fault))
      | inr (name, b) ↦ elim (Bool-cases (ltb size (n + length name + 1 + 1))) [
        | inl cut ↦ result _ p (rw (a, b, cut) at h) (error o.session holds)
        | inr c ↦ elim (Option-cases (c_string_at o.packet (n + length name + 1))) [
          | inl fault ↦ absurd (ground (arith, a, b, c, fault))
          | inr (value, d) ↦ elim (Option-cases (apply_option cfg e name value o)) [
            | inl fault ↦ absurd (ground (arith, a, b, c, d, fault))
            | inr (o1, applied) ↦
                next (n + length name + 1 + length value + 1) o1 p
                  (option name value o o1 holds applied) (ground (arith, a, b, c, d, applied))
          ]
        ]
      ]
    ]
  ]

  parse_loop-keeps :
      (f n : ℕ) (o : Options) (p : Parsed)
      → P o.session
      → parse_loop cfg e size f n o ≡ some p
      → P p.options.session
  unfolding parse_loop
  parse_loop-keeps zero n o p holds h = result _ p h holds
  parse_loop-keeps (suc f) n o p holds h = elim (Bool-cases (ltb n size)) [
    | inl inside ↦
        parse_option-keeps (parse_loop cfg e size f) n o p (parse_loop-keeps f) holds
          (rw inside at h)
    | inr outside ↦ result _ p (rw outside at h) holds
  ]

  finish_options-keeps :
      (p : Parsed) (s' : Session) → P p.options.session → finish_options e p ≡ some s' → P s'
  unfolding finish_options smsg_oack
  finish_options-keeps p s' holds h =
      let sent : Session = send_packet e (be16 6 ++ p.options.oack.content) p.options.session in
      let either : (p.options.session ≡ s') ⊎ (sent ≡ s') = ground arith in
      elim either [
        | inl same ↦ subst P same holds
        | inr same ↦ subst P same (packet p.options.session _ holds)
      ]

  pub parse_options-keeps :
      (n : ℕ) (s s' : Session) → P s → parse_options cfg e size n s ≡ some s' → P s'
  unfolding parse_options
  parse_options-keeps n s s' holds h =
      let start : Options = record { session = s; packet = s.buffer; oack = empty_oack } in
      elim (Option-cases (parse_loop cfg e size size n start)) [
        | inl fault ↦ absurd (ground (arith, fault))
        | inr (p, looped) ↦
            finish_options-keeps p s' (parse_loop-keeps size n start p holds looped)
              (ground (arith, looped))
      ]
