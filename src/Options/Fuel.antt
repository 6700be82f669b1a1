-- ===== src/Options/Fuel.antt =====
-- The rounds of the loop of ParseOptions.
use tftp_server.Base.{
  ℕ, zero, suc, ◌+◌, ◌≤◌, Option, length, ◌≡◌, arith, Option-cases, inl, inr, ◌⊎◌, some, ltb,
  Bool-cases, List, refl, none, subst, ◌<◌,
}
use tftp_server.Config.{Config}
use tftp_server.Text.{c_string_at}
use tftp_server.Session.{Env, refused, accepted}
use tftp_server.Options.{Options, Parsed, parse_option, parse_loop, apply_option, cut_off}

-- The loop, unless something goes wrong, was left by `return` or by the test of
-- `while (bytesRead < size)`.
abbrev pub IsEnded : ℕ → Option Parsed → Type 0
IsEnded size none = Unit
IsEnded size (some p) = (p.status ≡ refused) ⊎ (size ≤ p.bytes_read)

-- The loop of ParseOptions at index `n` comes to a result after finitely many rounds: the whole
-- packet is read, a value is cut off, a search for a terminator leaves the buffer, an option goes
-- wrong, or the option at `n` is applied and the loop goes on behind it.
pub data Runs (cfg : Config) (e : Env) (size : ℕ) : ℕ → Options → Option Parsed → Type 0 where
  whole :
      (n : ℕ) (o : Options)
      → size ≤ n
      → Runs cfg e size n o (some (record { options = o; bytes_read = n; status = accepted }))
  no_value :
      (n : ℕ) (o : Options) (name : List ℕ)
      → n < size
      → c_string_at o.packet n ≡ some name
      → size < n + length name + 2
      → Runs cfg e size n o (cut_off o (n + length name + 1))
  open_name :
      (n : ℕ) (o : Options) → n < size → c_string_at o.packet n ≡ none → Runs cfg e size n o none
  open_value :
      (n : ℕ) (o : Options) (name : List ℕ)
      → n + length name + 2 ≤ size
      → c_string_at o.packet n ≡ some name
      → c_string_at o.packet (n + length name + 1) ≡ none
      → Runs cfg e size n o none
  fault :
      (n : ℕ) (o : Options) (name value : List ℕ)
      → n + length name + 2 ≤ size
      → c_string_at o.packet n ≡ some name
      → c_string_at o.packet (n + length name + 1) ≡ some value
      → apply_option cfg e name value o ≡ none
      → Runs cfg e size n o none
  next :
      (n : ℕ) (o q : Options) (name value : List ℕ) (r : Option Parsed)
      → n + length name + 2 ≤ size
      → c_string_at o.packet n ≡ some name
      → c_string_at o.packet (n + length name + 1) ≡ some value
      → apply_option cfg e name value o ≡ some q
      → Runs cfg e size (n + length name + length value + 2) q r
      → Runs cfg e size n o r

-- What a round makes of the result of the later ones.
parse_option-Runs :
    (cfg : Config) (e : Env) (size n : ℕ) (o : Options) (go : ℕ → Options → Option Parsed)
    → n < size
    → ((k : ℕ) (q : Options) → n + 2 ≤ k → Runs cfg e size k q (go k q))
    → Runs cfg e size n o (parse_option cfg e size go n o)
unfolding parse_option
parse_option-Runs cfg e size n o go more rest = elim (Option-cases (c_string_at o.packet n)) [
  | inl a ↦ subst (Runs cfg e size n o) (ground (arith, a)) (open_name n o more a)
  | inr (name, a) ↦ elim (Bool-cases (ltb size (n + length name + 1 + 1))) [
    | inl b ↦
        subst (Runs cfg e size n o) (ground (arith, a, b))
          (no_value n o name more a (ground (arith, b)))
    | inr b ↦
        let enough : n + length name + 2 ≤ size = ground (arith, b) in
        elim (Option-cases (c_string_at o.packet (n + length name + 1))) [
          | inl c ↦
              subst (Runs cfg e size n o) (ground (arith, a, b, c)) (open_value n o name enough a c)
          | inr (value, c) ↦ elim (Option-cases (apply_option cfg e name value o)) [
            | inl d ↦
                subst (Runs cfg e size n o) (ground (arith, a, b, c, d))
                  (fault n o name value enough a c d)
            | inr (q, d) ↦
                let k = n + length name + 1 + length value + 1 in
                let later = rest k q (omega arith) in
                let here : k ≡ n + length name + length value + 2 = omega arith in
                subst (Runs cfg e size n o) (ground (arith, a, b, c, d)) (
                  next n o q name value (go k q) enough a c d
                    (subst (λ i. Runs cfg e size i q (go k q)) here later))
          ]
        ]
  ]
]

module _ (cfg : Config) (e : Env) (size : ℕ) where
  parse_loop-all_rounds :
      (f n : ℕ) (o : Options) → size ≤ n + f → Runs cfg e size n o (parse_loop cfg e size f n o)
  unfolding parse_loop
  parse_loop-all_rounds zero n o enough = whole n o (omega arith)
  parse_loop-all_rounds (suc f) n o enough = elim (Bool-cases (ltb n size)) [
    | inr over ↦
        subst (Runs cfg e size n o) (ground (arith, over)) (whole n o (ground (arith, over)))
    | inl more ↦ subst (Runs cfg e size n o) (ground (arith, more)) (
        parse_option-Runs cfg e size n o (parse_loop cfg e size f) (ground (arith, more))
          (λ k q later. parse_loop-all_rounds f k q (omega arith)))
  ]

  Runs-IsEnded : (n : ℕ) (o : Options) (r : Option Parsed) → Runs cfg e size n o r → IsEnded size r
  Runs-IsEnded _ _ _ (whole n o end) = inr end
  Runs-IsEnded _ _ _ (no_value n o name more a cut) = inl refl
  Runs-IsEnded _ _ _ (open_name n o more a) = tt
  Runs-IsEnded _ _ _ (open_value n o name enough a c) = tt
  Runs-IsEnded _ _ _ (fault n o name value enough a c d) = tt
  Runs-IsEnded _ _ _ (next n o q name value r enough a c d later) = Runs-IsEnded _ _ _ later

  -- The loop of ParseOptions terminates: from any index on, the model of it, given a round for
  -- each byte of the packet that is left, gives the result that the loop without a bound on its
  -- rounds comes to. Where this is not a fault, the loop was left by `return`, at a value that is
  -- cut off, or with the whole packet read.
  pub parse_loop-Runs :
      (f n : ℕ) (o : Options)
      → size ≤ n + f
      → Runs cfg e size n o (parse_loop cfg e size f n o)
        × IsEnded size (parse_loop cfg e size f n o)
  parse_loop-Runs f n o enough =
      let runs = parse_loop-all_rounds f n o enough in (runs, Runs-IsEnded n o _ runs)
