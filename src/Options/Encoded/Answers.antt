-- ===== src/Options/Encoded/Answers.antt =====
-- A request that asks for a block size and a window size.
use tftp_server.Base.{
  zero, suc, ◌-◌, ℕ, ◌+◌, ◌<◌, ◌≤◌, List, [], ◌∷◌, ◌++◌, some, true, false, ltb, ◌>>=◌,
  if◌then◌else◌, length, ◌≡◌, refl, arith, ap, ◌∙◌, inl, inr, All, length-append, length-take, pos,
  be16, leb_ℤ,
}
use tftp_server.Config.{Config}
use tftp_server.Text.{stricmp_eq, to_lower, print_int}
use tftp_server.Text.Decimal.{atoi-print_int, print_int-IsText, print_int-length}
use tftp_server.Session.{Env, Session, fresh, send_packet}
use tftp_server.Send.Error.{codes}
use tftp_server.Send.Oack.{smsg_oack, put_text}
use tftp_server.Options.{
  realloc, Options, answer, blksize_option, windowsize_option, resize_buffer, apply_option,
  parse_options,
}
use tftp_server.Options.Encoded.{Choice, encode, apply_all, IsChoice}
use tftp_server.Options.Encoded.Refines.{start, answered, parse_options-encoded}

-- What an answered option adds to the OACK.
abbrev pub answer_text : List ℕ → ℕ → List ℕ
answer_text name n = name ++ 0 ∷ print_int (pos n)

abbrev pub with_answer : List ℕ → ℕ → Options → Options
with_answer name n o = record o {
  oack = record {
    bytes_added = o.oack.bytes_added + length (answer_text name n);
    content = o.oack.content ++ answer_text name n;
  };
}

answer-fits :
    (name : List ℕ) (n : ℕ) (o : Options)
    → n < 100000
    → o.oack.bytes_added + length name < 400
    → answer name (pos n) o ≡ some (with_answer name n o)
unfolding answer put_text
answer-fits name n o small room =
    ground (arith, print_int-length 4 n, length-append name (0 ∷ print_int (pos n)))

module _ (cfg : Config) (e : Env) (o : Options) where
  blksize_applied :
      (b : ℕ)
      → 8 ≤ b
      → b ≤ 65464
      → o.oack.bytes_added < 300
      → apply_option cfg e (codes "blksize") (print_int (pos b)) o
        ≡ some (with_answer (codes "blksize") b (resize_buffer e b o))
  unfolding apply_option blksize_option stricmp_eq to_lower resize_buffer
  blksize_applied b low high room =
      ground (arith, atoi-print_int b, answer-fits (codes "blksize") b (resize_buffer e b o))

  windowsize_applied :
      (w m : ℕ)
      → 1 ≤ w
      → w ≤ 65535
      → leb_ℤ cfg.window_size_min (pos w) ≡ true
      → cfg.window_size_max ≡ pos m
      → o.oack.bytes_added < 300
      → apply_option cfg e (codes "windowsize") (print_int (pos w)) o
        ≡ some (
            with_answer (codes "windowsize") (if ltb m w then m else w) (record o {
              session = record o.session { window_size = pos (if ltb m w then m else w) };
            }))
  unfolding apply_option windowsize_option stricmp_eq to_lower
  windowsize_applied w m low high least most room =
      let n = if ltb m w then m else w in
      let small : n < 100000 = ground arith in
      ground (
        arith,
        atoi-print_int w,
        answer-fits (codes "windowsize") n
            (record o { session = record o.session { window_size = pos n } }) small,
      )

-- The options of the request.
abbrev pub sizes : ℕ → ℕ → List Choice
sizes b w =
    record { name = codes "blksize"; value = print_int (pos b) }
    ∷ record { name = codes "windowsize"; value = print_int (pos w) }
    ∷ []

sizes-IsChoice : (size b w : ℕ) → size ≤ b → All (IsChoice size) (sizes b w)
sizes-IsChoice size b w fits = (
  record {
    name_text = omega arith;
    value_text = print_int-IsText b;
    roomy = inr (rw (atoi-print_int b) fits);
  },
  (record { name_text = omega arith; value_text = print_int-IsText w; roomy = inl other }, tt),
)
  where
    other : stricmp_eq (codes "blksize") (codes "windowsize") ≡ false
    other = unfold stricmp_eq in unfold to_lower in refl

-- What the session has agreed to, and the one packet by which it says so; nothing else but the
-- buffer, which has room for a block, has changed.
pub record IsAgreed (s s' : Session) (b w : ℕ) : Type 0 where
  pub blocks : s'.block_size ≡ b
  pub window : s'.window_size ≡ pos w
  pub room : length s'.buffer ≡ b + 6
  pub answer_sent :
      s'.sent
      ≡ s.sent
        ++ (be16 6 ++ answer_text (codes "blksize") b ++ answer_text (codes "windowsize") w) ∷ []
  pub rest_stays : s' ≡ record s {
    block_size = s'.block_size;
    window_size = s'.window_size;
    buffer = s'.buffer;
    sent = s'.sent;
    send_calls = s'.send_calls;
  }

length-fresh : (e : Env) (i n : ℕ) → length (fresh e i n) ≡ n
unfolding fresh
length-fresh e i zero = refl
length-fresh e i (suc n) = ap suc (length-fresh e (suc i) n)

length-realloc : (e : Env) (n : ℕ) (block : List ℕ) → length (realloc e n block) ≡ n
unfolding realloc
length-realloc e n block =
    let new = fresh e (length block) (n - length block) in
    length-take n (block ++ new)
    ∙ omega (arith, length-append block new, length-fresh e (length block) (n - length block))

-- A request, `before`, with the options blksize and windowsize behind it, whose sizes are numbers in
-- decimal within the bounds of the code and of WindowSizeMin, the block size at least the packet's
-- size: the session takes the block size as it is and the window size up to WindowSizeMax, and
-- sends one OACK with the two names and numbers, in which no zero byte stands behind a number.
-- realloc does not move the buffer, and the OACK goes out whole.
pub parse_options-sizes :
    (cfg : Config) (e : Env)
    → ((n : ℕ) → e.realloc_moves n ≡ false)
    → ((n : ℕ) (p : List ℕ) → e.send n p ≡ true)
    → (b w m : ℕ) (before rest : List ℕ) (s : Session) → 8 ≤ b
    → b ≤ 65464
    → 1 ≤ w
    → w ≤ 65535
    → leb_ℤ cfg.window_size_min (pos w) ≡ true
    → cfg.window_size_max ≡ pos m
    → s.buffer ≡ (before ++ encode (sizes b w)) ++ rest
    → length (before ++ encode (sizes b w)) ≤ b
    → (s' : Session) × (parse_options cfg e
          (length (before ++ encode (sizes b w)))
          (length before)
          s
        ≡ some s')
      × IsAgreed s s' b (if ltb m w then m else w)
unfolding smsg_oack resize_buffer
parse_options-sizes cfg e stays sends b w m before rest s b1 b2 w1 w2 least most buffer fits =
    let o1 = with_answer (codes "blksize") b (resize_buffer e b (start s)) in
    let n = if ltb m w then m else w in
    let small : n < 100000 = ground arith in
    let refined =
      parse_options-encoded cfg e stays (sizes b w) before rest s buffer
        (sizes-IsChoice (length (before ++ encode (sizes b w))) b w fits) in
    let first = blksize_applied cfg e (start s) b b1 b2 (omega arith) in
    let digits = print_int-length 4 b (omega arith) in
    let digits2 = print_int-length 4 n small in
    let second = windowsize_applied cfg e o1 w m w1 w2 least most (omega (arith, digits)) in
    let o2 =
      with_answer (codes "windowsize") n
        (record o1 { session = record o1.session { window_size = pos n } }) in
    let s' = send_packet e (be16 6 ++ o2.oack.content) o2.session in
    let bytes : o2.oack.bytes_added ≡ 21 + length (print_int (pos b)) + length (print_int (pos n)) =
      omega arith in
    let chosen : apply_all cfg e (sizes b w) (start s) ≡ some o2 =
      rw first (ap (λ x. x >>= some) second) in
    let sent : answered e o2 ≡ some s' = ground (arith, digits, digits2, bytes) in
    (
      s',
      refined ∙ ap (λ x. x >>= answered e) chosen ∙ sent,
      record {
        blocks = refl;
        window = refl;
        room = length-realloc e (b + 4 + 2) s.buffer ∙ omega arith;
        answer_sent = rw (sends s.send_calls (be16 6 ++ o2.oack.content)) refl;
        rest_stays = refl;
      },
    )
