-- ===== src/Options/Bounds.antt =====
-- What ParseOptions leaves of the session's sizes and limits.
use tftp_server.Base.{
  subst, eqb_ℤ, ◌&&◌, ltb_ℤ, pos_part, ℕ, zero, suc, ◌+◌, ◌-◌, ◌≤◌, List, ◌++◌, some, if◌then◌else◌,
  length, ◌≡◌, refl, arith, ap, Bool-cases, inl, inr, ℤ, pos, ◌≤ℤ◌, length-take, length-append, ◌⊎◌,
}
use tftp_server.Config.{Config}
use tftp_server.Text.{atoi, stricmp_eq}
use tftp_server.Session.{Env, Session, fresh, header_size, packet_safety_pad}
use tftp_server.Options.Induction.{parse_options-keeps}
use tftp_server.Options.{
  Options, apply_option, answer, tsize_option, timeout_option, clamp_timeout, blksize_option,
  resize_buffer, realloc, windowsize_option, parse_options,
}
use tftp_server.Send.Error.{codes}

-- The configured ranges are not empty.
pub record HasRanges (cfg : Config) : Type 0 where
  pub windows : pos 1 ≤ℤ cfg.window_size_max
  pub ordered : cfg.window_size_min ≤ℤ cfg.window_size_max
  pub timeouts : cfg.client_timeout_sec_min ≤ℤ cfg.client_timeout_sec_max

-- The sizes that a session may have: a window of one block is the default, without the option.
pub record IsNegotiated (cfg : Config) (s : Session) : Type 0 where
  pub buffer_size : length s.buffer ≡ s.block_size + header_size + packet_safety_pad
  pub block_low : 8 ≤ s.block_size
  pub block_high : s.block_size ≤ 65464
  pub window_low : pos 1 ≤ℤ s.window_size
  pub window_floor : (s.window_size ≡ pos 1) ⊎ (cfg.window_size_min ≤ℤ s.window_size)
  pub window_high : s.window_size ≤ℤ cfg.window_size_max
  pub timeout_low : cfg.client_timeout_sec_min ≤ℤ s.packet_timeout
  pub timeout_high : s.packet_timeout ≤ℤ cfg.client_timeout_sec_max

length-fresh : (e : Env) (i n : ℕ) → length (fresh e i n) ≡ n
unfolding fresh
length-fresh e i zero = refl
length-fresh e i (suc n) = ap suc (length-fresh e (suc i) n)

-- realloc gives a block of the size that is asked for.
pub length-realloc : (e : Env) (n : ℕ) (block : List ℕ) → length (realloc e n block) ≡ n
unfolding realloc
length-realloc e n block = omega (
  arith,
  length-take n (block ++ fresh e (length block) (n - length block)),
  length-append block (fresh e (length block) (n - length block)),
  length-fresh e (length block) (n - length block),
)

answer-session :
    (name : List ℕ) (v : ℤ) (o o' : Options) → answer name v o ≡ some o' → o'.session ≡ o.session
unfolding answer
answer-session name v o o' h = ground arith

module _ (cfg : Config) (e : Env) (ranges : HasRanges cfg) (name value : List ℕ) (o o' : Options)
    (ok : IsNegotiated cfg o.session) where
  tsize-IsNegotiated : tsize_option name value o ≡ some o' → IsNegotiated cfg o'.session
  unfolding tsize_option
  tsize-IsNegotiated h = grind (arith, answer-session)

  clamp_timeout_range :
      (v : ℤ)
      → (cfg.client_timeout_sec_min ≤ℤ clamp_timeout cfg v)
        × (clamp_timeout cfg v ≤ℤ cfg.client_timeout_sec_max)
  unfolding clamp_timeout
  clamp_timeout_range v = ground arith

  timeout-IsNegotiated : timeout_option cfg name value o ≡ some o' → IsNegotiated cfg o'.session
  unfolding timeout_option
  timeout-IsNegotiated h =
      let t = clamp_timeout cfg (atoi value) in
      ground (
        arith,
        answer-session name t (record o { session = record o.session { packet_timeout = t } }) o',
        clamp_timeout_range (atoi value),
      )

  blksize-IsNegotiated : blksize_option e name value o ≡ some o' → IsNegotiated cfg o'.session
  unfolding blksize_option resize_buffer
  blksize-IsNegotiated h = ground (
    arith,
    length-realloc e (pos_part (atoi value) + 6) o.session.buffer,
    answer-session name (atoi value) (resize_buffer e (pos_part (atoi value)) o) o',
  )

  windowsize-IsNegotiated :
      windowsize_option cfg name value o ≡ some o' → IsNegotiated cfg o'.session
  unfolding windowsize_option
  windowsize-IsNegotiated h =
      let w =
        (if ltb_ℤ cfg.window_size_max (atoi value) then cfg.window_size_max else atoi value) in
      ground (
        arith,
        answer-session name w (record o { session = record o.session { window_size = w } }) o',
      )

  pub apply_option-IsNegotiated :
      apply_option cfg e name value o ≡ some o' → IsNegotiated cfg o'.session
  unfolding apply_option
  apply_option-IsNegotiated h =
      elim (Bool-cases (eqb_ℤ cfg.allow_tsize_option (pos 1) && stricmp_eq (codes "tsize") name)) [
        | inl a ↦ tsize-IsNegotiated (rw a at h)
        | inr a ↦ elim (Bool-cases (stricmp_eq (codes "timeout") name)) [
          | inl b ↦ timeout-IsNegotiated (rw (a, b) at h)
          | inr b ↦ elim (Bool-cases (stricmp_eq (codes "blksize") name)) [
            | inl c ↦ blksize-IsNegotiated (rw (a, b, c) at h)
            | inr c ↦ elim (Bool-cases (stricmp_eq (codes "windowsize") name)) [
              | inl d ↦ windowsize-IsNegotiated (rw (a, b, c, d) at h)
              | inr d ↦
                  let kept : some o ≡ some o' = rw (a, b, c, d) at h in
                  let same : o ≡ o' = cc in
                  subst (λ (p : Options). IsNegotiated cfg p.session) same ok
            ]
          ]
        ]
      ]

module _ (cfg : Config) (e : Env) (ranges : HasRanges cfg) (size : ℕ) where
  -- Whatever options a client sends, if ParseOptions returns, then the block size is from 8 to
  -- 65464, the buffer fits it, the window size is 1 or from WindowSizeMin to WindowSizeMax, and
  -- the timeout is within the configured range, where all this held before. The two configured
  -- ranges are not empty, and WindowSizeMax is at least 1.
  pub parse_options-IsNegotiated :
      (n : ℕ) (s s' : Session)
      → IsNegotiated cfg s
      → parse_options cfg e size n s ≡ some s'
      → IsNegotiated cfg s'
  parse_options-IsNegotiated =
      parse_options-keeps cfg e size (IsNegotiated cfg) (apply_option-IsNegotiated cfg e ranges)
        (λ s h. ground (arith, h)) (λ s p h. ground (arith, h))
