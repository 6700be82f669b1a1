-- ===== src/Request/Opened.antt =====
-- What the options and the choice of a socket do to the open file: nothing.
use tftp_server.Base.{
  ℕ, zero, suc, List, Option, none, some, Bool, ◌≡◌, refl, arith, ◌∙◌, Bool-cases, Option-cases,
  ◌⊎◌, inl, inr, ℤ, ap, sym, set, length, ◌+◌,
}
use tftp_server.Config.{Config}
use tftp_server.Text.{c_string_at}
use tftp_server.Session.{Env, Session, Status, err_illegal_operation}
use tftp_server.Socket.{advance_port, try_port, next_try, try_ports, create_comm_udp_socket}
use tftp_server.Options.{
  Options, apply_option, answer, tsize_option, timeout_option, blksize_option, resize_buffer,
  windowsize_option, parse_options,
}
use tftp_server.Options.Induction.{parse_options-keeps}
use tftp_server.Dispatch.Kept.{file_bytes}
use tftp_server.Request.{cut, names, terminate, read_names, open_request}

answer-file :
    (name : List ℕ) (v : ℤ) (o o' : Options)
    → answer name v o ≡ some o'
    → file_bytes o'.session ≡ file_bytes o.session
unfolding answer
answer-file name v o o' h = ground arith

apply_option-file :
    (cfg : Config) (e : Env) (name value : List ℕ) (o o' : Options)
    → apply_option cfg e name value o ≡ some o'
    → file_bytes o'.session ≡ file_bytes o.session
unfolding apply_option tsize_option timeout_option blksize_option resize_buffer windowsize_option
    answer
apply_option-file cfg e name value o o' h = ground arith

pub parse_options-file :
    (cfg : Config) (e : Env) (size n : ℕ) (s s' : Session)
    → parse_options cfg e size n s ≡ some s'
    → file_bytes s' ≡ file_bytes s
parse_options-file cfg e size n s s' =
    parse_options-keeps cfg e size (λ t. file_bytes t ≡ file_bytes s)
      (λ name value o o' kept h. apply_option-file cfg e name value o o' h ∙ kept) (λ t kept. kept)
      (λ t p kept. kept) n s s' refl

try_port-file :
    (e : Env) (fd : ℕ) (s : Session)
    → ((try_port e fd s).0.file ≡ s.file) × ((try_port e fd s).0.sent ≡ s.sent)
unfolding try_port
try_port-file e fd s = ground arith

next_try-file :
    (cfg : Config) (ok : Bool) (s s' : Session)
    → next_try cfg ok s ≡ some s'
    → (s'.file ≡ s.file) × (s'.sent ≡ s.sent)
unfolding next_try
next_try-file cfg ok s s' h = elim (Option-cases (advance_port cfg s.next_port_to_use)) [
  | inl fault ↦ ground (arith, fault)
  | inr (port, found) ↦ ground (arith, found)
]

try_ports-file :
    (cfg : Config) (e : Env) (n : ℕ) (s s' : Session) (ok : Bool)
    → try_ports cfg e n s ≡ some (s', ok)
    → (s'.file ≡ s.file) × (s'.sent ≡ s.sent)
unfolding try_ports
try_ports-file cfg e zero s s' ok h = ground arith
try_ports-file cfg e (suc n) s s' ok h = elim (Option-cases (e.socket s.socket_calls)) [
  | inl no_socket ↦ ground (arith, no_socket)
  | inr (fd, opened) ↦
      let t = (try_port e fd s).0 in
      let done = (try_port e fd s).1 in
      elim (Option-cases (next_try cfg done t)) [
        | inl fault ↦ absurd (ground (arith, opened, fault))
        | inr (s1, next) ↦
            let (same, kept) = next_try-file cfg done t s1 next in
            let (same0, kept0) = try_port-file e fd s in
            elim (Bool-cases done) [
              | inl good ↦ ground (arith, opened, next, good, same, kept, same0, kept0)
              | inr bad ↦
                  let (rest, sent) =
                    try_ports-file cfg e n s1 s' ok (ground (arith, opened, next, bad)) in
                  (rest ∙ same ∙ same0, sent ∙ kept ∙ kept0)
            ]
      ]
]

pub create_comm_udp_socket-file :
    (cfg : Config) (e : Env) (s s' : Session) (ok : Bool)
    → create_comm_udp_socket cfg e s ≡ some (s', ok)
    → (s'.file ≡ s.file) × (s'.sent ≡ s.sent)
unfolding create_comm_udp_socket
create_comm_udp_socket-file cfg e s s' ok h = ground (arith, try_ports-file cfg e 100 s s' ok)

-- The name that a request asks for: the text behind its opcode, where the byte after the packet
-- has been set to 0.
abbrev pub Asks : Session → ℕ → List ℕ → Type 0
Asks s size name = c_string_at (set s.buffer size 0) 2 ≡ some name

terminate-buffer :
    (size : ℕ) (s s1 : Session) → terminate size s ≡ some s1 → s1.buffer ≡ set s.buffer size 0
unfolding terminate
terminate-buffer size s s1 h = ground arith

read_names-c_string_at :
    (size n : ℕ) (packet name : List ℕ)
    → read_names size packet ≡ some (names name n)
    → c_string_at packet 2 ≡ some name
unfolding read_names
read_names-c_string_at size n packet name h = elim (Option-cases (c_string_at packet 2)) [
  | inl a ↦ absurd (ground (arith, a))
  | inr (text, a) ↦ elim (Option-cases (c_string_at packet (2 + length text + 1))) [
    | inl b ↦ absurd (ground (arith, a, b))
    | inr (mode, b) ↦ ground (arith, a, b)
  ]
]

pub open_request-reaches :
    (cfg : Config) (e : Env) (size : ℕ) (go : List ℕ → ℕ → Session → Option (Session × Status))
    (s s' : Session) (st : Status)
    → s.file ≡ none
    → open_request cfg e size go s ≡ some (s', st)
    → ((s'.file ≡ none) × (s'.error ≡ err_illegal_operation) × (s'.sent ≡ s.sent))
      ⊎ ((name : List ℕ) × (n : ℕ) × (s1 : Session) × (s1.file ≡ none)
          × (s1.sent ≡ s.sent)
          × Asks s size name
          × (go name n s1 ≡ some (s', st)))
unfolding open_request terminate
open_request-reaches cfg e size go s s' st closed h = elim (Option-cases (terminate size s)) [
  | inl fault ↦ absurd (ground (arith, fault))
  | inr (s1, ended) ↦
      let same : s1.file ≡ s.file = ground (arith, ended) in
      let kept : s1.sent ≡ s.sent = ground (arith, ended) in
      elim (Option-cases (read_names size s1.buffer)) [
        | inl fault ↦ absurd (ground (arith, ended, fault))
        | inr (cut, read) ↦ inl (ground (arith, ended, read, same, kept))
        | inr (names name n, read) ↦ elim (Option-cases (create_comm_udp_socket cfg e s1)) [
          | inl fault ↦ absurd (ground (arith, ended, read, fault))
          | inr ((s2, ok), made) ↦ inr (
            name,
            n,
            s2,
            (create_comm_udp_socket-file cfg e s1 s2 ok made).0 ∙ same ∙ closed,
            (create_comm_udp_socket-file cfg e s1 s2 ok made).1 ∙ kept,
            ap (λ b. c_string_at b 2) (sym (terminate-buffer size s s1 ended))
                ∙ read_names-c_string_at size n s1.buffer name read,
            ground (arith, ended, read, made),
          )
        ]
      ]
]
