-- ===== src/Socket/Range.antt =====
-- CreateCommUDPSocket under every pattern of failures: the port counter, and the sockets opened.
use tftp_server.Base.{
  ltb, ◌^◌, ℕ, zero, suc, ◌+◌, ◌%◌, ◌<◌, ◌≤◌, [], ◌∷◌, none, some, Bool, true, false, ◌==◌, pos,
  ◌≡◌, refl, arith, ◌⊎◌, inl, inr, Bool-cases, Option-cases, append-nil, append_assoc, subst, ◌∙◌,
  ap, sym, List, Option, ◌++◌,
}
use tftp_server.Config.{Config}
use tftp_server.Session.{Env, Session}
use tftp_server.Socket.{
  advance_port, try_port, next_try, try_ports, create_comm_udp_socket, port_tried,
}

-- The socket that a call gave, if it gave one, comes first.
abbrev later_from : Option ℕ → List ℕ → List ℕ
later_from none later = later
later_from (some fd) later = fd ∷ later

-- The sockets that `n` calls of socket(), from call `i` on, have given.
unfoldable pub opened : Env → ℕ → ℕ → List ℕ
opened e i zero = []
opened e i (suc n) = let later = opened e (i + 1) n in later_from (e.socket i) later

-- What became of the sockets that were opened on the way from `s` to `s'`. At a success the last
-- call of socket() gave the socket that the session holds, and all those before it are closed, in
-- their order. At a failure all that were opened are closed: either the last call of socket()
-- failed, and the session holds none, or every socket was tried in vain.
abbrev pub Accounted : Env → Session → Session → Bool → Type 0
Accounted e s s' true =
    (n : ℕ) × (fd : ℕ) × (s'.socket_calls ≡ s.socket_calls + n + 1)
    × (e.socket (s.socket_calls + n) ≡ some fd)
    × (s'.comm_socket ≡ some fd)
    × (s'.closed ≡ s.closed ++ opened e s.socket_calls n)
Accounted e s s' false =
    (n : ℕ) × (s'.closed ≡ s.closed ++ opened e s.socket_calls n)
    × (((s'.socket_calls ≡ s.socket_calls + n + 1)
          × (e.socket (s.socket_calls + n) ≡ none)
          × (s'.comm_socket ≡ none))
        ⊎ (s'.socket_calls ≡ s.socket_calls + n))

-- The port counter is in the range from `a` up to, but not including, `b`.
abbrev pub InRange : ℕ → ℕ → Session → Type 0
InRange a b s = (a ≤ s.next_port_to_use) × (s.next_port_to_use < b)

module _ (cfg : Config) (e : Env) (a b : ℕ) (from : cfg.comm_port_start ≡ pos a)
    (to : cfg.comm_port_end ≡ pos b) (below : a < b) (ports : b ≤ 2 ^ 16) where
  advance_port_range : (port : ℕ) → (p : ℕ) × (advance_port cfg port ≡ some p) × (a ≤ p) × (p < b)
  unfolding advance_port
  advance_port_range port =
      let next = (port + 1) % b in
      elim (Bool-cases (ltb next a)) [
        | inl low ↦ (a, ground arith, omega arith, below)
        | inr high ↦ (next, ground arith, ground arith, omega arith)
      ]

  next_try_range :
      (ok : Bool) (s : Session)
      → InRange a b s
      → (s' : Session) × (next_try cfg ok s ≡ some s')
        × InRange a b s'
        × (s'.closed ≡ s.closed)
        × (s'.socket_calls ≡ s.socket_calls)
        × (s'.comm_socket ≡ s.comm_socket)
  unfolding next_try
  next_try_range ok s range = elim (Bool-cases (s.port_prefered == 0)) [
    | inl free ↦
        let (p, found, low, high) = advance_port_range s.next_port_to_use in
        (record s { next_port_to_use = p }, ground (arith, found), (low, high), refl, refl, refl)
    | inr fixed ↦ elim (Bool-cases ok) [
      | inl good ↦ (s, ground arith, range, refl, refl, refl)
      | inr bad ↦ (record s { port_prefered = 0 }, ground arith, range, refl, refl, refl)
    ]
  ]

  -- A try opens the socket `fd`, and closes it if it fails.
  abbrev Tried : ℕ → Session → Session → Bool → Type 0
  Tried fd s t true = t.closed ≡ s.closed
  Tried fd s t false = t.closed ≡ s.closed ++ fd ∷ []

  try_port-Tried :
      (fd : ℕ) (s : Session)
      → Tried fd s (try_port e fd s).0 (try_port e fd s).1
        × ((try_port e fd s).0.comm_socket ≡ some fd)
        × ((try_port e fd s).0.socket_calls ≡ s.socket_calls + 1)
        × ((try_port e fd s).0.next_port_to_use ≡ s.next_port_to_use)
  unfolding try_port
  try_port-Tried fd s = elim (Bool-cases (e.bind s.socket_calls (port_tried s))) [
    | inr unbound ↦ rw unbound (refl, refl, refl, refl)
    | inl bound ↦ elim (Option-cases s.client) [
      | inl unknown ↦ rw (bound, unknown) (refl, refl, refl, refl)
      | inr (address, known) ↦ elim (Bool-cases (e.connect s.connect_calls)) [
        | inl connected ↦ rw (bound, known, connected) (refl, refl, refl, refl)
        | inr unconnected ↦ rw (bound, known, unconnected) (refl, refl, refl, refl)
      ]
    ]
  ]

  opened-suc :
      (s s1 : Session) (fd n : ℕ)
      → e.socket s.socket_calls ≡ some fd
      → s1.closed ≡ s.closed ++ fd ∷ []
      → s1.socket_calls ≡ s.socket_calls + 1
      → s1.closed ++ opened e s1.socket_calls n ≡ s.closed ++ opened e s.socket_calls (suc n)
  unfolding opened
  opened-suc s s1 fd n gave closed calls =
      rw (gave, closed, calls) (append_assoc s.closed (fd ∷ []) (opened e (s.socket_calls + 1) n))

  -- The socket `fd` was opened before, and closed.
  Accounted-later :
      (s s1 s' : Session) (fd : ℕ) (ok : Bool)
      → e.socket s.socket_calls ≡ some fd
      → s1.closed ≡ s.closed ++ fd ∷ []
      → s1.socket_calls ≡ s.socket_calls + 1
      → Accounted e s1 s' ok
      → Accounted e s s' ok
  Accounted-later s s1 s' fd true gave closed calls (n, last, count, got, held, all) = (
    suc n,
    last,
    omega (arith, count, calls),
    ap e.socket (omega (arith, calls)) ∙ got,
    held,
    all ∙ opened-suc s s1 fd n gave closed calls,
  )
  Accounted-later s s1 s' fd false gave closed calls (n, all, inl (count, got, none_held)) = (
    suc n,
    all ∙ opened-suc s s1 fd n gave closed calls,
    inl (omega (arith, count, calls), ap e.socket (omega (arith, calls)) ∙ got, none_held),
  )
  Accounted-later s s1 s' fd false gave closed calls (n, all, inr count) =
      (suc n, all ∙ opened-suc s s1 fd n gave closed calls, inr (omega (arith, count, calls)))

  try_ports_range :
      (n : ℕ) (s : Session)
      → InRange a b s
      → (s' : Session) × (ok : Bool) × (try_ports cfg e n s ≡ some (s', ok))
        × InRange a b s'
        × Accounted e s s' ok
  unfolding try_ports opened
  try_ports_range zero s range =
      (s, false, refl, range, (0, sym (append-nil s.closed), inr (omega arith)))
  try_ports_range (suc n) s range = elim (Option-cases (e.socket s.socket_calls)) [
    | inl refused ↦ (
      record s { comm_socket = none; socket_calls = s.socket_calls + 1 },
      false,
      ground (arith, refused),
      range,
      (0, sym (append-nil s.closed), inl (omega arith, ap e.socket (omega arith) ∙ refused, refl)),
    )
    | inr (fd, gave) ↦
        let (tried, holds, calls, port) = try_port-Tried fd s in
        let t = (try_port e fd s).0 in
        let (s1, next, range1, closed, calls1, socket) =
          next_try_range (try_port e fd s).1 t (rw port range) in
        elim (Bool-cases (try_port e fd s).1) [
          | inl good ↦
              let kept : Tried fd s t true = subst (Tried fd s t) good tried in
              (
                s1,
                true,
                ground (arith, gave, next, good),
                range1,
                (
                  0,
                  fd,
                  omega (arith, calls, calls1),
                  ap e.socket (omega arith) ∙ gave,
                  socket ∙ holds,
                  closed ∙ kept ∙ sym (append-nil s.closed),
                ),
              )
          | inr bad ↦
              let (s', ok, runs, range', rest) = try_ports_range n s1 range1 in
              let lost : Tried fd s t false = subst (Tried fd s t) bad tried in
              (
                s',
                ok,
                ground (arith, gave, next, bad, runs),
                range',
                Accounted-later s s1 s' fd ok gave (closed ∙ lost) (omega (arith, calls, calls1))
                    rest,
              )
        ]
  ]

  -- CreateCommUDPSocket for a session without the server's own socket, where CommPortStart is `a`
  -- and CommPortEnd is `b`, above `a` and at most 2 ^ 16: whichever calls of socket(), bind() and
  -- connect() fail, it returns, NextPortToUse stays in the range from `a` to `b - 1`, and exactly
  -- the sockets that it opened are closed, in their order, but for the last one after a success,
  -- which the session holds.
  pub create_comm_udp_socket-Accounted :
      (s : Session)
      → s.server_socket ≡ none
      → InRange a b s
      → (s' : Session) × (ok : Bool) × (create_comm_udp_socket cfg e s ≡ some (s', ok))
        × InRange a b s'
        × Accounted e s s' ok
  unfolding create_comm_udp_socket
  create_comm_udp_socket-Accounted s own range =
      let (s', ok, runs, range', rest) = try_ports_range 100 s range in
      (s', ok, ground (arith, own, runs), range', rest)
