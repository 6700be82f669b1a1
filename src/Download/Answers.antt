-- ===== src/Download/Answers.antt =====
-- The packets that SMSG_DATA sends.
use native.Mathlib.Nat.{suc-mul}
use tftp_server.Base.{
  ℕ, zero, suc, ◌+◌, ◌-◌, ◌*◌, ◌<◌, List, [], ◌∷◌, ◌++◌, some, Bool, true, false, ◌⊎◌, inl, inr,
  ◌≡◌, refl, arith, length, length-take, take, drop, All, pos_part, ap, sym, subst, ◌∙◌, append-nil,
  append_assoc, Bool-cases, Option-cases,
}
use tftp_server.Config.{Config}
use tftp_server.Session.{Env, Session, File, server_to_client, err_undefined, send_ok}
use tftp_server.Send.Data.{
  data_packet, read_bytes, smsg_data, send_window, send_block, round_session, after_block, refresh,
  seek_block, Round, leave, next, stop,
}
use tftp_server.Send.Error.{error_packet}
use tftp_server.Dispatch.Kept.{file_bytes}

-- A packet that holds the block of its number of the file, or an error.
abbrev pub IsAnswer : List ℕ → ℕ → List ℕ → Type 0
IsAnswer content size p =
    ((n : ℕ) × (p ≡ data_packet (suc n) (take size (drop (n * size) content))))
    ⊎ ((code : ℕ) × (message : List ℕ) × (p ≡ error_packet code message))

-- A download of a file, in blocks of a size.
pub record IsServing (content : List ℕ) (size : ℕ) (s : Session) : Type 0 where
  pub direction : s.selected_operation ≡ server_to_client
  pub opened : file_bytes s ≡ some content
  pub block_size : s.block_size ≡ size
  pub due : 0 < s.first_block_in_window

-- The packets that have been sent in between are answers.
pub record IsAnswered (content : List ℕ) (size : ℕ) (s s' : Session) : Type 0 where
  pub added : List (List ℕ)
  pub sent : s'.sent ≡ s.sent ++ added
  pub answers : All (IsAnswer content size) added

Round-cases : (r : Round) → (r ≡ leave) ⊎ (r ≡ stop) ⊎ (r ≡ next)
Round-cases leave = inl refl
Round-cases stop = inr (inl refl)
Round-cases next = inr (inr refl)

module _ (content : List ℕ) (size : ℕ) where
  All-append :
      (ps qs : List (List ℕ))
      → All (IsAnswer content size) ps
      → All (IsAnswer content size) qs
      → All (IsAnswer content size) (ps ++ qs)
  All-append [] qs h k = k
  All-append (p ∷ ps) qs h k = (h.0, All-append ps qs h.1 k)

  pub IsAnswered-same : (s s' : Session) → s'.sent ≡ s.sent → IsAnswered content size s s'
  IsAnswered-same s s' h = record { added = []; sent = h ∙ sym (append-nil s.sent); answers = tt }

  pub IsAnswered-trans :
      (s t u : Session)
      → IsAnswered content size s t
      → IsAnswered content size t u
      → IsAnswered content size s u
  IsAnswered-trans s t u a b = record {
    added = a.added ++ b.added;
    sent = b.sent ∙ ap (λ x. x ++ b.added) a.sent ∙ append_assoc s.sent a.added b.added;
    answers = All-append a.added b.added a.answers b.answers;
  }

  module _ (cfg : Config) (e : Env) where
    -- One block, where the file stands at its start.
    round_session-IsAnswered :
        (i n : ℕ) (f : File) (s : Session)
        → s.block_size ≡ size
        → s.first_block_in_window + i ≡ suc n
        → f.bytes ≡ content
        → f.position ≡ n * size
        → IsAnswered content size s (round_session cfg e i f s)
    unfolding round_session send_block
    round_session-IsAnswered i n f s same nr bytes position =
        let p = data_packet (s.first_block_in_window + i) (read_bytes s.block_size f) in
        let this : p ≡ data_packet (suc n) (take size (drop (n * size) content)) =
          rw (nr, same, bytes, position) refl in
        elim (Bool-cases (send_ok e p s)) [
          | inl goes_out ↦ record {
            added = p ∷ [];
            sent = ground (arith, goes_out);
            answers = (inl (n, this), tt);
          }
          | inr fails ↦ IsAnswered-same s (round_session cfg e i f s) (ground (arith, fails))
        ]

    -- After a round that goes on, the file stands at the start of the next block.
    round_session-next :
        (i n : ℕ) (f : File) (s : Session)
        → s.block_size ≡ size
        → f.position ≡ n * size
        → after_block cfg e i f s ≡ next
        → (f.position + length (read_bytes s.block_size f) ≡ suc n * size)
          × ((round_session cfg e i f s).block_size ≡ size)
          × ((round_session cfg e i f s).first_block_in_window ≡ s.first_block_in_window)
    unfolding after_block round_session send_block
    round_session-next i n f s same position more =
        let most = length-take s.block_size (drop f.position f.bytes) in
        let whole : length (read_bytes s.block_size f) ≡ s.block_size =
          ground (arith, most, more) in
        (omega (arith, whole, same, position, suc-mul n size), ground arith, ground arith)

    send_window-IsAnswered :
        (rounds i n : ℕ) (f : File) (s : Session)
        → s.block_size ≡ size
        → s.first_block_in_window + i ≡ suc n
        → f.bytes ≡ content
        → f.position ≡ n * size
        → IsAnswered content size s (send_window cfg e rounds i f s).0
    unfolding send_window
    send_window-IsAnswered zero i n f s same nr bytes position = IsAnswered-same s s refl
    send_window-IsAnswered (suc rounds) i n f s same nr bytes position =
        let s1 = round_session cfg e i f s in
        let this = round_session-IsAnswered i n f s same nr bytes position in
        elim (Round-cases (after_block cfg e i f s)) [
          | inl left ↦ rw (left, send_window) this
          | inr (inl stopped) ↦ rw (stopped, send_window) this
          | inr (inr more) ↦
              let (start, same1, nr1) = round_session-next i n f s same position more in
              rw (more, send_window)
                (IsAnswered-trans s s1 _ this (
                  send_window-IsAnswered rounds (i + 1) (suc n) _ s1 same1 (omega (arith, nr, nr1))
                    bytes start))
        ]

    send_window-first :
        (rounds i : ℕ) (f : File) (s : Session)
        → (send_window cfg e rounds i f s).0.first_block_in_window ≡ s.first_block_in_window
    unfolding send_window round_session send_block
    send_window-first zero i f s = refl
    send_window-first (suc rounds) i f s = ground (
      arith,
      send_window-first rounds (i + 1)
          (record f { position = f.position + length (read_bytes s.block_size f) })
          (round_session cfg e i f s),
    )

    refresh-IsAnswered :
        (s : Session) (r : Session × Bool)
        → IsAnswered content size s r.0
        → IsAnswered content size s (refresh e r)
    refresh-IsAnswered s (t, true) a = IsAnswered-trans s t _ a (IsAnswered-same t _ refl)
    refresh-IsAnswered s (t, false) a = a

    seek_block-position :
        (nr size : ℕ) (f f1 : File)
        → 0 < nr
        → seek_block nr size f ≡ some f1
        → (f1.bytes ≡ f.bytes) × (f1.position ≡ (nr - 1) * size)
    unfolding seek_block
    seek_block-position zero size f f1 h sought = absurd (omega arith)
    seek_block-position (suc nr) size f f1 h sought = (ground arith, ground arith)

    -- SMSG_DATA.
    pub smsg_data-IsAnswered :
        (s s' : Session)
        → IsServing content size s
        → smsg_data cfg e s ≡ some s'
        → IsAnswered content size s s' × (s'.first_block_in_window ≡ s.first_block_in_window)
    unfolding smsg_data
    smsg_data-IsAnswered s s' serving h = elim (Option-cases s.file) [
      | inl closed ↦ absurd (ground (arith, closed, serving.opened))
      | inr (f, opened) ↦ elim (Option-cases (seek_block s.first_block_in_window s.block_size f)) [
        | inl overflow ↦ absurd (ground (arith, opened, overflow))
        | inr (f1, sought) ↦
            let n = s.first_block_in_window - 1 in
            let s1 : Session = record s { file = some f1 } in
            let r = send_window cfg e (pos_part s.window_size) 0 f1 s1 in
            let (kept, start) =
              seek_block-position s.first_block_in_window s.block_size f f1 serving.due sought in
            let sent = IsAnswered-trans s s1 _ (IsAnswered-same s s1 refl) (
              send_window-IsAnswered (pos_part s.window_size) 0 n f1 s1 serving.block_size
                (omega (arith, serving.due)) (ground (arith, kept, opened, serving.opened))
                (start ∙ ap (λ k. n * k) serving.block_size)) in
            let first : (refresh e r).first_block_in_window ≡ s.first_block_in_window =
              refresh-first r (send_window-first (pos_part s.window_size) 0 f1 s1) in
            elim (Bool-cases (e.malloc (s.block_size + 4 + 2))) [
              | inl memory ↦
                  let result : refresh e r ≡ s' = ground (arith, opened, sought, memory) in
                  subst
                    (λ x.
                      IsAnswered content size s x
                      × (x.first_block_in_window ≡ s.first_block_in_window))
                    result (refresh-IsAnswered s r sent, first)
              | inr none_left ↦
                  let failed : record s1 { error = err_undefined } ≡ s' =
                    ground (arith, opened, sought, none_left) in
                  subst
                    (λ x.
                      IsAnswered content size s x
                      × (x.first_block_in_window ≡ s.first_block_in_window))
                    failed (IsAnswered-same s _ refl, refl)
            ]
      ]
    ]
      where
        refresh-first :
            (r : Session × Bool)
            → r.0.first_block_in_window ≡ s.first_block_in_window
            → (refresh e r).first_block_in_window ≡ s.first_block_in_window
        refresh-first (t, true) h = h
        refresh-first (t, false) h = h
