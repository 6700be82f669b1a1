-- ===== src/Download/Window.antt =====
-- A download with any number of blocks to the window: the loop of SMSG_DATA.
pub mod Step
pub mod Transfer
pub mod Early
use tftp_server.Base.{
  ℕ, zero, suc, ◌+◌, ◌*◌, ◌-◌, ◌<◌, ◌≤◌, ◌^◌, List, [], ◌∷◌, ◌++◌, some, Bool, true, false, ltb,
  if◌then◌else◌, pos, length, take, drop, ◌≡◌, refl, arith, length-drop, length-take, ◌∙◌, sym, ap,
  append_assoc, append-nil, drop-drop, min, subst, lt→ltb,
}
use native.Mathlib.Nat.{suc-mul, zero-mul}
use tftp_server.Config.{Config}
use tftp_server.Session.{Env, Session, File, touch, send_packet, send_ok}
use tftp_server.Send.Data.{
  data_packet, over_limit, smsg_data, seek_block, send_window, send_block, round_session,
  after_block, read_bytes,
}
use tftp_server.Dispatch.Kept.{IsSameTransfer, IsSameTransfer-refl, IsSameTransfer-trans}
use tftp_server.Upload.{AllSent, IsWithinLimit}
use tftp_server.Download.{blocks, data_packets}

-- The packets `packets` have gone out from the file `content`, with `total` bytes of it, and
-- nothing else has happened in the session.
pub record IsSent (s s' : Session) (content : List ℕ) (packets : List (List ℕ)) (total : ℕ)
    : Type 0 where
  pub same_transfer : IsSameTransfer s s'
  pub delivered : s'.sent ≡ s.sent ++ packets
  pub position : ℕ
  pub opened : s'.file ≡ some (record { bytes = content; position = position })
  pub same_first : s'.first_block_in_window ≡ s.first_block_in_window
  pub counted : s'.bytes_handled ≡ s.bytes_handled + total
  pub same_error : s'.error ≡ s.error
  pub same_done : s'.transfer_done ≡ s.transfer_done
  pub same_calls : s'.tick_calls ≡ s.tick_calls
  pub same_forwarded : s'.forwarded ≡ s.forwarded

module _ (cfg : Config) (e : Env) (sends : AllSent e) (size : ℕ) (content : List ℕ) where
  abbrev block_from : ℕ → List ℕ
  block_from p = take size (drop p content)

  abbrev round_sent : ℕ → ℕ → Session → Session
  round_sent k p s = record (send_packet e (data_packet (suc k) (block_from p)) s) {
    file = some (record { bytes = content; position = p + length (block_from p) });
    read_done = (if ltb (length (block_from p)) size then true else s.read_done);
    bytes_handled = s.bytes_handled + length (block_from p);
  }

  send_window-step :
      (n i k p : ℕ) (s : Session)
      → s.block_size ≡ size
      → s.first_block_in_window + i ≡ suc k
      → s.bytes_handled + length (block_from p) < 2 ^ 64
      → over_limit cfg (s.bytes_handled + length (block_from p)) ≡ false
      → send_window cfg e (suc n) i (record { bytes = content; position = p }) s ≡ (
          if ltb (length (block_from p)) size
          then (round_sent k p s, true)
          else send_window cfg e n
              (i + 1)
              (record { bytes = content; position = p + length (block_from p) })
              (round_sent k p s))
  unfolding send_window round_session send_block after_block
  send_window-step n i k p s same number small limit =
      ground (arith, sends s.send_calls (data_packet (suc k) (block_from p)))

  round_sent-IsSent :
      (k p : ℕ) (s : Session)
      → IsSent s
          (round_sent k p s)
          content
          (data_packet (suc k) (block_from p) ∷ [])
          (length (block_from p))
  round_sent-IsSent k p s = record {
    same_transfer = ground arith;
    delivered = rw (sends s.send_calls (data_packet (suc k) (block_from p)));
    position = p + length (block_from p);
    opened = refl;
    same_first = refl;
    counted = refl;
    same_error = refl;
    same_done = refl;
    same_calls = refl;
    same_forwarded = refl;
  }

  IsSent-trans :
      (s t u : Session) (ps qs : List (List ℕ)) (m n : ℕ)
      → IsSent s t content ps m
      → IsSent t u content qs n
      → IsSent s u content (ps ++ qs) (m + n)
  IsSent-trans s t u ps qs m n a b = record {
    same_transfer = IsSameTransfer-trans s t u a.same_transfer b.same_transfer;
    delivered = b.delivered ∙ rw a.delivered (simp append_assoc);
    position = b.position;
    opened = b.opened;
    same_first = b.same_first ∙ a.same_first;
    counted = omega (arith, a.counted, b.counted);
    same_error = b.same_error ∙ a.same_error;
    same_done = b.same_done ∙ a.same_done;
    same_calls = b.same_calls ∙ a.same_calls;
    same_forwarded = b.same_forwarded ∙ a.same_forwarded;
  }

  -- A block and those behind it.
  IsSent-cons :
      (k p n : ℕ) (s s' : Session) (bs : List (List ℕ)) (m total : ℕ)
      → blocks n size (drop size (drop p content)) ≡ bs
      → length (block_from p) + m ≡ total
      → IsSent (round_sent k p s) s' content (data_packets (suc k) bs) m
      → IsSent s s' content (data_packets k (blocks (suc n) size (drop p content))) total
  IsSent-cons k p n s s' bs m total behind sum rest =
      let whole =
        IsSent-trans s (round_sent k p s) s' (data_packet (suc k) (block_from p) ∷ [])
          (data_packets (suc k) bs) (length (block_from p)) m (round_sent-IsSent k p s) rest in
      rw (← sum, behind) whole

  nothing-IsSent :
      (p : ℕ) (s : Session)
      → s.file ≡ some (record { bytes = content; position = p })
      → IsSent s s content [] 0
  nothing-IsSent p s opened = record {
    same_transfer = IsSameTransfer-refl s;
    delivered = simp append-nil;
    position = p;
    opened = opened;
    same_first = refl;
    counted = omega arith;
    same_error = refl;
    same_done = refl;
    same_calls = refl;
    same_forwarded = refl;
  }

  block_from-length : (p : ℕ) → length (block_from p) ≡ min size (length content - p)
  block_from-length p = length-take size (drop p content) ∙ ap (min size) (length-drop p content)

  module _ (total : ℕ) (no_wrap : total < 2 ^ 64) (limit : IsWithinLimit cfg total) where
    -- `n` full blocks.
    pub send_window-full :
        (n i k p : ℕ) (s : Session)
        → s.block_size ≡ size
        → s.file ≡ some (record { bytes = content; position = p })
        → s.first_block_in_window + i ≡ suc k
        → p + n * size ≤ length content
        → s.bytes_handled + n * size ≤ total
        → (s' : Session) × (send_window cfg e n i (record { bytes = content; position = p }) s
            ≡ (s', true))
          × IsSent s s' content (data_packets k (blocks n size (drop p content))) (n * size)
          × (s'.read_done ≡ s.read_done)
    unfolding send_window
    send_window-full zero i k p s same opened number left small = (
      s,
      refl,
      subst (IsSent s s content []) (sym (zero-mul size)) (nothing-IsSent p s opened),
      refl,
    )
    send_window-full (suc n) i k p s same opened number left small =
        let product : suc n * size ≡ n * size + size = suc-mul n size in
        let full : length (block_from p) ≡ size = omega (arith, block_from-length p) in
        let s1 = round_sent k p s in
        let p1 = p + length (block_from p) in
        let step = send_window-step n i k p s same number (omega arith) (limit _ (omega arith)) in
        let (s', runs, rest, kept) =
          send_window-full n (i + 1) (suc k) p1 s1 same refl (omega arith) (omega arith)
            (omega arith) in
        let behind : blocks n size (drop size (drop p content)) ≡ blocks n size (drop p1 content) =
          ap (blocks n size) (drop-drop size p p1 content (omega arith)) in
        (
          s',
          ground (arith, step, full, runs),
          IsSent-cons k p n s s' (blocks n size (drop p1 content)) (n * size) (suc n * size) behind
              (omega arith) rest,
          ground (arith, kept, full),
        )

    -- `j` full blocks and a shorter one, which the window has room for.
    pub send_window-end :
        (j n i k p : ℕ) (s : Session)
        → j < n
        → s.block_size ≡ size
        → s.first_block_in_window + i ≡ suc k
        → p + j * size ≤ length content
        → length content < p + j * size + size
        → s.bytes_handled + (length content - p) ≤ total
        → (s' : Session) × (send_window cfg e n i (record { bytes = content; position = p }) s
            ≡ (s', true))
          × IsSent s s' content
              (data_packets k (blocks (suc j) size (drop p content)))
              (length content - p)
          × (s'.read_done ≡ true)
    unfolding send_window
    send_window-end j zero i k p s room same number low high small = absurd (omega arith)
    send_window-end zero (suc n) i k p s room same number low high small =
        let short : length (block_from p) ≡ length content - p =
          omega (arith, block_from-length p, zero-mul size) in
        let s1 = round_sent k p s in
        let step = send_window-step n i k p s same number (omega arith) (limit _ (omega arith)) in
        let ended : ltb (length (block_from p)) size ≡ true =
          lt→ltb _ _ (omega (arith, zero-mul size)) in
        (
          s1,
          ground (arith, step, ended),
          IsSent-cons k p 0 s s1 [] 0 (length content - p) refl (omega arith)
              (nothing-IsSent (p + length (block_from p)) s1 refl),
          ground (arith, ended),
        )
    send_window-end (suc j) (suc n) i k p s room same number low high small =
        let product : suc j * size ≡ j * size + size = suc-mul j size in
        let full : length (block_from p) ≡ size = omega (arith, block_from-length p) in
        let s1 = round_sent k p s in
        let p1 = p + length (block_from p) in
        let step = send_window-step n i k p s same number (omega arith) (limit _ (omega arith)) in
        let (s', runs, rest, done) =
          send_window-end j n (i + 1) (suc k) p1 s1 (omega arith) same (omega arith) (omega arith)
            (omega arith) (omega arith) in
        let behind : blocks (suc j) size (drop size (drop p content))
            ≡ blocks (suc j) size (drop p1 content) =
          ap (blocks (suc j) size) (drop-drop size p p1 content (omega arith)) in
        (
          s',
          ground (arith, step, full, runs),
          IsSent-cons k p (suc j) s s' (blocks (suc j) size (drop p1 content)) (length content - p1)
              (length content - p) behind (omega arith) rest,
          done,
        )
