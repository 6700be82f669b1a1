-- ===== src/Upload/Window/Transfer.antt =====
-- A whole upload with more than one block to the window.
use native.Mathlib.Nat.{mul-le-mul_right}
use tftp_server.Base.{
  ℕ, suc, ◌+◌, ◌*◌, ◌<◌, ◌≤◌, ◌^◌, ◌%◌, ◌==◌, if◌then◌else◌, zero, List, [], ◌∷◌, ◌++◌, some, true,
  false, concat, wire_size, length, map, ◌≡◌, arith, append-nil, append_assoc, length-append, ap,
  sym, ◌∙◌, subst,
}
use tftp_server.Config.{Config}
use tftp_server.Session.{Env, Session, err_no_error}
use tftp_server.Send.Ack.{ack_packet}
use tftp_server.Send.Data.{data_packet, over_limit}
use tftp_server.Thread.Serve.{serve-waits, serve-ends}
use tftp_server.Upload.{AllSent, IsWithinLimit, AreBlocks, data_events}
use tftp_server.Thread.{datagram, receive, on_event, serve, waits, ends}
use tftp_server.Upload.Window.{
  IsFilling, kept_block, on_event-window, kept_block-IsFilling, kept_block-sent,
}

-- The numbers of the ACKs for `n` blocks that arrive in their order from block `k + 1` on, where
-- `last` has been acknowledged last and the window has `w + 2` blocks: the number grows by one at
-- a block that comes first in a window, and every other block is answered by the same number again.
unfoldable pub ack_numbers : ℕ → ℕ → ℕ → ℕ → List ℕ
ack_numbers w k last zero = []
ack_numbers w k last (suc n) =
    let nr = last + (if k % suc (suc w) == 0 then 1 else 0) in nr ∷ ack_numbers w (suc k) nr n

-- The session has ended with `content` in the file, and has sent the ACKs `numbers` on the way.
pub record IsFilled (s s' : Session) (content numbers : List ℕ) : Type 0 where
  pub stored_bytes : s'.file ≡ some (record { bytes = content; position = length content })
  pub answered : s'.sent ≡ s.sent ++ map ack_packet numbers
  pub error_free : s'.error ≡ err_no_error
  pub done : s'.transfer_done ≡ true

-- The block that has just been stored comes first.
IsFilled-later :
    (s s1 s' : Session) (content : List ℕ) (nr : ℕ) (numbers : List ℕ)
    → s1.sent ≡ s.sent ++ ack_packet nr ∷ []
    → IsFilled s1 s' content numbers
    → IsFilled s s' content (nr ∷ numbers)
IsFilled-later s s1 s' content nr numbers sent r = record {
  stored_bytes = r.stored_bytes;
  answered = r.answered ∙ rw sent (simp append_assoc);
  error_free = r.error_free;
  done = r.done;
}

module _ (cfg : Config) (e : Env) (sends : AllSent e) (w size n : ℕ) (numbers : n < 2 ^ 16)
    (offsets : n * size < 2 ^ 31) where
  offset_small : (k : ℕ) (s : Session) → k ≤ n → s.block_size ≡ size → k * s.block_size < 2 ^ 31
  offset_small k s h fits =
      rw fits (omega (arith, offsets, mul-le-mul_right {m = k} {n = n} size h))

  -- An upload with two or more blocks to the window, which waits for block `k + 1` and has stored
  -- the blocks before it in `content`: when the other blocks arrive in their order, the last one
  -- shorter than the others and not empty, the session ends with the last one without an error,
  -- the file holds the blocks one after the other, and each block has been answered by one ACK,
  -- whose number grows by one at the blocks that come first in a window and stays as it was at the
  -- others, however far the upload has come. All sends succeed, the blocks' numbers stay below
  -- 2 ^ 16, the file below 2 ^ 31 bytes, and the bytes received within the limit.
  pub serve-filling :
      (bs : List (List ℕ)) (s : Session) (k : ℕ) (content : List ℕ)
      → IsFilling s w k content
      → s.block_size ≡ size
      → AreBlocks size bs
      → k + length bs ≡ n
      → s.bytes_handled + wire_size bs < 2 ^ 64
      → IsWithinLimit cfg (s.bytes_handled + wire_size bs)
      → (s' : Session) × (serve cfg e (data_events k bs) (waits s) ≡ some (ends s'))
        × IsFilled s s' (content ++ concat bs) (ack_numbers w k s.first_block_in_window (length bs))
  unfolding receive ack_numbers
  serve-filling [] s k content up fits shape count small limit = absurd shape
  serve-filling (b ∷ []) s k content up fits shape count small limit =
      let within : over_limit cfg (s.bytes_handled + (length b + 4)) ≡ false =
        limit _ (omega arith) in
      let offset = offset_small k s (omega arith) fits in
      let s1 =
        kept_block cfg e s content b w k up sends (omega arith) offset shape.0 (omega arith)
          (omega arith) within in
      let step : on_event cfg e (datagram (data_packet (suc k) b)) s ≡ some (ends s1) = ground (
        arith,
        on_event-window cfg e s content b w k up sends (omega arith) offset shape.0 (omega arith)
            (omega arith) within,
      ) in
      (
        s1,
        serve-ends cfg e _ [] s _ step,
        record {
          stored_bytes = simp append-nil (
              ap (λ n. some (record { bytes = content ++ b; position = n }))
                (sym (length-append content b)));
          answered =
              kept_block-sent cfg e s content b w k up sends (omega arith) offset shape.0
                (omega arith) (omega arith) within;
          error_free = up.no_error;
          done = ground arith;
        },
      )
  serve-filling (b ∷ c ∷ bs) s k content up fits shape count small limit =
      let within : over_limit cfg (s.bytes_handled + (length b + 4)) ≡ false =
        limit _ (omega arith) in
      let offset = offset_small k s (omega arith) fits in
      let s1 =
        kept_block cfg e s content b w k up sends (omega arith) offset (omega arith) (omega arith)
          (omega arith) within in
      let step : on_event cfg e (datagram (data_packet (suc k) b)) s ≡ some (waits s1) = ground (
        arith,
        on_event-window cfg e s content b w k up sends (omega arith) offset (omega arith)
            (omega arith) (omega arith) within,
      ) in
      let up1 =
        kept_block-IsFilling cfg e s content b w k up sends (omega arith) offset (omega arith)
          (omega arith) (omega arith) within (shape.0 ∙ sym fits) in
      let small1 : s1.bytes_handled + wire_size (c ∷ bs) < 2 ^ 64 = omega arith in
      let limit1 : IsWithinLimit cfg (s1.bytes_handled + wire_size (c ∷ bs)) =
        λ n h. limit n (omega arith) in
      let (s2, runs, r) =
        serve-filling (c ∷ bs) s1 (suc k) (content ++ b) up1 fits shape.2 (omega arith) small1
          limit1 in
      (
        s2,
        serve-waits cfg e _ (data_events (suc k) (c ∷ bs)) s s1 step ∙ runs,
        IsFilled-later s s1 s2 (content ++ concat (b ∷ c ∷ bs)) _ _
            (kept_block-sent cfg e s content b w k up sends (omega arith) offset (omega arith)
              (omega arith) (omega arith) within)
            (subst
              (λ x.
                IsFilled s1 s2 x (ack_numbers w (suc k) s1.first_block_in_window (length (c ∷ bs))))
              (append_assoc content b (concat (c ∷ bs))) r),
      )
