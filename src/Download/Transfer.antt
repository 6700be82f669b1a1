-- ===== src/Download/Transfer.antt =====
-- A whole download.
use native.Mathlib.Nat.{le_trans, mul-le-mul_right, suc-mul}
use tftp_server.Base.{
  min, ℕ, zero, suc, ◌+◌, ◌-◌, ◌*◌, ◌<◌, ◌≤◌, ◌^◌, List, [], ◌++◌, some, true, false, length, drop,
  ◌≡◌, refl, arith, append-nil, append_assoc, length-take, length-drop, drop-drop, ap, ◌∙◌, lt→ltb,
  le→ltb,
}
use tftp_server.Config.{Config}
use tftp_server.Session.{Env, Session, err_no_error}
use tftp_server.Send.Ack.{ack_packet}
use tftp_server.Send.Data.{data_packet}
use tftp_server.Thread.{datagram, receive, serve, on_event, waits, ends}
use tftp_server.Thread.Serve.{serve-waits, serve-ends}
use tftp_server.Upload.{AllSent, IsWithinLimit}
use tftp_server.Download.{IsDownloading, blocks, data_packets, ack_events}
use tftp_server.Download.Block.{
  block_at, on_event-last, on_event-next, last_session, next_session, next_session-IsDownloading,
}

-- The session has ended without an error, and has sent `packets` on the way.
pub record IsDownloaded (s s' : Session) (packets : List (List ℕ)) : Type 0 where
  pub delivered : s'.sent ≡ s.sent ++ packets
  pub no_error : s'.error ≡ err_no_error
  pub done : s'.transfer_done ≡ true

add_suc : (k n : ℕ) → suc k + n ≡ k + suc n
add_suc k n = omega arith

block_at_size :
    (k size : ℕ) (content : List ℕ)
    → length (block_at k size content) ≡ min size (length content - k * size)
block_at_size k size content =
    length-take size (drop (k * size) content) ∙ ap (min size) (length-drop (k * size) content)

module _ (cfg : Config) (e : Env) (sends : AllSent e) (memory : (n : ℕ) → e.malloc n ≡ true) where
  next_block :
      (s s2 : Session) (k n : ℕ) (content : List ℕ)
      → IsDownloaded (next_session e k content s) s2 (
          data_packets
            (suc (suc k))
            (blocks n s.block_size (drop (suc (suc k) * s.block_size) content)))
      → IsDownloaded s s2
          (data_packets (suc k) (blocks (suc n) s.block_size (drop (suc k * s.block_size) content)))
  unfolding receive
  next_block s s2 k n content r = record {
    delivered =
        r.delivered
        ∙ rw
            (sends s.send_calls (data_packet (suc (suc k)) (block_at (suc k) s.block_size content)))
            (rw
              (drop-drop s.block_size (suc k * s.block_size) (suc (suc k) * s.block_size) content
                (omega (arith, suc-mul (suc k) s.block_size)))
              (simp append_assoc));
    no_error = r.no_error;
    done = r.done;
  }

  -- From a session that waits for the ACK of block `k + 1`, with `n` blocks behind that one.
  pub serve-acks :
      (n : ℕ) (s : Session) (k : ℕ) (content : List ℕ)
      → IsDownloading s k content
      → (k + n) * s.block_size ≤ length content
      → length content < (k + n) * s.block_size + s.block_size
      → length content < 2 ^ 31
      → suc (k + n) < 2 ^ 16
      → s.bytes_handled + (length content - suc k * s.block_size) < 2 ^ 63
      → s.block_size < 2 ^ 31
      → IsWithinLimit cfg (s.bytes_handled + (length content - suc k * s.block_size))
      → (s' : Session) × (serve cfg e (ack_events k (suc n)) (waits s) ≡ some (ends s'))
        × IsDownloaded s s'
            (data_packets (suc k) (blocks n s.block_size (drop (suc k * s.block_size) content)))
  unfolding receive
  serve-acks zero s k content down h1 h2 h3 room small size limit =
      let done : s.read_done ≡ true = down.end_reached ∙ lt→ltb _ _ (omega arith) in
      (
        last_session k s,
        serve-ends cfg e _ [] s _ (on_event-last cfg e s content k down (omega arith) done),
        record { delivered = simp append-nil; no_error = down.no_error; done = refl },
      )
  serve-acks (suc n) s k content down h1 h2 h3 room small size limit =
      let left : suc k * s.block_size ≤ length content =
        le_trans (mul-le-mul_right s.block_size (omega arith)) h1 in
      let product : suc (suc k) * s.block_size ≡ suc k * s.block_size + s.block_size =
        suc-mul (suc k) s.block_size in
      let s1 = next_session e k content s in
      let more : s.read_done ≡ false = down.end_reached ∙ le→ltb _ _ (omega arith) in
      let taken : length (block_at (suc k) s.block_size content)
          ≡ min s.block_size (length content - suc k * s.block_size) =
        block_at_size (suc k) s.block_size content in
      let step : on_event cfg e (datagram (ack_packet (suc k))) s ≡ some (waits s1) =
        on_event-next cfg e s content k down (omega arith) more (omega arith) (omega arith)
          (limit _ (omega arith)) memory sends in
      let (s2, runs, r) =
        serve-acks n s1 (suc k) content
          (next_session-IsDownloading cfg e s content k down (omega arith) more)
          (rw (add_suc k n) h1) (rw (add_suc k n) h2) h3 (omega arith) (omega arith) size
          (λ m h. limit m (omega arith)) in
      (
        s2,
        serve-waits cfg e _ (ack_events (suc k) (suc n)) s s1 step ∙ runs,
        next_block s s2 k n content r,
      )
