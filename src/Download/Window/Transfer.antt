-- ===== src/Download/Window/Transfer.antt =====
-- A download with any number of blocks to the window, for a client that acknowledges each window
-- by its last block.
use native.Mathlib.Nat.{suc-mul, zero-mul, add-mul}
use tftp_server.Base.{
  ℕ, zero, suc, ◌+◌, ◌-◌, ◌*◌, ◌<◌, ◌≤◌, ◌^◌, List, [], ◌∷◌, ◌++◌, some, true, false, length, drop,
  ◌≡◌, refl, arith, append_assoc, drop-drop, ap, ◌∙◌, sym, ap₂, take,
}
use tftp_server.Config.{Config}
use tftp_server.Session.{Env, Session, File}
use tftp_server.Send.Ack.{ack_packet}
use tftp_server.Send.Data.{data_packet, send_window}
use tftp_server.Thread.{Event, datagram, receive, serve, on_event, waits, ends}
use tftp_server.Thread.Serve.{serve-waits, serve-ends}
use tftp_server.Upload.{AllSent, IsWithinLimit}
use tftp_server.Download.{blocks, data_packets}
use tftp_server.Download.Transfer.{IsDownloaded}
use tftp_server.Download.Window.{IsSent, send_window-full, send_window-end}
use tftp_server.Download.Window.Step.{
  IsWindowed, acknowledged, opened_at, passed_on, refreshed, smsg_data-window, on_event-end,
  on_event-window, IsWindowed-next,
}

-- The ACKs of `m + 1` full windows of `w` blocks behind block `k`, and of the last of the `j + 1`
-- blocks that follow.
abbrev pub window_acks : ℕ → ℕ → ℕ → ℕ → List Event
window_acks w zero j k = datagram (ack_packet (k + w)) ∷ datagram (ack_packet (k + w + suc j)) ∷ []
window_acks w (suc m) j k = datagram (ack_packet (k + w)) ∷ window_acks w m j (k + w)

data_packets-append :
    (k n m size : ℕ) (content : List ℕ)
    → data_packets k (blocks n size content)
        ++ data_packets (k + n) (blocks m size (drop (n * size) content))
      ≡ data_packets k (blocks (n + m) size content)
data_packets-append k zero m size content =
    let here : k + 0 ≡ k = omega arith in
    let all : 0 + m ≡ m = omega arith in rw (here, all, zero-mul size) refl
data_packets-append k (suc n) m size content =
    let product : size + n * size ≡ suc n * size = omega (arith, suc-mul n size) in
    let number : k + suc n ≡ suc k + n = omega arith in
    let count : suc n + m ≡ suc (n + m) = omega arith in
    rw (number, count, ← drop-drop (n * size) size (suc n * size) content product)
      (ap (λ t. data_packet (suc k) (take size content) ∷ t)
        (data_packets-append (suc k) n m size (drop size content)))

-- The blocks of a window and those behind it.
pub joined_windows :
    (nr w m j size : ℕ) (content : List ℕ)
    → data_packets nr (blocks w size (drop (nr * size) content))
        ++ data_packets (nr + w) (blocks (m * w + suc j) size (drop ((nr + w) * size) content))
      ≡ data_packets nr (blocks (suc m * w + suc j) size (drop (nr * size) content))
joined_windows nr w m j size content =
    let behind : nr * size + w * size ≡ (nr + w) * size = sym (add-mul nr w size) in
    let count : suc m * w + suc j ≡ w + (m * w + suc j) = omega (arith, suc-mul m w) in
    rw (count, ← drop-drop (w * size) (nr * size) ((nr + w) * size) content behind)
      (data_packets-append nr w (m * w + suc j) size (drop (nr * size) content))

-- The ACK of block `nr` of the window has come, and the loop of SMSG_DATA has sent the next one.
module _ (cfg : Config) (e : Env) (memory : (n : ℕ) → e.malloc n ≡ true) (w k : ℕ)
    (content : List ℕ) (s : Session) (down : IsWindowed s w k content) (more : s.read_done ≡ false)
    (nr : ℕ) (low : suc k ≤ nr) (high : nr < suc k + w) (room : nr < 2 ^ 16)
    (fits : nr * s.block_size < 2 ^ 31) (s' : Session) (packets : List (List ℕ)) (total : ℕ) where
  abbrev file_at : File
  file_at = record { bytes = content; position = nr * s.block_size }

  abbrev next_window : Session
  next_window = passed_on (refreshed e s')

  pub window_sent :
      send_window cfg e w 0 file_at (opened_at file_at nr s) ≡ (s', true)
      → IsSent (opened_at file_at nr s) s' content packets total
      → (on_event cfg e (datagram (ack_packet nr)) s ≡ some (waits next_window))
        × IsWindowed next_window w nr content
  unfolding receive
  window_sent runs sent =
      let f : File = record { bytes = content; position = down.position } in
      let answered =
        smsg_data-window cfg e memory (acknowledged nr s) s' w nr f down.window (omega arith)
          down.opened fits runs in
      (
        on_event-window cfg e s w k content down nr low high room file_at s' packets total more
            answered sent,
        IsWindowed-next cfg e s w k content down nr low high room file_at s' packets total sent,
      )

module _ (cfg : Config) (e : Env) (sends : AllSent e) (memory : (n : ℕ) → e.malloc n ≡ true)
    (content : List ℕ) (w size : ℕ) (positive : 0 < w) (small : length content < 2 ^ 31) (total : ℕ)
    (no_wrap : total < 2 ^ 64) (limit : IsWithinLimit cfg total) where
  -- The full window behind block `k` has been sent, of a file of `m` more full windows of `w` blocks,
  -- `j` full blocks and a shorter one. The client acknowledges each window by its last block, and
  -- the last block: the thread ends without an error, with the transfer done, and has sent the
  -- other blocks of the file in their order, and no other packet. The calls of the system succeed,
  -- the blocks' numbers stay below 2 ^ 16, the file below 2 ^ 31 bytes and within the limit.
  pub serve-windows :
      (m j k : ℕ) (s : Session)
      → IsWindowed s w k content
      → s.block_size ≡ size
      → s.read_done ≡ false
      → j < w
      → (k + w) * size + m * (w * size) + j * size ≤ length content
      → length content < (k + w) * size + m * (w * size) + j * size + size
      → k + w + m * w + suc j < 2 ^ 16
      → s.bytes_handled + (length content - (k + w) * size) ≤ total
      → (s' : Session) × (serve cfg e (window_acks w m j k) (waits s) ≡ some (ends s'))
        × IsDownloaded s s'
            (data_packets (k + w) (blocks (m * w + suc j) size (drop ((k + w) * size) content)))
  unfolding receive
  serve-windows zero j k s down same more fits low high room bytes =
      let nr = k + w in
      let p = nr * size in
      let none_more : 0 * (w * size) ≡ 0 = zero-mul (w * size) in
      let count : 0 * w + suc j ≡ suc j = omega (arith, zero-mul w) in
      let at : nr * s.block_size ≡ nr * size = ap (λ b. nr * b) same in
      let f : File = record { bytes = content; position = nr * s.block_size } in
      let s1 = opened_at f nr s in
      let (s2, runs, sent, done) =
        send_window-end cfg e sends size content total no_wrap limit j w 0 nr (nr * s.block_size) s1
          fits same (omega arith) (omega arith) (omega arith) (omega arith) in
      let s3 = passed_on (refreshed e s2) in
      let (step, down3) =
        window_sent cfg e memory w k content s down more nr (omega arith) (omega arith)
          (omega arith) (omega arith) s2 _ _ runs sent in
      let last : nr < nr + suc j = omega arith in
      let step2 =
        on_event-end cfg e s3 w nr content down3 (nr + suc j) (omega arith) (omega arith)
          (omega (arith, zero-mul w)) done in
      (
        passed_on (record (acknowledged (nr + suc j) s3) { transfer_done = true }),
        serve-waits cfg e _ _ s s3 step ∙ serve-ends cfg e _ [] s3 _ step2,
        record {
          delivered =
              sent.delivered
              ∙ ap (λ t. s.sent ++ data_packets nr t)
                  (ap₂ (λ a b. blocks a size (drop b content)) (sym count) at);
          no_error = down3.no_error;
          done = refl;
        },
      )
  serve-windows (suc m) j k s down same more fits low high room bytes =
      let nr = k + w in
      let p = nr * size in
      let windows : suc m * (w * size) ≡ m * (w * size) + w * size = suc-mul m (w * size) in
      let numbers : suc m * w ≡ m * w + w = suc-mul m w in
      let behind : (nr + w) * size ≡ nr * size + w * size = add-mul nr w size in
      let at : nr * s.block_size ≡ nr * size = ap (λ b. nr * b) same in
      let f : File = record { bytes = content; position = nr * s.block_size } in
      let s1 = opened_at f nr s in
      let (s2, runs, sent, kept) =
        send_window-full cfg e sends size content total no_wrap limit w 0 nr (nr * s.block_size) s1
          same refl (omega arith) (omega arith) (omega arith) in
      let s3 = passed_on (refreshed e s2) in
      let (step, down3) =
        window_sent cfg e memory w k content s down more nr (omega arith) (omega arith)
          (omega arith) (omega arith) s2 _ _ runs sent in
      let next =
        data_packets (nr + w) (blocks (m * w + suc j) size (drop ((nr + w) * size) content)) in
      let (s', later, r) =
        serve-windows m j nr s3 down3 (sent.same_transfer.same_block_size ∙ same) (kept ∙ more) fits
          (omega arith) (omega arith) (omega arith) (omega (arith, sent.counted)) in
      (
        s',
        serve-waits cfg e _ _ s s3 step ∙ later,
        record {
          delivered =
              r.delivered
              ∙ ap (λ t. t ++ next) sent.delivered
              ∙ append_assoc s.sent _ next
              ∙ ap (λ q. s.sent ++ (data_packets nr (blocks w size (drop q content)) ++ next)) at
              ∙ ap (λ t. s.sent ++ t) (joined_windows nr w m j size content);
          no_error = r.no_error;
          done = r.done;
        },
      )
