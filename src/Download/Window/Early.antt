-- ===== src/Download/Window/Early.antt =====
-- An ACK of CMSG_ACK in the middle of the last window.
use tftp_server.Base.{
  ℕ, suc, ◌+◌, ◌-◌, ◌*◌, ◌<◌, ◌≤◌, ◌^◌, List, ◌∷◌, ◌++◌, some, true, false, length, drop, ◌≡◌, refl,
  arith, ap, ◌∙◌,
}
use tftp_server.Config.{Config}
use tftp_server.Session.{Env, Session, File}
use tftp_server.Send.Ack.{ack_packet}
use tftp_server.Thread.{Event, datagram, receive, serve, waits, ends}
use tftp_server.Thread.Serve.{serve-waits, serve-ends}
use tftp_server.Upload.{AllSent, IsWithinLimit}
use tftp_server.Download.{blocks, data_packets}
use tftp_server.Download.Transfer.{IsDownloaded}
use tftp_server.Download.Window.{send_window-end}
use tftp_server.Download.Window.Step.{
  IsWindowed, acknowledged, opened_at, passed_on, refreshed, on_event-end,
}
use tftp_server.Download.Window.Transfer.{window_sent}

module _ (cfg : Config) (e : Env) (sends : AllSent e) (memory : (n : ℕ) → e.malloc n ≡ true)
    (content : List ℕ) (w size : ℕ) (small : length content < 2 ^ 31) (total : ℕ)
    (no_wrap : total < 2 ^ 64) (limit : IsWithinLimit cfg total) where
  -- A download with a window of `w` blocks, behind which the file has `j` full blocks and a shorter
  -- one, fewer than `w + 1` in all. The client acknowledges the window by its last block, receives
  -- the `i`-th of the blocks that follow, at most the `j`-th, loses the one behind it, and says so
  -- by an ACK of the `i`-th, as RFC 7440 has it. Whatever comes then, the thread has ended without
  -- an error and with the transfer done, and has sent each of the last `j + 1` blocks once: the
  -- lost ones are not sent again. The calls of the system succeed, the blocks' numbers stay below
  -- 2 ^ 16, the file below 2 ^ 31 bytes and within the limit.
  pub serve-early :
      (i j k : ℕ) (s : Session) (rest : List Event)
      → IsWindowed s w k content
      → s.block_size ≡ size
      → s.read_done ≡ false
      → 0 < i
      → i ≤ j
      → j < w
      → (k + w) * size + j * size ≤ length content
      → length content < (k + w) * size + j * size + size
      → k + w + suc j < 2 ^ 16
      → s.bytes_handled + (length content - (k + w) * size) ≤ total
      → (s' : Session) × (serve cfg e
            (datagram (ack_packet (k + w)) ∷ datagram (ack_packet (k + w + i)) ∷ rest)
            (waits s)
          ≡ some (ends s'))
        × IsDownloaded s s'
            (data_packets (k + w) (blocks (suc j) size (drop ((k + w) * size) content)))
  unfolding receive
  serve-early i j k s rest down same more first lost fits low high room bytes =
      let nr = k + w in
      let at : nr * s.block_size ≡ nr * size = ap (λ b. nr * b) same in
      let f : File = record { bytes = content; position = nr * s.block_size } in
      let s1 = opened_at f nr s in
      let (s2, runs, sent, done) =
        send_window-end cfg e sends size content total no_wrap limit j w 0 nr (nr * s.block_size) s1
          fits same (omega arith) (omega arith) (omega arith) (omega arith) in
      let s3 = passed_on (refreshed e s2) in
      let (step, down3) =
        window_sent cfg e memory w k content s down more nr (omega arith) (omega arith)
          (omega arith) (omega arith) s2 _ _ runs sent in
      let step2 =
        on_event-end cfg e s3 w nr content down3 (nr + i) (omega arith) (omega arith) (omega arith)
          done in
      (
        passed_on (record (acknowledged (nr + i) s3) { transfer_done = true }),
        serve-waits cfg e _ _ s s3 step ∙ serve-ends cfg e _ rest s3 _ step2,
        record {
          delivered =
              sent.delivered
              ∙ ap (λ q. s.sent ++ data_packets nr (blocks (suc j) size (drop q content))) at;
          no_error = down3.no_error;
          done = refl;
        },
      )
