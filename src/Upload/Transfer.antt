-- ===== src/Upload/Transfer.antt =====
-- A whole upload.
use tftp_server.Base.{
  ℕ, suc, ◌+◌, ◌<◌, ◌^◌, List, [], ◌∷◌, ◌++◌, some, true, length, ◌≡◌, arith, concat, wire_size,
  append-nil, append_assoc, length-append, sym, ap, ◌∙◌,
}
use tftp_server.Config.{Config}
use tftp_server.Session.{Env, Session, err_no_error}
use tftp_server.Send.Ack.{ack_packet}
use tftp_server.Send.Data.{data_packet}
use tftp_server.Thread.{datagram, receive, serve, on_event, waits, ends}
use tftp_server.Thread.Serve.{serve-waits, serve-ends}
use tftp_server.Upload.{IsUploading, AllSent, IsWithinLimit, AreBlocks, data_events, ack_packets}
use tftp_server.Upload.Block.{on_event-block, stored_session, stored_session-IsUploading}

-- The session has ended with `content` in the file, and has sent `acks` on the way.
pub record IsUploaded (s s' : Session) (content : List ℕ) (acks : List (List ℕ)) : Type 0 where
  pub whole : s'.file ≡ some (record { bytes = content; position = length content })
  pub acknowledged : s'.sent ≡ s.sent ++ acks
  pub no_error : s'.error ≡ err_no_error
  pub done : s'.transfer_done ≡ true

module _ (cfg : Config) (e : Env) (sends : AllSent e) where
  pub last_block :
      (s : Session) (b : List ℕ) (k : ℕ) (content : List ℕ)
      → IsUploading s k content
      → length b < s.block_size
      → IsUploaded s
          (stored_session e s content b k)
          (content ++ concat (b ∷ []))
          (ack_packets k (b ∷ []))
  unfolding receive
  last_block s b k content up short = record {
    whole = simp append-nil (
        ap (λ n. some (record { bytes = content ++ b; position = n }))
          (sym (length-append content b)));
    acknowledged = rw (sends s.send_calls (ack_packet (suc k)));
    no_error = up.no_error;
    done = ground arith;
  }

  first_block :
      (s s2 : Session) (b : List ℕ) (bs : List (List ℕ)) (k : ℕ) (content : List ℕ)
      → IsUploaded
          (stored_session e s content b k)
          s2
          ((content ++ b) ++ concat bs)
          (ack_packets (suc k) bs)
      → IsUploaded s s2 (content ++ concat (b ∷ bs)) (ack_packets k (b ∷ bs))
  unfolding receive
  first_block s s2 b bs k content r = record {
    whole = simp (← append_assoc) r.whole;
    acknowledged =
        r.acknowledged ∙ rw (sends s.send_calls (ack_packet (suc k))) (simp append_assoc);
    no_error = r.no_error;
    done = r.done;
  }

  -- From a session that waits for block `k + 1`, with the file's bytes so far in `content`.
  pub serve-blocks :
      (blocks : List (List ℕ)) (s : Session) (k : ℕ) (content : List ℕ)
      → IsUploading s k content
      → AreBlocks s.block_size blocks
      → k + length blocks < 2 ^ 16
      → s.bytes_handled + wire_size blocks < 2 ^ 64
      → IsWithinLimit cfg (s.bytes_handled + wire_size blocks)
      → (s' : Session) × (serve cfg e (data_events k blocks) (waits s) ≡ some (ends s'))
        × IsUploaded s s' (content ++ concat blocks) (ack_packets k blocks)
  unfolding receive
  serve-blocks [] s k content up shape room small limit = absurd shape
  serve-blocks (b ∷ []) s k content up shape room small limit =
      let step : on_event cfg e (datagram (data_packet (suc k) b)) s
          ≡ some (ends (stored_session e s content b k)) =
        ground (
          arith,
          on_event-block cfg e s content b k up (omega arith) (omega arith) (omega arith)
              (omega arith) (limit _ (omega arith)) sends,
        ) in
      (
        stored_session e s content b k,
        serve-ends cfg e _ [] s _ step,
        last_block s b k content up (omega arith),
      )
  serve-blocks (b ∷ c ∷ bs) s k content up shape room small limit =
      let s1 = stored_session e s content b k in
      let small1 : s1.bytes_handled + wire_size (c ∷ bs) < 2 ^ 64 = omega arith in
      let limit1 : IsWithinLimit cfg (s1.bytes_handled + wire_size (c ∷ bs)) =
        λ n h. limit n (omega arith) in
      let up1 =
        stored_session-IsUploading cfg e s content b k up (omega arith) (omega arith) (omega arith)
          (omega arith) (limit _ (omega arith)) sends shape.0 in
      let (s2, runs, r) =
        serve-blocks (c ∷ bs) s1 (suc k) (content ++ b) up1 shape.2 (omega arith) small1 limit1 in
      let step : on_event cfg e (datagram (data_packet (suc k) b)) s ≡ some (waits s1) = ground (
        arith,
        on_event-block cfg e s content b k up (omega arith) (omega arith) (omega arith)
            (omega arith) (limit _ (omega arith)) sends,
      ) in
      (
        s2,
        serve-waits cfg e _ (data_events (suc k) (c ∷ bs)) s s1 step ∙ runs,
        first_block s s2 b (c ∷ bs) k content r,
      )
