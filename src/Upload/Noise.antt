-- ===== src/Upload/Noise.antt =====
-- An upload over a network that duplicates and delays packets: CMSG__DATA and the timeouts of
-- ThreadDirectComm, with blocks that have been stored before and silences in between.
use tftp_server.Base.{
  ℕ, suc, ◌+◌, ◌<◌, ◌≤◌, ◌^◌, List, [], ◌∷◌, ◌++◌, some, false, pos, length, take, drop, ◌≡◌, refl,
  arith, take-append, append-nil, append_assoc, leb_ℤ, length-append, length-drop, of_be16-be16,
  sym, subst, ◌∙◌, concat, Bool-cases, ◌⊎◌, inl, inr,
}
use tftp_server.Config.{Config}
use tftp_server.Session.{Env, Session}
use tftp_server.Send.Ack.{ack_packet}
use tftp_server.Send.Data.{data_packet, over_limit}
use tftp_server.Receive.{take_data, cmsg_data}
use tftp_server.Dispatch.{dispatch, parse_packet}
use tftp_server.Thread.{
  Event, datagram, silence, receive, forward_packet, check_end, serve_packet, on_event, on_silence,
  resend, serve, waits, ends, time_passed, milliseconds,
}
use tftp_server.Thread.Serve.{on_event-datagram, serve-waits, serve-ends}
use tftp_server.Thread.Silence.{resend-free, after_ack}
use tftp_server.Upload.{IsUploading, AllSent, IsWithinLimit}
use tftp_server.Upload.Transfer.{IsUploaded, last_block}
use tftp_server.Upload.Block.{stored_session, stored_session-IsUploading, on_event-block}

-- The packets of a network that repeats the blocks it has delivered, and loses others for a time:
-- block `k + 1` is due, `retries` timeouts have passed since the last block, and fewer than `max`
-- follow one another.
pub data IsNoisy (size max : ℕ) : ℕ → ℕ → List (List ℕ) → List Event → Type 0 where
  last :
      {k retries : ℕ} (b : List ℕ) (rest : List Event)
      → 0 < length b
      → length b < size
      → IsNoisy size max k retries (b ∷ []) (datagram (data_packet (suc k) b) ∷ rest)
  block :
      {k retries : ℕ} (b : List ℕ) (bs : List (List ℕ)) (evs : List Event)
      → 0 < length b
      → length b ≡ size
      → IsNoisy size max (suc k) 0 bs evs
      → IsNoisy size max k retries (b ∷ bs) (datagram (data_packet (suc k) b) ∷ evs)
  duplicate :
      {k retries : ℕ} {bs : List (List ℕ)} (nr : ℕ) (b : List ℕ) (evs : List Event)
      → nr ≤ k
      → length b ≤ size
      → IsNoisy size max k retries bs evs
      → IsNoisy size max k retries bs (datagram (data_packet nr b) ∷ evs)
  timeout :
      {k retries : ℕ} {bs : List (List ℕ)} {evs : List Event}
      → suc retries < max
      → IsNoisy size max k (suc retries) bs evs
      → IsNoisy size max k retries bs (silence ∷ evs)

-- The ACKs of the blocks from `k + 1` up to `n` in their order, each of them sent once or more.
pub data Acknowledges (n : ℕ) : ℕ → List (List ℕ) → Type 0 where
  complete : Acknowledges n n []
  next :
      {k : ℕ} {acks : List (List ℕ)}
      → Acknowledges n (suc k) acks
      → Acknowledges n k (ack_packet (suc k) ∷ acks)
  again :
      {k : ℕ} {acks : List (List ℕ)}
      → Acknowledges n k acks
      → Acknowledges n k (ack_packet k ∷ acks)

-- The bytes of the packets.
abbrev pub events_size : List Event → ℕ
events_size [] = 0
events_size (datagram d ∷ evs) = length d + events_size evs
events_size (silence ∷ evs) = events_size evs

module _ (cfg : Config) (e : Env) (s : Session) (content : List ℕ) (k : ℕ)
    (up : IsUploading s k content) where
  module _ (nr : ℕ) (b : List ℕ) (old : nr ≤ k) (room : k < 2 ^ 16) (fits : length b ≤ s.block_size)
      (small : s.bytes_handled + length b + 4 < 2 ^ 64)
      (limit : over_limit cfg (s.bytes_handled + (length b + 4)) ≡ false) where
    abbrev refused_session : Session
    refused_session = record (receive (data_packet nr b) s) {
      bytes_handled = s.bytes_handled + (length b + 4);
      forwarded = s.forwarded ++ data_packet nr b ∷ [];
    }

    -- A block that has been stored is not stored again, and not acknowledged.
    on_event-duplicate :
        on_event cfg e (datagram (data_packet nr b)) s ≡ some (waits refused_session)
    unfolding serve_packet parse_packet dispatch cmsg_data take_data forward_packet check_end
        receive
    on_event-duplicate =
        let read : take (length b + 4)
              (data_packet nr b ++ drop (length (data_packet nr b)) s.buffer)
            ≡ data_packet nr b =
          take-append _ _ _ (omega arith) in
        on_event-datagram cfg e (data_packet nr b) s (omega arith) (omega arith)
        ∙ ground (
          arith,
          read,
          up,
          of_be16-be16 nr,
          length-append b (drop (length (data_packet nr b)) s.buffer),
          length-drop (length (data_packet nr b)) s.buffer,
        )

    refused_session-IsUploading : IsUploading refused_session k content
    unfolding receive
    refused_session-IsUploading = ground (
      arith,
      up,
      length-append b (drop (length (data_packet nr b)) s.buffer),
      length-drop (length (data_packet nr b)) s.buffer,
    )

-- A timeout of which there are few enough: the session waits on, and sends its last ACK again if
-- the timeout is late.
record IsWaiting (s s1 : Session) (k retries : ℕ) (content : List ℕ) : Type 0 where
  uploading : IsUploading s1 k content
  few : s1.window_retry_count ≤ suc retries
  same_bytes : s1.bytes_handled ≡ s.bytes_handled
  same_size : s1.block_size ≡ s.block_size
  acks : List (List ℕ)
  sent : s1.sent ≡ s.sent ++ acks
  repeated : (acks ≡ []) ⊎ (acks ≡ ack_packet k ∷ [])

module _ (cfg : Config) (e : Env) (sends : AllSent e) (max : ℕ)
    (retry : cfg.retry_resend_packet_max ≡ pos max) where
  on_silence-waits :
      (s : Session) (content : List ℕ) (k retries : ℕ)
      → IsUploading s k content
      → k < 2 ^ 16
      → s.window_retry_count ≤ retries
      → suc retries < max
      → (s1 : Session) × (on_silence cfg e s ≡ some (waits s1)) × IsWaiting s s1 k retries content
  unfolding on_silence resend check_end
  on_silence-waits s content k retries up room few more =
      let s2 : Session = record s {
        tick_calls = s.tick_calls + 1;
        window_retry_count = s.window_retry_count + 1;
      } in
      elim (Bool-cases (
        leb_ℤ (milliseconds s.packet_timeout)
          (time_passed (e.tick s.tick_calls) s.last_activity_stamp))) [
            | inl late ↦
                let free =
                  resend-free cfg e sends s2 1 up.one_block up.window_free (ground (arith, up)) in
                (
                  after_ack cfg e sends s,
                  ground (arith, up, free),
                  record {
                    uploading = ground (arith, up);
                    few = omega (arith, few);
                    same_bytes = refl;
                    same_size = refl;
                    acks = ack_packet k ∷ [];
                    sent = ground (arith, up, sends s.send_calls (ack_packet k));
                    repeated = inr refl;
                  },
                )
            | inr early ↦ (
              record s { tick_calls = s.tick_calls + 1 },
              ground (arith, up),
              record {
                uploading = ground (arith, up);
                few = omega (arith, few);
                same_bytes = refl;
                same_size = refl;
                acks = [];
                sent = simp append-nil;
                repeated = inl refl;
              },
            )
          ]

-- The packets sent before come first.
IsUploaded-later :
    (s s1 s' : Session) (content : List ℕ) (before acks : List (List ℕ))
    → s1.sent ≡ s.sent ++ before
    → IsUploaded s1 s' content acks
    → IsUploaded s s' content (before ++ acks)
IsUploaded-later s s1 s' content before acks sent r = record {
  whole = r.whole;
  acknowledged = r.acknowledged ∙ rw sent (simp append_assoc);
  no_error = r.no_error;
  done = r.done;
}

Acknowledges-end : (n k : ℕ) → k ≡ n → Acknowledges n k []
Acknowledges-end n k h = subst (λ m. Acknowledges n m []) (sym h) complete

-- A repeated ACK, or none, before the others.
Acknowledges-again :
    (n k : ℕ) (before acks : List (List ℕ))
    → (before ≡ []) ⊎ (before ≡ ack_packet k ∷ [])
    → Acknowledges n k acks
    → Acknowledges n k (before ++ acks)
Acknowledges-again n k before acks (inl none_sent) h = rw none_sent h
Acknowledges-again n k before acks (inr one_sent) h = rw one_sent (again h)

module _ (cfg : Config) (e : Env) (sends : AllSent e) (max : ℕ)
    (retry : cfg.retry_resend_packet_max ≡ pos max) (total : ℕ) (counted : total < 2 ^ 64)
    (limit : IsWithinLimit cfg total) (size n : ℕ) (numbers : n < 2 ^ 16) where
  -- An upload with a window of one block that waits for block `k + 1`, on a network that repeats
  -- blocks it has delivered, and where fewer timeouts follow one another than RetryResendPacketMax: when the blocks have arrived
  -- in their order, the last one shorter than the others and not empty, the session has ended
  -- without an error, the file holds each block once, and the ACKs sent are those of the blocks in
  -- their order, each once or more. All sends succeed, the blocks' numbers stay below 2 ^ 16 and
  -- the bytes received within the limit.
  pub serve-noisy :
      {k retries : ℕ} {bs : List (List ℕ)} {evs : List Event}
      → IsNoisy size max k retries bs evs
      → (s : Session) (content : List ℕ) → IsUploading s k content
      → s.block_size ≡ size
      → s.window_retry_count ≤ retries
      → k + length bs ≡ n
      → s.bytes_handled + events_size evs ≤ total
      → (s' : Session) × (acks : List (List ℕ)) × (serve cfg e evs (waits s) ≡ some (ends s'))
        × IsUploaded s s' (content ++ concat bs) acks
        × Acknowledges n k acks
  unfolding receive
  serve-noisy {k} {retries} (last b rest nonempty short) s content up fits few count bytes =
      let step : on_event cfg e (datagram (data_packet (suc k) b)) s
          ≡ some (ends (stored_session e s content b k)) =
        ground (
          arith,
          on_event-block cfg e s content b k up (omega arith) (omega arith) (omega arith)
              (omega arith) (limit _ (omega arith)) sends,
        ) in
      (
        stored_session e s content b k,
        ack_packet (suc k) ∷ [],
        serve-ends cfg e _ rest s _ step,
        last_block cfg e sends s b k content up (omega arith),
        next (Acknowledges-end n (suc k) (omega arith)),
      )
  serve-noisy {k} {retries} (block b bs evs nonempty full later) s content up fits few count bytes =
      let s1 = stored_session e s content b k in
      let step : on_event cfg e (datagram (data_packet (suc k) b)) s ≡ some (waits s1) = ground (
        arith,
        on_event-block cfg e s content b k up (omega arith) (omega arith) (omega arith)
            (omega arith) (limit _ (omega arith)) sends,
      ) in
      let up1 =
        stored_session-IsUploading cfg e s content b k up (omega arith) (omega arith) (omega arith)
          (omega arith) (limit _ (omega arith)) sends (full ∙ sym fits) in
      let (s', acks, runs, r, a) =
        serve-noisy later s1 (content ++ b) up1 fits (omega arith) (omega arith) (omega arith) in
      (
        s',
        ack_packet (suc k) ∷ acks,
        serve-waits cfg e _ evs s s1 step ∙ runs,
        IsUploaded-later s s1 s' (content ++ concat (b ∷ bs)) (ack_packet (suc k) ∷ []) acks
            (rw (sends s.send_calls (ack_packet (suc k))))
            (subst (λ c. IsUploaded s1 s' c acks) (append_assoc content b (concat bs)) r),
        next a,
      )
  serve-noisy {k} {retries} {bs} (duplicate nr b evs old small later) s content up fits few count
        bytes =
      let within : over_limit cfg (s.bytes_handled + (length b + 4)) ≡ false =
        limit _ (omega arith) in
      let s1 =
        refused_session cfg e s content k up nr b old (omega arith) (omega arith) (omega arith)
          within in
      let step =
        on_event-duplicate cfg e s content k up nr b old (omega arith) (omega arith) (omega arith)
          within in
      let up1 =
        refused_session-IsUploading cfg e s content k up nr b old (omega arith) (omega arith)
          (omega arith) within in
      let (s', acks, runs, r, a) = serve-noisy later s1 content up1 fits few count (omega arith) in
      (
        s',
        acks,
        serve-waits cfg e _ evs s s1 step ∙ runs,
        IsUploaded-later s s1 s' (content ++ concat bs) [] acks (simp append-nil) r,
        a,
      )
  serve-noisy {k} {retries} {bs} {evs} (timeout more later) s content up fits few count bytes =
      let (s1, step, w) =
        on_silence-waits cfg e sends max retry s content k retries up (omega arith) few more in
      let (s', acks, runs, r, a) =
        serve-noisy later s1 content w.uploading (w.same_size ∙ fits) w.few count
          (omega (arith, w.same_bytes)) in
      (
        s',
        w.acks ++ acks,
        serve-waits cfg e silence _ s s1 (unfold on_event in step) ∙ runs,
        IsUploaded-later s s1 s' (content ++ concat bs) w.acks acks w.sent r,
        Acknowledges-again n k w.acks acks w.repeated a,
      )
