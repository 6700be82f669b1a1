-- ===== src/Exchange.antt =====
-- An upload and a later download of the same file: two sessions of ThreadDirectComm, which share
-- the file system.
use native.Mathlib.Nat.{suc-mul}
use tftp_server.Base.{
  ℕ, suc, ◌+◌, ◌*◌, ◌<◌, ◌≤◌, ◌^◌, List, [], ◌∷◌, ◌++◌, some, true, ◌>>=◌, drop-append,
  if◌then◌else◌, concat, wire_size, pos, length, take, ◌≡◌, refl, arith, length-append, ap, ap₂,
  sym, ◌∙◌, take-append, append-nil, take_all,
}
use tftp_server.Config.{Config}
use tftp_server.Text.{strcmp_eq}
use tftp_server.Text.Laws.{IsText}
use tftp_server.Session.{Env, Session, data_block_size}
use tftp_server.Socket.Frame.{HasSockets}
use tftp_server.Thread.{ends, receive, thread_direct_comm}
use tftp_server.Request.{is_downloadable}
use tftp_server.Request.Plain.{request_packet}
use tftp_server.Request.New.{IsNew}
use tftp_server.Upload.{AllSent, IsWithinLimit, AreBlocks, data_events}
use tftp_server.Upload.Start.{IsUploadOpen, upload_lem}
use tftp_server.Download.{blocks, data_packets, ack_events}
use tftp_server.Download.Start.{download_lem}

-- The file system after a session has closed the file that it had opened under a name: fopen reads
-- what was written.
abbrev pub saved : List ℕ → Session → Env → Env
saved file_name s e = record e {
  open_read = λ name.
      let old = e.open_read name in
      if strcmp_eq name file_name then (do f ← s.file; some f.bytes) else old;
}

strcmp_eq-same : (t : List ℕ) → strcmp_eq t t ≡ true
unfolding strcmp_eq
strcmp_eq-same [] = refl
strcmp_eq-same (c ∷ t) = ground (arith, strcmp_eq-same t)

-- How long a file is of full blocks and a last one that is shorter.
length-blocks :
    (size : ℕ) (b : List ℕ) (bs : List (List ℕ))
    → AreBlocks size (b ∷ bs)
    → (length bs * size ≤ length (concat (b ∷ bs)))
      × (length (concat (b ∷ bs)) < length bs * size + size)
length-blocks size b [] h = (omega arith, omega (arith, h.1, length-append b []))
length-blocks size b (c ∷ bs) h =
    let (full, positive, rest) = h in
    let (low, high) = length-blocks size c bs rest in
    let whole = length-append b (concat (c ∷ bs)) in
    let more = suc-mul (length bs) size in
    (omega (arith, whole, low, full, more), omega (arith, whole, high, full, more))

-- Such a file is cut into the same blocks again.
blocks-concat :
    (size : ℕ) (b : List ℕ) (bs : List (List ℕ))
    → AreBlocks size (b ∷ bs)
    → blocks (suc (length bs)) size (concat (b ∷ bs)) ≡ b ∷ bs
blocks-concat size b [] h =
    ap (λ t. t ∷ []) (ap (take size) (append-nil b) ∙ take_all size b (omega (arith, h.1)))
blocks-concat size b (c ∷ bs) h =
    let (full, positive, rest) = h in
    let now = take-append size b (concat (c ∷ bs)) (sym full) in
    let behind = drop-append size b (concat (c ∷ bs)) (sym full) in
    ap₂ (λ t ts. t ∷ ts) now
      (ap (blocks (suc (length bs)) size) behind ∙ blocks-concat size c bs rest)

length-concat_le : (bs : List (List ℕ)) → length (concat bs) ≤ wire_size bs
length-concat_le [] = omega arith
length-concat_le (b ∷ bs) = omega (arith, length-append b (concat bs), length-concat_le bs)

-- A new session that gets what it asks the system for.
pub record IsServed (e : Env) (s : Session) : Type 0 where
  pub sends : AllSent e
  pub memory : (n : ℕ) → e.malloc n ≡ true
  pub sockets : HasSockets e
  pub new : IsNew s

module _ (cfg : Config) (m : ℕ) (range : cfg.comm_port_end ≡ pos (suc m))
    (file_name mode mode' : List ℕ) (h : IsText file_name) (h1 : IsText mode) (h2 : IsText mode')
    (fits : length file_name + length mode ≤ data_block_size)
    (fits' : length file_name + length mode' ≤ data_block_size) (e e' : Env) (s d : Session)
    (up : IsServed e s) (down : IsServed e' d) (opens : IsUploadOpen cfg e file_name)
    (allowed : is_downloadable file_name cfg.downloadable_file_names ≡ true) where
  -- A client uploads a file to a name that may be stored and read, as full blocks and a last one
  -- that is shorter and not empty, fewer than 2 ^ 16 - 1 of them and, headers included, within the
  -- limit on bytes; once its session has ended, another session, which may have other numbers of sockets and
  -- another clock, is asked for the name, and each of its blocks is acknowledged. Where the calls of
  -- the system succeed and names and modes fit a block, and the ports end above 0, both threads end, and the second one has
  -- sent exactly the blocks that the first one was sent, under the same numbers.
  pub download-upload :
      (parts : List (List ℕ))
      → AreBlocks data_block_size parts
      → length parts + 1 < 2 ^ 16
      → wire_size parts < 2 ^ 64
      → IsWithinLimit cfg (wire_size parts)
      → (s' d' : Session) × (thread_direct_comm cfg e
            (length (request_packet 2 file_name mode))
            (data_events 0 parts)
            (receive (request_packet 2 file_name mode) s)
          ≡ some (ends s'))
        × (thread_direct_comm cfg
              (saved file_name s' e')
              (length (request_packet 1 file_name mode'))
              (ack_events 0 (length parts))
              (receive (request_packet 1 file_name mode') d)
            ≡ some (ends d'))
        × (d'.sent ≡ d.sent ++ data_packets 0 parts)
        × (d'.transfer_done ≡ true)
  download-upload [] shape room small limit = absurd shape
  download-upload (b ∷ bs) shape room small limit =
      let (s', stored, r) =
        upload_lem cfg e up.sends up.sockets m range s up.new file_name mode h h1 fits opens
          (b ∷ bs) shape (omega arith) small limit in
      let content = concat (b ∷ bs) in
      let opened : (saved file_name s' e').open_read file_name ≡ some content =
        rw (strcmp_eq-same file_name, r.whole) refl in
      let (low, high) = length-blocks data_block_size b bs shape in
      let (d', read, q, _) =
        download_lem cfg (saved file_name s' e') down.sends down.memory
          (record {
            number = down.sockets.number;
            sockets = down.sockets.sockets;
            binds = down.sockets.binds;
            connects = down.sockets.connects;
          })
          m range d down.new file_name mode' content h h2 fits' allowed opened
          (λ n le. limit n (omega (arith, length-concat_le (b ∷ bs)))) (length bs) low high
          (omega arith) in
      (
        s',
        d',
        stored,
        read,
        q.delivered
            ∙ ap (λ t. d.sent ++ data_packets 0 t) (blocks-concat data_block_size b bs shape),
        q.done,
      )
