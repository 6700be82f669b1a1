-- ===== src/Receive/Errors.antt =====
-- An ERROR packet on its way from SMSG_Error to CMSG_ERROR.
use tftp_server.Base.{
  ℕ, ◌<◌, ◌^◌, List, [], ◌∷◌, ◌++◌, some, true, ◌==◌, if◌then◌else◌, ◌≡◌, arith, length, drop,
  length-append, append_assoc, of_be16-be16, Bool-cases, inl, inr,
}
use tftp_server.Session.{Env, Session, accepted, err_file_not_found, err_disk_full}
use tftp_server.Text.Laws.{IsText, c_string-append}
use tftp_server.Send.Error.{error_message, error_sent, error_packet, smsg_error}
use tftp_server.Receive.{cmsg_error}
use tftp_server.Thread.{receive}

message-IsText : (error : ℕ) → IsText (error_message error)
unfolding error_message
message-IsText error = elim (Bool-cases (error == err_file_not_found)) [
  | inl missing ↦ rw missing (omega arith)
  | inr a ↦ elim (Bool-cases (error == err_disk_full)) [
    | inl full ↦ rw (a, full) (omega arith)
    | inr b ↦ rw (a, b) (omega arith)
  ]
]

cmsg_error-error_packet :
    (nr : ℕ) (message : List ℕ) (s : Session)
    → nr < 2 ^ 16
    → IsText message
    → cmsg_error (length (error_packet nr message)) (receive (error_packet nr message) s)
      ≡ some (record (receive (error_packet nr message) s) { error = nr }, accepted)
unfolding cmsg_error receive
cmsg_error-error_packet nr message s small text = ground (
  arith,
  of_be16-be16 nr,
  length-append message (0 ∷ []),
  append_assoc message (0 ∷ []) (drop (length (error_packet nr message)) s.buffer),
  c_string-append message (drop (length (error_packet nr message)) s.buffer) text,
)

-- The packet by which SMSG_Error reports a session's error is read by CMSG_ERROR as the code sent:
-- the error itself, or UNDEFINED for DISK_FULL. The error is a number below 2 ^ 16, and the packet
-- goes out whole.
pub cmsg_error-smsg_error :
    (e : Env) (s r : Session)
    → s.error < 2 ^ 16
    → e.send s.send_calls (error_packet (error_sent s.error) (error_message s.error)) ≡ true
    → (p : List ℕ) × ((smsg_error e s).sent ≡ s.sent ++ p ∷ [])
      × (cmsg_error (length p) (receive p r)
          ≡ some (
            record (receive p r) { error = (if s.error == err_disk_full then 0 else s.error) },
            accepted,
          ))
unfolding smsg_error error_sent
cmsg_error-smsg_error e s r small goes =
    let nr : error_sent s.error < 2 ^ 16 = ground arith in
    (
      error_packet (error_sent s.error) (error_message s.error),
      rw goes,
      cmsg_error-error_packet (error_sent s.error) (error_message s.error) r nr
          (message-IsText s.error),
    )
