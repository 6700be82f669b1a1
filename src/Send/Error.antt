-- ===== src/Send/Error.antt =====
-- SMSG_Error of src/TFTP.cpp.
use Prim.Native.Char.{code}
use Prim.Native.String.{String}
use tftp_server.Base.{ℕ, List, [], ◌∷◌, ◌++◌, ◌==◌, if◌then◌else◌, be16}
use tftp_server.Session.{
  Env, Session, touch, send_packet, err_undefined, err_file_not_found, err_disk_full,
}

-- The bytes of a text of the source, which is ASCII.
abbrev pub codes : String → List ℕ
codes String.[] = []
codes (String.◌∷◌ c s) = code c ∷ codes s

-- err_msg.
unfoldable pub error_message : ℕ → List ℕ
error_message error =
    if error == err_file_not_found
    then codes "ERROR: File name and/or directory could not be resolved"
    else if error == err_disk_full
    then codes "ERROR: Uploading files is not supported on this TFTP Server"
    else codes "ERROR"

-- The code sent: DISK_FULL becomes UNDEFINED.
unfoldable pub error_sent : ℕ → ℕ
error_sent error = if error == err_disk_full then err_undefined else error

-- The packet: the opcode OP_ERROR, the code, the message with its terminator.
abbrev pub error_packet : ℕ → List ℕ → List ℕ
error_packet nr message = be16 5 ++ be16 nr ++ message ++ 0 ∷ []

unfoldable pub smsg_error : Env → Session → Session
unfolding error_message error_sent
smsg_error e s =
    let s1 = record s { error = error_sent s.error } in
    touch e (send_packet e (error_packet s1.error (error_message s.error)) s1)
