-- ===== src/Send/Oack.antt =====
-- SMSG_OACK of src/TFTP.cpp, and the buffer OackContent that ParseOptions fills for it.
use tftp_server.Base.{
  ℕ, ◌+◌, ◌-◌, List, [], ◌∷◌, ◌++◌, Option, none, some, ltb, if◌then◌else◌, be16, length, take,
}
use tftp_server.Session.{Env, Session, send_packet}

-- OackBytesAdded, and the bytes of OackContent from index 2 on.
pub record Oack : Type 0 where
  pub bytes_added : ℕ
  pub content : List ℕ

abbrev pub empty_oack : Oack
empty_oack = record { bytes_added = 2; content = [] }

-- sizeof(OackContent), TFTP_PACKET_FULL_SIZE_SAFE.
abbrev pub oack_capacity : ℕ
oack_capacity = 518

-- snprintf(&OackContent[OackBytesAdded], sizeof(OackContent) - OackBytesAdded, …), with the text
-- that the format gives. The text is cut one byte before the end of the buffer, but the whole
-- length is added. Behind the end the size wraps around, and the call writes outside the buffer.
unfoldable pub put_text : List ℕ → Oack → Option Oack
put_text text o =
    let room = oack_capacity - o.bytes_added in
    let added = o.bytes_added + length text in
    if ltb oack_capacity o.bytes_added
    then none
    else if ltb (length text) room
    then some (record { bytes_added = added; content = o.content ++ text })
    else if ltb 0 room
    then some
        (record { bytes_added = added; content = o.content ++ take (room - 1) text ++ 0 ∷ [] })
    else some (record { bytes_added = added; content = o.content })

-- The opcode OP_OACK is stored in front. A size past the end reads outside the buffer.
unfoldable pub smsg_oack : Env → Oack → Session → Option Session
smsg_oack e o s =
    if ltb oack_capacity o.bytes_added then none else some (send_packet e (be16 6 ++ o.content) s)
