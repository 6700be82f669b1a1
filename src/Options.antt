-- ===== src/Options.antt =====
-- ParseOptions of src/TFTP.cpp: the options of RFC 2347 behind the file name and the mode.
pub mod Encoded
pub mod Fuel
pub mod Induction
pub mod Bounds
use tftp_server.Base.{
  ℕ, zero, suc, ◌+◌, ◌-◌, ◌%◌, ◌^◌, List, [], ◌∷◌, ◌++◌, Option, none, some, ◌&&◌, ltb, ◌==◌,
  if◌then◌else◌, ◌>>=◌, ℤ, pos, negsuc, pos_part, eqb_ℤ, ltb_ℤ, leb_ℤ, length, take,
}
use tftp_server.Config.{Config}
use tftp_server.Text.{c_string_at, stricmp_eq, atoi, print_int}
use tftp_server.Session.{
  Env, Session, Status, accepted, refused, fresh, header_size, packet_safety_pad,
  err_illegal_operation,
}
use tftp_server.Send.Error.{codes}
use tftp_server.Send.Oack.{Oack, empty_oack, put_text, smsg_oack}

-- The state of the loop. `packet` is what the argument of that name points to: the session's
-- buffer, until realloc frees that block and leaves the pointer dangling.
pub record Options : Type 0 where
  pub session : Session
  pub packet : List ℕ
  pub oack : Oack

-- `%s%c%d` of the option's name, 0, and a number.
unfoldable pub answer : List ℕ → ℤ → Options → Option Options
answer name value o = do
  oack ← put_text (name ++ 0 ∷ print_int value) o.oack
  some (record o { oack = oack })

-- ftell() as an `int`.
abbrev pub int_of_long : ℕ → ℤ
int_of_long n = let w = n % 2 ^ 32 in if ltb w (2 ^ 31) then pos w else negsuc (2 ^ 32 - w - 1)

-- A proposed size of 0 asks for the size of the open file, which is rewound.
unfoldable pub tsize_option : List ℕ → List ℕ → Options → Option Options
unfolding answer
tsize_option name value o =
    if eqb_ℤ (atoi value) (pos 0)
    then elim o.session.file [
      | none ↦ answer name (atoi value) o
      | some f ↦
          answer name (int_of_long (length f.bytes))
            (record o { session = record o.session { file = some (record f { position = 0 }) } })
    ]
    else answer name (atoi value) o

-- The clamp of the proposed timeout to the configured range.
unfoldable pub clamp_timeout : Config → ℤ → ℤ
clamp_timeout cfg v =
    let raised = (if ltb_ℤ v cfg.client_timeout_sec_min then cfg.client_timeout_sec_min else v) in
    if ltb_ℤ cfg.client_timeout_sec_max raised then cfg.client_timeout_sec_max else raised

unfoldable pub timeout_option : Config → List ℕ → List ℕ → Options → Option Options
unfolding answer clamp_timeout
timeout_option cfg name value o =
    let v = atoi value in
    let t = clamp_timeout cfg v in
    if leb_ℤ (pos 1) v && leb_ℤ v (pos 255)
    then answer name t (record o { session = record o.session { packet_timeout = t } })
    else some o

-- realloc(LastRecvPacket, n): the bytes up to the smaller size are kept.
unfoldable pub realloc : Env → ℕ → List ℕ → List ℕ
unfolding fresh
realloc e n block = take n (block ++ fresh e (length block) (n - length block))

unfoldable pub resize_buffer : Env → ℕ → Options → Options
unfolding realloc
resize_buffer e size o =
    let n = size + header_size + packet_safety_pad in
    let block = realloc e n o.session.buffer in
    record {
      session = record o.session { block_size = size; buffer = block };
      packet = (if e.realloc_moves n then [] else block);
      oack = o.oack;
    }

unfoldable pub blksize_option : Env → List ℕ → List ℕ → Options → Option Options
unfolding answer resize_buffer
blksize_option e name value o =
    let v = atoi value in
    if leb_ℤ (pos 8) v && leb_ℤ v (pos 65464)
    then answer name v (resize_buffer e (pos_part v) o)
    else some o

unfoldable pub windowsize_option : Config → List ℕ → List ℕ → Options → Option Options
unfolding answer
windowsize_option cfg name value o =
    let v = atoi value in
    let w = (if ltb_ℤ cfg.window_size_max v then cfg.window_size_max else v) in
    if leb_ℤ (pos 1) v && leb_ℤ v (pos 65535) && leb_ℤ cfg.window_size_min v
    then answer name w (record o { session = record o.session { window_size = w } })
    else some o

-- The chain of tests on the option's name. The option "multicast" changes nothing.
unfoldable pub apply_option : Config → Env → List ℕ → List ℕ → Options → Option Options
unfolding tsize_option timeout_option blksize_option windowsize_option
apply_option cfg e name value o =
    if eqb_ℤ cfg.allow_tsize_option (pos 1) && stricmp_eq (codes "tsize") name
    then tsize_option name value o
    else if stricmp_eq (codes "timeout") name
    then timeout_option cfg name value o
    else if stricmp_eq (codes "blksize") name
    then blksize_option e name value o
    else if stricmp_eq (codes "windowsize") name
    then windowsize_option cfg name value o
    else some o

-- How the loop ends: at the end of the packet, or at a name or value that it cuts off.
pub record Parsed : Type 0 where
  pub options : Options
  pub bytes_read : ℕ
  pub status : Status

abbrev pub cut_off : Options → ℕ → Option Parsed
cut_off o n = some (record {
  options = record o { session = record o.session { error = err_illegal_operation } };
  bytes_read = n;
  status = refused;
})

-- One round: a name and a value, unless the packet ends before the value. `go` is the next round.
unfoldable pub parse_option :
    Config → Env → ℕ → (ℕ → Options → Option Parsed) → ℕ → Options → Option Parsed
unfolding apply_option
parse_option cfg e size go n o = if ltb size (n + 1) then cut_off o n else (do
  name ← c_string_at o.packet n
  let n1 = n + length name + 1
  if ltb size (n1 + 1) then cut_off o n1 else (do
    value ← c_string_at o.packet n1
    o1 ← apply_option cfg e name value o
    go (n1 + length value + 1) o1))

-- `while (bytesRead < size)`; each round reads two bytes at least.
unfoldable pub parse_loop : Config → Env → ℕ → ℕ → ℕ → Options → Option Parsed
unfolding parse_option
parse_loop cfg e size zero n o = some (record { options = o; bytes_read = n; status = accepted })
parse_loop cfg e size (suc f) n o =
    let round = parse_option cfg e size (parse_loop cfg e size f) n o in
    if ltb n size then round else some (record { options = o; bytes_read = n; status = accepted })

-- After a cut-off option no answer is sent, nor where no option was accepted.
unfoldable pub finish_options : Env → Parsed → Option Session
unfolding smsg_oack
finish_options e p = elim p.status [
  | refused ↦ some p.options.session
  | accepted ↦
      if p.options.oack.bytes_added == 2
      then some p.options.session
      else smsg_oack e p.options.oack p.options.session
]

unfoldable pub parse_options : Config → Env → ℕ → ℕ → Session → Option Session
unfolding parse_loop finish_options
parse_options cfg e size n s = do
  p ← parse_loop cfg e size size n (record { session = s; packet = s.buffer; oack = empty_oack })
  finish_options e p
