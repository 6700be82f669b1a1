-- ===== src/Request/Access.antt =====
-- Which files CMSG_WRQ opens.
use mathlib.Core.Logic.Or
use mathlib.Core.List.{Mem, mem-cons}
use tftp_server.Base.{
  ℕ, List, [], none, some, Bool, true, false, ◌≡◌, refl, ℤ, negsuc, arith, ◌∙◌, Bool-cases,
  Option-cases, ◌⊎◌, inl, inr, pos, eqb_ℤ, ap, ap₂, ◌∷◌, ◌==◌,
}
use tftp_server.Config.{Config}
use tftp_server.Text.{strcmp_eq}
use tftp_server.Session.{
  Operation, not_initialized, server_to_client, client_to_server, Env, Session, Status,
}
use tftp_server.Send.Ack.{smsg_ack_block}
use tftp_server.Options.{parse_options}
use tftp_server.Dispatch.Kept.{file_bytes}
use tftp_server.Request.{is_uploadable, new_window, start_upload, open_upload, cmsg_wrq}
use tftp_server.Request.Opened.{Asks, parse_options-file, open_request-reaches}

abbrev is_idle : Operation → Bool
is_idle not_initialized = true
is_idle client_to_server = false
is_idle server_to_client = false

-- strcmp finds two texts equal only if they are.
strcmp_eq-same : (s t : List ℕ) → strcmp_eq s t ≡ true → s ≡ t
unfolding strcmp_eq
strcmp_eq-same [] [] h = refl
strcmp_eq-same [] (d ∷ ds) h = absurd cc
strcmp_eq-same (c ∷ cs) [] h = absurd cc
strcmp_eq-same (c ∷ cs) (d ∷ ds) h = elim (Bool-cases (c == d)) [
  | inl same ↦
      let head : c ≡ d = ground (arith, same) in
      ap₂ (λ x xs. x ∷ xs) head (strcmp_eq-same cs ds (ground (arith, same)))
  | inr other ↦ absurd (ground (arith, other))
]

-- The search of the list of uploadable files finds a name only if it is on the list, in the same
-- letters.
is_uploadable-Mem :
    (name : List ℕ) (names : List (List ℕ)) → is_uploadable name names ≡ true → Mem name names
unfolding is_uploadable
is_uploadable-Mem name [] h = absurd cc
is_uploadable-Mem name (n ∷ ns) h = elim (Bool-cases (strcmp_eq name n)) [
  | inl same ↦ mem-cons.1 (Or.inl (strcmp_eq-same name n same))
  | inr other ↦ mem-cons.1 (Or.inr (is_uploadable-Mem name ns (ground (arith, other))))
]

eqb_ℤ-zero : (z : ℤ) → eqb_ℤ z (pos 0) ≡ true → z ≡ pos 0
eqb_ℤ-zero (pos n) h = ap pos (ground arith)
eqb_ℤ-zero (negsuc n) h = absurd (ground arith)

-- A file may be written under `name`: it is a member of the list UploadableFileNames, the server
-- writes files, and the system opens it.
abbrev pub MayWrite : Config → Env → List ℕ → Type 0
MayWrite cfg e name =
    Mem name cfg.uploadable_file_names
    × (cfg.no_file_write_on_server ≡ pos 0)
    × (e.open_write name ≡ true)

-- After a request in `s`, `s'` has no file open, or an empty one under the name that the request
-- asks for, where a file may be written under it.
abbrev pub IsAllowedUpload : Config → Env → ℕ → Session → Session → Type 0
IsAllowedUpload cfg e size s s' =
    (file_bytes s' ≡ none)
    ⊎ ((name : List ℕ) × Asks s size name × MayWrite cfg e name × (file_bytes s' ≡ some []))

start_upload-file :
    (cfg : Config) (e : Env) (size n : ℕ) (s s' : Session) (st : Status)
    → start_upload cfg e size n s ≡ some (s', st)
    → file_bytes s' ≡ file_bytes s
unfolding start_upload new_window smsg_ack_block
start_upload-file cfg e size n s s' st h = elim (Option-cases (parse_options cfg e size n s)) [
  | inl fault ↦ absurd (ground (arith, fault))
  | inr (s1, parsed) ↦
      let kept : file_bytes s1 ≡ file_bytes s = parse_options-file cfg e size n s s1 parsed in
      ground (arith, parsed, kept)
]

open_upload-IsAllowed :
    (cfg : Config) (e : Env) (size n : ℕ) (name : List ℕ) (s s' : Session) (st : Status)
    → s.file ≡ none
    → open_upload cfg e size name n s ≡ some (s', st)
    → (file_bytes s' ≡ none) ⊎ (MayWrite cfg e name × (file_bytes s' ≡ some []))
unfolding open_upload
open_upload-IsAllowed cfg e size n name s s' st closed h =
    elim (Bool-cases (is_uploadable name cfg.uploadable_file_names)) [
      | inr unlisted ↦ inl (ground (arith, unlisted, closed))
      | inl listed ↦ elim (Bool-cases (eqb_ℤ cfg.no_file_write_on_server (pos 0))) [
        | inr relayed ↦
            let unopened : file_bytes s ≡ none = ground (arith, closed) in
            inl
              (start_upload-file cfg e size n s s' st (ground (arith, listed, relayed)) ∙ unopened)
        | inl writes ↦ elim (Bool-cases (e.open_write name)) [
          | inr locked ↦ inl (ground (arith, listed, writes, locked, closed))
          | inl opened ↦
              let s1 : Session = record s { file = some (record { bytes = []; position = 0 }) } in
              inr (
                (
                  is_uploadable-Mem name cfg.uploadable_file_names listed,
                  eqb_ℤ-zero cfg.no_file_write_on_server writes,
                  opened,
                ),
                start_upload-file cfg e size n s1 s' st (ground (arith, listed, writes, opened)),
              )
        ]
      ]
    ]

-- CMSG_WRQ, in a session without an open file: if it leaves one open, then the name that the
-- packet asks for is a member of the list UploadableFileNames, in the same letters,
-- NoFileWriteOnServer is 0, the system opens a file of that name for writing, and the file is
-- empty.
pub cmsg_wrq-IsAllowed :
    (cfg : Config) (e : Env) (size : ℕ) (s s' : Session) (st : Status)
    → s.file ≡ none
    → cmsg_wrq cfg e size s ≡ some (s', st)
    → IsAllowedUpload cfg e size s s'
unfolding cmsg_wrq
cmsg_wrq-IsAllowed cfg e size s s' st closed h = elim (Bool-cases (is_idle s.selected_operation)) [
  | inr busy ↦ inl (ground (arith, busy))
  | inl idle ↦
      elim (open_request-reaches cfg e size (open_upload cfg e size) s s' st closed
        (ground (arith, idle))) [
          | inl none_open ↦ inl (ground (arith, none_open.0))
          | inr (name, n, s1, still_closed, kept, asked, runs) ↦
              elim (open_upload-IsAllowed cfg e size n name s1 s' st still_closed runs) [
                | inl unopened ↦ inl unopened
                | inr (allowed, empty) ↦ inr (name, asked, allowed, empty)
              ]
        ]
]
