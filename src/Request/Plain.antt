-- ===== src/Request/Plain.antt =====
-- Requests that name a file and a mode, and ask for no option.
use tftp_server.Base.{
  ℕ, zero, suc, ◌+◌, ◌≤◌, List, [], ◌∷◌, ◌++◌, some, length, drop, ◌≡◌, refl, arith, append_assoc,
  length-append, ap, ◌∙◌, be16, drop-append,
}
use tftp_server.Config.{Config}
use tftp_server.Text.{c_string_at}
use tftp_server.Text.Laws.{IsText, c_string-append}
use tftp_server.Session.{Env, Session}
use tftp_server.Options.{parse_options}
use tftp_server.Request.{read_names, names}

-- A request's packet: the opcode, the file's name, the mode.
abbrev pub request_packet : ℕ → List ℕ → List ℕ → List ℕ
request_packet op file_name mode = be16 op ++ (file_name ++ 0 ∷ (mode ++ 0 ∷ []))

pub length-request_packet :
    (op : ℕ) (file_name mode : List ℕ)
    → length (request_packet op file_name mode) ≡ length file_name + length mode + 4
length-request_packet op file_name mode =
    omega (arith, length-append file_name (0 ∷ (mode ++ 0 ∷ [])), length-append mode (0 ∷ []))

-- Behind the packet's end no option is read.
pub parse_options-end :
    (cfg : Config) (e : Env) (size n : ℕ) (s : Session)
    → size ≤ n
    → parse_options cfg e size n s ≡ some s
unfolding parse_options
parse_options-end cfg e zero n s h = refl
parse_options-end cfg e (suc f) n s h = ground arith

module _ (op : ℕ) (file_name mode rest : List ℕ) (h1 : IsText file_name) (h2 : IsText mode) where
  first_string : c_string_at (request_packet op file_name mode ++ rest) 2 ≡ some file_name
  first_string =
      rw (append_assoc file_name (0 ∷ (mode ++ 0 ∷ [])) rest)
        (c_string-append file_name ((mode ++ 0 ∷ []) ++ rest) h1)

  second_string :
      c_string_at (request_packet op file_name mode ++ rest) (2 + length file_name + 1) ≡ some mode
  second_string =
      let behind : drop (2 + length file_name + 1) (request_packet op file_name mode ++ rest)
          ≡ mode ++ 0 ∷ rest =
        ap (drop (2 + length file_name + 1)) (simp append_assoc)
        ∙ drop-append (2 + length file_name + 1) (be16 op ++ (file_name ++ 0 ∷ []))
            (mode ++ 0 ∷ rest) (omega (arith, length-append file_name (0 ∷ []))) in
      rw behind (c_string-append mode rest h2)

  pub read_names-request :
      (size : ℕ)
      → length (request_packet op file_name mode) ≡ size
      → read_names size (request_packet op file_name mode ++ rest) ≡ some (names file_name size)
  unfolding read_names
  read_names-request size e =
      let n : 2 + length file_name + 1 + length mode + 1 ≡ size =
        omega (arith, length-request_packet op file_name mode, e) in
      ground (arith, first_string, second_string, n)

  -- Behind the mode there may be options.
  pub read_names-options :
      (size : ℕ)
      → length (request_packet op file_name mode) ≤ size
      → read_names size (request_packet op file_name mode ++ rest)
        ≡ some (names file_name (length (request_packet op file_name mode)))
  unfolding read_names
  read_names-options size enough =
      let n : 2 + length file_name + 1 + length mode + 1
          ≡ length (request_packet op file_name mode) =
        omega (arith, length-request_packet op file_name mode) in
      ground (arith, first_string, second_string, n)
