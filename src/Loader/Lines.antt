-- ===== src/Loader/Lines.antt =====
-- The lines that the loops of src/config.cpp read from a file: fgets and feof.
use tftp_server.Base.{
  ℕ, zero, suc, ◌-◌, ◌<◌, ◌≤◌, List, [], ◌∷◌, ◌++◌, Option, none, some, ◌==◌, if◌then◌else◌, map,
  length, concat, All, Bool-cases, inl, inr, ◌≡◌, refl, arith, ap, ◌∙◌, length-append,
}

-- sizeof(ConfigFileLine).
abbrev pub line_size : ℕ
line_size = 1500

-- fgets of at most `room` bytes: those up to the end of the line, and what is left of the file.
unfoldable pub read_line : ℕ → List ℕ → List ℕ × List ℕ
read_line zero bytes = ([], bytes)
read_line (suc room) [] = ([], [])
read_line (suc room) (c ∷ rest) =
    let more = read_line room rest in if c == 10 then (c ∷ [], rest) else (c ∷ more.0, more.1)

-- The loop up to the end of the file, for `left` rounds at most. All reads succeed: at an error of
-- fgets, which leaves feof() false, the loop of the source would not end.
unfoldable pub read_lines : ℕ → List ℕ → List (List ℕ)
unfolding read_line
read_lines zero bytes = []
read_lines (suc left) [] = []
read_lines (suc left) (c ∷ bytes) =
    let now = read_line (line_size - 1) (c ∷ bytes) in now.0 ∷ read_lines left now.1

-- A line as a string of C.
unfoldable pub up_to_nul : List ℕ → List ℕ
up_to_nul [] = []
up_to_nul (c ∷ cs) = let rest = up_to_nul cs in if c == 0 then [] else c ∷ rest

-- The lines of a file; `none` is a file that cannot be opened.
unfoldable pub config_lines : Option (List ℕ) → List (List ℕ)
unfolding read_lines up_to_nul
config_lines none = []
config_lines (some bytes) = map up_to_nul (read_lines (length bytes) bytes)

read_line-append :
    (room : ℕ) (bytes : List ℕ) → (read_line room bytes).0 ++ (read_line room bytes).1 ≡ bytes
unfolding read_line
read_line-append zero bytes = refl
read_line-append (suc room) [] = refl
read_line-append (suc room) (c ∷ rest) = elim (Bool-cases (c == 10)) [
  | inl end ↦ rw end refl
  | inr more ↦ rw more (ap (λ t. c ∷ t) (read_line-append room rest))
]

-- A line has one byte or more, and no more than the buffer has room for.
pub record IsLine (line : List ℕ) : Type 0 where
  pub not_empty : 0 < length line
  pub within_buffer : length line < line_size

length-read_line_le : (room : ℕ) (bytes : List ℕ) → length (read_line room bytes).0 ≤ room
unfolding read_line
length-read_line_le zero bytes = omega arith
length-read_line_le (suc room) [] = omega arith
length-read_line_le (suc room) (c ∷ rest) = elim (Bool-cases (c == 10)) [
  | inl end ↦ rw end (omega arith)
  | inr more ↦ rw more (omega (arith, length-read_line_le room rest))
]

length-read_line_lt : (room c : ℕ) (rest : List ℕ) → 0 < length (read_line (suc room) (c ∷ rest)).0
unfolding read_line
length-read_line_lt room c rest = elim (Bool-cases (c == 10)) [
  | inl end ↦ rw end (omega arith)
  | inr more ↦ rw more (omega arith)
]

length-rest_lt :
    (room c left : ℕ) (bytes : List ℕ)
    → length (c ∷ bytes) ≤ suc left
    → length (read_line (suc room) (c ∷ bytes)).1 ≤ left
length-rest_lt room c left bytes h =
    let now = read_line (suc room) (c ∷ bytes) in
    omega (
      arith,
      ap length (read_line-append (suc room) (c ∷ bytes)),
      length-append now.0 now.1,
      length-read_line_lt room c bytes,
    )

read_line-IsLine :
    (room c : ℕ) (bytes : List ℕ)
    → suc room < line_size
    → IsLine (read_line (suc room) (c ∷ bytes)).0
read_line-IsLine room c bytes h = record {
  not_empty = length-read_line_lt room c bytes;
  within_buffer = omega (arith, length-read_line_le (suc room) (c ∷ bytes));
}

-- The loop ends by itself and passes over nothing: for a file of any bytes, as many rounds as it
-- has bytes, or more, give lines of one byte or more, each within the buffer, which together are
-- the file.
concat-read_lines :
    (left : ℕ) (bytes : List ℕ)
    → length bytes ≤ left
    → (concat (read_lines left bytes) ≡ bytes) × All IsLine (read_lines left bytes)
unfolding read_lines
concat-read_lines zero [] h = (refl, tt)
concat-read_lines zero (c ∷ bytes) h = absurd (omega arith)
concat-read_lines (suc left) [] h = (refl, tt)
concat-read_lines (suc left) (c ∷ bytes) h =
    let now = read_line (line_size - 1) (c ∷ bytes) in
    let (joined, lines) =
      concat-read_lines left now.1 (length-rest_lt (line_size - 2) c left bytes h) in
    (
      ap (λ t. now.0 ++ t) joined ∙ read_line-append (line_size - 1) (c ∷ bytes),
      (read_line-IsLine (line_size - 2) c bytes (omega arith), lines),
    )
