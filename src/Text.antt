-- ===== src/Text.antt =====
-- The C string functions that the source calls: strlen, strcmp, strcasecmp, atoi, and `%d` of
-- snprintf. A C string is the list of its bytes, without the terminator.
pub mod Decimal
pub mod Laws
use tftp_server.Base.{
  ℕ, zero, suc, ◌+◌, ◌-◌, ◌*◌, ◌/◌, ◌%◌, ◌^◌, List, [], ◌∷◌, ◌++◌, Option, none, some, Bool, true,
  false, ◌&&◌, ◌||◌, ltb, leb, ◌==◌, if◌then◌else◌, ◌>>=◌, ℤ, pos, negsuc, drop,
}

-- The string at the start of a block; `none` is a search that leaves the block.
unfoldable pub c_string : List ℕ → Option (List ℕ)
c_string [] = none
c_string (c ∷ cs) =
    let rest = (do t ← c_string cs; some (c ∷ t)) in if c == 0 then some [] else rest

abbrev pub c_string_at : List ℕ → ℕ → Option (List ℕ)
c_string_at block i = c_string (drop i block)

-- strcmp(s, t) == 0.
unfoldable pub strcmp_eq : List ℕ → List ℕ → Bool
strcmp_eq [] [] = true
strcmp_eq [] (d ∷ ds) = false
strcmp_eq (c ∷ cs) [] = false
strcmp_eq (c ∷ cs) (d ∷ ds) = c == d && strcmp_eq cs ds

-- tolower in the C locale.
unfoldable pub to_lower : ℕ → ℕ
to_lower c = if leb b'A' c && leb c b'Z' then c + 32 else c

-- strcasecmp(s, t) == 0.
unfoldable pub stricmp_eq : List ℕ → List ℕ → Bool
unfolding to_lower
stricmp_eq [] [] = true
stricmp_eq [] (d ∷ ds) = false
stricmp_eq (c ∷ cs) [] = false
stricmp_eq (c ∷ cs) (d ∷ ds) = to_lower c == to_lower d && stricmp_eq cs ds

unfoldable pub is_space : ℕ → Bool
is_space c = c == b' ' || leb 9 c && leb c 13

unfoldable pub is_digit : ℕ → Bool
is_digit c = leb b'0' c && leb c b'9'

-- The digits at the start of a text, after the value `n`.
unfoldable pub read_digits : ℕ → List ℕ → ℕ
unfolding is_digit
read_digits n [] = n
read_digits n (c ∷ cs) =
    let rest = read_digits (n * 10 + (c - b'0')) cs in if is_digit c then rest else n

unfoldable pub negate : ℕ → ℤ
negate zero = pos 0
negate (suc n) = negsuc n

-- A sign, and then digits.
unfoldable pub read_signed : List ℕ → ℤ
unfolding read_digits negate
read_signed [] = pos 0
read_signed (c ∷ cs) =
    if c == b'-'
    then negate (read_digits 0 cs)
    else if c == b'+'
    then pos (read_digits 0 cs)
    else pos (read_digits 0 (c ∷ cs))

-- atoi. A number that no `int` holds is undefined there; here it is itself.
unfoldable pub atoi : List ℕ → ℤ
unfolding is_space read_signed
atoi [] = pos 0
atoi (c ∷ cs) = let rest = atoi cs in if is_space c then rest else read_signed (c ∷ cs)

-- The decimal digits of `n`, in front of `acc`; `n + 1` rounds are enough.
unfoldable pub print_digits : ℕ → ℕ → List ℕ → List ℕ
print_digits zero n acc = acc
print_digits (suc f) n acc =
    let rest = print_digits f (n / 10) ((b'0' + n % 10) ∷ acc) in
    if ltb n 10 then (b'0' + n) ∷ acc else rest

-- `%d`.
unfoldable pub print_int : ℤ → List ℕ
unfolding print_digits
print_int (pos n) = print_digits (n + 1) n []
print_int (negsuc n) = b'-' ∷ print_digits (n + 2) (n + 1) []
