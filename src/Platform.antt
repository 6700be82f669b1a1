-- ===== src/Platform.antt =====
-- fopen_s and _strdup of src/pthread_win.cpp, in a build for Linux.
use tftp_server.Base.{
  ℕ, ◌+◌, List, [], ◌∷◌, ◌++◌, Option, none, some, Bool, true, if◌then◌else◌, ◌>>=◌, length, take,
  take-append, length-append, append_assoc, ◌≡◌, refl, ap, ◌∙◌, sym,
}
use tftp_server.Text.{c_string}
use tftp_server.Text.Laws.{IsText, c_string-append}
use tftp_server.Session.{File}

-- fopen_s, for what fopen gives: the file, where `none` is NULL, and the number returned.
unfoldable pub fopen_s : Option File → Option File × ℕ
fopen_s none = (none, 1)
fopen_s (some f) = (some f, 0)

-- _strdup of the string at the start of a block: the new block, where the inner `none` is NULL.
-- `malloc` says which sizes can be had. A block without a terminator is read past its end.
unfoldable pub strdup : (ℕ → Bool) → List ℕ → Option (Option (List ℕ))
strdup malloc block = do
  s ← c_string block
  some (if malloc (length s + 1) then some (take (length s + 1) block) else none)

-- The copy is the string with its terminator, whatever stands behind it in the block.
strdup-append :
    (malloc : ℕ → Bool) (t rest : List ℕ)
    → IsText t
    → malloc (length t + 1) ≡ true
    → strdup malloc (t ++ 0 ∷ rest) ≡ some (some (t ++ 0 ∷ []))
unfolding strdup
strdup-append malloc t rest h memory =
    let whole : take (length t + 1) (t ++ 0 ∷ rest) ≡ t ++ 0 ∷ [] =
      ap (take (length t + 1)) (sym (append_assoc t (0 ∷ []) rest))
      ∙ take-append (length t + 1) (t ++ 0 ∷ []) rest (sym (length-append t (0 ∷ []))) in
    rw (c_string-append t rest h, memory, whole) refl
