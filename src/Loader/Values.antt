-- ===== src/Loader/Values.antt =====
-- What is read from the lines `name=value`.
use tftp_server.Base.{
  ℕ, suc, ◌+◌, ◌<◌, List, [], ◌∷◌, ◌++◌, none, some, Bool, true, false, ◌≢◌, ◌≡◌, refl, ◌==◌, pos,
  All, length, drop, if◌then◌else◌, arith, ap, ◌∙◌, map,
}
use tftp_server.Loader.{
  chrpos, chrpos_from, strcmp2, strcmp2_from, remove_eol, remove_eol_from, value_on,
  load_multi_line_value,
}
use tftp_server.Loader.Lines.{line_size}

-- A name and its value, neither of which breaks the line; the name has no `=` and is not empty.
pub record Setting : Type 0 where
  pub name : List ℕ
  pub value : List ℕ

abbrev pub line : Setting → List ℕ
line x = x.name ++ 61 ∷ (x.value ++ 10 ∷ [])

pub record IsSetting (x : Setting) : Type 0 where
  pub not_empty : 0 < length x.name
  pub no_equals : All (λ c. c ≢ 61) x.name
  pub one_line : All (λ c. (c ≢ 10) × (c ≢ 13)) x.value
  pub fits : length x.name + length x.value + 2 < line_size

-- Whether a text starts with another one.
abbrev pub starts_with : List ℕ → List ℕ → Bool
starts_with s [] = true
starts_with [] (y ∷ ys) = false
starts_with (x ∷ xs) (y ∷ ys) = if x == y then starts_with xs ys else false

chrpos_from-name :
    (i : ℕ) (name rest : List ℕ)
    → All (λ c. c ≢ 61) name
    → i + length name < line_size
    → chrpos_from i (name ++ 61 ∷ rest) 61 line_size ≡ pos (i + length name)
unfolding chrpos_from
chrpos_from-name i [] rest plain fits = ground arith
chrpos_from-name i (x ∷ name) rest plain fits =
    ground (arith, plain.0, chrpos_from-name (i + 1) name rest plain.1 (omega arith), ap pos)

remove_eol_from-value :
    (i : ℕ) (value : List ℕ)
    → All (λ c. (c ≢ 10) × (c ≢ 13)) value
    → i + length value < line_size
    → remove_eol_from i (value ++ 10 ∷ []) line_size ≡ value
unfolding remove_eol_from
remove_eol_from-value i [] plain fits = ground arith
remove_eol_from-value i (x ∷ value) plain fits =
    ground (arith, plain.0, remove_eol_from-value (i + 1) value plain.1 (omega arith))

-- A name without `=` is found at the line's start if and only if the line's name starts with it.
strcmp2_from-starts_with :
    (i : ℕ) (name rest conf_name : List ℕ)
    → All (λ c. c ≢ 61) conf_name
    → i + length name < line_size
    → strcmp2_from i (name ++ 61 ∷ rest) conf_name line_size ≡ starts_with name conf_name
unfolding strcmp2_from
strcmp2_from-starts_with i [] rest [] plain fits = refl
strcmp2_from-starts_with i (x ∷ name) rest [] plain fits = refl
strcmp2_from-starts_with i [] rest (y ∷ ys) plain fits = ground (arith, plain.0)
strcmp2_from-starts_with i (x ∷ name) rest (y ∷ ys) plain fits =
    ground (arith, strcmp2_from-starts_with (i + 1) name rest ys plain.1 (omega arith))

value_on-line :
    (x : Setting) (conf_name : List ℕ)
    → IsSetting x
    → All (λ c. c ≢ 61) conf_name
    → value_on (line x) conf_name ≡ (if starts_with x.name conf_name then some x.value else none)
unfolding value_on chrpos strcmp2 remove_eol
value_on-line x conf_name ok plain =
    let behind : drop (length x.name + 1) (line x) ≡ x.value ++ 10 ∷ [] =
      drop-line x.name (x.value ++ 10 ∷ []) in
    rw
      (
        chrpos_from-name 0 x.name (x.value ++ 10 ∷ []) ok.no_equals (omega (arith, ok.fits)),
        strcmp2_from-starts_with 0 x.name (x.value ++ 10 ∷ []) conf_name plain
            (omega (arith, ok.fits)),
      )
      (ground (
        arith,
        ok.not_empty,
        behind,
        remove_eol_from-value 0 x.value ok.one_line (omega (arith, ok.fits)),
      ))
  where
    drop-line : (name rest : List ℕ) → drop (length name + 1) (name ++ 61 ∷ rest) ≡ rest
    drop-line [] rest = refl
    drop-line (c ∷ name) rest =
        let more : suc (length name) + 1 ≡ suc (length name + 1) = omega arith in
        ap (λ k. drop k (c ∷ (name ++ 61 ∷ rest))) more ∙ drop-line name rest

-- The values of the settings whose name starts with a text.
abbrev pub values_of : List ℕ → List Setting → List (List ℕ)
values_of conf_name [] = []
values_of conf_name (x ∷ xs) =
    let rest = values_of conf_name xs in
    if starts_with x.name conf_name then x.value ∷ rest else rest

-- From a file of lines `name=value`, each within the 1500 bytes of ConfigFileLine, LoadMultiLineValue
-- gets, in their order, the values of the lines whose name starts with the name that is asked for,
-- whether or not it goes on behind it.
pub load_multi_line_value-lines :
    (xs : List Setting) (conf_name : List ℕ)
    → All IsSetting xs
    → All (λ c. c ≢ 61) conf_name
    → load_multi_line_value (map line xs) conf_name ≡ values_of conf_name xs
unfolding load_multi_line_value
load_multi_line_value-lines [] conf_name ok plain = refl
load_multi_line_value-lines (x ∷ xs) conf_name ok plain = ground (
  arith,
  value_on-line x conf_name ok.0 plain,
  load_multi_line_value-lines xs conf_name ok.1 plain,
)
