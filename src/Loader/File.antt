-- ===== src/Loader/File.antt =====
-- What is read from a file of lines `name=value`.
use tftp_server.Base.{
  ℕ, zero, suc, ◌+◌, ◌<◌, ◌≤◌, List, [], ◌∷◌, ◌++◌, some, All, map, length, concat, ◌≡◌, ◌≢◌, refl,
  arith, ap, ap₂, sym, ◌-◌, ◌∙◌, length-append, append_assoc,
}
use tftp_server.Loader.{load_multi_line_value}
use tftp_server.Loader.Lines.{line_size, read_line, read_lines, up_to_nul, config_lines}
use tftp_server.Loader.Values.{Setting, IsSetting, line, values_of, load_multi_line_value-lines}

-- A setting that stands on a line of its own, without NUL.
pub record IsWritten (x : Setting) : Type 0 where
  pub setting : IsSetting x
  pub name_text : All (λ c. (c ≢ 10) × (c ≢ 0)) x.name
  pub value_text : All (λ c. c ≢ 0) x.value

-- The bytes of a file of settings, each on its line.
abbrev pub write_settings : List Setting → List ℕ
write_settings xs = concat (map line xs)

read_line-line :
    (room : ℕ) (t rest : List ℕ)
    → All (λ c. c ≢ 10) t
    → length t < room
    → read_line room (t ++ 10 ∷ rest) ≡ (t ++ 10 ∷ [], rest)
unfolding read_line
read_line-line zero t rest plain h = absurd (omega arith)
read_line-line (suc room) [] rest plain h = refl
read_line-line (suc room) (c ∷ t) rest plain h =
    ground (arith, plain.0, read_line-line room t rest plain.1 (omega arith))

read_lines-line :
    (left : ℕ) (t rest : List ℕ)
    → All (λ c. c ≢ 10) t
    → length t + 1 < line_size
    → read_lines (suc left) (t ++ 10 ∷ rest) ≡ (t ++ 10 ∷ []) ∷ read_lines left rest
unfolding read_lines
read_lines-line left [] rest plain h =
    ap (λ now. now.0 ∷ read_lines left now.1)
      (read_line-line (line_size - 1) [] rest tt (omega arith))
read_lines-line left (c ∷ t) rest plain h =
    ap (λ now. now.0 ∷ read_lines left now.1)
      (read_line-line (line_size - 1) (c ∷ t) rest plain (omega arith))

-- A line, less its end.
abbrev body : Setting → List ℕ
body x = x.name ++ 61 ∷ x.value

line-body : (x : Setting) → line x ≡ body x ++ 10 ∷ []
line-body x = sym (append_assoc x.name (61 ∷ x.value) (10 ∷ []))

body-plain :
    (name value : List ℕ)
    → All (λ c. (c ≢ 10) × (c ≢ 0)) name
    → All (λ c. (c ≢ 10) × (c ≢ 13)) value
    → All (λ c. c ≢ 10) (name ++ 61 ∷ value)
body-plain [] [] h k = (omega arith, tt)
body-plain [] (c ∷ value) h k =
    let (first, rest) = body-plain [] value h k.1 in (first, (k.0.0, rest))
body-plain (c ∷ name) value h k = (h.0.0, body-plain name value h.1 k)

up_to_nul-text : (t : List ℕ) → All (λ c. c ≢ 0) t → up_to_nul t ≡ t
unfolding up_to_nul
up_to_nul-text [] h = refl
up_to_nul-text (c ∷ t) h = ground (arith, h.0, up_to_nul-text t h.1)

line-text :
    (name value : List ℕ)
    → All (λ c. (c ≢ 10) × (c ≢ 0)) name
    → All (λ c. c ≢ 0) value
    → All (λ c. c ≢ 0) (name ++ 61 ∷ (value ++ 10 ∷ []))
line-text [] [] h k = (omega arith, (omega arith, tt))
line-text [] (c ∷ value) h k = let (first, rest) = line-text [] value h k.1 in (first, (k.0, rest))
line-text (c ∷ name) value h k = (h.0.1, line-text name value h.1 k)

read_lines-written :
    (left : ℕ) (xs : List Setting)
    → All IsWritten xs
    → length (write_settings xs) ≤ left
    → map up_to_nul (read_lines left (write_settings xs)) ≡ map line xs
unfolding read_lines
read_lines-written zero [] ok h = refl
read_lines-written (suc left) [] ok h = refl
read_lines-written zero (x ∷ xs) ok h = absurd (
    omega (
      arith,
      ap length (line-body x),
      length-append (line x) (write_settings xs),
      length-append (body x) (10 ∷ []),
    ))
read_lines-written (suc left) (x ∷ xs) ok h =
    let rest = write_settings xs in
    let start : write_settings (x ∷ xs) ≡ body x ++ 10 ∷ rest =
      ap (λ t. t ++ rest) (line-body x) ∙ append_assoc (body x) (10 ∷ []) rest in
    let later =
      read_lines-written left xs ok.1
        (omega (arith, ap length start, length-append (body x) (10 ∷ rest))) in
    ap (λ t. map up_to_nul (read_lines (suc left) t)) start
    ∙ ap (map up_to_nul) (
        read_lines-line left (body x) rest
          (body-plain x.name x.value ok.0.name_text ok.0.setting.one_line)
          (omega (arith, ok.0.setting.fits, length-append x.name (61 ∷ x.value))))
    ∙ ap₂ (λ t ts. t ∷ ts)
        (ap up_to_nul (sym (line-body x))
          ∙ up_to_nul-text (line x) (line-text x.name x.value ok.0.name_text ok.0.value_text))
        later

-- From a file whose bytes are lines `name=value`, each within the 1500 bytes of ConfigFileLine and
-- without NUL, LoadMultiLineValue reads, in their order, the values of the lines whose name starts
-- with the name that is asked for, whether or not it goes on behind it.
pub load_multi_line_value-write_settings :
    (xs : List Setting) (conf_name : List ℕ)
    → All IsWritten xs
    → All (λ c. c ≢ 61) conf_name
    → load_multi_line_value (config_lines (some (write_settings xs))) conf_name
      ≡ values_of conf_name xs
unfolding config_lines
load_multi_line_value-write_settings xs conf_name ok plain =
    ap (λ lines. load_multi_line_value lines conf_name)
      (read_lines-written (length (write_settings xs)) xs ok (omega arith))
    ∙ load_multi_line_value-lines xs conf_name (settings xs ok) plain
  where
    settings : (xs : List Setting) → All IsWritten xs → All IsSetting xs
    settings [] ok = tt
    settings (x ∷ xs) ok = (ok.0.setting, settings xs ok.1)
