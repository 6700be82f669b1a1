-- ===== src/Text/Decimal.antt =====
-- A number printed with `%d` and read with atoi.
use tftp_server.Base.{
  ℕ, zero, suc, ◌+◌, ◌-◌, ◌*◌, ◌/◌, ◌%◌, ◌<◌, List, [], ◌≤◌, length, ◌∷◌, true, ltb, pos, ◌≡◌, refl,
  arith, ap, ◌∙◌, Bool-cases, inl, inr,
}
use tftp_server.Text.{is_space, is_digit, read_digits, read_signed, atoi, print_digits, print_int}
use tftp_server.Text.Laws.{IsText}

-- The last digit read behind the others.
read_digits-last :
    (n : ℕ) (acc : List ℕ) → read_digits (n / 10) ((b'0' + n % 10) ∷ acc) ≡ read_digits n acc
unfolding read_digits is_digit
read_digits-last n acc =
    let value : n / 10 * 10 + (b'0' + n % 10 - b'0') ≡ n = omega arith in rw value (ground arith)

read_digits-one :
    (n : ℕ) (acc : List ℕ) → n < 10 → read_digits 0 ((b'0' + n) ∷ acc) ≡ read_digits n acc
unfolding read_digits is_digit
read_digits-one n acc h = ground (arith, ap (λ k. read_digits k acc))

read_digits-print_digits :
    (f n : ℕ) (acc : List ℕ) → n < f → read_digits 0 (print_digits f n acc) ≡ read_digits n acc
unfolding print_digits
read_digits-print_digits zero n acc h = absurd (omega arith)
read_digits-print_digits (suc f) n acc h = elim (Bool-cases (ltb n 10)) [
  | inl one ↦ rw one (read_digits-one n acc (ground arith))
  | inr more ↦
      let smaller : n / 10 < f = ground arith in
      rw more (
        read_digits-print_digits f (n / 10) ((b'0' + n % 10) ∷ acc) smaller
        ∙ read_digits-last n acc)
]

-- What is printed starts with a digit.
print_digits-starts :
    (f n : ℕ) (acc : List ℕ)
    → n < f
    → (c : ℕ) × (cs : List ℕ) × (print_digits f n acc ≡ c ∷ cs) × (is_digit c ≡ true)
unfolding print_digits is_digit
print_digits-starts zero n acc h = absurd (omega arith)
print_digits-starts (suc f) n acc h = elim (Bool-cases (ltb n 10)) [
  | inl one ↦ (b'0' + n, acc, rw one, ground arith)
  | inr more ↦
      let (c, cs, starts, digit) =
        print_digits-starts f (n / 10) ((b'0' + n % 10) ∷ acc) (ground arith) in
      (c, cs, rw more starts, digit)
]

atoi-digit :
    (c : ℕ) (cs : List ℕ) → is_digit c ≡ true → atoi (c ∷ cs) ≡ pos (read_digits 0 (c ∷ cs))
unfolding atoi is_space read_signed is_digit
atoi-digit c cs digit = ground arith

-- A number is read back from its print, whatever follows behind a byte that is no digit.
pub atoi-print_int : (n : ℕ) → atoi (print_int (pos n)) ≡ pos n
unfolding print_int
atoi-print_int n =
    let (c, cs, starts, digit) = print_digits-starts (n + 1) n [] (omega arith) in
    let value : read_digits 0 (c ∷ cs) ≡ n =
      rw (← starts)
        (read_digits-print_digits (n + 1) n [] (omega arith) ∙ unfold read_digits in refl) in
    rw starts (atoi-digit c cs digit ∙ ap pos value)

-- The print has no zero byte.
print_digits-IsText : (f n : ℕ) (acc : List ℕ) → IsText acc → IsText (print_digits f n acc)
unfolding print_digits
print_digits-IsText zero n acc h = h
print_digits-IsText (suc f) n acc h =
    ground (arith, h, print_digits-IsText f (n / 10) ((b'0' + n % 10) ∷ acc) (omega arith, h))

pub print_int-IsText : (n : ℕ) → IsText (print_int (pos n))
unfolding print_int
print_int-IsText n = print_digits-IsText (n + 1) n [] tt

abbrev pub power_of_ten : ℕ → ℕ
power_of_ten zero = 1
power_of_ten (suc k) = 10 * power_of_ten k

print_digits-length :
    (k f n : ℕ) (acc : List ℕ)
    → n < power_of_ten (suc k)
    → length (print_digits f n acc) ≤ suc k + length acc
unfolding print_digits
print_digits-length k zero n acc h = omega arith
print_digits-length zero (suc f) n acc h = ground arith
print_digits-length (suc k) (suc f) n acc h =
    ground (arith, print_digits-length k f (n / 10) ((b'0' + n % 10) ∷ acc) (omega arith))

-- A number below 10 ^ (k + 1) has at most k + 1 digits.
pub print_int-length : (k n : ℕ) → n < power_of_ten (suc k) → length (print_int (pos n)) ≤ suc k
unfolding print_int
print_int-length k n h = omega (arith, print_digits-length k (n + 1) n [] h)
