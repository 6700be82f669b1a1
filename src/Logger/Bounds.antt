-- ===== src/Logger/Bounds.antt =====
-- The lines of the log and their buffer.
use tftp_server.Base.{
  ℕ, ◌%◌, ◌<◌, ◌≤◌, List, [], ◌∷◌, ◌++◌, some, pos, length, length-append, length-take, All, ◌≡◌,
  arith, ltb, Bool-cases, inl, inr,
}
use tftp_server.Text.{print_int}
use tftp_server.Text.Decimal.{print_int-length, power_of_ten}
use tftp_server.Logger.{Logger, Moment, Message, stamp, print_three, log_line, log_all}
use tftp_server.Logger.Filter.{selected, log_all-selected}

-- What localtime gives.
pub record IsMoment (t : Moment) : Type 0 where
  pub month : t.month < 12
  pub day : t.day < 32
  pub hour : t.hour < 24
  pub minute : t.minute < 60
  pub second : t.second < 61

-- A message of a function with a name of 20000 bytes or less, in a file of less than 10 ^ 9 lines.
pub record IsLogged (m : Message) : Type 0 where
  pub time : IsMoment m.time
  pub function : length m.function ≤ 20000
  pub line : m.line < power_of_ten 9

print_two : (n : ℕ) → n < 100 → length (print_int (pos n)) ≤ 2
print_two n h = print_int-length 1 n (omega arith)

length-print_three : (n : ℕ) → n < 1000 → length (print_three n) ≤ 3
unfolding print_three
length-print_three n h = elim (Bool-cases (ltb n 10)) [
  | inl one ↦ rw one (omega (arith, print_int-length 0 n (ground (arith, one))))
  | inr more ↦ elim (Bool-cases (ltb n 100)) [
    | inl two ↦ rw (more, two) (omega (arith, print_int-length 1 n (ground (arith, two))))
    | inr three ↦ rw (more, three) (print_int-length 2 n (omega arith))
  ]
]

length-stamp : (t : Moment) → IsMoment t → length (stamp t) ≤ 20
unfolding stamp
length-stamp t ok = grind (
  arith,
  length-append,
  print_two t.month (omega (arith, ok.month)),
  print_two t.day (omega (arith, ok.day)),
  print_two t.hour (omega (arith, ok.hour)),
  print_two t.minute (omega (arith, ok.minute)),
  print_two t.second (omega (arith, ok.second)),
  length-print_three (t.tick % 1000) (omega arith),
)

-- The lines fit the buffer of Log, since LogV has cut their texts.
length-log_line : (m : Message) → IsLogged m → length (log_line m) < 32000
length-log_line m ok = grind (
  arith,
  length-append,
  length-stamp m.time ok.time,
  print_int-length 8 m.line ok.line,
  length-take 9999 m.text,
  ok.function,
)

lines_fit : (ms : List Message) → All IsLogged ms → All (λ m. length (log_line m) < 32000) ms
lines_fit [] h = tt
lines_fit (m ∷ ms) h = (length-log_line m h.0, lines_fit ms h.1)

-- A log that is open, and messages with texts of any length, at times that localtime gives, of
-- functions with names of 20000 bytes or less, from lines below 10 ^ 9: no line leaves its buffer,
-- the log goes on by the lines of the messages whose severity the filter has, in their order, and
-- the filter stays.
pub log_all-IsLogged :
    (ms : List Message) (l : Logger) (text : List ℕ)
    → l.log_file ≡ some text
    → All IsLogged ms
    → (l' : Logger) × (log_all ms l ≡ some l')
      × (l'.log_file ≡ some (text ++ selected l.severity_filter ms))
      × (l'.severity_filter ≡ l.severity_filter)
log_all-IsLogged ms l text opened ok = log_all-selected ms l text opened (lines_fit ms ok)
