-- ===== src/Logger/Filter.antt =====
-- Which messages reach the log.
use Prim.Native.Nat.{bit_and}
use tftp_server.Base.{
  ℕ, ◌<◌, List, [], ◌∷◌, ◌++◌, some, ◌==◌, if◌then◌else◌, length, All, ◌≡◌, refl, arith, ◌∙◌,
  append_assoc, append-nil, Bool-cases, inl, inr,
}
use tftp_server.Logger.{flag, Logger, write_log, Message, log_line, log, log_all}

-- The lines of the messages whose flag is set in a filter, one after another.
abbrev pub selected : ℕ → List Message → List ℕ
selected filter [] = []
selected filter (m ∷ ms) =
    let rest = selected filter ms in
    if bit_and filter (flag m.severity) == 0 then rest else log_line m ++ rest

-- A log that is open, and messages whose lines fit the buffer: the log goes on by the lines of the
-- messages whose severity the filter has, in their order, and the filter stays.
pub log_all-selected :
    (ms : List Message) (l : Logger) (text : List ℕ)
    → l.log_file ≡ some text
    → All (λ m. length (log_line m) < 32000) ms
    → (l' : Logger) × (log_all ms l ≡ some l')
      × (l'.log_file ≡ some (text ++ selected l.severity_filter ms))
      × (l'.severity_filter ≡ l.severity_filter)
unfolding log_all log write_log
log_all-selected [] l text opened fits = (l, refl, opened ∙ simp append-nil, refl)
log_all-selected (m ∷ ms) l text opened fits =
    elim (Bool-cases (bit_and l.severity_filter (flag m.severity) == 0)) [
      | inl left_out ↦
          let (l', runs, file, filter) = log_all-selected ms l text opened fits.1 in
          (l', ground (arith, opened, left_out, runs, fits), ground (arith, left_out, file), filter)
      | inr kept ↦
          let l1 : Logger = record l {
            log_file = some (text ++ log_line m);
            console = (if l.log_to_console then l.console ++ log_line m else l.console);
          } in
          let (l', runs, file, filter) = log_all-selected ms l1 (text ++ log_line m) refl fits.1 in
          (
            l',
            ground (arith, opened, kept, runs, fits),
            ground
                (arith, kept, file, append_assoc text (log_line m) (selected l.severity_filter ms)),
            filter,
          )
    ]
