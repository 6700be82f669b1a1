-- ===== src/Logger.antt =====
-- src/Logger.h and src/Logger.cpp: the log. The text of a message is what vsnprintf makes of the
-- format, and the time of a line what localtime and GetTickCount give: both are arguments.
pub mod Bounds
pub mod Filter
use Prim.Native.Nat.{bit_and}
use tftp_server.Base.{
  ℕ, ◌+◌, ◌-◌, ◌%◌, ◌^◌, List, [], ◌∷◌, ◌++◌, Option, none, some, Bool, true, false, ◌==◌, ltb,
  if◌then◌else◌, ℤ, pos, negsuc, length, take, ◌>>=◌,
}
use tftp_server.Text.{print_int}
use tftp_server.Send.Error.{codes}

-- LogSeverityFlags.
pub data Severity : Type 0 where
  trace info error : Severity

abbrev pub flag : Severity → ℕ
flag trace = 1
flag info = 2
flag error = 4

-- SimpleLogger: `log_file` is what has been written to mLogFile, `none` is NULL; `console` is what
-- has been printed. mRotateLogs and mClearLogs are never read.
pub record Logger : Type 0 where
  pub log_file : Option (List ℕ)
  pub log_to_console : Bool
  pub severity_filter : ℕ
  pub console : List ℕ

-- SimpleLogger::Init: the old file is closed, and the new one is empty if it can be opened.
unfoldable pub init_logger : Bool → Logger → Logger
init_logger opens l = record l { log_file = (if opens then some [] else none) }

-- The member initialisers and the constructor.
unfoldable pub new_logger : Bool → Logger
unfolding init_logger
new_logger opens =
    init_logger opens
      (record { log_file = none; log_to_console = true; severity_filter = 0xFFFFFF; console = [] })

-- SetLogLevelFlags: the bits of an `int`.
unfoldable pub set_log_level_flags : ℤ → Logger → Logger
set_log_level_flags (pos n) l = record l { severity_filter = n }
set_log_level_flags (negsuc n) l = record l { severity_filter = 2 ^ 32 - 1 - n }

-- SimpleLogger::Log.
unfoldable pub write_log : Severity → List ℕ → Logger → Logger
write_log severity str l =
    if bit_and l.severity_filter (flag severity) == 0 then l else elim l.log_file [
      | none ↦ l
      | some text ↦ record l {
        log_file = some (text ++ str);
        console = (if l.log_to_console then l.console ++ str else l.console);
      }
    ]

-- The destructor.
unfoldable pub close_logger : Logger → Logger
close_logger l = record l { log_file = none }

-- The members of `tm` that are printed, and the clock's milliseconds.
pub record Moment : Type 0 where
  pub month : ℕ
  pub day : ℕ
  pub hour : ℕ
  pub minute : ℕ
  pub second : ℕ
  pub tick : ℕ

-- `%03d`.
unfoldable pub print_three : ℕ → List ℕ
print_three n =
    if ltb n 10
    then codes "00" ++ print_int (pos n)
    else if ltb n 100
    then codes "0" ++ print_int (pos n)
    else print_int (pos n)

-- The time at the start of a line.
unfoldable pub stamp : Moment → List ℕ
unfolding print_three
stamp t =
    codes "["
    ++ print_int (pos t.month)
    ++ (codes "-" ++ print_int (pos t.day))
    ++ (codes " " ++ print_int (pos t.hour))
    ++ (codes ":" ++ print_int (pos t.minute))
    ++ (codes ":" ++ print_int (pos t.second))
    ++ (codes ":" ++ print_three (t.tick % 1000) ++ codes "]")

-- A call of LOG_TRACE, LOG_INFO or LOG_ERROR.
pub record Message : Type 0 where
  pub severity : Severity
  pub time : Moment
  pub function : List ℕ
  pub line : ℕ
  pub text : List ℕ

-- LogV cuts the text to its buffer of 10000 bytes.
abbrev pub formatted : List ℕ → List ℕ
formatted text = take 9999 text

-- The line that Log puts together.
abbrev pub log_line : Message → List ℕ
log_line m =
    stamp m.time
    ++ (codes " " ++ m.function ++ codes ":" ++ print_int (pos m.line))
    ++ (codes " :: " ++ formatted m.text)

-- Log and LogV. The line has to fit the buffer of 32000 bytes: behind it the size that is left
-- would be negative.
unfoldable pub log : Message → Logger → Option Logger
unfolding write_log
log m l = elim l.log_file [
  | none ↦ some l
  | some text ↦
      if ltb (length (log_line m)) 32000 then some (write_log m.severity (log_line m) l) else none
]

-- A sequence of messages.
unfoldable pub log_all : List Message → Logger → Option Logger
unfolding log
log_all [] l = some l
log_all (m ∷ ms) l = do l1 ← log m l; log_all ms l1
