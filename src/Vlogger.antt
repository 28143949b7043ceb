-- ===== src/Vlogger.antt =====
-- pkg/vlogger: the loggers of the program. log.go keeps a table of loggers, one for each level; the
-- two implementations are log_null.go and console/log_console.go. The table holds references, so
-- that one logger may stand at several levels. Of a message only the text that is printed counts:
-- `Debugf` and its like format it first. `none` is a panic at an index out of range or at a nil
-- logger.
pub mod Levels
pub mod Register
pub mod Filter
mod Tests
use f5_ipam_ctlr.Prelude.{
  Bool, List, Option, String, [], false, get_elem?, if◌then◌else◌, increment, leb, length, ltb,
  negsuc, none, pos, set, some, suc, zero, ℕ, ℤ, ◌&&◌, ◌++◌, ◌+◌, ◌-◌, ◌∷◌,
}

-- The constants LL_DEBUG to LL_CRITICAL, and the methods of a logger that go with them.
pub data Method : Type 0 where
  debug : Method
  info : Method
  warning : Method
  error : Method
  critical : Method

abbrev pub level_of : Method → ℕ
level_of debug = 0
level_of info = 1
level_of warning = 2
level_of error = 3
level_of critical = 4

abbrev pub ll_loglevel_size : ℕ
ll_loglevel_size = 5

abbrev pub ll_min_level : ℤ
ll_min_level = pos 0

abbrev pub ll_max_level : ℤ
ll_max_level = pos 4

-- The priorities of log/syslog: the higher ones have lower numbers.
abbrev pub priority_of : Method → ℕ
priority_of debug = 7
priority_of info = 6
priority_of warning = 4
priority_of error = 3
priority_of critical = 2

-- `logLevelToSyslogLevel`
abbrev pub log_level_to_syslog_level : List ℕ
log_level_to_syslog_level = 7 ∷ 6 ∷ 4 ∷ 3 ∷ 2 ∷ []

abbrev pub tag_of : Method → String
tag_of debug = "[DEBUG]"
tag_of info = "[INFO]"
tag_of warning = "[WARNING]"
tag_of error = "[ERROR]"
tag_of critical = "[CRITICAL]"

-- `nullLogger` and `consoleLogger`, with their field.
pub record Logger : Type 0 where
  pub is_console : Bool
  pub sl_log_level : ℕ

-- The variables of log.go, the loggers that were made, and the lines that were printed, newest
-- first.
pub record Logging : Type 0 where
  pub vlog : List (Option ℕ)
  pub log_level : ℤ
  pub loggers : List Logger
  pub printed : List (String × String)

-- `newNullLogger` and `NewConsoleLogger`: the reference is the number of loggers made before.
unfoldable pub new_logger : Bool → Logging → Logging × ℕ
new_logger is_console st = (
  record st { loggers = st.loggers ++ record { is_console = is_console; sl_log_level = 7 } ∷ [] },
  length st.loggers,
)

-- `vlog[level] = log`
unfoldable pub set_entry : ℤ → ℕ → Logging → Option Logging
set_entry (negsuc n) log st = none
set_entry (pos n) log st =
    if ltb n (length st.vlog) then some (record st { vlog = set st.vlog n (some log) }) else none

-- How often the loop of `RegisterLogger` runs.
unfoldable pub rounds : ℤ → ℤ → ℕ
rounds (pos m) (pos n) = suc n - m
rounds (pos m) (negsuc n) = 0
rounds (negsuc m) (pos n) = suc m + suc n
rounds (negsuc m) (negsuc n) = suc m - n

unfoldable pub register_loop : ℕ → ℤ → ℕ → Logging → Option Logging
unfolding set_entry
register_loop zero level log st = some st
register_loop (suc n) level log st = elim (set_entry level log st) [
  | none ↦ none
  | some st' ↦ register_loop n (increment level) log st'
]

-- `RegisterLogger`
unfoldable pub register_logger : ℤ → ℤ → ℕ → Logging → Option Logging
unfolding rounds register_loop
register_logger min_log_level max_log_level log st =
    register_loop (rounds min_log_level max_log_level) min_log_level log st

-- `SetLogLevel` of the logger that a reference names.
unfoldable pub set_logger_level : ℕ → ℕ → List Logger → List Logger
set_logger_level log level [] = []
set_logger_level zero level (lg ∷ loggers) = record lg { sl_log_level = level } ∷ loggers
set_logger_level (suc log) level (lg ∷ loggers) = lg ∷ set_logger_level log level loggers

-- The loop of `SetLogLevel` over the table.
unfoldable pub set_levels : List (Option ℕ) → ℕ → List Logger → List Logger
unfolding set_logger_level
set_levels [] level loggers = loggers
set_levels (none ∷ vlog) level loggers = set_levels vlog level loggers
set_levels (some log ∷ vlog) level loggers =
    set_levels vlog level (set_logger_level log level loggers)

abbrev pub get_elem_ℤ : {A : Type 0} → List A → ℤ → Option A
get_elem_ℤ xs (pos n) = get_elem? xs n
get_elem_ℤ xs (negsuc n) = none

-- `SetLogLevel`
unfoldable pub set_log_level : ℤ → Logging → Option Logging
unfolding set_levels
set_log_level level st = elim (get_elem_ℤ log_level_to_syslog_level level) [
  | none ↦ none
  | some sl ↦ some (record st { log_level = level; loggers = set_levels st.vlog sl st.loggers })
]

-- The methods of `consoleLogger` and of `nullLogger`.
unfoldable pub write_message : Logger → Method → String → Logging → Logging
write_message lg m msg st =
    if lg.is_console && leb (priority_of m) lg.sl_log_level
    then record st { printed = (tag_of m, msg) ∷ st.printed }
    else st

-- `Debug`, `Debugf` and so on to `Criticalf`.
unfoldable pub log_message : Method → String → Logging → Option Logging
unfolding write_message
log_message m msg st = elim (get_elem? st.vlog (level_of m)) [
  | none ↦ none
  | some none ↦ none
  | some (some log) ↦ elim (get_elem? st.loggers log) [
    | none ↦ none
    | some lg ↦ some (write_message lg m msg st)
  ]
]

-- `GetLogLevel`
abbrev pub get_log_level : Logging → ℤ
get_log_level st = st.log_level

-- How `Fatal`, `Fatalf`, `Panic` and `Panicf` leave the program: `Close` of both loggers does
-- nothing.
pub data Ending : Type 0 where
  exits : Logging → Ending
  panics_with : String → Logging → Ending

-- `Fatal` and `Fatalf`
unfoldable pub fatal_message : String → Logging → Option Ending
unfolding log_message
fatal_message msg st = elim (log_message critical msg st) [
  | none ↦ none
  | some st' ↦ some (exits st')
]

-- `Panic` and `Panicf`
unfoldable pub panic_message : String → Logging → Option Ending
unfolding log_message
panic_message msg st = elim (log_message critical msg st) [
  | none ↦ none
  | some st' ↦ some (panics_with msg st')
]

-- The package before and after `init`.
abbrev pub no_loggers : Logging
no_loggers = record {
  vlog = none ∷ none ∷ none ∷ none ∷ none ∷ [];
  log_level = pos 0;
  loggers = [];
  printed = [];
}

-- `init` of log_null.go.
unfoldable pub init : Option Logging
unfolding new_logger register_logger
init =
    let (st, log) = new_logger false no_loggers in register_logger ll_min_level ll_max_level log st
