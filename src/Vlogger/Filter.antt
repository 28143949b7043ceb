-- ===== src/Vlogger/Filter.antt =====
-- `SetLogLevel` of pkg/vlogger/log.go, and which messages a console logger prints after it.
use f5_ipam_ctlr.Prelude.{
  Bool, List, Option, String, [], ap, arith, eqb, false, get_elem?, if◌then◌else◌, leb, none, pos,
  refl, some, suc, true, zero, ℕ, ◌<◌, ◌||◌, ◌∙◌, ◌∷◌, ◌≡◌,
}
use f5_ipam_ctlr.Vlogger.{
  Logger, Logging, Method, critical, debug, error, exits, fatal_message, info, level_of,
  ll_loglevel_size, log_level_to_syslog_level, log_message, panic_message, panics_with, priority_of,
  set_levels, set_log_level, set_logger_level, tag_of, warning, write_message,
}

abbrev at_level : ℕ → Option Logger → Option Logger
at_level level none = none
at_level level (some lg) = some (record lg { sl_log_level = level })

get_elem?-set_logger_level :
    (log level : ℕ) (loggers : List Logger) (i : ℕ)
    → get_elem? (set_logger_level log level loggers) i
      ≡ (if eqb log i then at_level level (get_elem? loggers i) else get_elem? loggers i)
unfolding set_logger_level
get_elem?-set_logger_level log level [] i = ground arith
get_elem?-set_logger_level zero level (lg ∷ loggers) zero = refl
get_elem?-set_logger_level zero level (lg ∷ loggers) (suc i) = ground arith
get_elem?-set_logger_level (suc log) level (lg ∷ loggers) zero = ground arith
get_elem?-set_logger_level (suc log) level (lg ∷ loggers) (suc i) =
    ground (arith, get_elem?-set_logger_level log level loggers i)

-- The table has the reference.
unfoldable pub refers : List (Option ℕ) → ℕ → Bool
refers [] i = false
refers (none ∷ vlog) i = refers vlog i
refers (some log ∷ vlog) i = eqb log i || refers vlog i

get_elem?-set_levels :
    (vlog : List (Option ℕ)) (level : ℕ) (loggers : List Logger) (i : ℕ)
    → get_elem? (set_levels vlog level loggers) i
      ≡ (if refers vlog i then at_level level (get_elem? loggers i) else get_elem? loggers i)
unfolding set_levels refers
get_elem?-set_levels [] level loggers i = refl
get_elem?-set_levels (none ∷ vlog) level loggers i = get_elem?-set_levels vlog level loggers i
get_elem?-set_levels (some log ∷ vlog) level loggers i = ground (
  arith,
  get_elem?-set_levels vlog level (set_logger_level log level loggers) i,
  get_elem?-set_logger_level log level loggers i,
)

refers-get_elem? :
    (vlog : List (Option ℕ)) (k i : ℕ) → get_elem? vlog k ≡ some (some i) → refers vlog i ≡ true
unfolding refers
refers-get_elem? [] k i e = cc
refers-get_elem? (none ∷ vlog) zero i e = cc
refers-get_elem? (some log ∷ vlog) zero i e = ground arith
refers-get_elem? (none ∷ vlog) (suc k) i e = refers-get_elem? vlog k i e
refers-get_elem? (some log ∷ vlog) (suc k) i e = ground (arith, refers-get_elem? vlog k i e)

priority_at : (l : ℕ) → l < ll_loglevel_size → ℕ
priority_at zero h = 7
priority_at (suc zero) h = 6
priority_at (suc (suc zero)) h = 4
priority_at (suc (suc (suc zero))) h = 3
priority_at (suc (suc (suc (suc l)))) h = 2

priority_found :
    (l : ℕ) (h : l < ll_loglevel_size)
    → get_elem? log_level_to_syslog_level l ≡ some (priority_at l h)
unfolding priority_at
priority_found zero h = refl
priority_found (suc zero) h = refl
priority_found (suc (suc zero)) h = refl
priority_found (suc (suc (suc zero))) h = refl
priority_found (suc (suc (suc (suc zero)))) h = refl
priority_found (suc (suc (suc (suc (suc l))))) h = absurd (omega arith)

pub set_log_level_total :
    (l : ℕ) (st : Logging)
    → l < ll_loglevel_size
    → (st' : Logging) × (set_log_level (pos l) st ≡ some st')
unfolding set_log_level
set_log_level_total l st h = (
  record st { log_level = pos l; loggers = set_levels st.vlog (priority_at l h) st.loggers },
  rw (set_log_level, priority_found l h) refl,
)

-- The priorities order the methods as the levels do.
priority_order :
    (m : Method) (l : ℕ) (h : l < ll_loglevel_size)
    → leb (priority_of m) (priority_at l h) ≡ leb l (level_of m)
unfolding priority_at
priority_order debug zero h = refl
priority_order debug (suc zero) h = refl
priority_order debug (suc (suc zero)) h = refl
priority_order debug (suc (suc (suc zero))) h = refl
priority_order debug (suc (suc (suc (suc l)))) h = ground arith
priority_order info zero h = refl
priority_order info (suc zero) h = refl
priority_order info (suc (suc zero)) h = refl
priority_order info (suc (suc (suc zero))) h = refl
priority_order info (suc (suc (suc (suc l)))) h = ground arith
priority_order warning zero h = refl
priority_order warning (suc zero) h = refl
priority_order warning (suc (suc zero)) h = refl
priority_order warning (suc (suc (suc zero))) h = refl
priority_order warning (suc (suc (suc (suc l)))) h = ground arith
priority_order error zero h = refl
priority_order error (suc zero) h = refl
priority_order error (suc (suc zero)) h = refl
priority_order error (suc (suc (suc zero))) h = refl
priority_order error (suc (suc (suc (suc l)))) h = ground arith
priority_order critical zero h = refl
priority_order critical (suc zero) h = refl
priority_order critical (suc (suc zero)) h = refl
priority_order critical (suc (suc (suc zero))) h = refl
priority_order critical (suc (suc (suc (suc l)))) h = ground arith

write_message_filtered :
    (lg : Logger) (m : Method) (msg : String) (st : Logging) (l : ℕ) (h : l < ll_loglevel_size)
    → lg.is_console ≡ true
    → lg.sl_log_level ≡ priority_at l h
    → write_message lg m msg st
      ≡ (if leb l (level_of m) then record st { printed = (tag_of m, msg) ∷ st.printed } else st)
unfolding write_message
write_message_filtered lg m msg st l h console level =
    rw (console, level, priority_order m l h) refl

-- What SetLogLevel and a message after it do, where the level is `l` and the logger of the message's
-- level is the console logger: the message is printed exactly if its level is at least `l`.
pub record IsFiltered (l : ℕ) (m : Method) (msg : String) (st st' : Logging) : Type 0 where
  pub set : set_log_level (pos l) st ≡ some st'
  pub logged :
      log_message m msg st'
      ≡ some (
          if leb l (level_of m)
          then record st' { printed = (tag_of m, msg) ∷ st'.printed }
          else st')

-- After SetLogLevel with one of the five levels, a message whose entry of the table is a console
-- logger is printed exactly if its level is at least the level set, whatever was set before.
pub log_message-IsFiltered :
    (l : ℕ) (m : Method) (msg : String) (st : Logging) (log : ℕ) (lg : Logger)
    → l < ll_loglevel_size
    → get_elem? st.vlog (level_of m) ≡ some (some log)
    → get_elem? st.loggers log ≡ some lg
    → lg.is_console ≡ true
    → (st' : Logging) × IsFiltered l m msg st st'
unfolding set_log_level log_message
log_message-IsFiltered l m msg st log lg h entry known console =
    let sl = priority_at l h in
    let st' = record st { log_level = pos l; loggers = set_levels st.vlog sl st.loggers } in
    let lg' = record lg { sl_log_level = sl } in
    let found : get_elem? (set_levels st.vlog sl st.loggers) log ≡ some lg' =
      get_elem?-set_levels st.vlog sl st.loggers log
      ∙ rw (refers-get_elem? st.vlog (level_of m) log entry, known) refl in
    (
      st',
      record {
        set = rw (set_log_level, priority_found l h) refl;
        logged =
            rw (log_message, entry, found)
              (ap some (write_message_filtered lg' m msg st' l h console refl));
      },
    )

-- What the functions that end the program do after SetLogLevel.
pub record IsLoud (msg : String) (st' : Logging) : Type 0 where
  pub fatally :
      fatal_message msg st'
      ≡ some (exits (record st' { printed = ("[CRITICAL]", msg) ∷ st'.printed }))
  pub panicking :
      panic_message msg st'
      ≡ some (panics_with msg (record st' { printed = ("[CRITICAL]", msg) ∷ st'.printed }))

-- After SetLogLevel with any of the five levels, Fatal and Panic print their message before they end
-- the program, if the entry of the highest level is a console logger.
pub fatal_message-IsLoud :
    (l : ℕ) (msg : String) (st : Logging) (log : ℕ) (lg : Logger)
    → l < ll_loglevel_size
    → get_elem? st.vlog 4 ≡ some (some log)
    → get_elem? st.loggers log ≡ some lg
    → lg.is_console ≡ true
    → (st' : Logging) × (set_log_level (pos l) st ≡ some st') × IsLoud msg st'
unfolding fatal_message panic_message
fatal_message-IsLoud l msg st log lg h entry known console =
    let (st', f) = log_message-IsFiltered l critical msg st log lg h entry known console in
    let printed : log_message critical msg st'
        ≡ some (record st' { printed = ("[CRITICAL]", msg) ∷ st'.printed }) =
      ground (arith, f.logged) in
    (
      st',
      f.set,
      record {
        fatally = rw (fatal_message, printed) refl;
        panicking = rw (panic_message, printed) refl;
      },
    )
