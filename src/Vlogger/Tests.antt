-- ===== src/Vlogger/Tests.antt =====
-- The loggers as `init` of log_null.go leaves them, and the theorems of the loggers at them.
use Prim.Native.Char.{Char}
use f5_ipam_ctlr.Prelude.{
  List, Option, [], arith, false, get_elem?, if◌then◌else◌, leb, none, pos, refl, some, true, ℕ,
  ◌&&◌, ◌↔◌, ◌∷◌, ◌≡◌, ◌≤◌,
}
use f5_ipam_ctlr.Vlogger.{
  Logging, init, new_logger, no_loggers, register_logger, register_loop, rounds, set_entry,
  set_log_level,
}
use f5_ipam_ctlr.Vlogger.Filter.{IsLoud, fatal_message-IsLoud}
use f5_ipam_ctlr.Vlogger.Levels.{
  is_level, marshal_json, unmarshal_json, unmarshal_json-marshal_json,
}
use f5_ipam_ctlr.Vlogger.Register.{register_logger_bounds}

init_vlog : Option (List (Option ℕ))
unfolding init register_logger
init_vlog = elim init [ none ↦ none | some st ↦ some st.vlog ]

-- The null logger stands at every level.
init_loggers : init_vlog ≡ some (some 0 ∷ some 0 ∷ some 0 ∷ some 0 ∷ some 0 ∷ [])
unfolding init_vlog init register_logger rounds register_loop set_entry new_logger
init_loggers = refl

abbrev same_char : Char → Char
same_char c = c

-- Six is beyond the levels.
unmarshal_json-marshal_json_example :
    unmarshal_json same_char (pos 1) (marshal_json (pos 6))
    ≡ (if is_level (pos 6) then (pos 6, false) else (pos 1, true))
unmarshal_json-marshal_json_example = unmarshal_json-marshal_json same_char (pos 1) (pos 6)

register_logger_bounds_example :
    ((register_logger (pos 3) (pos 5) 0 no_loggers ≡ none) ↔ ((3 ≤ 5) × (5 ≤ 5)))
    × ((st' : Logging)
        → register_logger (pos 3) (pos 5) 0 no_loggers ≡ some st'
        → (st' ≡ record no_loggers { vlog = st'.vlog })
          × ((i : ℕ)
              → get_elem? st'.vlog i
                ≡ (if leb 3 i && leb i 5 then some (some 0) else get_elem? no_loggers.vlog i)))
register_logger_bounds_example = register_logger_bounds 3 5 0 no_loggers

-- A console logger at the highest level only.
abbrev one_console : Logging
one_console = record {
  vlog = none ∷ none ∷ none ∷ none ∷ some 0 ∷ [];
  log_level = pos 0;
  loggers = record { is_console = true; sl_log_level = 7 } ∷ [];
  printed = [];
}

fatal_message-IsLoud_example :
    (st' : Logging) × (set_log_level (pos 4) one_console ≡ some st') × IsLoud "lost" st'
fatal_message-IsLoud_example =
    fatal_message-IsLoud 4 "lost" one_console 0 (record { is_console = true; sl_log_level = 7 })
      (ground arith) refl refl refl
