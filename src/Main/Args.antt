-- ===== src/Main/Args.antt =====
-- Which flags `verifyArgs` of main.go accepts, and which the controller starts with.
use Prim.Native.Char.{Char}
use f5_ipam_ctlr.Prelude.{
  Bool, List, Option, Option-cases, String, [], arith, false, get_elem?, if◌then◌else◌, inl, inr,
  is_empty, is_negative, leb, length, negsuc, none, not, pos, refl, some, string_eq, true, ℕ, ◌&&◌,
  ◌++◌, ◌<◌, ◌==◌, ◌||◌, ◌↔◌, ◌∷◌, ◌≡◌, ◌≤◌, ◌⊎◌,
}
use f5_ipam_ctlr.Main.{
  Flags, Verified, infoblox, is_blank, lowered, unknown_log_level, verify_args, verify_flags,
  verify_infoblox, verify_level, verify_lowered,
}
use f5_ipam_ctlr.Prelude.GoMap.{is_some}
use f5_ipam_ctlr.Vlogger.{
  Logger, Logging, Method, critical, debug, error, info, level_of, ll_loglevel_size, ll_max_level,
  ll_min_level, log_message, new_logger, register_logger, set_log_level, tag_of, warning,
}
use f5_ipam_ctlr.Vlogger.Filter.{log_message-IsFiltered, set_log_level_total}
use f5_ipam_ctlr.Vlogger.Levels.{new_log_level, new_log_level_iff, to_lower}
use f5_ipam_ctlr.Vlogger.Register.{register_logger_bounds}

-- Exactly one of the two holds.
abbrev pub one_of : Bool → Bool → Bool
one_of true b = not b
one_of false b = b

abbrev pub given : String → Bool
given s = not (is_blank s)

-- Host and version are given, and either both the username and the password or the directory.
abbrev pub infoblox_usable : Flags → Bool
infoblox_usable o =
    given o.ib_host
    && (given o.ib_version
        && one_of (given o.ib_username && given o.ib_password) (given o.creds_dir))

module _ (beyond : Char → Char) where
  -- What the flags must be: a level, both names, an interval that is not negative, at most one way to
  -- choose the namespaces, and what Infoblox needs if it is the manager.
  abbrev pub usable_flags : Flags → Bool
  usable_flags o =
      given o.orch
      && (given o.mgr
          && (not (is_negative o.verify_interval)
              && ((is_empty o.namespaces || is_blank o.namespace_label)
                  && (not (to_lower beyond o.mgr == infoblox) || infoblox_usable o))))

  verify_infoblox-usable : (o : Flags) → (verify_infoblox o ≡ none) ↔ (infoblox_usable o ≡ true)
  unfolding verify_infoblox
  verify_infoblox-usable o = ground arith

  pub verify_flags-usable :
      (o : Flags) → ((verify_flags beyond o).1 ≡ none) ↔ (usable_flags o ≡ true)
  unfolding verify_flags verify_lowered
  verify_flags-usable o = ground (arith, verify_infoblox-usable (lowered beyond o))

get_elem?-◌++◌ : {A : Type 0} (xs : List A) (a : A) → get_elem? (xs ++ a ∷ []) (length xs) ≡ some a
get_elem?-◌++◌ [] a = refl
get_elem?-◌++◌ (x ∷ xs) a = get_elem?-◌++◌ xs a

-- The table after the console logger was registered at every level.
record HasConsole (log : ℕ) (st : Logging) : Type 0 where
  entry : (m : Method) → get_elem? st.vlog (level_of m) ≡ some (some log)
  lg : Logger
  known : get_elem? st.loggers log ≡ some lg
  console : lg.is_console ≡ true

register_console : Logging → Option Logging
register_console st =
    let made = new_logger true st in register_logger ll_min_level ll_max_level made.1 made.0

level_of_bound : (m : Method) → level_of m ≤ 4
level_of_bound debug = ground arith
level_of_bound info = ground arith
level_of_bound warning = ground arith
level_of_bound error = ground arith
level_of_bound critical = ground arith

register_console-HasConsole :
    (st : Logging)
    → length st.vlog ≡ ll_loglevel_size
    → (st' : Logging) × (register_console st ≡ some st') × HasConsole (length st.loggers) st'
unfolding register_console new_logger
register_console-HasConsole st size =
    let made = new_logger true st in
    let bounds = register_logger_bounds 0 4 made.1 made.0 in
    elim (Option-cases (register_console st)) [
      | inl e ↦ absurd (let h = bounds.0.0 e in omega arith)
      | inr (st', e) ↦ (
        st',
        e,
        let kept = bounds.1 st' e in
            record {
              entry = λ m. ground (arith, kept.1 (level_of m), level_of_bound m);
              lg = record { is_console = true; sl_log_level = 7 };
              known = rw (kept.0) (get_elem?-◌++◌ st.loggers _);
              console = refl;
            },
      )
    ]

-- The level is set, and the messages are filtered by it.
pub record IsAtLevel (l : ℕ) (st : Logging) : Type 0 where
  pub after : Logging
  pub sets : set_log_level (pos l) st ≡ some after
  pub logs :
      (m : Method) (msg : String)
      → log_message m msg after
        ≡ some (
            if leb l (level_of m)
            then record after { printed = (tag_of m, msg) ∷ after.printed }
            else after)

set_log_level-IsAtLevel :
    (l log : ℕ) (st : Logging) → l < ll_loglevel_size → HasConsole log st → IsAtLevel l st
set_log_level-IsAtLevel l log st h c =
    let (st', e) = set_log_level_total l st h in
    record {
      after = st';
      sets = e;
      logs = λ m msg.
          let (st1, f) =
            log_message-IsFiltered l m msg st log c.lg h (c.entry m) c.known c.console in
          let same : st1 ≡ st' = cc (f.set, e) in rw (← same) f.logged;
    }

module _ (beyond : Char → Char) where
  -- The level is one of the five, and the other flags are usable.
  abbrev pub usable : Flags → Bool
  usable o = is_some (new_log_level beyond o.log_level) && usable_flags beyond o

  pub verify_args_cases :
      (o : Flags) (st : Logging)
      → length st.vlog ≡ ll_loglevel_size
      → ((v : Verified) × (new_log_level beyond o.log_level ≡ none)
          × (verify_args beyond o st ≡ some v)
          × (v.err ≡ some unknown_log_level))
        ⊎ ((l : ℕ) × (st' : Logging) × (s : IsAtLevel l st') × (new_log_level beyond o.log_level
              ≡ some (pos l))
            × (verify_args beyond o st
                ≡ some (record {
                  flags = (verify_flags beyond o).0;
                  logging = s.after;
                  err = (verify_flags beyond o).1;
                })))
  unfolding verify_args verify_level register_console
  verify_args_cases o st size =
      let (st', e, c) = register_console-HasConsole st size in
      elim (Option-cases (new_log_level beyond o.log_level)) [
        | inl unknown ↦
            let v : Verified = record { flags = o; logging = st'; err = some unknown_log_level } in
            inl (v, unknown, rw (verify_args, e, unknown) refl, refl)
        | inr (negsuc n, known) ↦ absurd (
            let h = (new_log_level_iff beyond o.log_level (negsuc n)).0 known in
            ground (arith, h.0))
        | inr (pos l, known) ↦
            let h = (new_log_level_iff beyond o.log_level (pos l)).0 known in
            let s = set_log_level-IsAtLevel l _ st' (ground (arith, h.0)) c in
            inr (l, st', s, known, rw (verify_args, e, known, verify_level, s.sets) refl)
      ]

  -- After verifyArgs with the name of a level, a message is printed exactly if its level is at least
  -- that one, whether the other flags are accepted or not.
  pub verify_args_filters :
      (o : Flags) (st : Logging) (l : ℕ) (v : Verified)
      → length st.vlog ≡ ll_loglevel_size
      → new_log_level beyond o.log_level ≡ some (pos l)
      → verify_args beyond o st ≡ some v
      → (m : Method) (msg : String)
      → log_message m msg v.logging
        ≡ some (
            if leb l (level_of m)
            then record (v.logging) { printed = (tag_of m, msg) ∷ v.logging.printed }
            else v.logging)
  verify_args_filters o st l v size known e m msg = elim (verify_args_cases o st size) [
    | inl (v', unknown, e', err) ↦ cc (unknown, known)
    | inr (l', st', s, known', e') ↦
        let same : s.after ≡ v.logging = cc (e, e') in
        let level : l' ≡ l = cc (known, known') in rw (← same, ← level) (s.logs m msg)
  ]
