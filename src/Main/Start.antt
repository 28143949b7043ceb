-- ===== src/Main/Start.antt =====
-- When `main` of main.go starts the controller, and with which flags.
use Prim.Native.Char.{Char}
use f5_ipam_ctlr.Prelude.{
  Bool, Bool-cases, Option-cases, String, arith, false, inl, inr, length, none, refl, some,
  string_eq, true, ◌&&◌, ◌==◌, ◌||◌, ◌↔◌, ◌≡◌,
}
use f5_ipam_ctlr.Main.{
  ArgError, Flags, Outcome, Verified, World, bad_usage, fatal, get_credentials, infoblox, lowered,
  main, panics, prints_version, start_clients, start_verified, started, unknown_log_level,
  verify_args, verify_flags,
}
use f5_ipam_ctlr.Main.Args.{usable, verify_args_cases, verify_flags-usable}
use f5_ipam_ctlr.Vlogger.{Logging, info, ll_loglevel_size, log_message}

-- The two `switch` statements find their clients, and the connections are made.
abbrev pub may_start : World → Flags → Bool
may_start w o =
    (o.orch == "kubernetes" || (o.orch == "k8s" || o.orch == "openshift"))
    && (o.mgr == infoblox && (w.kube_connects o && w.infoblox_connects o))

is_started :
    (w : World) (o o' : Flags) (st st' : Logging)
    → (start_clients w o st ≡ started o' st') ↔ ((may_start w o ≡ true) × (o ≡ o') × (st ≡ st'))
unfolding start_clients
is_started w o o' st st' = ground arith

start_clients-panics : (w : World) (o : Flags) (st : Logging) → ¬ (start_clients w o st ≡ panics)
unfolding start_clients
start_clients-panics w o st e = ground arith

-- The program does not panic, and starts the controller with `o'` exactly if `P` holds of them.
record StartsIff (r : Outcome) (P : Flags → Type 0) : Type 0 where
  safe : ¬ (r ≡ panics)
  starts : (o' : Flags) → ((st' : Logging) × (r ≡ started o' st')) ↔ P o'

start_verified-StartsIff :
    (w : World) (o : Flags) (st : Logging)
    → ((msg : String) → (st' : Logging) × (log_message info msg st ≡ some st'))
    → StartsIff
        (start_verified w (record { flags = o; logging = st; err = none }))
        (λ o'. (get_credentials w.files o ≡ some o') × (may_start w o' ≡ true))
unfolding start_verified
start_verified-StartsIff w o st logs = elim (Option-cases (get_credentials w.files o)) [
  | inl lost ↦
      let e : start_verified w (record { flags = o; logging = st; err = none }) ≡ fatal =
        rw (start_verified, lost) refl in
      rw e (record { safe = λ h. cc h; starts = λ o'. (λ h. cc (h.1), λ h. cc (h.0, lost)) })
  | inr (o1, found) ↦
      let (st1, logged) = logs w.version_line in
      let e : start_verified w (record { flags = o; logging = st; err = none })
          ≡ start_clients w o1 st1 =
        rw (start_verified, found, logged) refl in
      rw e (record {
        safe = start_clients-panics w o1 st1;
        starts = λ o'. (
          λ (st', h).
              let k = (is_started w o1 o' st1 st').0 h in (rw (← k.1) found, rw (← k.1) k.0),
          λ h.
              let same : o1 ≡ o' = cc (found, h.0) in
              (st1, (is_started w o1 o' st1 st1).1 (rw same h.1, same, refl)),
        );
      })
]

prints_version-StartsIff :
    (P : Flags → Type 0) → ((o' : Flags) → ¬ P o') → StartsIff prints_version P
prints_version-StartsIff P never = record {
  safe = λ h. cc h;
  starts = λ o'. (λ h. cc (h.1), λ h. absurd (never o' h));
}

bad_usage-StartsIff :
    (e : ArgError) (P : Flags → Type 0) → ((o' : Flags) → ¬ P o') → StartsIff (bad_usage e) P
bad_usage-StartsIff e P never = record {
  safe = λ h. cc h;
  starts = λ o'. (λ h. cc (h.1), λ h. absurd (never o' h));
}

module _ (beyond : Char → Char) where
  verify_flags-lowered :
      (o : Flags) → (verify_flags beyond o).1 ≡ none → (verify_flags beyond o).0 ≡ lowered beyond o
  unfolding verify_flags
  verify_flags-lowered o h = ground arith

  -- What the flags that the controller starts with must be.
  abbrev pub StartsWith : World → Flags → Flags → Type 0
  StartsWith w o o' =
      (o.print_version ≡ false)
      × (usable beyond o ≡ true)
      × (get_credentials w.files (lowered beyond o) ≡ some o')
      × (may_start w o' ≡ true)

  main_verified :
      (w : World) (o : Flags) (st : Logging) (v : Verified)
      → o.print_version ≡ false
      → verify_args beyond o st ≡ some v
      → main beyond w o st ≡ start_verified w v
  unfolding main
  main_verified w o st v works e = rw (main, works, e) refl

  main-bad_usage :
      (w : World) (o : Flags) (st : Logging) (v : Verified) (err : ArgError)
      → o.print_version ≡ false
      → verify_args beyond o st ≡ some v
      → v.err ≡ some err
      → main beyond w o st ≡ bad_usage err
  unfolding start_verified
  main-bad_usage w o st v err works e bad =
      rw (main_verified w o st v works e, start_verified, bad) refl

  main_works :
      (w : World) (o : Flags) (st : Logging)
      → o.print_version ≡ false
      → length st.vlog ≡ ll_loglevel_size
      → StartsIff (main beyond w o st) (StartsWith w o)
  main_works w o st works size = elim (verify_args_cases beyond o st size) [
    | inl (v, unknown, e, err) ↦
        let r : main beyond w o st ≡ bad_usage unknown_log_level =
          main-bad_usage w o st v _ works e err in
        rw r (bad_usage-StartsIff _ _ (λ o' h. ground (arith, h.1, unknown)))
    | inr (l, st', s, known, e) ↦ elim (Option-cases ((verify_flags beyond o).1)) [
      | inr (err, bad) ↦
          let r : main beyond w o st ≡ bad_usage err = main-bad_usage w o st _ err works e bad in
          rw r (
            bad_usage-StartsIff err _
              (λ o' h. ground (arith, h.1, bad, verify_flags-usable beyond o)))
      | inl good ↦
          let o1 = verify_flags-lowered o good in
          let r : main beyond w o st
              ≡ start_verified w
                  (record { flags = lowered beyond o; logging = s.after; err = none }) =
            rw (main_verified w o st _ works e, good, o1) refl in
          let i =
            start_verified-StartsIff w (lowered beyond o) s.after (λ msg. (_, s.logs info msg)) in
          let fine : usable beyond o ≡ true =
            ground (arith, known, good, verify_flags-usable beyond o) in
          rw r (record {
            safe = i.safe;
            starts = λ o'. (
              λ h. let k = (i.starts o').0 h in (works, fine, k.0, k.1),
              λ h. (i.starts o').1 (h.2, h.3),
            );
          })
    ]
  ]

  main-StartsIff :
      (w : World) (o : Flags) (st : Logging)
      → length st.vlog ≡ ll_loglevel_size
      → StartsIff (main beyond w o st) (StartsWith w o)
  unfolding main
  main-StartsIff w o st size = elim (Bool-cases o.print_version) [
    | inr works ↦ main_works w o st works size
    | inl asked ↦
        let r : main beyond w o st ≡ prints_version = rw (main, asked) refl in
        rw r (prints_version-StartsIff _ (λ o' h. ground (arith, h.0, asked)))
  ]

  -- With a table of five loggers, main never panics, and it starts the controller with the flags
  -- `o'` exactly if the version is not asked for, the given flags are usable, `o'` are the flags in lower case with the
  -- credentials read, the orchestration is a supported one, the manager is Infoblox, and both
  -- clients are made.
  pub main_starts :
      (w : World) (o : Flags) (st : Logging)
      → length st.vlog ≡ ll_loglevel_size
      → (¬ (main beyond w o st ≡ panics))
        × ((o' : Flags)
            → ((st' : Logging) × (main beyond w o st ≡ started o' st')) ↔ StartsWith w o o')
  main_starts w o st size = let i = main-StartsIff w o st size in (i.safe, i.starts)
