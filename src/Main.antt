-- ===== src/Main.antt =====
-- main.go: the checks of the command line, the credentials, and the start of the program. The flags
-- are variables that the checks may change. Files and connections are arguments.
pub mod Args
pub mod Start
pub mod Watch
pub mod Connect
mod Tests
use Prim.Native.Char.{Char}
use f5_ipam_ctlr.Prelude.{
  Bool, List, Option, String, append, if◌then◌else◌, is_empty, is_negative, none, not, some,
  string_eq, true, ℤ, ◌&&◌, ◌==◌, ◌||◌,
}
use f5_ipam_ctlr.Vlogger.{
  Logging, info, ll_max_level, ll_min_level, log_message, new_logger, register_logger,
  set_log_level,
}
use f5_ipam_ctlr.Vlogger.Levels.{new_log_level, to_lower}

-- The flags that the program reads, by their variables.
pub record Flags : Type 0 where
  pub log_level : String
  pub orch : String
  pub mgr : String
  pub verify_interval : ℤ
  pub print_version : Bool
  pub namespaces : List String
  pub namespace_label : String
  pub in_cluster : Bool
  pub kube_config : String
  pub ib_host : String
  pub ib_version : String
  pub ib_port : ℤ
  pub ib_username : String
  pub ib_password : String
  pub creds_dir : String

-- The errors of `verifyArgs`.
pub data ArgError : Type 0 where
  unknown_log_level : ArgError
  no_orchestration : ArgError
  no_ip_manager : ArgError
  negative_interval : ArgError
  both_namespaces : ArgError
  no_infoblox_parameter : ArgError
  no_credentials : ArgError
  both_credentials : ArgError

abbrev pub infoblox : String
infoblox = "infoblox"

-- `len(s) == 0`
abbrev pub is_blank : String → Bool
is_blank s = s == ""

-- The checks that follow `*mgr == INFOBLOX`.
unfoldable pub verify_infoblox : Flags → Option ArgError
verify_infoblox o =
    if is_blank o.ib_host || is_blank o.ib_version
    then some no_infoblox_parameter
    else (if (is_blank o.ib_username || is_blank o.ib_password) && is_blank o.creds_dir
        then some no_credentials
        else (if not (is_blank o.ib_username)
              && (not (is_blank o.ib_password) && not (is_blank o.creds_dir))
            then some both_credentials
            else none))

-- The checks after the two names are in lower case.
unfoldable pub verify_lowered : Flags → Option ArgError
unfolding verify_infoblox
verify_lowered o =
    if not (is_empty o.namespaces) && not (is_blank o.namespace_label)
    then some both_namespaces
    else (if o.mgr == infoblox then verify_infoblox o else none)

-- The flags and the loggers after `verifyArgs`, and its error.
pub record Verified : Type 0 where
  pub flags : Flags
  pub logging : Logging
  pub err : Option ArgError

module _ (beyond : Char → Char) where
  abbrev pub lowered : Flags → Flags
  lowered o = record o { orch = to_lower beyond o.orch; mgr = to_lower beyond o.mgr }

  -- `verifyArgs` after the log level.
  unfoldable pub verify_flags : Flags → Flags × Option ArgError
  unfolding verify_lowered
  verify_flags o =
      if is_blank o.orch
      then (o, some no_orchestration)
      else (if is_blank o.mgr
          then (o, some no_ip_manager)
          else (if is_negative o.verify_interval
              then (o, some negative_interval)
              else (lowered o, verify_lowered (lowered o))))

  -- The level is set, and the other checks follow.
  unfoldable pub verify_level : ℤ → Flags → Logging → Option Verified
  unfolding verify_flags
  verify_level ll o st = elim (set_log_level ll st) [
    | none ↦ none
    | some st' ↦
        some (record { flags = (verify_flags o).0; logging = st'; err = (verify_flags o).1 })
  ]

  -- `verifyArgs`; `none` is a panic of the loggers.
  unfoldable pub verify_args : Flags → Logging → Option Verified
  unfolding verify_level
  verify_args o st =
      let made = new_logger true st in
      elim (register_logger ll_min_level ll_max_level made.1 made.0) [
        | none ↦ none
        | some st' ↦ elim (new_log_level beyond o.log_level) [
          | none ↦ some (record { flags = o; logging = st'; err = some unknown_log_level })
          | some ll ↦ verify_level ll o st'
        ]
      ]

-- `strings.HasSuffix`
unfoldable pub has_suffix : String → String → Bool
has_suffix String.[] suffix = suffix == ""
has_suffix (String.◌∷◌ c s) suffix =
    let rest = has_suffix s suffix in if String.◌∷◌ c s == suffix then true else rest

unfoldable pub credential_file : String → String → String
unfolding has_suffix append
credential_file creds_dir name =
    if has_suffix creds_dir "/" then append creds_dir name else append creds_dir (append "/" name)

-- `getCredentials`; the files are a function of their paths, and `none` is the end of the program.
unfoldable pub get_credentials : (String → Option String) → Flags → Option Flags
unfolding credential_file
get_credentials files o =
    if o.mgr == infoblox && not (is_blank o.creds_dir)
    then elim (files (credential_file o.creds_dir "infoblox-username")) [
      | none ↦ none
      | some usr ↦ elim (files (credential_file o.creds_dir "infoblox-password")) [
        | none ↦ none
        | some pass ↦ some (record o { ib_username = usr; ib_password = pass })
      ]
    ]
    else some o

-- What lies outside: the line with the version, the files, whether the Kubernetes client can be
-- made from a configuration, and whether the Infoblox client can.
pub record World : Type 0 where
  pub version_line : String
  pub files : String → Option String
  pub kube_connects : Flags → Bool
  pub infoblox_connects : Flags → Bool

-- `main`: it prints the version and exits, or it ends with the usage, with a fatal message, or in a
-- panic, or it starts the controller with the flags.
pub data Outcome : Type 0 where
  prints_version : Outcome
  bad_usage : ArgError → Outcome
  fatal : Outcome
  panics : Outcome
  started : Flags → Logging → Outcome

-- The two `switch` statements of `main`.
unfoldable pub start_clients : World → Flags → Logging → Outcome
start_clients w o st =
    if o.orch == "kubernetes" || (o.orch == "k8s" || o.orch == "openshift")
    then (if w.kube_connects o
        then (if o.mgr == infoblox
            then (if w.infoblox_connects o then started o st else fatal)
            else fatal)
        else fatal)
    else fatal

unfoldable pub start_verified : World → Verified → Outcome
unfolding start_clients get_credentials log_message
start_verified w v = elim v.err [
  | some e ↦ bad_usage e
  | none ↦ elim (get_credentials w.files v.flags) [
    | none ↦ fatal
    | some o ↦ elim (log_message info w.version_line v.logging) [
      | none ↦ panics
      | some st ↦ start_clients w o st
    ]
  ]
]

-- `main` from the parsed flags on.
unfoldable pub main : (Char → Char) → World → Flags → Logging → Outcome
unfolding verify_args start_verified
main beyond w o st =
    if o.print_version
    then prints_version
    else elim (verify_args beyond o st) [ none ↦ panics | some v ↦ start_verified w v ]
