-- ===== src/Main/Tests.antt =====
-- A command line for Kubernetes and Infoblox, and the theorems of `main` at it.
use Prim.Native.Char.{Char}
use f5_ipam_ctlr.Prelude.{
  Option, String, [], append, contains, false, if◌then◌else◌, is_empty, leb, negsuc, none, not, pos,
  refl, some, str_beq, string_eq, true, ℤ, ◌&&◌, ◌==◌, ◌||◌, ◌↔◌, ◌∷◌, ◌≡◌,
}
use f5_ipam_ctlr.Infoblox.Requests.{Grid, ea_key, host_config, new_infoblox_client}
use f5_ipam_ctlr.Main.{
  Flags, World, credential_file, get_credentials, has_suffix, is_blank, lowered, main, panics,
  start_clients, start_verified, started, verify_args, verify_flags, verify_infoblox, verify_level,
  verify_lowered,
}
use f5_ipam_ctlr.Main.Args.{verify_args_filters}
use f5_ipam_ctlr.Main.Connect.{HasCredentials, infoblox_params, main_connects, on_grid}
use f5_ipam_ctlr.Main.Start.{StartsWith, main_starts}
use f5_ipam_ctlr.Main.Watch.{kube_params, main_watches}
use f5_ipam_ctlr.Orchestration.Kubernetes.Namespaces.{watched}
use f5_ipam_ctlr.Orchestration.Kubernetes.NewClient.{new_kubernetes_client}
use f5_ipam_ctlr.Orchestration.Kubernetes.NewClient.Watches.{starts_with_all}
use f5_ipam_ctlr.Vlogger.{
  Logging, info, level_of, log_message, new_logger, no_loggers, register_logger, register_loop,
  rounds, set_entry, set_levels, set_log_level, set_logger_level, tag_of, write_message,
}
use f5_ipam_ctlr.Vlogger.Levels.{level_named, lower_char, new_log_level, to_lower}

abbrev same_char : Char → Char
same_char c = c

abbrev flags : Flags
flags = record {
  log_level = "Warning";
  orch = "Kubernetes";
  mgr = "infoblox";
  verify_interval = pos 30;
  print_version = false;
  namespaces = "web" ∷ "db" ∷ [];
  namespace_label = "";
  in_cluster = true;
  kube_config = "./config";
  ib_host = "10.0.0.1";
  ib_version = "2.2";
  ib_port = pos 443;
  ib_username = "";
  ib_password = "";
  creds_dir = "/creds";
}

abbrev files : String → Option String
files path =
    if path == "/creds/infoblox-username"
    then some "admin"
    else (if path == "/creds/infoblox-password" then some "secret" else none)

abbrev world : World
world = record {
  version_line = "Starting";
  files = files;
  kube_connects = λ o. true;
  infoblox_connects = λ o. true;
}

-- The flags that the controller starts with.
abbrev ready : Flags
ready = record flags { orch = "kubernetes"; ib_username = "admin"; ib_password = "secret" }

main_starts_example :
    (¬ (main same_char world flags no_loggers ≡ panics))
    × ((o' : Flags)
        → ((st' : Logging) × (main same_char world flags no_loggers ≡ started o' st'))
          ↔ StartsWith same_char world flags o')
main_starts_example = main_starts same_char world flags no_loggers refl

ready_credentials : get_credentials files (lowered same_char flags) ≡ some ready
unfolding get_credentials credential_file to_lower append str_beq
ready_credentials = refl

abbrev at_warning : Logging
at_warning = record {
  vlog = some 0 ∷ some 0 ∷ some 0 ∷ some 0 ∷ some 0 ∷ [];
  log_level = pos 2;
  loggers = record { is_console = true; sl_log_level = 4 } ∷ [];
  printed = [];
}

checked :
    verify_args same_char flags no_loggers
    ≡ some (record { flags = lowered same_char flags; logging = at_warning; err = none })
unfolding verify_args verify_level verify_flags verify_lowered verify_infoblox new_log_level
    to_lower level_named lower_char register_logger register_loop rounds set_entry new_logger
    set_log_level set_levels set_logger_level str_beq
checked = refl

-- Information is not printed.
verify_args_filters_example :
    log_message info "hello" at_warning
    ≡ some (
        if leb 2 (level_of info)
        then record at_warning { printed = (tag_of info, "hello") ∷ at_warning.printed }
        else at_warning)
unfolding new_log_level to_lower lower_char level_named str_beq
verify_args_filters_example =
    verify_args_filters same_char flags no_loggers 2
      (record { flags = lowered same_char flags; logging = at_warning; err = none }) refl refl
      checked info "hello"

runs : main same_char world flags no_loggers ≡ started ready at_warning
unfolding main start_verified start_clients get_credentials log_message write_message
    credential_file has_suffix append to_lower lower_char str_beq
runs = rw (main, checked) refl

abbrev web : String
web = "web"

main_watches_example :
    watched (new_kubernetes_client tt (λ label. none) (kube_params ready)).0 web ≡ (
      if is_empty flags.namespaces
      then is_blank flags.namespace_label
      else starts_with_all flags.namespaces || (contains flags.namespaces web && not (web == "")))
main_watches_example =
    main_watches {Selector = Unit} tt (λ label. none) same_char world flags ready no_loggers
      at_warning refl runs web

-- A server that lets the definition of the attribute be made.
abbrev grid : Grid
grid = record {
  connects = λ cfg. cfg.username == "admin" && cfg.password == "secret";
  has_definition = λ key. false;
  creates_definition = λ key. true;
}

abbrev itoa : ℤ → String
itoa (pos n) = "443"
itoa (negsuc n) = "-1"

runs_on_grid : main same_char (on_grid itoa grid world) flags no_loggers ≡ started ready at_warning
unfolding main start_verified start_clients get_credentials log_message write_message
    credential_file has_suffix append to_lower lower_char str_beq new_infoblox_client
runs_on_grid = rw (main, checked) refl

main_connects_example :
    (grid.connects (host_config itoa (infoblox_params ready)) ≡ true)
    × (grid.has_definition ea_key || grid.creates_definition ea_key ≡ true)
    × HasCredentials files flags ready
main_connects_example =
    main_connects same_char itoa grid world flags ready no_loggers at_warning refl runs_on_grid
