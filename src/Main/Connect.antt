-- ===== src/Main/Connect.antt =====
-- The Infoblox client that `main` of main.go makes, and the credentials that it gets.
use Prim.Native.Char.{Char}
use f5_ipam_ctlr.Prelude.{
  Bool-cases, Option, Option-cases, String, ap, arith, false, if◌then◌else◌, inl, inr, length, not,
  refl, some, string_eq, sym, true, ℤ, ◌&&◌, ◌==◌, ◌||◌, ◌≡◌,
}
use f5_ipam_ctlr.Infoblox.Requests.{Grid, InfobloxParams, ea_key, host_config, new_infoblox_client}
use f5_ipam_ctlr.Main.{
  Flags, World, credential_file, get_credentials, infoblox, is_blank, lowered, main, started,
}
use f5_ipam_ctlr.Main.Start.{main_starts}
use f5_ipam_ctlr.Vlogger.{Logging, ll_loglevel_size}

-- `manager.InfobloxParams`
abbrev pub infoblox_params : Flags → InfobloxParams
infoblox_params o = record {
  host = o.ib_host;
  version = o.ib_version;
  port = o.ib_port;
  username = o.ib_username;
  password = o.ib_password;
}

-- The Infoblox client is made by `NewInfobloxClient`.
abbrev pub on_grid : (ℤ → String) → Grid → World → World
on_grid itoa grid w = record w {
  infoblox_connects = λ o. new_infoblox_client itoa grid (infoblox_params o);
}

-- The credentials: those of the flags without a directory, and otherwise those of its files.
pub record HasCredentials (files : String → Option String) (o o' : Flags) : Type 0 where
  pub host : o'.ib_host ≡ o.ib_host
  pub usr : some o'.ib_username ≡ (
      if is_blank o.creds_dir
      then some o.ib_username
      else files (credential_file o.creds_dir "infoblox-username"))
  pub pass : some o'.ib_password ≡ (
      if is_blank o.creds_dir
      then some o.ib_password
      else files (credential_file o.creds_dir "infoblox-password"))

get_credentials-HasCredentials :
    (files : String → Option String) (o o' : Flags)
    → o'.mgr == infoblox ≡ true
    → get_credentials files o ≡ some o'
    → HasCredentials files o o'
unfolding get_credentials
get_credentials-HasCredentials files o o' is_infoblox e =
    elim (Bool-cases (o.mgr == infoblox && not (is_blank o.creds_dir))) [
      | inr neither ↦
          let same : o ≡ o' = ground (arith, neither) in
          let blank : is_blank o.creds_dir ≡ true =
            ground (arith, neither, ap (λ (q : Flags). q.mgr == infoblox) same) in
          rw (← same) (record { host = refl; usr = rw blank refl; pass = rw blank refl })
      | inl read ↦ elim (Option-cases (files (credential_file o.creds_dir "infoblox-username"))) [
        | inl no_file ↦ absurd (ground (arith, read, no_file))
        | inr (usr, found) ↦
            elim (Option-cases (files (credential_file o.creds_dir "infoblox-password"))) [
              | inl no_file ↦ absurd (ground (arith, read, found, no_file))
              | inr (pass, secret) ↦
                  let same : record o { ib_username = usr; ib_password = pass } ≡ o' =
                    ground (arith, read, found, secret) in
                  let given_dir : is_blank o.creds_dir ≡ false = ground (arith, read) in
                  rw (← same) (record {
                    host = refl;
                    usr = rw given_dir (sym found);
                    pass = rw given_dir (sym secret);
                  })
            ]
      ]
    ]

module _ (beyond : Char → Char) (itoa : ℤ → String) (grid : Grid) where
  -- If main starts the controller from a table of five loggers, then a connector was made with the
  -- host of the flags and with the credentials of the flags if no directory is given, and of the
  -- files of the directory otherwise, and the server has the definition of the controller's
  -- attribute, or has let it be made.
  pub main_connects :
      (w : World) (o o' : Flags) (st st' : Logging)
      → length st.vlog ≡ ll_loglevel_size
      → main beyond (on_grid itoa grid w) o st ≡ started o' st'
      → (grid.connects (host_config itoa (infoblox_params o')) ≡ true)
        × (grid.has_definition ea_key || grid.creates_definition ea_key ≡ true)
        × HasCredentials w.files o o'
  unfolding new_infoblox_client
  main_connects w o o' st st' size e =
      let starts = ((main_starts beyond (on_grid itoa grid w) o st size).1 o').0 (st', e) in
      let c =
        get_credentials-HasCredentials w.files (lowered beyond o) o' (ground (arith, starts.3))
          starts.2 in
      (
        ground (arith, starts.3),
        ground (arith, starts.3),
        record { host = c.host; usr = c.usr; pass = c.pass },
      )
