-- ===== src/Main/Watch.antt =====
-- The Kubernetes client that `main` of main.go makes, and the namespaces it watches.
use Prim.Native.Char.{Char}
use f5_ipam_ctlr.Prelude.{
  Bool, Bool-cases, List, Option, Option-cases, String, [], arith, contains, if◌then◌else◌, inl,
  inr, is_empty, length, not, refl, some, string_eq, true, ◌&&◌, ◌==◌, ◌||◌, ◌∷◌, ◌≡◌,
}
use f5_ipam_ctlr.Main.{
  Flags, World, credential_file, get_credentials, infoblox, is_blank, lowered, main, started,
}
use f5_ipam_ctlr.Main.Start.{main_starts}
use f5_ipam_ctlr.Orchestration.Kubernetes.Namespaces.{watched}
use f5_ipam_ctlr.Orchestration.Kubernetes.NewClient.{KubeParams, new_kubernetes_client}
use f5_ipam_ctlr.Orchestration.Kubernetes.NewClient.Watches.{
  new_kubernetes_client_watches, starts_with_all,
}
use f5_ipam_ctlr.Vlogger.{Logging, ll_loglevel_size}

-- The namespaces and the label of `orchestration.KubeParams`.
abbrev pub kube_params : Flags → KubeParams
kube_params o = record { namespaces = o.namespaces; namespace_label = o.namespace_label }

-- What `getCredentials` leaves alone.
record KeepsNamespaces (o o' : Flags) : Type 0 where
  namespaces : o'.namespaces ≡ o.namespaces
  label : o'.namespace_label ≡ o.namespace_label

get_credentials-KeepsNamespaces :
    (files : String → Option String) (o o' : Flags)
    → get_credentials files o ≡ some o'
    → KeepsNamespaces o o'
unfolding get_credentials
get_credentials-KeepsNamespaces files o o' e =
    elim (Bool-cases (o.mgr == infoblox && not (is_blank o.creds_dir))) [
      | inr neither ↦
          let same : o ≡ o' = ground (arith, neither) in
          rw (← same) (record { namespaces = refl; label = refl })
      | inl read ↦ elim (Option-cases (files (credential_file o.creds_dir "infoblox-username"))) [
        | inl no_file ↦ absurd (ground (arith, read, no_file))
        | inr (usr, found) ↦
            elim (Option-cases (files (credential_file o.creds_dir "infoblox-password"))) [
              | inl no_file ↦ absurd (ground (arith, read, found, no_file))
              | inr (pass, secret) ↦
                  let same : record o { ib_username = usr; ib_password = pass } ≡ o' =
                    ground (arith, read, found, secret) in
                  rw (← same) (record { namespaces = refl; label = refl })
            ]
      ]
    ]

one_way :
    (namespaces : List String) (no_label : Bool) (namespace : String)
    → is_empty namespaces || no_label ≡ true
    → no_label
        && (starts_with_all namespaces || (contains namespaces namespace && not (namespace == "")))
      ≡ (if is_empty namespaces
          then no_label
          else starts_with_all namespaces
            || (contains namespaces namespace && not (namespace == "")))
one_way [] no_label namespace h = ground arith
one_way (first ∷ namespaces) no_label namespace h = ground arith

module _ {Selector : Type 0} (everything : Selector) (parse : String → Option Selector)
    (beyond : Char → Char) where
  -- If main starts the controller from a table of five loggers, its new Kubernetes client watches
  -- each namespace as follows: if no flag names a namespace, it watches all of them exactly if there
  -- is no label; otherwise it watches all of them if the first name is "", and else exactly those
  -- that are named, "" left out.
  pub main_watches :
      (w : World) (o o' : Flags) (st st' : Logging)
      → length st.vlog ≡ ll_loglevel_size
      → main beyond w o st ≡ started o' st'
      → let made = new_kubernetes_client everything parse (kube_params o') in
        (namespace : String)
        → watched made.0 namespace ≡ (
            if is_empty o.namespaces
            then is_blank o.namespace_label
            else starts_with_all o.namespaces
              || (contains o.namespaces namespace && not (namespace == "")))
  main_watches w o o' st st' size e namespace =
      let starts = ((main_starts beyond w o st size).1 o').0 (st', e) in
      let k = get_credentials-KeepsNamespaces w.files (lowered beyond o) o' (starts.2) in
      rw
        (
          (new_kubernetes_client_watches everything parse (kube_params o') namespace).0,
          k.namespaces,
          k.label,
        )
        (one_way o.namespaces (is_blank o.namespace_label) namespace (ground (arith, starts.1)))
