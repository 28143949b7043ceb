-- ===== src/Orchestration/Kubernetes/Tests.antt =====
-- A client that watches one namespace, and the theorems of the Kubernetes part at it.
use mathlib.Core.Option
use f5_ipam_ctlr.Prelude.{
  List, String, [], arith, contains, false, if◌then◌else◌, none, not, refl, some, sort, str_beq,
  string_eq, true, ◌&&◌, ◌==◌, ◌||◌, ◌↔◌, ◌∷◌, ◌≡◌, ◌≤◌,
}
use f5_ipam_ctlr.Orchestration.IpGroup.{
  add_to_ip_group, get_all_hosts, get_specs_with_hosts, specs_with_hosts,
}
use f5_ipam_ctlr.Orchestration.IpGroup.Merge.{num_matching}
use f5_ipam_ctlr.Orchestration.IpGroup.Query.{all_have_hosts, all_specs, led_by}
use f5_ipam_ctlr.Orchestration.IpGroup.Remove.{num_specs}
use f5_ipam_ctlr.Orchestration.IpGroup.RemoveHost.{host_count, spec_for}
use f5_ipam_ctlr.Orchestration.Kubernetes.{
  ConfigMap, K8sClient, Send, add_namespace, check_valid, get_resource_informer, taken, timed_out,
  watch_annotation, watching_all_namespaces, write_ip_groups,
}
use f5_ipam_ctlr.Orchestration.Kubernetes.Annotate.{
  Annotations, ResourceApi, annotate_loop, annotate_resource, annotate_resources, annotate_spec,
  resource_key_beq, resource_key_eq, write_annotation,
}
use f5_ipam_ctlr.Orchestration.Kubernetes.Annotate.Exact.{reached, with_ip}
use f5_ipam_ctlr.Orchestration.Kubernetes.Annotate.Panics.{annotate_resources_exact, nil_among}
use f5_ipam_ctlr.Orchestration.Kubernetes.Handlers.{
  cm_host_exists, key_of, prune, update_config_map,
}
use f5_ipam_ctlr.Orchestration.Kubernetes.Kept.{stays, update_config_map_keeps}
use f5_ipam_ctlr.Orchestration.Kubernetes.Lost.{
  IsForgotten, a_config_map, one_config_map, sync_resource_forgets,
}
use f5_ipam_ctlr.Orchestration.Kubernetes.NamespaceSync.{
  sync_namespace, watched_after, watched_after-sync_namespace,
}
use f5_ipam_ctlr.Orchestration.Kubernetes.Namespaces.{IsRegistry, some_namespaces, watched}
use f5_ipam_ctlr.Orchestration.Kubernetes.NewClient.{KubeParams, new_kubernetes_client}
use f5_ipam_ctlr.Orchestration.Kubernetes.NewClient.Watches.{
  new_kubernetes_client_watches, starts_with_all,
}
use f5_ipam_ctlr.Orchestration.Kubernetes.Skipped.{prune_skips}
use f5_ipam_ctlr.Orchestration.Kubernetes.Sound.{IsSound, new_kubernetes_client-IsSound}
use f5_ipam_ctlr.Orchestration.Kubernetes.Steps.{adds_namespace, one-Step, then_step, writes}
use f5_ipam_ctlr.Orchestration.Kubernetes.Sync.{
  Synced, add_resource, crashed, failed, finish_sync, lacks_network, sync_config_map, sync_kind,
  sync_loop, sync_resource, synced,
}
use f5_ipam_ctlr.Orchestration.Kubernetes.Worker.{
  Round, Worker, adds_rate_limited, after_sync, dones, process_next_resource, worker,
}
use f5_ipam_ctlr.Orchestration.Kubernetes.Worker.Balance.{IsBalanced, resource_worker-IsBalanced}
use f5_ipam_ctlr.Orchestration.Types.{IpGroups, ResourceKey, Spec, equals, equals_key, group_key_eq}
use f5_ipam_ctlr.Prelude.GoMap.{GoMap, insert, is_some, lookup, lookup-insert}

abbrev pub watches_default : K8sClient
watches_default = record {
  rs_informers = ("default", record { namespace = "default" }) ∷ [];
  has_ns_informer = false;
  initial_state = true;
  updated = false;
  ip_group = [];
  queued = [];
  received = [];
}

abbrev pub cm : ConfigMap
cm = record {
  name = "cm";
  namespace = "default";
  annotations =
      ("ipam.f5.com/hostname", "foo.com")
      ∷ ("ipam.f5.com/network-cidr", "1.2.3.0/24")
      ∷ ("ipam.f5.com/infoblox-netview", "default")
      ∷ [];
}

abbrev kube_system : String
kube_system = "kube-system"

abbrev pub cm_key : ResourceKey
cm_key = record { kind = "ConfigMap"; name = "cm"; namespace = "default" }

sync_resource_forgets_example :
    (cl' : K8sClient) × IsForgotten "infoblox" cm_key (one_config_map cm) watches_default cl'
unfolding get_resource_informer watching_all_namespaces lookup str_beq
sync_resource_forgets_example =
    sync_resource_forgets "infoblox" cm_key watches_default (one_config_map cm)
      (a_config_map cm refl) refl refl

hosts_and_received : Synced → List String × List IpGroups
unfolding get_all_hosts
hosts_and_received (synced cl) = (get_all_hosts cl.ip_group, cl.received)
hosts_and_received crashed = ([], [])
hosts_and_received (failed cl) = ([], [])

-- The groups of that client then hold the host, and the controller has received nothing.
forgotten_host :
    hosts_and_received (
      sync_resource "infoblox" watches_default cm_key
        (one_config_map cm)
        (record { quiet = true; fate = timed_out }))
    ≡ ("foo.com" ∷ [], [])
unfolding hosts_and_received sync_resource sync_kind sync_config_map sync_loop finish_sync
    add_resource lacks_network add_to_ip_group get_resource_informer watching_all_namespaces lookup
    insert str_beq sort write_ip_groups
forgotten_host = refl

default_only : IsRegistry watches_default.rs_informers
unfolding lookup str_beq
default_only = some_namespaces (refl, tt) refl

abbrev web : Spec
web = record {
  kind = "Ingress";
  name = "web";
  namespace = "default";
  hosts = [];
  netview = "default";
  cidr = "1.2.3.0/24";
}

abbrev web_key : ResourceKey
web_key = record { kind = "Ingress"; name = "web"; namespace = "default" }

-- Both "a.com" and "b.com" are gone, and "b.com" stays.
prune_skips_example :
    let spec = record web { hosts = "a.com" ∷ "b.com" ∷ "c.com" ∷ [] } in
    let groups : IpGroups = (key_of web "", spec ∷ []) ∷ [] in
    contains (get_all_hosts (prune (contains ("c.com" ∷ [])) web_key groups spec "").groups) "b.com"
    ≡ true
unfolding equals_key contains str_beq
prune_skips_example =
    prune_skips (contains ("c.com" ∷ [])) web_key web "" "a.com" "b.com" "c.com" refl refl refl

-- A namespace that does not exist, and is not watched.
watched_after-sync_namespace_example :
    watched_after (sync_namespace watches_default kube_system (some false)) kube_system
    ≡ (if false || watched watches_default kube_system then some false else none)
unfolding watching_all_namespaces lookup str_beq
watched_after-sync_namespace_example =
    watched_after-sync_namespace watches_default kube_system false refl refl

read_back :
    (s s' : GoMap ResourceKey Annotations) (key read : ResourceKey)
    (annotations : GoMap String String)
    → some (insert key (some annotations) s) ≡ some s'
    → lookup read s' ≡ (if key == read then some (some annotations) else lookup read s)
read_back s s' key read annotations e =
    let same : insert key (some annotations) s ≡ s' = cc e in
    rw (← same) (lookup-insert key read (some annotations) s)

-- An API server that keeps what it is given.
abbrev server : ResourceApi
server = record {
  Api = GoMap ResourceKey Annotations;
  get = λ s key. lookup key s;
  update = λ s key annotations. some (insert key (some annotations) s);
  get-update = read_back;
}

abbrev bare_key : ResourceKey
bare_key = record { kind = "Ingress"; name = "bare"; namespace = "default" }

abbrev cm_spec : Spec
cm_spec = record web { kind = "ConfigMap"; name = "cm"; hosts = "foo.com" ∷ [] }

abbrev bare_spec : Spec
bare_spec = record web { name = "bare"; hosts = "bare.com" ∷ [] }

abbrev two_specs : IpGroups
two_specs = (key_of web "", cm_spec ∷ bare_spec ∷ []) ∷ []

-- The resource "bare" has no annotations at all.
abbrev on_server : GoMap ResourceKey Annotations
on_server = (cm_key, some cm.annotations) ∷ (bare_key, none) ∷ []

annotate_resources_exact_example :
    let specs = led_by (all_specs two_specs) ("foo.com" ∷ []) in
    ((annotate_resources server "1.2.3.9" two_specs ("foo.com" ∷ []) on_server ≡ none) ↔ (
      not (all_have_hosts (all_specs two_specs)) || nil_among server "1.2.3.9" on_server specs
      ≡ true))
    × ((s' : GoMap ResourceKey Annotations)
        → annotate_resources server "1.2.3.9" two_specs ("foo.com" ∷ []) on_server ≡ some s'
        → (annotate_resources server "1.2.3.9" two_specs ("foo.com" ∷ []) s' ≡ some s')
          × ((key : ResourceKey)
              → lookup key s' ≡ (
                  if reached specs key
                  then with_ip "1.2.3.9" (lookup key on_server)
                  else lookup key on_server)))
unfolding str_beq
annotate_resources_exact_example =
    annotate_resources_exact server "1.2.3.9" two_specs ("foo.com" ∷ []) on_server (λ s key m. refl)
      refl

-- The ConfigMap gets its address, and of the other resource the code panics.
annotated_one :
    (is_some (annotate_resources server "1.2.3.9" two_specs ("foo.com" ∷ []) on_server) ≡ true)
    × (is_some (annotate_resources server "1.2.3.9" two_specs ("bare.com" ∷ []) on_server) ≡ false)
unfolding annotate_resources annotate_loop annotate_spec annotate_resource write_annotation
    get_specs_with_hosts specs_with_hosts Option.bind lookup insert contains str_beq
    resource_key_beq
annotated_one = (refl, refl)

abbrev db : String
db = "db"

abbrev two_namespaces : KubeParams
two_namespaces = record { namespaces = "web" ∷ "" ∷ []; namespace_label = "" }

new_kubernetes_client_watches_example :
    let made = new_kubernetes_client {Selector = Unit} tt (λ label. none) two_namespaces in
    (watched made.0 db
      ≡ two_namespaces.namespace_label == ""
        && (starts_with_all two_namespaces.namespaces
            || (contains two_namespaces.namespaces db && not (db == ""))))
    × (made.0.has_ns_informer ≡ not (two_namespaces.namespace_label == ""))
    × (made.1 ≡ (if two_namespaces.namespace_label == "" then none else none))
new_kubernetes_client_watches_example =
    new_kubernetes_client_watches {Selector = Unit} tt (λ label. none) two_namespaces db

abbrev made_client : K8sClient
made_client = (new_kubernetes_client {Selector = Unit} tt (λ label. none) two_namespaces).0

-- A message before the resources of a third namespace are watched.
new_kubernetes_client-IsSound_example :
    IsSound
      (add_namespace (write_ip_groups made_client (record { quiet = true; fate = taken })) "db").0
new_kubernetes_client-IsSound_example =
    new_kubernetes_client-IsSound {Selector = Unit} tt (λ label. none) two_namespaces _
      (then_step (one-Step (writes made_client (record { quiet = true; fate = taken })))
        (adds_namespace _ "db"))

abbrev dynamic : ConfigMap
dynamic = record cm { annotations = (watch_annotation, "dynamic") ∷ cm.annotations }

-- The ConfigMap "cm" has the spec of "foo.com", which it still names after the update.
abbrev holds_cm : K8sClient
holds_cm = record watches_default {
  ip_group =
      (
        record { name = ""; netview = "default"; cidr = "1.2.3.0/24" },
        record web {
          kind = cm_key.kind;
          name = cm_key.name;
          namespace = cm_key.namespace;
          hosts = "foo.com" ∷ [];
        }
            ∷ [],
      )
      ∷ [];
}

one_holds_cm : num_specs holds_cm.ip_group (spec_for cm_key) ≤ 1
unfolding num_specs num_matching equals str_beq
one_holds_cm = omega arith

update_config_map_keeps_example :
    let s : Send = record { quiet = true; fate = taken } in
    let cl' = update_config_map holds_cm dynamic dynamic s in
    (cl'.queued ≡ cm_key ∷ [])
    × (cl'.received ≡ [])
    × ((t : Spec) (host : String)
        → stays (cm_host_exists dynamic) cm_key t host ≡ true
        → host_count cl'.ip_group t host ≡ host_count holds_cm.ip_group t host)
unfolding lookup str_beq get_resource_informer watching_all_namespaces check_valid
update_config_map_keeps_example =
    update_config_map_keeps holds_cm dynamic dynamic (record { quiet = true; fate = taken }) cm_key
      refl refl one_holds_cm

abbrev failing : Round
failing = record {
  key = cm_key;
  caches = record { config_maps = none; ingresses = none };
  message = record { quiet = true; fate = taken };
}

abbrev first_worker : Worker ResourceKey
first_worker = record { client = watches_default; calls = [] }

-- A cache fails, and the key is given back.
resource_worker-IsBalanced_example :
    IsBalanced
      (λ r. r.key)
      first_worker
      (record { client = watches_default; calls = dones cm_key ∷ adds_rate_limited cm_key ∷ [] })
      (failing ∷ [])
unfolding worker process_next_resource after_sync sync_resource sync_kind get_resource_informer
    watching_all_namespaces lookup str_beq
resource_worker-IsBalanced_example =
    resource_worker-IsBalanced "infoblox" first_worker _ (failing ∷ []) refl
