-- ===== src/Orchestration/Kubernetes.antt =====
-- pkg/orchestration/kubernetes.go: the registry of informers, and the way of a resource from the
-- informers' cache to a message for the controller. What the caches list, the lengths of the queues
-- and the fate of a message are arguments.
pub mod Sync
pub mod NamespaceSync
pub mod Skipped
pub mod Kept
pub mod Handlers
pub mod Tests
pub mod Namespaces
pub mod Lost
pub mod Annotate
pub mod NewClient
pub mod Steps
pub mod Sound
pub mod EventSteps
pub mod SyncSteps
pub mod Handled
pub mod Worker
use f5_ipam_ctlr.Prelude.{
  Bool, List, Option, String, false, if◌then◌else◌, is_empty, none, not, some, string_eq, true,
  ◌&&◌, ◌==◌, ◌||◌, ◌∷◌,
}
use f5_ipam_ctlr.Controller.{get_or_empty}
use f5_ipam_ctlr.Orchestration.Types.{IpGroups, ResourceKey, group_key_eq}
use f5_ipam_ctlr.Prelude.GoMap.{GoMap, delete, has, insert, is_some, lookup}

abbrev pub group_annotation : String
group_annotation = "ipam.f5.com/group"

abbrev pub netview_annotation : String
netview_annotation = "ipam.f5.com/infoblox-netview"

abbrev pub cidr_annotation : String
cidr_annotation = "ipam.f5.com/network-cidr"

abbrev pub hostname_annotation : String
hostname_annotation = "ipam.f5.com/hostname"

abbrev pub watch_annotation : String
watch_annotation = "ipam.f5.com/ip-allocation"

-- `rsInformer`, as far as it is told from others.
pub record RsInformer : Type 0 where
  pub namespace : String

-- The fields of `K8sClient` that change, the keys given to `rsQueue.Add` and the groups that the
-- controller has received, both newest first.
pub record K8sClient : Type 0 where
  pub rs_informers : GoMap String RsInformer
  pub has_ns_informer : Bool
  pub initial_state : Bool
  pub updated : Bool
  pub ip_group : IpGroups
  pub queued : List ResourceKey
  pub received : List IpGroups

-- `v1.ConfigMap` and `v1beta1.Ingress`, as far as the code reads them. The rules of an Ingress are
-- their hosts; `none` is a nil slice.
pub record ConfigMap : Type 0 where
  pub name : String
  pub namespace : String
  pub annotations : GoMap String String

pub record Ingress : Type 0 where
  pub name : String
  pub namespace : String
  pub annotations : GoMap String String
  pub rules : Option (List String)

-- `watchingAllNamespaces`
unfoldable pub watching_all_namespaces : GoMap String RsInformer → Bool
watching_all_namespaces infs = if is_empty infs then false else has "" infs

-- The informers after the checks of `addNamespace`.
unfoldable pub add_informer :
    GoMap String RsInformer → String → GoMap String RsInformer × Option RsInformer
add_informer infs namespace = elim (lookup namespace infs) [
  | some rs_inf ↦ (infs, some rs_inf)
  | none ↦
      let rs_inf : RsInformer = record { namespace = namespace } in
      (insert namespace rs_inf infs, some rs_inf)
]

-- `addNamespace`; no informer is an error.
unfoldable pub add_namespace : K8sClient → String → K8sClient × Option RsInformer
unfolding watching_all_namespaces add_informer
add_namespace cl namespace =
    if watching_all_namespaces cl.rs_informers
    then (cl, none)
    else (if not (is_empty cl.rs_informers) && "" == namespace
        then (cl, none)
        else (let added = add_informer cl.rs_informers namespace in
            (record cl { rs_informers = added.0 }, added.1)))

-- `addNamespaceLabelInformer`; true is an error.
unfoldable pub add_namespace_label_informer : K8sClient → K8sClient × Bool
add_namespace_label_informer cl =
    if cl.has_ns_informer || not (is_empty cl.rs_informers)
    then (cl, true)
    else (record cl { has_ns_informer = true }, false)

-- `getResourceInformer`
unfoldable pub get_resource_informer : K8sClient → String → Option RsInformer
unfolding watching_all_namespaces
get_resource_informer cl namespace =
    lookup (if watching_all_namespaces cl.rs_informers then "" else namespace) cl.rs_informers

-- `removeResourceInformers`; true is an error.
unfoldable pub remove_resource_informers : K8sClient → String → K8sClient × Bool
remove_resource_informers cl namespace =
    if not (has namespace cl.rs_informers)
    then (cl, true)
    else (record cl { rs_informers = delete namespace cl.rs_informers }, false)

-- The checks of `checkValidConfigMap` and `checkValidIngress`, which are alike.
unfoldable pub check_valid :
    K8sClient → String → String → String → GoMap String String → Option ResourceKey
unfolding get_resource_informer
check_valid cl kind name namespace annotations =
    if is_some (get_resource_informer cl namespace)
      && get_or_empty (lookup watch_annotation annotations) == "dynamic"
    then some (record { kind = kind; name = name; namespace = namespace })
    else none

abbrev pub check_valid_config_map : K8sClient → ConfigMap → Option ResourceKey
check_valid_config_map cl cm = check_valid cl "ConfigMap" cm.name cm.namespace cm.annotations

abbrev pub check_valid_ingress : K8sClient → Ingress → Option ResourceKey
check_valid_ingress cl ing = check_valid cl "Ingress" ing.name ing.namespace ing.annotations

-- What becomes of a message: there is no channel, the groups cannot be encoded, the controller takes
-- the message, or three seconds pass.
pub data Fate : Type 0 where
  no_channel : Fate
  not_encoded : Fate
  taken : Fate
  timed_out : Fate

-- `quiet` says that both queues are empty.
pub record Send : Type 0 where
  pub quiet : Bool
  pub fate : Fate

abbrev pub written : K8sClient → K8sClient
written cl = record cl { initial_state = true; updated = false }

unfoldable pub send : K8sClient → Fate → K8sClient
send cl no_channel = written cl
send cl not_encoded = cl
send cl taken = written (record cl { received = cl.ip_group ∷ cl.received })
send cl timed_out = written cl

-- `writeIPGroups`
unfoldable pub write_ip_groups : K8sClient → Send → K8sClient
unfolding send
write_ip_groups cl s = if s.quiet || cl.initial_state then send cl s.fate else cl
