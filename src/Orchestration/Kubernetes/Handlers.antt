-- ===== src/Orchestration/Kubernetes/Handlers.antt =====
-- The handlers of the informers' events in pkg/orchestration/kubernetes.go. What `rsQueue.Add` gets
-- is kept in `queued`.
use f5_ipam_ctlr.Prelude.{
  Bool, List, Option, String, [], contains, false, if◌then◌else◌, length, none, some, string_eq,
  suc, true, zero, ℕ, ◌++◌, ◌==◌, ◌||◌, ◌∷◌,
}
use f5_ipam_ctlr.Controller.{get_or_empty}
use f5_ipam_ctlr.Orchestration.IpGroup.{find_spec, get_spec, remove_from_ip_group, remove_host}
use f5_ipam_ctlr.Orchestration.Kubernetes.{
  ConfigMap, Ingress, K8sClient, Send, check_valid_config_map, check_valid_ingress,
  group_annotation, hostname_annotation, write_ip_groups,
}
use f5_ipam_ctlr.Orchestration.Types.{GroupKey, IpGroups, ResourceKey, Spec, group_key_eq}
use f5_ipam_ctlr.Prelude.GoMap.{is_some, lookup}

abbrev names_host : Option String → String → Bool
names_host none host = false
names_host (some val) host = val == host

-- `cmHostExists`
unfoldable pub cm_host_exists : ConfigMap → String → Bool
cm_host_exists cm host = names_host (lookup hostname_annotation cm.annotations) host

-- `ingHostExists`
unfoldable pub ing_host_exists : Ingress → String → Bool
ing_host_exists ing host = elim ing.rules [
  | none ↦ names_host (lookup hostname_annotation ing.annotations) host
  | some hosts ↦ contains hosts host
]

unfoldable pub at_index : ℕ → List String → String
at_index i [] = ""
at_index zero (x ∷ xs) = x
at_index (suc i) (x ∷ xs) = at_index i xs

unfoldable pub drop : ℕ → List String → List String
drop i [] = []
drop zero (x ∷ xs) = x ∷ xs
drop (suc i) (x ∷ xs) = drop i xs

abbrev pub spec_hosts_of : Option Spec → List String
spec_hosts_of none = []
spec_hosts_of (some spec) = spec.hosts

-- The hosts of the first spec of the resource in the group.
unfoldable pub hosts_in : IpGroups → GroupKey → ResourceKey → List String
hosts_in groups g_key key = elim (lookup g_key groups) [
  | none ↦ []
  | some grp ↦ spec_hosts_of (find_spec grp key)
]

-- The state of the loop over `spec.Hosts`: the slice of the loop and the spec in the group share an
-- array, so that `removeHost` shifts what the loop still has to read.
pub record Pruned : Type 0 where
  pub groups : IpGroups
  pub array : List String
  pub removed : Bool

-- The body of the loop at an index: `removeHost` writes the hosts that it leaves over the front of
-- the array.
unfoldable pub prune_step : (String → Bool) → ResourceKey → GroupKey → ℕ → Pruned → Pruned
unfolding at_index drop hosts_in remove_host
prune_step exists key g_key i p =
    let host = at_index i p.array in
    let groups' = remove_host p.groups host key in
    let hosts' = hosts_in groups' g_key key in
    if exists host
    then p
    else record { groups = groups'; array = hosts' ++ drop (length hosts') p.array; removed = true }

-- The loop; it runs as often as the slice is long at its start.
unfoldable pub prune_loop :
    (String → Bool) → ResourceKey → GroupKey → ℕ → List String → Pruned → Pruned
unfolding prune_step
prune_loop exists key g_key i [] p = p
prune_loop exists key g_key i (_ ∷ hosts) p =
    prune_loop exists key g_key (suc i) hosts (prune_step exists key g_key i p)

-- The key of the group in which `getSpec` found the spec; `addToIPGroup` gave the spec its netview
-- and its CIDR.
abbrev pub key_of : Spec → String → GroupKey
key_of spec grp = record { name = grp; netview = spec.netview; cidr = spec.cidr }

unfoldable pub prune : (String → Bool) → ResourceKey → IpGroups → Spec → String → Pruned
unfolding prune_loop
prune exists key groups spec grp =
    prune_loop exists key (key_of spec grp) 0 spec.hosts
      (record { groups = groups; array = spec.hosts; removed = false })

abbrev pub enqueue : K8sClient → ResourceKey → K8sClient
enqueue cl key = record cl { queued = key ∷ cl.queued }

-- `removeFromIPGroup` and `writeIPGroups` for a spec that `getSpec` has found.
unfoldable pub drop_resource : K8sClient → ResourceKey → Send → K8sClient
unfolding remove_from_ip_group write_ip_groups
drop_resource cl key s = elim (get_spec cl.ip_group key) [
  | none ↦ cl
  | some (spec, grp) ↦
      write_ip_groups (record cl { ip_group = remove_from_ip_group cl.ip_group spec }) s
]

-- `addConfigMap` and `addIngress`, after the check.
unfoldable pub add_checked : K8sClient → Option ResourceKey → K8sClient
add_checked cl none = cl
add_checked cl (some key) = enqueue cl key

-- `deleteConfigMap` and `deleteIngress`, after the check.
unfoldable pub delete_checked : K8sClient → Option ResourceKey → Send → K8sClient
unfolding drop_resource
delete_checked cl none s = cl
delete_checked cl (some key) s = drop_resource cl key s

-- `updateConfigMap` for a resource that stays valid.
unfoldable pub prune_config_map : K8sClient → ConfigMap → ResourceKey → K8sClient
unfolding prune cm_host_exists
prune_config_map cl cm key = elim (get_spec cl.ip_group key) [
  | none ↦ cl
  | some (spec, grp) ↦ record cl {
    ip_group = (prune (cm_host_exists cm) key cl.ip_group spec grp).groups;
  }
]

-- `updateIngress` for a resource that stays valid.
unfoldable pub prune_ingress : K8sClient → Ingress → ResourceKey → K8sClient
unfolding prune ing_host_exists remove_from_ip_group
prune_ingress cl ing key = elim (get_spec cl.ip_group key) [
  | none ↦ cl
  | some (spec, grp) ↦
      let p = prune (ing_host_exists ing) key cl.ip_group spec grp in
      let val = get_or_empty (lookup group_annotation ing.annotations) in
      record cl {
        ip_group = if val == grp then p.groups else remove_from_ip_group p.groups spec;
        updated = cl.updated || p.removed;
      }
]

-- `updateConfigMap`
unfoldable pub update_config_map : K8sClient → ConfigMap → ConfigMap → Send → K8sClient
unfolding prune_config_map drop_resource
update_config_map cl old cur s = elim (check_valid_config_map cl old) [
  | none ↦ add_checked cl (check_valid_config_map cl cur)
  | some key ↦
      if is_some (check_valid_config_map cl cur)
      then enqueue (prune_config_map cl cur key) key
      else drop_resource cl key s
]

-- `updateIngress`
unfoldable pub update_ingress : K8sClient → Ingress → Ingress → Send → K8sClient
unfolding prune_ingress drop_resource
update_ingress cl old cur s = elim (check_valid_ingress cl old) [
  | none ↦ add_checked cl (check_valid_ingress cl cur)
  | some key ↦
      if is_some (check_valid_ingress cl cur)
      then enqueue (prune_ingress cl cur key) key
      else drop_resource cl key s
]

-- `addConfigMap`
abbrev pub add_config_map : K8sClient → ConfigMap → K8sClient
add_config_map cl cm = add_checked cl (check_valid_config_map cl cm)

-- `addIngress`
abbrev pub add_ingress : K8sClient → Ingress → K8sClient
add_ingress cl ing = add_checked cl (check_valid_ingress cl ing)

-- `deleteConfigMap`
abbrev pub delete_config_map : K8sClient → ConfigMap → Send → K8sClient
delete_config_map cl cm s = delete_checked cl (check_valid_config_map cl cm) s

-- `deleteIngress`
abbrev pub delete_ingress : K8sClient → Ingress → Send → K8sClient
delete_ingress cl ing s = delete_checked cl (check_valid_ingress cl ing) s
