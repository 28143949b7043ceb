-- ===== src/Orchestration/Kubernetes/Sync.antt =====
-- `syncResource` of pkg/orchestration/kubernetes.go. `ipam` is the variable `IPAM`.
use mathlib.Core.Option
use f5_ipam_ctlr.Prelude.{
  Bool, List, Option, String, [], false, if◌then◌else◌, none, not, some, string_eq, true, ◌&&◌,
  ◌==◌, ◌||◌, ◌∷◌,
}
use f5_ipam_ctlr.Controller.{get_or_empty}
use f5_ipam_ctlr.Orchestration.IpGroup.{add_to_ip_group}
use f5_ipam_ctlr.Orchestration.Kubernetes.{
  ConfigMap, Ingress, K8sClient, Send, cidr_annotation, get_resource_informer, group_annotation,
  hostname_annotation, netview_annotation, write_ip_groups,
}
use f5_ipam_ctlr.Orchestration.Types.{GroupKey, ResourceKey, group_key_eq}
use f5_ipam_ctlr.Prelude.GoMap.{GoMap, has, is_some, lookup}

-- An error log and a `return nil` for a missing annotation of the network.
unfoldable pub lacks_network : String → GoMap String String → Bool
lacks_network ipam annotations =
    not (has cidr_annotation annotations)
    || (not (has netview_annotation annotations) && ipam == "infoblox")

-- The key of the group that the annotations name.
abbrev pub group_of : GoMap String String → String → GroupKey
group_of annotations group_name = record {
  name = group_name;
  netview = get_or_empty (lookup netview_annotation annotations);
  cidr = get_or_empty (lookup cidr_annotation annotations);
}

-- `ret = client.ipGroup.addToIPGroup(...)` and `client.updated = client.updated || ret`.
unfoldable pub add_resource : K8sClient → GroupKey → String → ResourceKey → List String → K8sClient
add_resource cl g_key kind key hosts =
    let r = add_to_ip_group cl.ip_group g_key kind key.name key.namespace hosts in
    record cl { ip_group = r.0; updated = cl.updated || r.1 }

-- The bodies of the two loops of `syncResource`; true is a `return`.
unfoldable pub sync_config_map : String → K8sClient → ResourceKey → ConfigMap → K8sClient × Bool
unfolding lacks_network add_resource
sync_config_map ipam cl key cm =
    if not (cm.namespace == key.namespace) || not (cm.name == key.name)
    then (cl, false)
    else elim (lookup hostname_annotation cm.annotations) [
      | none ↦ (cl, true)
      | some host ↦
          if lacks_network ipam cm.annotations
          then (cl, true)
          else (add_resource cl (group_of cm.annotations "") "ConfigMap" key (host ∷ []), false)
    ]

-- The hosts of an Ingress: those of its rules, or the one of its annotation.
abbrev pub ingress_hosts : Ingress → Option (List String)
ingress_hosts ing = elim ing.rules [
  | some hosts ↦ some hosts
  | none ↦ Option.map (λ host. host ∷ []) (lookup hostname_annotation ing.annotations)
]

unfoldable pub sync_ingress : String → K8sClient → ResourceKey → Ingress → K8sClient × Bool
unfolding lacks_network add_resource
sync_ingress ipam cl key ing =
    let g_key = group_of ing.annotations (get_or_empty (lookup group_annotation ing.annotations)) in
    if not (ing.namespace == key.namespace) || not (ing.name == key.name)
    then (cl, false)
    else (if lacks_network ipam ing.annotations then (cl, true) else elim (ingress_hosts ing) [
      | none ↦ (cl, false)
      | some hosts ↦ (add_resource cl g_key "Ingress" key hosts, false)
    ])

unfoldable pub sync_loop {ℓ} :
    {A : Type ℓ} → (K8sClient → A → K8sClient × Bool) → K8sClient → List A → K8sClient × Bool
sync_loop step cl [] = (cl, false)
sync_loop step cl (x ∷ xs) =
    let done = step cl x in let rest = sync_loop step done.0 xs in if done.1 then done else rest

-- How `syncResource` ends: a panic at the nil informer of a namespace that is not watched, an error
-- of the cache, or a return.
pub data Synced : Type 0 where
  crashed : Synced
  failed : K8sClient → Synced
  synced : K8sClient → Synced

-- `if client.updated { client.writeIPGroups() }`, which an earlier `return` skips.
unfoldable pub finish_sync : K8sClient × Bool → Send → Synced
finish_sync (cl, true) s = synced cl
finish_sync (cl, false) s = if cl.updated then synced (write_ip_groups cl s) else synced cl

-- What `ByIndex` lists, `none` for an error.
pub record Caches : Type 0 where
  pub config_maps : Option (List ConfigMap)
  pub ingresses : Option (List Ingress)

-- `syncResource` with the informer at hand.
unfoldable pub sync_kind : String → K8sClient → ResourceKey → Caches → Send → Synced
unfolding sync_config_map sync_ingress sync_loop finish_sync
sync_kind ipam cl key caches s =
    if key.kind == "ConfigMap"
    then elim caches.config_maps [
      | none ↦ failed cl
      | some cms ↦ finish_sync (sync_loop (λ c x. sync_config_map ipam c key x) cl cms) s
    ]
    else (if key.kind == "Ingress"
        then elim caches.ingresses [
          | none ↦ failed cl
          | some ings ↦ finish_sync (sync_loop (λ c x. sync_ingress ipam c key x) cl ings) s
        ]
        else finish_sync (cl, false) s)

-- `syncResource`; of a kind that is neither, the informer is not read.
unfoldable pub sync_resource : String → K8sClient → ResourceKey → Caches → Send → Synced
unfolding sync_kind
sync_resource ipam cl key caches s =
    if is_some (get_resource_informer cl key.namespace)
      || not (key.kind == "ConfigMap" || key.kind == "Ingress")
    then sync_kind ipam cl key caches s
    else crashed
