-- ===== src/Flow.antt =====
-- The way of a host through the program: from a resource in pkg/orchestration/kubernetes.go, by a
-- message, to the store of pkg/controller/controller.go.
mod Tests
use f5_ipam_ctlr.Prelude.{
  Bool, List, String, [], contains, false, if◌then◌else◌, some, string_eq, true, ◌&&◌, ◌||◌, ◌∷◌,
  ◌≡◌,
}
use f5_ipam_ctlr.Controller.{get_or_empty}
use f5_ipam_ctlr.Orchestration.IpGroup.{get_all_hosts}
use f5_ipam_ctlr.Orchestration.Kubernetes.{
  ConfigMap, Fate, Ingress, K8sClient, Send, group_annotation, hostname_annotation, no_channel,
  not_encoded, taken, timed_out,
}
use f5_ipam_ctlr.Orchestration.Kubernetes.Lost.{one_config_map, one_ingress}
use f5_ipam_ctlr.Orchestration.Kubernetes.Sync.{Caches, group_of, ingress_hosts, lacks_network}
use f5_ipam_ctlr.Orchestration.Types.{GroupKey, ResourceKey}
use f5_ipam_ctlr.Prelude.GoMap.{lookup}

-- A resource that is complete: the group that its annotations name, and its hosts.
pub data Announces (ipam : String) : ResourceKey → Caches → GroupKey → List String → Type 0 where
  by_config_map :
      (cm : ConfigMap) (host : String)
      → lookup hostname_annotation cm.annotations ≡ some host
      → lacks_network ipam cm.annotations ≡ false
      → Announces ipam
          (record { kind = "ConfigMap"; name = cm.name; namespace = cm.namespace })
          (one_config_map cm)
          (group_of cm.annotations "")
          (host ∷ [])
  by_ingress :
      (ing : Ingress) (hosts : List String)
      → ingress_hosts ing ≡ some hosts
      → lacks_network ipam ing.annotations ≡ false
      → Announces ipam
          (record { kind = "Ingress"; name = ing.name; namespace = ing.namespace })
          (one_ingress ing)
          (group_of ing.annotations (get_or_empty (lookup group_annotation ing.annotations)))
          hosts

abbrev is_taken : Fate → Bool
is_taken no_channel = false
is_taken not_encoded = false
is_taken taken = true
is_taken timed_out = false

-- A write reaches the controller: both queues are empty or the initial state is set, and the
-- controller takes the message in time.
abbrev pub delivers : K8sClient → Send → Bool
delivers cl s = (s.quiet || cl.initial_state) && is_taken s.fate

-- The client after a sync of a resource with a new host: its hosts are those that it knew before and
-- those of the resource, and the controller has received its groups if the write reaches it.
record IsSent (cl cl' : K8sClient) (hosts : List String) (s : Send) : Type 0 where
  received : cl'.received ≡ (if delivers cl s then cl'.ip_group ∷ cl.received else cl.received)
  all :
      (h : String)
      → contains (get_all_hosts cl'.ip_group) h
        ≡ contains (get_all_hosts cl.ip_group) h || contains hosts h
