-- ===== src/Orchestration/Kubernetes/SyncSteps.antt =====
-- `syncResource` and `syncNamespace` of pkg/orchestration/kubernetes.go as sequences of steps.
use f5_ipam_ctlr.Prelude.{
  Bool, Bool-cases, List, Option, Option-cases, String, [], false, if◌then◌else◌, inl, inr, none,
  not, refl, some, str_beq, string_eq, true, ◌==◌, ◌||◌, ◌∷◌, ◌≡◌,
}
use f5_ipam_ctlr.Orchestration.Kubernetes.{
  ConfigMap, Ingress, K8sClient, RsInformer, Send, add_namespace, get_resource_informer,
  hostname_annotation, write_ip_groups,
}
use f5_ipam_ctlr.Orchestration.Kubernetes.NamespaceSync.{
  NsSynced, ns_added, ns_crashed, ns_failed, ns_synced, sync_namespace,
}
use f5_ipam_ctlr.Orchestration.Kubernetes.Steps.{
  Steps, Steps-append, adds_namespace, adds_spec, marks, no_step, one-Step, removes_namespace,
  then_step, writes,
}
use f5_ipam_ctlr.Orchestration.Kubernetes.Sync.{
  Caches, Synced, add_resource, crashed, failed, finish_sync, group_of, ingress_hosts,
  lacks_network, sync_config_map, sync_ingress, sync_kind, sync_loop, sync_resource, synced,
}
use f5_ipam_ctlr.Orchestration.Types.{GroupKey, ResourceKey, group_key_eq}
use f5_ipam_ctlr.Prelude.GoMap.{is_some, lookup}

add_resource-Steps :
    (cl : K8sClient) (g_key : GroupKey) (kind : String) (key : ResourceKey) (hosts : List String)
    → kind == "" ≡ false
    → Steps cl (add_resource cl g_key kind key hosts)
unfolding add_resource
add_resource-Steps cl g_key kind key hosts e =
    then_step (one-Step (adds_spec cl g_key kind key.name key.namespace hosts e)) (marks _ _)

sync_config_map-Steps :
    (ipam : String) (cl : K8sClient) (key : ResourceKey) (cm : ConfigMap)
    → Steps cl (sync_config_map ipam cl key cm).0
unfolding sync_config_map str_beq
sync_config_map-Steps ipam cl key cm =
    elim (Bool-cases (not (cm.namespace == key.namespace) || not (cm.name == key.name))) [
      | inl other ↦ rw (sync_config_map, other) (no_step cl)
      | inr match ↦ elim (Option-cases (lookup hostname_annotation cm.annotations)) [
        | inl miss ↦ rw (sync_config_map, match, miss) (no_step cl)
        | inr (host, found) ↦ elim (Bool-cases (lacks_network ipam cm.annotations)) [
          | inl lacks ↦ rw (sync_config_map, match, found, lacks) (no_step cl)
          | inr ready ↦
              rw (sync_config_map, match, found, ready)
                (add_resource-Steps cl (group_of cm.annotations "") "ConfigMap" key (host ∷ [])
                  refl)
        ]
      ]
    ]

sync_ingress-Steps :
    (ipam : String) (cl : K8sClient) (key : ResourceKey) (ing : Ingress)
    → Steps cl (sync_ingress ipam cl key ing).0
unfolding sync_ingress str_beq
sync_ingress-Steps ipam cl key ing =
    elim (Bool-cases (not (ing.namespace == key.namespace) || not (ing.name == key.name))) [
      | inl other ↦ rw (sync_ingress, other) (no_step cl)
      | inr match ↦ elim (Bool-cases (lacks_network ipam ing.annotations)) [
        | inl lacks ↦ rw (sync_ingress, match, lacks) (no_step cl)
        | inr ready ↦ elim (Option-cases (ingress_hosts ing)) [
          | inl miss ↦ rw (sync_ingress, match, ready, miss) (no_step cl)
          | inr (hosts, found) ↦
              rw (sync_ingress, match, ready, found)
                (add_resource-Steps cl _ "Ingress" key hosts refl)
        ]
      ]
    ]

sync_loop-Steps :
    {A : Type 0} (step : K8sClient → A → K8sClient × Bool)
    → ((c : K8sClient) (x : A) → Steps c (step c x).0)
    → (cl : K8sClient) (xs : List A) → Steps cl (sync_loop step cl xs).0
unfolding sync_loop
sync_loop-Steps step h cl [] = no_step cl
sync_loop-Steps step h cl (x ∷ xs) = elim (Bool-cases (step cl x).1) [
  | inl stops ↦ rw (sync_loop, stops) (h cl x)
  | inr goes_on ↦
      rw (sync_loop, goes_on) (Steps-append (h cl x) (sync_loop-Steps step h (step cl x).0 xs))
]

-- The client that a sync ends with, if it does not panic.
abbrev pub Ends : K8sClient → Synced → Type 0
Ends cl crashed = Unit
Ends cl (failed cl') = Steps cl cl'
Ends cl (synced cl') = Steps cl cl'

written_if-Ends :
    (cl cl' : K8sClient) (due : Bool) (s : Send)
    → Steps cl cl'
    → Ends cl (if due then synced (write_ip_groups cl' s) else synced cl')
written_if-Ends cl cl' true s h = then_step h (writes cl' s)
written_if-Ends cl cl' false s h = h

finish_sync-Ends :
    (cl : K8sClient) (r : K8sClient × Bool) (s : Send) → Steps cl r.0 → Ends cl (finish_sync r s)
unfolding finish_sync
finish_sync-Ends cl (cl', true) s h = h
finish_sync-Ends cl (cl', false) s h = written_if-Ends cl cl' cl'.updated s h

sync_kind-Ends :
    (ipam : String) (cl : K8sClient) (key : ResourceKey) (caches : Caches) (s : Send)
    → Ends cl (sync_kind ipam cl key caches s)
unfolding sync_kind
sync_kind-Ends ipam cl key caches s = elim (Bool-cases (key.kind == "ConfigMap")) [
  | inl cm ↦ elim (Option-cases caches.config_maps) [
    | inl miss ↦ rw (sync_kind, cm, miss) (no_step cl)
    | inr (cms, found) ↦
        rw (sync_kind, cm, found)
          (finish_sync-Ends cl _ s
            (sync_loop-Steps _ (λ c x. sync_config_map-Steps ipam c key x) cl cms))
  ]
  | inr not_cm ↦ elim (Bool-cases (key.kind == "Ingress")) [
    | inl ing ↦ elim (Option-cases caches.ingresses) [
      | inl miss ↦ rw (sync_kind, not_cm, ing, miss) (no_step cl)
      | inr (ings, found) ↦
          rw (sync_kind, not_cm, ing, found)
            (finish_sync-Ends cl _ s
              (sync_loop-Steps _ (λ c x. sync_ingress-Steps ipam c key x) cl ings))
    ]
    | inr neither ↦ rw (sync_kind, not_cm, neither) (finish_sync-Ends cl (cl, false) s (no_step cl))
  ]
]

pub sync_resource-Ends :
    (ipam : String) (cl : K8sClient) (key : ResourceKey) (caches : Caches) (s : Send)
    → Ends cl (sync_resource ipam cl key caches s)
unfolding sync_resource
sync_resource-Ends ipam cl key caches s =
    elim (Bool-cases (
      is_some (get_resource_informer cl key.namespace)
      || not (key.kind == "ConfigMap" || key.kind == "Ingress"))) [
        | inl reads ↦ rw (sync_resource, reads) (sync_kind-Ends ipam cl key caches s)
        | inr nil ↦ rw (sync_resource, nil) tt
      ]

abbrev pub NsEnds : K8sClient → NsSynced → Type 0
NsEnds cl ns_crashed = Unit
NsEnds cl (ns_failed cl') = Steps cl cl'
NsEnds cl (ns_synced cl') = Steps cl cl'

ns_added-NsEnds :
    (cl : K8sClient) (r : K8sClient × Option RsInformer) → Steps cl r.0 → NsEnds cl (ns_added r)
unfolding ns_added
ns_added-NsEnds cl (cl', none) h = h
ns_added-NsEnds cl (cl', some rs_inf) h = h

pub sync_namespace-NsEnds :
    (cl : K8sClient) (namespace : String) (exists : Option Bool)
    → NsEnds cl (sync_namespace cl namespace exists)
unfolding sync_namespace
sync_namespace-NsEnds cl namespace none = no_step cl
sync_namespace-NsEnds cl namespace (some true) =
    elim (Bool-cases (is_some (get_resource_informer cl namespace))) [
      | inl found ↦ rw (sync_namespace, found) (no_step cl)
      | inr new ↦
          rw (sync_namespace, new)
            (ns_added-NsEnds cl (add_namespace cl namespace)
              (one-Step (adds_namespace cl namespace)))
    ]
sync_namespace-NsEnds cl namespace (some false) =
    elim (Bool-cases (is_some (get_resource_informer cl namespace))) [
      | inl found ↦ rw (sync_namespace, found) (one-Step (removes_namespace cl namespace))
      | inr nil ↦ rw (sync_namespace, nil) tt
    ]
