-- ===== src/Orchestration/Kubernetes/Handled.antt =====
-- The handlers and the workers of pkg/orchestration/kubernetes.go as sequences of steps.
use f5_ipam_ctlr.Prelude.{Bool, Option, String, ◌≡◌}
use f5_ipam_ctlr.Orchestration.Kubernetes.{
  ConfigMap, Ingress, K8sClient, Send, check_valid_config_map, check_valid_ingress, write_ip_groups,
}
use f5_ipam_ctlr.Orchestration.Kubernetes.EventSteps.{
  add_checked-Steps, delete_checked-Steps, update_config_map-Steps, update_ingress-Steps,
}
use f5_ipam_ctlr.Orchestration.Kubernetes.Handlers.{
  add_config_map, add_ingress, delete_config_map, delete_ingress, update_config_map, update_ingress,
}
use f5_ipam_ctlr.Orchestration.Kubernetes.NamespaceSync.{ns_failed, ns_synced, sync_namespace}
use f5_ipam_ctlr.Orchestration.Kubernetes.Steps.{Steps, one-Step, writes}
use f5_ipam_ctlr.Orchestration.Kubernetes.Sync.{Caches, failed, sync_resource, synced}
use f5_ipam_ctlr.Orchestration.Kubernetes.SyncSteps.{sync_namespace-NsEnds, sync_resource-Ends}
use f5_ipam_ctlr.Orchestration.Types.{ResourceKey}

-- What one event or one key of a queue does to the client, without the other goroutines.
data Handles (ipam : String) : K8sClient → K8sClient → Type 0 where
  config_map_added : (cl : K8sClient) (cm : ConfigMap) → Handles ipam cl (add_config_map cl cm)
  config_map_updated :
      (cl : K8sClient) (old cur : ConfigMap) (s : Send)
      → Handles ipam cl (update_config_map cl old cur s)
  config_map_deleted :
      (cl : K8sClient) (cm : ConfigMap) (s : Send) → Handles ipam cl (delete_config_map cl cm s)
  ingress_added : (cl : K8sClient) (ing : Ingress) → Handles ipam cl (add_ingress cl ing)
  ingress_updated :
      (cl : K8sClient) (old cur : Ingress) (s : Send)
      → Handles ipam cl (update_ingress cl old cur s)
  ingress_deleted :
      (cl : K8sClient) (ing : Ingress) (s : Send) → Handles ipam cl (delete_ingress cl ing s)
  resource_synced :
      (cl : K8sClient) (key : ResourceKey) (caches : Caches) (s : Send) (cl' : K8sClient)
      → sync_resource ipam cl key caches s ≡ synced cl'
      → Handles ipam cl cl'
  resource_failed :
      (cl : K8sClient) (key : ResourceKey) (caches : Caches) (s : Send) (cl' : K8sClient)
      → sync_resource ipam cl key caches s ≡ failed cl'
      → Handles ipam cl cl'
  namespace_synced :
      (cl : K8sClient) (namespace : String) (exists : Option Bool) (cl' : K8sClient)
      → sync_namespace cl namespace exists ≡ ns_synced cl'
      → Handles ipam cl cl'
  namespace_failed :
      (cl : K8sClient) (namespace : String) (exists : Option Bool) (cl' : K8sClient)
      → sync_namespace cl namespace exists ≡ ns_failed cl'
      → Handles ipam cl cl'
  started_empty : (cl : K8sClient) (s : Send) → Handles ipam cl (write_ip_groups cl s)

-- What a handler or a worker does is a sequence of single steps, so that what holds after all steps
-- holds after every sequence of handlers, and in every interleaving of them.
Handles-Steps : (ipam : String) (cl cl' : K8sClient) → Handles ipam cl cl' → Steps cl cl'
Handles-Steps ipam cl _ (config_map_added _ cm) =
    add_checked-Steps cl (check_valid_config_map cl cm)
Handles-Steps ipam cl _ (config_map_updated _ old cur s) = update_config_map-Steps cl old cur s
Handles-Steps ipam cl _ (config_map_deleted _ cm s) =
    delete_checked-Steps cl (check_valid_config_map cl cm) s
Handles-Steps ipam cl _ (ingress_added _ ing) = add_checked-Steps cl (check_valid_ingress cl ing)
Handles-Steps ipam cl _ (ingress_updated _ old cur s) = update_ingress-Steps cl old cur s
Handles-Steps ipam cl _ (ingress_deleted _ ing s) =
    delete_checked-Steps cl (check_valid_ingress cl ing) s
Handles-Steps ipam cl _ (resource_synced _ key caches s cl' e) =
    rw e at (sync_resource-Ends ipam cl key caches s)
Handles-Steps ipam cl _ (resource_failed _ key caches s cl' e) =
    rw e at (sync_resource-Ends ipam cl key caches s)
Handles-Steps ipam cl _ (namespace_synced _ namespace exists cl' e) =
    rw e at (sync_namespace-NsEnds cl namespace exists)
Handles-Steps ipam cl _ (namespace_failed _ namespace exists cl' e) =
    rw e at (sync_namespace-NsEnds cl namespace exists)
Handles-Steps ipam cl _ (started_empty _ s) = one-Step (writes cl s)
