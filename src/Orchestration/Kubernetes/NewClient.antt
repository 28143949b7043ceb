-- ===== src/Orchestration/Kubernetes/NewClient.antt =====
-- `NewKubernetesClient` of pkg/orchestration/kubernetes.go: the namespaces that a new client
-- watches. `Selector` is the type of label selectors and `parse` is `labels.Parse`.
pub mod Watches
use f5_ipam_ctlr.Prelude.{
  List, Option, String, [], false, if◌then◌else◌, is_empty, none, some, string_eq, ◌==◌, ◌∷◌,
}
use f5_ipam_ctlr.Orchestration.Kubernetes.{K8sClient, add_namespace, add_namespace_label_informer}
use f5_ipam_ctlr.Orchestration.Types.{group_key_eq}

-- The fields of `KubeParams` that the informers depend on.
pub record KubeParams : Type 0 where
  pub namespaces : List String
  pub namespace_label : String

abbrev pub empty_client : K8sClient
empty_client = record {
  rs_informers = [];
  has_ns_informer = false;
  initial_state = false;
  updated = false;
  ip_group = [];
  queued = [];
  received = [];
}

-- The loop over the namespaces; an error is a warning.
unfoldable pub add_namespaces : K8sClient → List String → K8sClient
add_namespaces cl [] = cl
add_namespaces cl (namespace ∷ namespaces) =
    add_namespaces (add_namespace cl namespace).0 namespaces

-- The informers if there is no label.
unfoldable pub watch_namespaces : List String → K8sClient
unfolding add_namespaces
watch_namespaces namespaces =
    if is_empty namespaces
    then (add_namespace empty_client "").0
    else add_namespaces empty_client namespaces

module _ {Selector : Type 0} (everything : Selector) (parse : String → Option Selector) where
  -- `createLabel`; `none` is its error and a nil selector.
  unfoldable pub create_label : String → Option Selector
  create_label label = if label == "" then some everything else parse label

  -- `NewKubernetesClient`: the client, and the selector of its informer of namespaces.
  unfoldable pub new_kubernetes_client : KubeParams → K8sClient × Option Selector
  unfolding watch_namespaces create_label
  new_kubernetes_client params =
      if params.namespace_label == ""
      then (watch_namespaces params.namespaces, none)
      else ((add_namespace_label_informer empty_client).0, create_label params.namespace_label)
