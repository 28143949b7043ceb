-- ===== src/Orchestration/Kubernetes/Steps.antt =====
-- The single steps of the goroutines of pkg/orchestration/kubernetes.go: the two informers of a
-- namespace, the worker of resources, the worker of namespaces, and the writer that runs two seconds
-- after the start. Each step is a method that holds its mutex from its first to its last statement,
-- or one access to a field, so that every interleaving of the goroutines is a sequence of steps.
use f5_ipam_ctlr.Prelude.{Bool, List, String, false, string_eq, ◌==◌, ◌∷◌, ◌≡◌}
use f5_ipam_ctlr.Orchestration.IpGroup.{add_to_ip_group, remove_from_ip_group, remove_host}
use f5_ipam_ctlr.Orchestration.Kubernetes.{
  K8sClient, Send, add_namespace, add_namespace_label_informer, remove_resource_informers,
  write_ip_groups,
}
use f5_ipam_ctlr.Orchestration.Types.{GroupKey, ResourceKey, Spec, group_key_eq}

-- The arguments are any, so that the steps allow more than the handlers and the workers do.
pub data Step : K8sClient → K8sClient → Type 0 where
  -- `addToIPGroup`, with a kind
  adds_spec :
      (cl : K8sClient) (g_key : GroupKey) (kind rs_name namespace : String) (hosts : List String)
      → kind == "" ≡ false
      → Step cl (record cl {
        ip_group = (add_to_ip_group cl.ip_group g_key kind rs_name namespace hosts).0;
      })
  -- `removeFromIPGroup`
  removes_spec :
      (cl : K8sClient) (spec : Spec)
      → Step cl (record cl { ip_group = remove_from_ip_group cl.ip_group spec })
  -- `removeHost`
  removes_host :
      (cl : K8sClient) (host : String) (key : ResourceKey)
      → Step cl (record cl { ip_group = remove_host cl.ip_group host key })
  -- A write of `client.updated`.
  marks : (cl : K8sClient) (b : Bool) → Step cl (record cl { updated = b })
  -- `rsQueue.Add`
  queues : (cl : K8sClient) (key : ResourceKey) → Step cl (record cl { queued = key ∷ cl.queued })
  -- `writeIPGroups`
  writes : (cl : K8sClient) (s : Send) → Step cl (write_ip_groups cl s)
  -- `addNamespace`
  adds_namespace : (cl : K8sClient) (namespace : String) → Step cl (add_namespace cl namespace).0
  -- `addNamespaceLabelInformer`
  adds_label : (cl : K8sClient) → Step cl (add_namespace_label_informer cl).0
  -- `removeResourceInformers`
  removes_namespace :
      (cl : K8sClient) (namespace : String) → Step cl (remove_resource_informers cl namespace).0

-- Any number of steps.
pub data Steps : K8sClient → K8sClient → Type 0 where
  no_step : (cl : K8sClient) → Steps cl cl
  then_step : {cl next final : K8sClient} → Steps cl next → Step next final → Steps cl final

pub one-Step : {cl next : K8sClient} → Step cl next → Steps cl next
one-Step s = then_step (no_step _) s

pub Steps-append : {cl next final : K8sClient} → Steps cl next → Steps next final → Steps cl final
Steps-append p (no_step _) = p
Steps-append p (then_step q s) = then_step (Steps-append p q) s
