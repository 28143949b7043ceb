-- ===== src/Orchestration/Kubernetes/NamespaceSync.antt =====
-- `syncNamespace` of pkg/orchestration/kubernetes.go: what a label on a namespace does to the
-- registry of informers.
use f5_ipam_ctlr.Prelude.{
  Bool, Bool-cases, Option, Option-cases, String, arith, false, if◌then◌else◌, inl, inr, none, refl,
  some, str_beq_iff, str_beq_refl, string_eq, true, ◌&&◌, ◌==◌, ◌||◌, ◌≡◌,
}
use f5_ipam_ctlr.Orchestration.Kubernetes.{
  K8sClient, RsInformer, add_informer, add_namespace, get_resource_informer,
  remove_resource_informers, watching_all_namespaces,
}
use f5_ipam_ctlr.Orchestration.Kubernetes.Namespaces.{
  watched, watched-add_namespace, watching_all-has,
}
use f5_ipam_ctlr.Orchestration.Types.{group_key_eq}
use f5_ipam_ctlr.Prelude.GoMap.{delete, is_some, lookup, lookup-delete}

-- A panic at the nil informer that is stopped, an error, or a return.
pub data NsSynced : Type 0 where
  ns_crashed : NsSynced
  ns_failed : K8sClient → NsSynced
  ns_synced : K8sClient → NsSynced

-- The branch for a namespace that exists and has no informer.
unfoldable pub ns_added : K8sClient × Option RsInformer → NsSynced
ns_added (cl, none) = ns_failed cl
ns_added (cl, some rs_inf) = ns_synced cl

-- `syncNamespace`. Whether the cache has the namespace is an argument, `none` for its error.
unfoldable pub sync_namespace : K8sClient → String → Option Bool → NsSynced
unfolding ns_added
sync_namespace cl namespace none = ns_failed cl
sync_namespace cl namespace (some exists) =
    let found = is_some (get_resource_informer cl namespace) in
    if exists && found
    then ns_synced cl
    else (if exists
        then ns_added (add_namespace cl namespace)
        else (if found then ns_synced (remove_resource_informers cl namespace).0 else ns_crashed))

-- Whether the namespace is watched afterwards, `none` after a panic.
unfoldable pub watched_after : NsSynced → String → Option Bool
unfolding watched
watched_after ns_crashed namespace = none
watched_after (ns_failed cl) namespace = some (watched cl namespace)
watched_after (ns_synced cl) namespace = some (watched cl namespace)

pub add_namespace_new :
    (cl : K8sClient) (namespace : String)
    → watching_all_namespaces cl.rs_informers ≡ false
    → namespace == "" ≡ false
    → is_some (add_namespace cl namespace).1 ≡ true
unfolding add_namespace add_informer
add_namespace_new cl namespace not_all named =
    elim (Option-cases (lookup namespace cl.rs_informers)) [
      | inl new ↦ ground (arith, str_beq_iff "" namespace, str_beq_iff namespace "")
      | inr (rs_inf, found) ↦ ground (arith, str_beq_iff "" namespace, str_beq_iff namespace "")
    ]

watched_after-added :
    (r : K8sClient × Option RsInformer) (namespace : String)
    → watched_after (ns_added r) namespace ≡ some (watched r.0 namespace)
unfolding ns_added watched_after
watched_after-added (cl, none) namespace = refl
watched_after-added (cl, some rs_inf) namespace = refl

watched-remove :
    (cl : K8sClient) (namespace : String)
    → watching_all_namespaces cl.rs_informers ≡ false
    → watched cl namespace ≡ true
    → watched (remove_resource_informers cl namespace).0 namespace ≡ false
unfolding watched get_resource_informer remove_resource_informers
watched-remove cl namespace not_all found =
    let infs = cl.rs_informers in
    ground (
      arith,
      watching_all-has infs,
      watching_all-has (delete namespace infs),
      lookup-delete namespace "" infs,
      lookup-delete namespace namespace infs,
      str_beq_refl namespace,
    )

-- While single namespaces are watched, a syncNamespace that the cache answers ends with the
-- namespace watched exactly if it exists, except that it panics for a namespace that neither exists
-- nor is watched.
pub watched_after-sync_namespace :
    (cl : K8sClient) (namespace : String) (exists : Bool)
    → watching_all_namespaces cl.rs_informers ≡ false
    → namespace == "" ≡ false
    → watched_after (sync_namespace cl namespace (some exists)) namespace
      ≡ (if exists || watched cl namespace then some exists else none)
unfolding sync_namespace watched_after watched
watched_after-sync_namespace cl namespace true not_all named =
    elim (Bool-cases (watched cl namespace)) [
      | inl found ↦ ground arith
      | inr new ↦
          let ok = add_namespace_new cl namespace not_all named in
          ground (
            arith,
            watched_after-added (add_namespace cl namespace) namespace,
            watched-add_namespace cl namespace namespace ok,
            str_beq_refl namespace,
          )
    ]
watched_after-sync_namespace cl namespace false not_all named =
    elim (Bool-cases (watched cl namespace)) [
      | inl found ↦ ground (arith, watched-remove cl namespace not_all found)
      | inr new ↦ ground arith
    ]
