-- ===== src/Orchestration/Kubernetes/EventSteps.antt =====
-- The handlers of the informers' events of pkg/orchestration/kubernetes.go as sequences of steps.
use f5_ipam_ctlr.Prelude.{
  Bool, Bool-cases, List, Option, Option-cases, String, [], inl, inr, none, some, string_eq, suc, ℕ,
  ◌==◌, ◌||◌, ◌∷◌,
}
use f5_ipam_ctlr.Controller.{get_or_empty}
use f5_ipam_ctlr.Controller.Cleanup.{goes}
use f5_ipam_ctlr.Orchestration.IpGroup.{get_spec}
use f5_ipam_ctlr.Orchestration.Kubernetes.{
  ConfigMap, Ingress, K8sClient, Send, check_valid_config_map, check_valid_ingress,
  group_annotation,
}
use f5_ipam_ctlr.Orchestration.Kubernetes.Handlers.{
  Pruned, add_checked, at_index, cm_host_exists, delete_checked, drop_resource, ing_host_exists,
  key_of, prune, prune_config_map, prune_ingress, prune_loop, prune_step, update_config_map,
  update_ingress,
}
use f5_ipam_ctlr.Orchestration.Kubernetes.Steps.{
  Steps, marks, no_step, one-Step, queues, removes_host, removes_spec, then_step, writes,
}
use f5_ipam_ctlr.Orchestration.Types.{GroupKey, ResourceKey, Spec, group_key_eq}
use f5_ipam_ctlr.Prelude.GoMap.{is_some, lookup}

-- The loop over the hosts of a spec takes hosts out and does nothing else.
prune_step-Steps :
    (cl : K8sClient) (exists : String → Bool) (key : ResourceKey) (g_key : GroupKey) (i : ℕ)
    (p : Pruned)
    → Steps cl (record cl { ip_group = p.groups })
    → Steps cl (record cl { ip_group = (prune_step exists key g_key i p).groups })
unfolding prune_step
prune_step-Steps cl exists key g_key i p before = elim (Bool-cases (exists (at_index i p.array))) [
  | inl kept ↦ rw (prune_step, kept) before
  | inr gone ↦
      rw (prune_step, gone)
        (then_step before
          (removes_host (record cl { ip_group = p.groups }) (at_index i p.array) key))
]

prune_loop-Steps :
    (cl : K8sClient) (exists : String → Bool) (key : ResourceKey) (g_key : GroupKey) (i : ℕ)
    (hosts : List String) (p : Pruned)
    → Steps cl (record cl { ip_group = p.groups })
    → Steps cl (record cl { ip_group = (prune_loop exists key g_key i hosts p).groups })
unfolding prune_loop
prune_loop-Steps cl exists key g_key i [] p before = before
prune_loop-Steps cl exists key g_key i (_ ∷ hosts) p before =
    prune_loop-Steps cl exists key g_key (suc i) hosts (prune_step exists key g_key i p)
      (prune_step-Steps cl exists key g_key i p before)

prune-Steps :
    (cl : K8sClient) (exists : String → Bool) (key : ResourceKey) (spec : Spec) (grp : String)
    → Steps cl (record cl { ip_group = (prune exists key cl.ip_group spec grp).groups })
unfolding prune
prune-Steps cl exists key spec grp =
    prune_loop-Steps cl exists key (key_of spec grp) 0 spec.hosts _ (no_step cl)

drop_resource-Steps :
    (cl : K8sClient) (key : ResourceKey) (s : Send) → Steps cl (drop_resource cl key s)
unfolding drop_resource
drop_resource-Steps cl key s = elim (Option-cases (get_spec cl.ip_group key)) [
  | inl miss ↦ rw (drop_resource, miss) (no_step cl)
  | inr ((spec, grp), hit) ↦
      rw (drop_resource, hit) (then_step (one-Step (removes_spec cl spec)) (writes _ s))
]

pub add_checked-Steps : (cl : K8sClient) (o : Option ResourceKey) → Steps cl (add_checked cl o)
unfolding add_checked
add_checked-Steps cl none = no_step cl
add_checked-Steps cl (some key) = one-Step (queues cl key)

pub delete_checked-Steps :
    (cl : K8sClient) (o : Option ResourceKey) (s : Send) → Steps cl (delete_checked cl o s)
unfolding delete_checked
delete_checked-Steps cl none s = no_step cl
delete_checked-Steps cl (some key) s = drop_resource-Steps cl key s

prune_config_map-Steps :
    (cl : K8sClient) (cm : ConfigMap) (key : ResourceKey) → Steps cl (prune_config_map cl cm key)
unfolding prune_config_map
prune_config_map-Steps cl cm key = elim (Option-cases (get_spec cl.ip_group key)) [
  | inl miss ↦ rw (prune_config_map, miss) (no_step cl)
  | inr ((spec, grp), hit) ↦
      rw (prune_config_map, hit) (prune-Steps cl (cm_host_exists cm) key spec grp)
]

prune_ingress-Steps :
    (cl : K8sClient) (ing : Ingress) (key : ResourceKey) → Steps cl (prune_ingress cl ing key)
unfolding prune_ingress
prune_ingress-Steps cl ing key = elim (Option-cases (get_spec cl.ip_group key)) [
  | inl miss ↦ rw (prune_ingress, miss) (no_step cl)
  | inr ((spec, grp), hit) ↦
      let p = prune (ing_host_exists ing) key cl.ip_group spec grp in
      let pruned = prune-Steps cl (ing_host_exists ing) key spec grp in
      let marked = then_step pruned (marks _ (cl.updated || p.removed)) in
      let val = get_or_empty (lookup group_annotation ing.annotations) in
      elim (Bool-cases (val == grp)) [
        | inl same ↦ rw (prune_ingress, hit, same) marked
        | inr moved ↦ rw (prune_ingress, hit, moved) (then_step marked (removes_spec _ spec))
      ]
]

pub update_config_map-Steps :
    (cl : K8sClient) (old cur : ConfigMap) (s : Send) → Steps cl (update_config_map cl old cur s)
unfolding update_config_map
update_config_map-Steps cl old cur s = elim (Option-cases (check_valid_config_map cl old)) [
  | inl unseen ↦
      rw (update_config_map, unseen) (add_checked-Steps cl (check_valid_config_map cl cur))
  | inr (key, seen) ↦ elim (Bool-cases (is_some (check_valid_config_map cl cur))) [
    | inl stays ↦
        rw (update_config_map, seen, stays)
          (then_step (prune_config_map-Steps cl cur key) (queues _ key))
    | inr goes ↦ rw (update_config_map, seen, goes) (drop_resource-Steps cl key s)
  ]
]

pub update_ingress-Steps :
    (cl : K8sClient) (old cur : Ingress) (s : Send) → Steps cl (update_ingress cl old cur s)
unfolding update_ingress
update_ingress-Steps cl old cur s = elim (Option-cases (check_valid_ingress cl old)) [
  | inl unseen ↦ rw (update_ingress, unseen) (add_checked-Steps cl (check_valid_ingress cl cur))
  | inr (key, seen) ↦ elim (Bool-cases (is_some (check_valid_ingress cl cur))) [
    | inl stays ↦
        rw (update_ingress, seen, stays) (then_step (prune_ingress-Steps cl cur key) (queues _ key))
    | inr goes ↦ rw (update_ingress, seen, goes) (drop_resource-Steps cl key s)
  ]
]
