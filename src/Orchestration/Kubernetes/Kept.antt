-- ===== src/Orchestration/Kubernetes/Kept.antt =====
-- What `updateConfigMap` of pkg/orchestration/kubernetes.go leaves in the groups.
use f5_ipam_ctlr.Prelude.{
  Bool, Bool-cases, List, Option-cases, String, [], arith, false, inl, inr, not, refl, some,
  str_beq_iff, suc, true, ℕ, ◌||◌, ◌∷◌, ◌≡◌, ◌≤◌,
}
use f5_ipam_ctlr.Orchestration.IpGroup.{get_spec, remove_host, remove_host_loop, remove_host_specs}
use f5_ipam_ctlr.Orchestration.IpGroup.Remove.{num_specs}
use f5_ipam_ctlr.Orchestration.IpGroup.RemoveHost.{
  host_count, host_count-remove_host, spec_for, specs-remove_host,
}
use f5_ipam_ctlr.Orchestration.Kubernetes.{ConfigMap, K8sClient, Send, check_valid_config_map}
use f5_ipam_ctlr.Orchestration.Kubernetes.Handlers.{
  Pruned, at_index, cm_host_exists, enqueue, key_of, prune, prune_config_map, prune_loop,
  prune_step, update_config_map,
}
use f5_ipam_ctlr.Orchestration.Types.{GroupKey, IpGroups, ResourceKey, Spec, equals}
use f5_ipam_ctlr.Prelude.GoMap.{is_some}

num_specs-remove_host_loop :
    (deleted : Bool) (groups : IpGroups) (h : String) (key : ResourceKey) (t : Spec)
    → num_specs (remove_host_loop deleted groups h key) t ≡ num_specs groups t
unfolding remove_host_loop num_specs
num_specs-remove_host_loop deleted [] h key t = refl
num_specs-remove_host_loop deleted ((k, grp) ∷ groups) h key t =
    let deleted' = (remove_host_specs deleted grp h key).1 in
    omega (
      arith,
      num_specs-remove_host_loop deleted' groups h key t,
      (specs-remove_host deleted grp h key t).0,
    )

-- A host that the resource still has, or a host of another resource.
abbrev pub stays : (String → Bool) → ResourceKey → Spec → String → Bool
stays exists key t host = exists host || not (equals (spec_for key) t)

-- The groups have one spec of the resource at most, and as many of the hosts that stay.
record IsPruned (exists : String → Bool) (key : ResourceKey) (groups groups' : IpGroups)
    : Type 0 where
  one_spec : num_specs groups' (spec_for key) ≤ 1
  kept :
      (t : Spec) (host : String)
      → stays exists key t host ≡ true
      → host_count groups' t host ≡ host_count groups t host

module _ (exists : String → Bool) (key : ResourceKey) (groups : IpGroups) where
  prune_step-IsPruned :
      (g_key : GroupKey) (i : ℕ) (p : Pruned)
      → IsPruned exists key groups p.groups
      → IsPruned exists key groups (prune_step exists key g_key i p).groups
  unfolding prune_step remove_host
  prune_step-IsPruned g_key i p h =
      let gone = at_index i p.array in
      elim (Bool-cases (exists gone)) [
        | inl there ↦ rw there h
        | inr lacks ↦ rw lacks (record {
          one_spec = omega (
            arith,
            num_specs-remove_host_loop false p.groups gone key (spec_for key),
            h.one_spec,
          );
          kept = λ t host e. ground (
            arith,
            host_count-remove_host p.groups gone key h.one_spec t host,
            h.kept t host e,
            str_beq_iff gone host,
            lacks,
          );
        })
      ]

  prune_loop-IsPruned :
      (g_key : GroupKey) (i : ℕ) (hosts : List String) (p : Pruned)
      → IsPruned exists key groups p.groups
      → IsPruned exists key groups (prune_loop exists key g_key i hosts p).groups
  unfolding prune_loop
  prune_loop-IsPruned g_key i [] p h = h
  prune_loop-IsPruned g_key i (x ∷ hosts) p h =
      prune_loop-IsPruned g_key (suc i) hosts (prune_step exists key g_key i p)
        (prune_step-IsPruned g_key i p h)

prune_config_map-IsPruned :
    (cl : K8sClient) (current : ConfigMap) (key : ResourceKey)
    → num_specs cl.ip_group (spec_for key) ≤ 1
    → IsPruned (cm_host_exists current) key cl.ip_group (prune_config_map cl current key).ip_group
unfolding prune_config_map prune
prune_config_map-IsPruned cl current key one =
    let fresh : IsPruned (cm_host_exists current) key cl.ip_group cl.ip_group = record {
      one_spec = one;
      kept = λ t host e. refl;
    } in
    elim (Option-cases (get_spec cl.ip_group key)) [
      | inl miss ↦
          let same : prune_config_map cl current key ≡ cl = rw (prune_config_map, miss) refl in
          rw same fresh
      | inr ((spec, grp), found) ↦
          let groups : (prune_config_map cl current key).ip_group
              ≡ (prune (cm_host_exists current) key cl.ip_group spec grp).groups =
            rw (prune_config_map, found) refl in
          rw groups (
            prune_loop-IsPruned (cm_host_exists current) key cl.ip_group (key_of spec grp) 0
              spec.hosts _ fresh)
    ]

-- If a ConfigMap is valid before and after its update, and the groups have one spec of it at most,
-- then updateConfigMap queues its key and writes no message, and its host, if it still names it,
-- stands in its specs as often as before, as does every host in the specs of every other resource.
pub update_config_map_keeps :
    (cl : K8sClient) (old cur : ConfigMap) (s : Send) (key : ResourceKey)
    → check_valid_config_map cl old ≡ some key
    → is_some (check_valid_config_map cl cur) ≡ true
    → num_specs cl.ip_group (spec_for key) ≤ 1
    → let cl' = update_config_map cl old cur s in
      (cl'.queued ≡ key ∷ cl.queued)
      × (cl'.received ≡ cl.received)
      × ((t : Spec) (host : String)
          → stays (cm_host_exists cur) key t host ≡ true
          → host_count cl'.ip_group t host ≡ host_count cl.ip_group t host)
unfolding update_config_map
update_config_map_keeps cl old cur s key was is one =
    let now : update_config_map cl old cur s ≡ enqueue (prune_config_map cl cur key) key =
      rw (update_config_map, was, is) refl in
    let h = prune_config_map-IsPruned cl cur key one in
    rw now (
      unfold prune_config_map in ground arith,
      unfold prune_config_map in ground arith,
      λ t host e. h.kept t host e,
    )
