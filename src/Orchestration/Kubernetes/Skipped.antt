-- ===== src/Orchestration/Kubernetes/Skipped.antt =====
-- The loop of `updateIngress` and `updateConfigMap` of pkg/orchestration/kubernetes.go over the hosts
-- of a spec, whose array `removeHost` shifts meanwhile.
use f5_ipam_ctlr.Prelude.{
  Bool, Bool-cases, List, String, [], arith, contains, contains-append, contains-sort, false,
  if◌then◌else◌, inl, inr, length, refl, remove_element, some, str_beq_refl, string_eq, true, ℕ,
  ◌++◌, ◌==◌, ◌∙◌, ◌∷◌, ◌≡◌,
}
use f5_ipam_ctlr.Orchestration.IpGroup.{
  find_spec, get_all_hosts, group_hosts, remove_host, remove_host_loop, remove_host_specs,
  spec_hosts,
}
use f5_ipam_ctlr.Orchestration.Kubernetes.Handlers.{
  Pruned, at_index, drop, hosts_in, key_of, prune, prune_loop, prune_step,
}
use f5_ipam_ctlr.Orchestration.Types.{
  GroupKey, IpGroups, ResourceKey, Spec, equals_key, group_key_beq_iff, group_key_eq,
}
use f5_ipam_ctlr.Prelude.GoMap.{lookup}

abbrev shrink : List String → String → List String
shrink h host = if contains h host then remove_element h host else h

module _ (exists : String → Bool) (key : ResourceKey) (g_key : GroupKey) (spec : Spec)
    (found : equals_key spec key ≡ true) where
  -- The groups with one spec, with the hosts.
  abbrev one : List String → IpGroups
  one h = (g_key, record spec { hosts = h } ∷ []) ∷ []

  remove_host-one :
      (h : List String) (host : String) → remove_host (one h) host key ≡ one (shrink h host)
  unfolding remove_host remove_host_loop remove_host_specs equals_key
  remove_host-one h host = ground (arith, found)

  lookup-one : (h : List String) → lookup g_key (one h) ≡ some (record spec { hosts = h } ∷ [])
  unfolding lookup
  lookup-one h = ground (arith, (group_key_beq_iff g_key g_key).1 refl)

  find_spec_one :
      (h : List String)
      → find_spec (record spec { hosts = h } ∷ []) key ≡ some (record spec { hosts = h })
  unfolding find_spec equals_key
  find_spec_one h = ground (arith, found)

  hosts_in-one : (h : List String) → hosts_in (one h) g_key key ≡ h
  unfolding hosts_in
  hosts_in-one h = rw (hosts_in, lookup-one h, find_spec_one h) refl

  abbrev state : List String → List String → Bool → Pruned
  state h array removed = record { groups = one h; array = array; removed = removed }

  abbrev after_step : ℕ → List String → List String → Bool → Pruned
  after_step i h array removed =
      let h' = shrink h (at_index i array) in
      if exists (at_index i array)
      then state h array removed
      else state h' (h' ++ drop (length h') array) true

  prune_step_one :
      (i : ℕ) (h array : List String) (removed : Bool)
      → prune_step exists key g_key i (state h array removed) ≡ after_step i h array removed
  unfolding prune_step
  prune_step_one i h array removed =
      rw
        (
          prune_step,
          remove_host-one h (at_index i array),
          hosts_in-one (shrink h (at_index i array)),
        )
        refl

  step_kept :
      (i : ℕ) (h array : List String) (removed : Bool)
      → exists (at_index i array) ≡ true
      → prune_step exists key g_key i (state h array removed) ≡ state h array removed
  step_kept i h array removed there = prune_step_one i h array removed ∙ rw there refl

  step_gone :
      (i : ℕ) (h h' array : List String) (removed : Bool)
      → exists (at_index i array) ≡ false
      → shrink h (at_index i array) ≡ h'
      → prune_step exists key g_key i (state h array removed)
        ≡ state h' (h' ++ drop (length h') array) true
  step_gone i h h' array removed gone e = prune_step_one i h array removed ∙ rw (gone, e) refl

  skips_loop :
      (x y z : String)
      → exists x ≡ false
      → y == z ≡ false
      → (prune_loop exists key g_key 0
          (x ∷ y ∷ z ∷ [])
          (state (x ∷ y ∷ z ∷ []) (x ∷ y ∷ z ∷ []) false)).groups
        ≡ one (if exists z then y ∷ z ∷ [] else y ∷ [])
  unfolding prune_loop contains remove_element at_index drop
  skips_loop x y z gone yz =
      let first =
        step_gone 0 (x ∷ y ∷ z ∷ []) (y ∷ z ∷ []) (x ∷ y ∷ z ∷ []) false gone
          (ground (arith, str_beq_refl x)) in
      elim (Bool-cases (exists z)) [
        | inl there ↦
            rw
              (
                first,
                step_kept 1 (y ∷ z ∷ []) (y ∷ z ∷ z ∷ []) true there,
                step_kept 2 (y ∷ z ∷ []) (y ∷ z ∷ z ∷ []) true there,
                there,
              )
              refl
        | inr gone' ↦
            rw
              (
                first,
                step_gone 1 (y ∷ z ∷ []) (y ∷ []) (y ∷ z ∷ z ∷ []) true gone'
                    (ground (arith, str_beq_refl z)),
                step_gone 2 (y ∷ []) (y ∷ []) (y ∷ z ∷ z ∷ []) true gone' (ground arith),
                gone',
              )
              refl
      ]

contains-one :
    (g_key : GroupKey) (spec : Spec) (h : List String) (host : String)
    → contains (get_all_hosts ((g_key, record spec { hosts = h } ∷ []) ∷ [])) host ≡ contains h host
unfolding get_all_hosts group_hosts spec_hosts contains
contains-one g_key spec h host = ground (
  arith,
  contains-sort ((h ++ []) ++ []) host,
  contains-append (h ++ []) [] host,
  contains-append h [] host,
)

-- If the groups hold one spec, that of the resource, with three hosts, of which the first is gone
-- and the last two differ, then the loop over its hosts leaves the second in the groups, also if it
-- is gone too.
pub prune_skips :
    (exists : String → Bool) (key : ResourceKey) (spec : Spec) (grp x y z : String)
    → equals_key spec key ≡ true
    → exists x ≡ false
    → y == z ≡ false
    → let spec' = record spec { hosts = x ∷ y ∷ z ∷ [] } in
      let groups : IpGroups = (key_of spec grp, spec' ∷ []) ∷ [] in
      contains (get_all_hosts (prune exists key groups spec' grp).groups) y ≡ true
unfolding prune
prune_skips exists key spec grp x y z found gone yz =
    let g_key = key_of spec grp in
    rw
      (
        skips_loop exists key g_key spec found x y z gone yz,
        contains-one g_key spec (if exists z then y ∷ z ∷ [] else y ∷ []) y,
      )
      (unfold contains in ground (arith, str_beq_refl y))
