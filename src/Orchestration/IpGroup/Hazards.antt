-- ===== src/Orchestration/IpGroup/Hazards.antt =====
-- Two states of the groups that other code does not expect: a spec whose last host was removed, and
-- a resource whose spec stands under two group keys.
use f5_ipam_ctlr.Prelude.{
  Bool-cases, List, Option, Option-cases, String, [], arith, contains, false, if◌then◌else◌, inl,
  inr, none, refl, remove_element, some, str_beq_refl, string_eq, ℕ, ◌++◌, ◌+◌, ◌-◌, ◌==◌, ◌∷◌, ◌≡◌,
}
use f5_ipam_ctlr.Orchestration.IpGroup.{
  add_to_group, add_to_ip_group, add_to_specs, find_spec, get_spec, get_specs_with_hosts,
  remove_host, remove_host_loop, remove_host_specs, spec_of,
}
use f5_ipam_ctlr.Orchestration.IpGroup.Merge.{
  add_to_specs_missing, num_matching, num_matching-add_to_specs, num_matching-append,
  num_matching_have, num_matching_missing,
}
use f5_ipam_ctlr.Orchestration.IpGroup.Query.{
  all_have_hosts, all_have_hosts-append, all_specs, find_spec-none, get_specs_with_hosts-led_by,
}
use f5_ipam_ctlr.Orchestration.IpGroup.Remove.{num_specs, num_specs-insert}
use f5_ipam_ctlr.Orchestration.IpGroup.RemoveHost.{remove_host_specs_absent}
use f5_ipam_ctlr.Orchestration.Types.{
  GroupKey, IpGroups, ResourceKey, Spec, equals, equals_key, group_key_eq,
}
use f5_ipam_ctlr.Prelude.GoMap.{insert, lookup}

last_host_specs :
    (grp : List Spec) (h : String) (key : ResourceKey) (s : Spec)
    → find_spec grp key ≡ some s
    → s.hosts ≡ h ∷ []
    → all_have_hosts (remove_host_specs false grp h key).0 ≡ false
unfolding find_spec remove_host_specs all_have_hosts
last_host_specs [] h key s e l = cc
last_host_specs (spec ∷ grp) h key s e l = elim (Bool-cases (equals_key spec key)) [
  | inl same ↦
      let hosts : spec.hosts ≡ h ∷ [] = ground arith in
      rw (same, hosts) (unfold contains remove_element in rw (str_beq_refl h))
  | inr other ↦ ground (arith, last_host_specs grp h key s)
]

last_host_loop :
    (groups : IpGroups) (h : String) (key : ResourceKey) (s : Spec) (name : String)
    → get_spec groups key ≡ some (s, name)
    → s.hosts ≡ h ∷ []
    → all_have_hosts (all_specs (remove_host_loop false groups h key)) ≡ false
unfolding get_spec remove_host_loop all_specs
last_host_loop [] h key s name e l = cc
last_host_loop ((k, grp) ∷ groups) h key s name e l =
    let (grp', deleted') = remove_host_specs false grp h key in
    elim (Option-cases (find_spec grp key)) [
      | inl miss ↦ rw (remove_host_specs_absent false grp h key (find_spec-none grp key miss)) (
          rw (all_have_hosts-append grp (all_specs (remove_host_loop false groups h key)))
            (ground (arith, last_host_loop groups h key s name (ground arith) l)))
      | inr (found, hit) ↦
          rw (all_have_hosts-append grp' (all_specs (remove_host_loop deleted' groups h key)))
            (ground (arith, last_host_specs grp h key s (ground arith) l))
    ]

-- When `removeHost` has taken the only host of the spec that `getSpec` finds for a resource, every
-- call of `getSpecsWithHosts` panics, whatever hosts it asks for.
pub get_specs_with_hosts_panics :
    (groups : IpGroups) (h : String) (key : ResourceKey) (s : Spec) (name : String)
    → get_spec groups key ≡ some (s, name)
    → s.hosts ≡ h ∷ []
    → (hosts : List String) → get_specs_with_hosts (remove_host groups h key) hosts ≡ none
unfolding remove_host
get_specs_with_hosts_panics groups h key s name e l hosts = rw (
  get_specs_with_hosts-led_by (remove_host_loop false groups h key) hosts,
  last_host_loop groups h key s name e l,
)

-- The number of specs of the resource in the group of one key.
abbrev pub num_at : Option (List Spec) → Spec → ℕ
num_at none s = 0
num_at (some grp) s = num_matching grp s

num_specs-insert_new :
    (m : IpGroups) (k : GroupKey) (new : List Spec) (t : Spec)
    → lookup k m ≡ none
    → num_specs (insert k new m) t ≡ num_specs m t + num_matching new t
unfolding lookup insert num_specs
num_specs-insert_new [] k new t h = omega arith
num_specs-insert_new ((j, x) ∷ m) k new t h = elim (Bool-cases (j == k)) [
  | inl same ↦ absurd (ground arith)
  | inr other ↦ rw other (omega (arith, num_specs-insert_new m k new t (rw other at h)))
]

num_specs-add_to_group :
    (groups : IpGroups) (g_key : GroupKey) (s t : Spec) (o : Option (List Spec))
    → lookup g_key groups ≡ o
    → num_specs (add_to_group o groups g_key s).0 t
      ≡ num_specs groups t + (if equals s t then 1 - num_at o s else 0)
unfolding add_to_group num_matching
num_specs-add_to_group groups g_key s t none e =
    ground (arith, num_specs-insert_new groups g_key (s ∷ []) t e)
num_specs-add_to_group groups g_key s t (some grp) e =
    let r = add_to_specs grp s in
    elim (Bool-cases r.have_spec) [
      | inl have ↦ rw have (
          ground (
            arith,
            num_specs-insert groups g_key grp r.specs t e,
            num_matching-add_to_specs grp s t,
            num_matching_have grp s have,
          ))
      | inr missing ↦
          rw (missing, add_to_specs_missing grp s missing)
            (ground (
              arith,
              num_specs-insert groups g_key grp (grp ++ s ∷ []) t e,
              num_matching-append grp (s ∷ []) t,
              num_matching_missing grp s missing,
            ))
    ]

-- `addToIPGroup` looks for the resource under the given key alone: it adds one spec of the resource
-- exactly if that group has none, also where another group has one, and none of other resources.
pub num_specs-add_to_ip_group :
    (groups : IpGroups) (g_key : GroupKey) (kind rs_name namespace : String) (hosts : List String)
    (t : Spec)
    → let s = spec_of g_key kind rs_name namespace hosts in
      num_specs (add_to_ip_group groups g_key kind rs_name namespace hosts).0 t
      ≡ num_specs groups t + (if equals s t then 1 - num_at (lookup g_key groups) s else 0)
unfolding add_to_ip_group
num_specs-add_to_ip_group groups g_key kind rs_name namespace hosts t =
    num_specs-add_to_group groups g_key (spec_of g_key kind rs_name namespace hosts) t _ refl
