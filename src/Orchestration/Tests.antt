-- ===== src/Orchestration/Tests.antt =====
-- The groups of pkg/orchestration/orchestration_test.go, and the theorems at them.
use f5_ipam_ctlr.Prelude.{
  [], arith, contains, false, none, occurrences, refl, remove_element, some, sort, str_beq,
  string_eq, ◌∷◌, ◌≡◌,
}
use f5_ipam_ctlr.Orchestration.IpGroup.{
  add_to_ip_group, get_all_hosts, get_spec, get_specs_with_hosts, num_hosts, remove_from_ip_group,
  remove_host, spec_of,
}
use f5_ipam_ctlr.Orchestration.IpGroup.Add.{IsGroups, add_to_ip_group-IsGroups}
use f5_ipam_ctlr.Orchestration.IpGroup.Hazards.{
  get_specs_with_hosts_panics, num_specs-add_to_ip_group,
}
use f5_ipam_ctlr.Orchestration.IpGroup.Merge.{num_matching}
use f5_ipam_ctlr.Orchestration.IpGroup.Remove.{named, num_specs, num_specs-remove_from_ip_group}
use f5_ipam_ctlr.Orchestration.IpGroup.RemoveHost.{host_count, host_count-remove_host}
use f5_ipam_ctlr.Orchestration.Types.{
  GroupKey, IpGroups, ResourceKey, Spec, equals, equals_key, group_key_beq, group_key_eq,
}
use f5_ipam_ctlr.Prelude.GoMap.{delete, insert, lookup}

abbrev key_a : GroupKey
key_a = record { name = ""; netview = "default"; cidr = "1.2.3.0/24" }

abbrev key_b : GroupKey
key_b = record { name = ""; netview = "default"; cidr = "5.6.7.0/24" }

abbrev res : ResourceKey
res = record { kind = "Ingress"; name = "ing"; namespace = "default" }

abbrev spec : Spec
spec = spec_of key_a "Ingress" "ing" "default" ("foo.com" ∷ "bar.com" ∷ [])

abbrev lone : Spec
lone = spec_of key_a "Ingress" "ing" "default" ("foo.com" ∷ [])

abbrev other : Spec
other = spec_of key_a "ConfigMap" "cm" "default" ("baz.com" ∷ [])

abbrev none_yet : IpGroups
none_yet = []

abbrev groups : IpGroups
groups = (key_a, spec ∷ other ∷ []) ∷ []

abbrev lone_groups : IpGroups
lone_groups = (key_a, lone ∷ []) ∷ []

code : Unit {0}
unfolding add_to_ip_group remove_from_ip_group remove_host get_all_hosts get_spec
    get_specs_with_hosts num_hosts lookup insert delete sort contains occurrences remove_element
    str_beq group_key_beq equals equals_key num_specs num_matching named host_count
code = tt

IsGroups-empty : IsGroups none_yet
unfolding lookup
IsGroups-empty = record { groups_map = tt; each = λ k grp e. cc }

groups-IsGroups : IsGroups groups
unfolding code
groups-IsGroups = add_to_ip_group-IsGroups _ key_a "ConfigMap" "cm" "default" ("baz.com" ∷ []) (
    add_to_ip_group-IsGroups none_yet key_a "Ingress" "ing" "default" ("foo.com" ∷ "bar.com" ∷ [])
      IsGroups-empty)

adds :
    (add_to_ip_group groups key_a "Ingress" "ing" "default" ("foo.com" ∷ []) ≡ (groups, false))
    × (get_all_hosts groups ≡ "bar.com" ∷ "baz.com" ∷ "foo.com" ∷ [])
    × (num_hosts groups ≡ 3)
    × (get_spec groups res ≡ some (spec, ""))
unfolding code
adds = (refl, refl, refl, refl)

removes :
    (remove_from_ip_group groups spec ≡ (key_a, other ∷ []) ∷ [])
    × (remove_from_ip_group lone_groups lone ≡ none_yet)
    × (remove_host groups "bar.com" res ≡ (key_a, lone ∷ other ∷ []) ∷ [])
unfolding code
removes = (refl, refl, refl)

-- The CIDR of the ingress was changed: its spec now stands in two groups.
num_specs-add_to_ip_group_example :
    num_specs (add_to_ip_group groups key_b "Ingress" "ing" "default" ("foo.com" ∷ [])).0 spec ≡ 2
unfolding code
num_specs-add_to_ip_group_example =
    num_specs-add_to_ip_group groups key_b "Ingress" "ing" "default" ("foo.com" ∷ []) spec

num_specs-remove_from_ip_group_example : num_specs (remove_from_ip_group groups spec) spec ≡ 0
unfolding code
num_specs-remove_from_ip_group_example =
    num_specs-remove_from_ip_group groups spec spec groups-IsGroups refl

host_count-remove_host_example : host_count (remove_host groups "bar.com" res) spec "bar.com" ≡ 0
unfolding code
host_count-remove_host_example =
    host_count-remove_host groups "bar.com" res (omega arith) spec "bar.com"

get_specs_with_hosts_panics_example :
    get_specs_with_hosts (remove_host lone_groups "foo.com" res) ("foo.com" ∷ []) ≡ none
unfolding code
get_specs_with_hosts_panics_example =
    get_specs_with_hosts_panics lone_groups "foo.com" res lone "" refl refl ("foo.com" ∷ [])
