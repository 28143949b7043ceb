-- ===== src/Orchestration/IpGroup.antt =====
-- The methods of `IPGroup` in pkg/orchestration/orchestration.go, on its map of groups.
use mathlib.Core.Option
pub mod Merge
pub mod Add
pub mod Remove
pub mod RemoveHost
pub mod Query
pub mod Hazards
pub mod Named
use f5_ipam_ctlr.Prelude.{
  Bool, List, Option, String, [], contains, false, if◌then◌else◌, is_empty, length, none,
  remove_element, some, sort, string_eq, true, ℕ, ◌&&◌, ◌++◌, ◌+◌, ◌==◌, ◌||◌, ◌∷◌,
}
use f5_ipam_ctlr.Orchestration.Types.{
  GroupKey, IpGroups, ResourceKey, Spec, empty_spec, equals, equals_key, group_key_eq,
}
use f5_ipam_ctlr.Prelude.GoMap.{delete, insert, lookup}

-- The loop of `addToIPGroup` over the hosts that a spec may lack, with its part of `updated`.
unfoldable pub merge_hosts : List String → List String → List String × Bool
merge_hosts have [] = (have, false)
merge_hosts have (host ∷ hosts) =
    let kept = merge_hosts have hosts in
    let grown = merge_hosts (have ++ host ∷ []) hosts in
    if contains have host then kept else (grown.0, true)

pub record AddResult : Type 0 where
  pub specs : List Spec
  pub have_spec : Bool
  pub updated : Bool

-- The loop of `addToIPGroup` over the specs of a group.
unfoldable pub add_to_specs : List Spec → Spec → AddResult
unfolding merge_hosts equals
add_to_specs [] new_spec = record { specs = []; have_spec = false; updated = false }
add_to_specs (spec ∷ grp) new_spec =
    let rest = add_to_specs grp new_spec in
    if equals spec new_spec
    then (let (hosts, grew) = merge_hosts spec.hosts new_spec.hosts in
        record {
          specs = record spec { hosts = hosts } ∷ rest.specs;
          have_spec = true;
          updated = grew || rest.updated;
        })
    else record rest { specs = spec ∷ rest.specs }

-- The branches of `addToIPGroup` on `ipGrp.Groups[gKey]`.
unfoldable pub add_to_group : Option (List Spec) → IpGroups → GroupKey → Spec → IpGroups × Bool
unfolding add_to_specs
add_to_group none groups g_key new_spec = (insert g_key (new_spec ∷ []) groups, true)
add_to_group (some grp) groups g_key new_spec =
    let r = add_to_specs grp new_spec in
    if r.have_spec
    then (insert g_key r.specs groups, r.updated)
    else (insert g_key (r.specs ++ new_spec ∷ []) groups, true)

abbrev pub spec_of : GroupKey → String → String → String → List String → Spec
spec_of g_key kind rs_name namespace hosts = record {
  kind = kind;
  name = rs_name;
  namespace = namespace;
  hosts = hosts;
  netview = g_key.netview;
  cidr = g_key.cidr;
}

-- `addToIPGroup`
unfoldable pub add_to_ip_group :
    IpGroups → GroupKey → String → String → String → List String → IpGroups × Bool
unfolding add_to_group
add_to_ip_group groups g_key kind rs_name namespace hosts =
    add_to_group (lookup g_key groups) groups g_key (spec_of g_key kind rs_name namespace hosts)

-- `copy(grp[i:], grp[i+1:])` at the first spec that equals the removed one; `none` if there is none.
unfoldable pub remove_spec : List Spec → Spec → Option (List Spec)
unfolding equals
remove_spec [] rm_spec = none
remove_spec (spec ∷ grp) rm_spec =
    let rest = remove_spec grp rm_spec in
    if equals spec rm_spec then some grp else Option.map (λ g. spec ∷ g) rest

abbrev pub is_empty_spec : Spec → Bool
is_empty_spec s =
    s.kind == ""
    && (s.name == ""
        && (s.namespace == "" && (is_empty s.hosts && (s.netview == "" && s.cidr == ""))))

-- `len(grp) == 1 && reflect.DeepEqual(grp[0], Spec{})`; a nil slice of hosts and an empty one are
-- not told apart.
abbrev pub is_blank : List Spec → Bool
is_blank [] = false
is_blank (spec ∷ []) = is_empty_spec spec
is_blank (spec ∷ next ∷ grp) = false

-- The body of the loop of `removeFromIPGroup` where a spec was removed: `grp` keeps its length, and
-- its last element is `Spec{}`.
unfoldable pub remove_found : IpGroups → GroupKey → List Spec → IpGroups
remove_found groups grp_name left =
    let groups' = insert grp_name left groups in
    if is_blank (left ++ empty_spec ∷ []) then delete grp_name groups' else groups'

-- The loop of `removeFromIPGroup` over the groups still to be visited.
unfoldable pub remove_loop : IpGroups → IpGroups → Spec → IpGroups
unfolding remove_spec remove_found
remove_loop [] groups rm_spec = groups
remove_loop ((grp_name, grp) ∷ rest) groups rm_spec =
    let go_on =
      remove_loop rest (if is_blank grp then delete grp_name groups else groups) rm_spec in
    elim (remove_spec grp rm_spec) [ some left ↦ remove_found groups grp_name left | none ↦ go_on ]

-- `removeFromIPGroup`
unfoldable pub remove_from_ip_group : IpGroups → Spec → IpGroups
unfolding remove_loop
remove_from_ip_group groups rm_spec = remove_loop groups groups rm_spec

-- The inner loop of `removeHost` over the specs of one group, with the flag `deleted` that earlier
-- groups may have set; the flag ends it after a spec.
unfoldable pub remove_host_specs : Bool → List Spec → String → ResourceKey → List Spec × Bool
unfolding equals_key remove_element
remove_host_specs deleted [] rm_host key = ([], deleted)
remove_host_specs deleted (spec ∷ grp) rm_host key =
    let hit = equals_key spec key && contains spec.hosts rm_host in
    let rest = remove_host_specs false grp rm_host key in
    let spec' = if hit then record spec { hosts = remove_element spec.hosts rm_host } else spec in
    if deleted || hit then (spec' ∷ grp, true) else (spec' ∷ rest.0, rest.1)

-- The outer loop of `removeHost`, which `deleted` does not end.
unfoldable pub remove_host_loop : Bool → IpGroups → String → ResourceKey → IpGroups
unfolding remove_host_specs
remove_host_loop deleted [] rm_host key = []
remove_host_loop deleted ((g_key, grp) ∷ rest) rm_host key =
    let (grp', deleted') = remove_host_specs deleted grp rm_host key in
    (g_key, grp') ∷ remove_host_loop deleted' rest rm_host key

-- `removeHost`
unfoldable pub remove_host : IpGroups → String → ResourceKey → IpGroups
unfolding remove_host_loop
remove_host groups rm_host key = remove_host_loop false groups rm_host key

-- The specs of one group in `getSpecsWithHosts`; `none` is the panic of `spec.Hosts[0]` at a spec
-- with no hosts.
unfoldable pub specs_with_hosts : List Spec → List String → Option (List Spec)
specs_with_hosts [] hosts = some []
specs_with_hosts (spec ∷ grp) hosts = elim spec.hosts [
  | [] ↦ none
  | first ∷ others ↦
      Option.map (λ r. if contains hosts first then spec ∷ r else r) (specs_with_hosts grp hosts)
]

-- `getSpecsWithHosts`
unfoldable pub get_specs_with_hosts : IpGroups → List String → Option (List Spec)
unfolding specs_with_hosts
get_specs_with_hosts [] hosts = some []
get_specs_with_hosts ((g_key, grp) ∷ groups) hosts =
    Option.bind (specs_with_hosts grp hosts)
      (λ first. Option.map (λ r. first ++ r) (get_specs_with_hosts groups hosts))

unfoldable pub spec_hosts : List Spec → List String
spec_hosts [] = []
spec_hosts (spec ∷ grp) = spec.hosts ++ spec_hosts grp

unfoldable pub group_hosts : IpGroups → List String
unfolding spec_hosts
group_hosts [] = []
group_hosts ((g_key, grp) ∷ groups) = spec_hosts grp ++ group_hosts groups

-- `GetAllHosts`
unfoldable pub get_all_hosts : IpGroups → List String
unfolding group_hosts
get_all_hosts groups = sort (group_hosts groups)

unfoldable pub find_spec : List Spec → ResourceKey → Option Spec
unfolding equals_key
find_spec [] key = none
find_spec (spec ∷ grp) key = if equals_key spec key then some spec else find_spec grp key

-- `getSpec`: the spec with the name of its group, `none` for `false, Spec{}, ""`.
unfoldable pub get_spec : IpGroups → ResourceKey → Option (Spec × String)
unfolding find_spec
get_spec [] key = none
get_spec ((g_key, grp) ∷ groups) key =
    let rest = get_spec groups key in
    elim (find_spec grp key) [ some spec ↦ some (spec, g_key.name) | none ↦ rest ]

unfoldable pub num_spec_hosts : ℕ → List Spec → ℕ
num_spec_hosts sum [] = sum
num_spec_hosts sum (spec ∷ grp) = num_spec_hosts (sum + length spec.hosts) grp

unfoldable pub num_group_hosts : ℕ → IpGroups → ℕ
unfolding num_spec_hosts
num_group_hosts sum [] = sum
num_group_hosts sum ((g_key, grp) ∷ groups) = num_group_hosts (num_spec_hosts sum grp) groups

-- `NumHosts`
unfoldable pub num_hosts : IpGroups → ℕ
unfolding num_group_hosts
num_hosts groups = num_group_hosts 0 groups
