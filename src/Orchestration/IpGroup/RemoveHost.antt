-- ===== src/Orchestration/IpGroup/RemoveHost.antt =====
-- What `removeHost` does to the hosts of a resource and to those of all others.
use mathlib.Core.Option
use f5_ipam_ctlr.Prelude.{
  Bool, Bool-cases, List, Option-cases, String, [], arith, contains, false, if◌then◌else◌, inl, inr,
  is_empty, occurrences, occurrences-remove_element, occurrences_absent, refl, remove_element,
  str_beq_iff, string_eq, true, ℕ, ◌&&◌, ◌+◌, ◌-◌, ◌==◌, ◌∙◌, ◌∷◌, ◌≡◌, ◌≤◌,
}
use native.Mathlib.Decide.{dec_lt}
use f5_ipam_ctlr.Orchestration.IpGroup.{remove_host, remove_host_loop, remove_host_specs}
use f5_ipam_ctlr.Orchestration.IpGroup.Add.{IsGroups}
use f5_ipam_ctlr.Orchestration.IpGroup.Merge.{equals_cong, num_matching, num_matching_cong}
use f5_ipam_ctlr.Orchestration.IpGroup.Remove.{equals_cong_left, num_specs, num_specs_cong}
use f5_ipam_ctlr.Orchestration.Types.{
  GroupKey, IpGroups, ResourceKey, Spec, empty_spec, equals, equals_key, group_key_eq,
}
use f5_ipam_ctlr.Prelude.GoMap.{IsMap, lookup}

-- The spec of a resource, as far as `equals` reads it.
abbrev pub spec_for : ResourceKey → Spec
spec_for key = record {
  kind = key.kind;
  name = key.name;
  namespace = key.namespace;
  hosts = [];
  netview = "";
  cidr = "";
}

-- How often a host stands in the specs of a resource.
unfoldable pub host_count_specs : List Spec → Spec → String → ℕ
host_count_specs [] t h = 0
host_count_specs (spec ∷ grp) t h =
    (if equals spec t then occurrences spec.hosts h else 0) + host_count_specs grp t h

unfoldable pub host_count : IpGroups → Spec → String → ℕ
unfolding host_count_specs
host_count [] t h = 0
host_count ((k, grp) ∷ groups) t h = host_count_specs grp t h + host_count groups t h

-- The groups that the flag `deleted` finds after the spec was met hold no further spec of the
-- resource, and stay as they are.
pub remove_host_specs_absent :
    (deleted : Bool) (grp : List Spec) (h : String) (key : ResourceKey)
    → num_matching grp (spec_for key) ≡ 0
    → remove_host_specs deleted grp h key ≡ (grp, deleted)
unfolding remove_host_specs num_matching equals
remove_host_specs_absent deleted [] h key e = refl
remove_host_specs_absent true (spec ∷ grp) h key e = ground arith
remove_host_specs_absent false (spec ∷ grp) h key e =
    ground (arith, remove_host_specs_absent false grp h key)

remove_host_loop_absent :
    (deleted : Bool) (groups : IpGroups) (h : String) (key : ResourceKey)
    → num_specs groups (spec_for key) ≡ 0
    → remove_host_loop deleted groups h key ≡ groups
unfolding remove_host_loop num_specs
remove_host_loop_absent deleted [] h key e = refl
remove_host_loop_absent deleted ((k, grp) ∷ groups) h key e =
    rw (remove_host_specs_absent deleted grp h key (omega arith))
      (rw (remove_host_loop_absent deleted groups h key (omega arith)))

host_count_specs_absent :
    (grp : List Spec) (t : Spec) (h : String)
    → num_matching grp t ≡ 0
    → host_count_specs grp t h ≡ 0
unfolding num_matching host_count_specs
host_count_specs_absent [] t h e = refl
host_count_specs_absent (spec ∷ grp) t h e = ground (arith, host_count_specs_absent grp t h)

equals-spec_for :
    (spec : Spec) (key : ResourceKey) → equals spec (spec_for key) ≡ equals_key spec key
unfolding equals equals_key
equals-spec_for spec key = refl

equals-hosts :
    (spec : Spec) (hosts : List String) (t : Spec)
    → equals (record spec { hosts = hosts }) t ≡ equals spec t
unfolding equals
equals-hosts spec hosts t = refl

-- In a group with one spec of the resource at most, one occurrence of the host goes.
remove_host_specs_one :
    (grp : List Spec) (h : String) (key : ResourceKey)
    → num_matching grp (spec_for key) ≤ 1
    → (t : Spec) (h' : String)
    → host_count_specs (remove_host_specs false grp h key).0 t h'
      ≡ host_count_specs grp t h' - (if equals (spec_for key) t && h == h' then 1 else 0)
unfolding remove_host_specs num_matching host_count_specs equals_key
remove_host_specs_one [] h key u t h' = omega arith
remove_host_specs_one (spec ∷ grp) h key u t h' =
    let k = spec_for key in
    let bridge : equals spec k ≡ equals_key spec key = equals-spec_for spec key in
    elim (Bool-cases (equals_key spec key)) [
      | inl same ↦
          let alone : num_matching grp k ≡ 0 = ground arith in
          let left = equals_cong_left spec k t (bridge ∙ same) in
          let none_else = λ (e : equals k t ≡ true).
            host_count_specs_absent grp t h' (ground (arith, num_matching_cong grp k t e)) in
          elim (Bool-cases (contains spec.hosts h)) [
            | inl found ↦
                rw (same, found)
                  (ground (
                    arith,
                    left,
                    none_else,
                    occurrences-remove_element spec.hosts h h',
                    equals-hosts spec (remove_element spec.hosts h) t,
                  ))
            | inr absent ↦
                rw (same, absent, remove_host_specs_absent false grp h key alone)
                  (ground (
                    arith,
                    left,
                    none_else,
                    occurrences_absent spec.hosts h absent,
                    str_beq_iff h h',
                  ))
          ]
      | inr other ↦ rw other (
          ground (
            arith,
            remove_host_specs_one grp h key (ground arith) t h',
            equals_cong k t spec,
            bridge,
          ))
    ]

host_count_absent :
    (groups : IpGroups) (t : Spec) (h : String) → num_specs groups t ≡ 0 → host_count groups t h ≡ 0
unfolding num_specs host_count
host_count_absent [] t h e = refl
host_count_absent ((k, grp) ∷ groups) t h e =
    omega (arith, host_count_specs_absent grp t h, host_count_absent groups t h)

remove_host_loop_one :
    (groups : IpGroups) (h : String) (key : ResourceKey)
    → num_specs groups (spec_for key) ≤ 1
    → (t : Spec) (h' : String)
    → host_count (remove_host_loop false groups h key) t h'
      ≡ host_count groups t h' - (if equals (spec_for key) t && h == h' then 1 else 0)
unfolding remove_host_loop num_specs host_count
remove_host_loop_one [] h key u t h' = omega arith
remove_host_loop_one ((j, grp) ∷ groups) h key u t h' =
    let k = spec_for key in
    elim (dec_lt 0 (num_matching grp k)) [
      | yes here ↦
          let absent : num_specs groups k ≡ 0 = omega arith in
          rw (remove_host_loop_absent (remove_host_specs false grp h key).1 groups h key absent) (
            ground (
              arith,
              remove_host_specs_one grp h key (omega arith) t h',
              host_count_absent groups t h',
              num_specs_cong groups k t,
            ))
      | no later ↦
          let absent : num_matching grp k ≡ 0 = omega arith in
          rw (remove_host_specs_absent false grp h key absent) (
            ground (
              arith,
              remove_host_loop_one groups h key (omega arith) t h',
              host_count_specs_absent grp t h',
              num_matching_cong grp k t,
            ))
    ]

-- `removeHost` takes one occurrence of the host, if there is one, out of the spec of the resource,
-- where the resource has one spec at most; no host of another resource goes.
pub host_count-remove_host :
    (groups : IpGroups) (h : String) (key : ResourceKey)
    → num_specs groups (spec_for key) ≤ 1
    → (t : Spec) (h' : String)
    → host_count (remove_host groups h key) t h'
      ≡ host_count groups t h' - (if equals (spec_for key) t && h == h' then 1 else 0)
unfolding remove_host
host_count-remove_host groups h key u t h' = remove_host_loop_one groups h key u t h'

pub specs-remove_host :
    (deleted : Bool) (grp : List Spec) (h : String) (key : ResourceKey) (t : Spec)
    → (num_matching (remove_host_specs deleted grp h key).0 t ≡ num_matching grp t)
      × (is_empty (remove_host_specs deleted grp h key).0 ≡ is_empty grp)
unfolding remove_host_specs num_matching
specs-remove_host deleted [] h key t = (refl, refl)
specs-remove_host deleted (spec ∷ grp) h key t =
    ground (
      arith,
      specs-remove_host false grp h key t,
      equals-hosts spec (remove_element spec.hosts h) t,
    )

lookup-remove_host_loop :
    (deleted : Bool) (groups : IpGroups) (h : String) (key : ResourceKey) (k : GroupKey)
    → (d : Bool) × (lookup k (remove_host_loop deleted groups h key)
        ≡ Option.map (λ grp. (remove_host_specs d grp h key).0) (lookup k groups))
unfolding lookup remove_host_loop
lookup-remove_host_loop deleted [] h key k = (deleted, refl)
lookup-remove_host_loop deleted ((j, grp) ∷ groups) h key k =
    let deleted' = (remove_host_specs deleted grp h key).1 in
    let (d, e) = lookup-remove_host_loop deleted' groups h key k in
    elim (Bool-cases (j == k)) [ inl same ↦ (deleted, rw same) | inr other ↦ (d, rw other e) ]

remove_host_loop-IsMap :
    (deleted : Bool) (groups : IpGroups) (h : String) (key : ResourceKey)
    → IsMap groups
    → IsMap (remove_host_loop deleted groups h key)
unfolding remove_host_loop
remove_host_loop-IsMap deleted [] h key v = tt
remove_host_loop-IsMap deleted ((j, grp) ∷ groups) h key v =
    let deleted' = (remove_host_specs deleted grp h key).1 in
    let (d, e) = lookup-remove_host_loop deleted' groups h key j in
    (rw (e, v.0), remove_host_loop-IsMap deleted' groups h key v.1)

-- `removeHost` keeps the groups well formed: it takes out hosts and no spec.
pub remove_host-IsGroups :
    (groups : IpGroups) (h : String) (key : ResourceKey)
    → IsGroups groups
    → IsGroups (remove_host groups h key)
unfolding remove_host
remove_host-IsGroups groups h key v = record {
  groups_map = remove_host_loop-IsMap false groups h key v.groups_map;
  each = λ k grp e.
      let (d, at) = lookup-remove_host_loop false groups h key k in
      elim (Option-cases (lookup k groups)) [
        | inl miss ↦ absurd (ground arith)
        | inr (old, found) ↦
            let same : (remove_host_specs d old h key).0 ≡ grp = ground arith in
            rw (← same) (record {
              inhabited =
                  (specs-remove_host d old h key empty_spec).1 ∙ (v.each k old found).inhabited;
              distinct = λ t.
                  omega
                    (arith, (specs-remove_host d old h key t).0, (v.each k old found).distinct t);
            })
      ];
}
