-- ===== src/Orchestration/IpGroup/Query.antt =====
-- What the queries on the groups answer: `NumHosts`, `getSpec`, `getSpecsWithHosts`.
use mathlib.Core.Option
use f5_ipam_ctlr.Prelude.{
  Bool, Bool-cases, List, Option-cases, String, [], arith, contains, first_or, if◌then◌else◌, inl,
  inr, is_empty, length, length-append, length-sort, none, not, refl, some, true, ℕ, ◌&&◌, ◌++◌,
  ◌+◌, ◌<◌, ◌↔◌, ◌∷◌, ◌≡◌,
}
use f5_ipam_ctlr.Orchestration.IpGroup.{
  find_spec, get_all_hosts, get_spec, get_specs_with_hosts, group_hosts, num_group_hosts, num_hosts,
  num_spec_hosts, spec_hosts, specs_with_hosts,
}
use f5_ipam_ctlr.Orchestration.IpGroup.Merge.{num_matching}
use f5_ipam_ctlr.Orchestration.IpGroup.Remove.{num_specs}
use f5_ipam_ctlr.Orchestration.IpGroup.RemoveHost.{spec_for}
use f5_ipam_ctlr.Orchestration.Types.{IpGroups, ResourceKey, Spec, equals, equals_key}

num_spec_hosts-length :
    (sum : ℕ) (grp : List Spec) → num_spec_hosts sum grp ≡ sum + length (spec_hosts grp)
unfolding num_spec_hosts spec_hosts
num_spec_hosts-length sum [] = omega arith
num_spec_hosts-length sum (spec ∷ grp) = omega (
  arith,
  num_spec_hosts-length (sum + length spec.hosts) grp,
  length-append {0} spec.hosts (spec_hosts grp),
)

num_group_hosts-length :
    (sum : ℕ) (groups : IpGroups) → num_group_hosts sum groups ≡ sum + length (group_hosts groups)
unfolding num_group_hosts group_hosts
num_group_hosts-length sum [] = omega arith
num_group_hosts-length sum ((k, grp) ∷ groups) = omega (
  arith,
  num_group_hosts-length (num_spec_hosts sum grp) groups,
  num_spec_hosts-length sum grp,
  length-append {0} (spec_hosts grp) (group_hosts groups),
)

-- `NumHosts` is the length of what `GetAllHosts` returns: a host of two specs counts twice in both.
num_hosts-length : (groups : IpGroups) → num_hosts groups ≡ length (get_all_hosts groups)
unfolding num_hosts get_all_hosts
num_hosts-length groups =
    omega (arith, num_group_hosts-length 0 groups, length-sort (group_hosts groups))

pub find_spec-none :
    (grp : List Spec) (key : ResourceKey)
    → find_spec grp key ≡ none
    → num_matching grp (spec_for key) ≡ 0
unfolding find_spec num_matching equals
find_spec-none [] key h = refl
find_spec-none (spec ∷ grp) key h = ground (arith, find_spec-none grp key)

find_spec-some :
    (grp : List Spec) (key : ResourceKey) (s : Spec)
    → find_spec grp key ≡ some s
    → (equals_key s key ≡ true) × (0 < num_matching grp (spec_for key))
unfolding find_spec num_matching equals equals_key
find_spec-some [] key s h = cc
find_spec-some (spec ∷ grp) key s h = elim (Bool-cases (equals_key spec key)) [
  | inl same ↦ ground arith
  | inr other ↦ ground (arith, find_spec-some grp key s)
]

-- `getSpec` finds nothing exactly when the resource has no spec in any group.
get_spec-num_specs :
    (groups : IpGroups) (key : ResourceKey)
    → (get_spec groups key ≡ none) ↔ (num_specs groups (spec_for key) ≡ 0)
unfolding get_spec num_specs
get_spec-num_specs [] key = ((λ e. refl), λ e. refl)
get_spec-num_specs ((k, grp) ∷ groups) key =
    let rest = get_spec-num_specs groups key in
    elim (Option-cases (find_spec grp key)) [
      | inl miss ↦ (
        λ e. omega (arith, find_spec-none grp key miss, rest.0 (ground arith)),
        λ e. rw (miss, get_spec) (rest.1 (omega arith)),
      )
      | inr (s, hit) ↦
          (λ e. absurd (ground arith), λ e. absurd (ground (arith, find_spec-some grp key s hit)))
    ]

-- Every spec has a host.
unfoldable pub all_have_hosts : List Spec → Bool
all_have_hosts [] = true
all_have_hosts (spec ∷ grp) = not (is_empty spec.hosts) && all_have_hosts grp

unfoldable pub all_specs : IpGroups → List Spec
all_specs [] = []
all_specs ((k, grp) ∷ groups) = grp ++ all_specs groups

-- The specs whose first host is among the given ones.
unfoldable pub led_by : List Spec → List String → List Spec
led_by [] hosts = []
led_by (spec ∷ grp) hosts =
    if contains hosts (first_or "" spec.hosts) then spec ∷ led_by grp hosts else led_by grp hosts

led_by-append :
    (xs ys : List Spec) (hosts : List String)
    → led_by (xs ++ ys) hosts ≡ led_by xs hosts ++ led_by ys hosts
unfolding led_by
led_by-append [] ys hosts = refl
led_by-append (x ∷ xs) ys hosts = ground (arith, led_by-append xs ys hosts)

pub all_have_hosts-append :
    (xs ys : List Spec) → all_have_hosts (xs ++ ys) ≡ all_have_hosts xs && all_have_hosts ys
unfolding all_have_hosts
all_have_hosts-append [] ys = refl
all_have_hosts-append (x ∷ xs) ys = ground (arith, all_have_hosts-append xs ys)

specs_with_hosts-led_by :
    (grp : List Spec) (hosts : List String)
    → specs_with_hosts grp hosts ≡ (if all_have_hosts grp then some (led_by grp hosts) else none)
unfolding specs_with_hosts all_have_hosts led_by
specs_with_hosts-led_by [] hosts = refl
specs_with_hosts-led_by (spec ∷ grp) hosts = ground (arith, specs_with_hosts-led_by grp hosts)

-- `getSpecsWithHosts` returns the specs whose first host is among the given ones if every spec has
-- a host, and panics if some spec has none.
pub get_specs_with_hosts-led_by :
    (groups : IpGroups) (hosts : List String)
    → get_specs_with_hosts groups hosts
      ≡ (if all_have_hosts (all_specs groups) then some (led_by (all_specs groups) hosts) else none)
unfolding get_specs_with_hosts all_specs all_have_hosts led_by Option.bind
get_specs_with_hosts-led_by [] hosts = refl
get_specs_with_hosts-led_by ((k, grp) ∷ groups) hosts =
    rw
      (
        specs_with_hosts-led_by grp hosts,
        get_specs_with_hosts-led_by groups hosts,
        all_have_hosts-append grp (all_specs groups),
        led_by-append grp (all_specs groups) hosts,
      )
      (elim (Bool-cases (all_have_hosts grp)) [
        | inr bare ↦ rw bare
        | inl full ↦ rw full (elim (Bool-cases (all_have_hosts (all_specs groups))) [
          | inl all ↦ rw all
          | inr some_bare ↦ rw some_bare
        ])
      ])
