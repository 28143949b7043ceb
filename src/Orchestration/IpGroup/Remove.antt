-- ===== src/Orchestration/IpGroup/Remove.antt =====
-- What `removeFromIPGroup` does to the groups.
use f5_ipam_ctlr.Prelude.{
  Bool, Bool-cases, List, Option, Option-cases, [], arith, false, if◌then◌else◌, inl, inr, none,
  not, refl, some, str_beq_iff, str_beq_refl, string_eq, true, ℕ, ◌&&◌, ◌++◌, ◌+◌, ◌-◌, ◌==◌, ◌∷◌,
  ◌≡◌,
}
use f5_ipam_ctlr.Orchestration.IpGroup.{
  is_blank, remove_found, remove_from_ip_group, remove_loop, remove_spec,
}
use f5_ipam_ctlr.Orchestration.IpGroup.Add.{IsGroups, insert-IsGroups}
use f5_ipam_ctlr.Orchestration.IpGroup.Merge.{num_matching, num_matching_cong}
use f5_ipam_ctlr.Orchestration.Types.{
  GroupKey, IpGroups, Spec, empty_spec, equals, group_key_beq_iff, group_key_eq,
}
use f5_ipam_ctlr.Prelude.GoMap.{
  IsMap, delete, delete-IsMap, delete_absent, insert, insert-IsMap, lookup, lookup-delete,
  lookup-insert, lookup-insert_self,
}

-- The number of specs of a resource over all groups.
unfoldable pub num_specs : IpGroups → Spec → ℕ
num_specs [] s = 0
num_specs ((k, grp) ∷ groups) s = num_matching grp s + num_specs groups s

-- Every spec has a kind, as those of `syncResource` do; `Spec{}` has none.
unfoldable pub named_specs : List Spec → Bool
named_specs [] = true
named_specs (spec ∷ grp) = not (spec.kind == "") && named_specs grp

unfoldable pub named : IpGroups → Bool
unfolding named_specs
named [] = true
named ((k, grp) ∷ groups) = named_specs grp && named groups

named-is_blank : (grp : List Spec) → named_specs grp ≡ true → is_blank grp ≡ false
unfolding named_specs
named-is_blank [] h = refl
named-is_blank (spec ∷ []) h = ground arith
named-is_blank (spec ∷ next ∷ grp) h = refl

pub equals_cong_left : (a b c : Spec) → equals a b ≡ true → equals a c ≡ equals b c
unfolding equals
equals_cong_left a b c h =
    let p = (str_beq_iff a.kind b.kind).0 (ground arith) in
    let q = (str_beq_iff a.name b.name).0 (ground arith) in
    let r = (str_beq_iff a.namespace b.namespace).0 (ground arith) in rw (p, q, r)

-- `removeFromIPGroup` takes one spec of the resource out of the group where it finds one.
pub num_matching-remove_spec :
    (grp : List Spec) (rm t : Spec) (left : List Spec)
    → remove_spec grp rm ≡ some left
    → num_matching left t + (if equals rm t then 1 else 0) ≡ num_matching grp t
unfolding remove_spec num_matching
num_matching-remove_spec [] rm t left h = cc
num_matching-remove_spec (spec ∷ grp) rm t left h = elim (Bool-cases (equals spec rm)) [
  | inl same ↦ ground (arith, equals_cong_left spec rm t)
  | inr other ↦ elim (Option-cases (remove_spec grp rm)) [
    | inl miss ↦ absurd (ground arith)
    | inr (rest, hit) ↦ ground (arith, num_matching-remove_spec grp rm t rest hit)
  ]
]

num_matching_unremoved :
    (grp : List Spec) (rm : Spec) → remove_spec grp rm ≡ none → num_matching grp rm ≡ 0
unfolding remove_spec num_matching
num_matching_unremoved [] rm h = refl
num_matching_unremoved (spec ∷ grp) rm h = ground (arith, num_matching_unremoved grp rm)

-- The first group, in the order of the `range`, that has a spec of the resource, without that spec.
first_group : IpGroups → Spec → Option (GroupKey × List Spec)
first_group [] rm = none
first_group ((k, grp) ∷ groups) rm =
    let rest = first_group groups rm in
    elim (remove_spec grp rm) [ some left ↦ some (k, left) | none ↦ rest ]

removed_at : IpGroups → Option (GroupKey × List Spec) → IpGroups
removed_at groups none = groups
removed_at groups (some (k, left)) = remove_found groups k left

remove_loop-first_group :
    (m groups : IpGroups) (rm : Spec)
    → named m ≡ true
    → remove_loop m groups rm ≡ removed_at groups (first_group m rm)
unfolding remove_loop first_group removed_at named
remove_loop-first_group [] groups rm h = refl
remove_loop-first_group ((k, grp) ∷ m) groups rm h = elim (Option-cases (remove_spec grp rm)) [
  | inl miss ↦
      rw (miss, remove_loop, first_group, named-is_blank grp (ground arith))
        (remove_loop-first_group m groups rm (ground arith))
  | inr (left, hit) ↦ rw (hit, remove_loop, first_group)
]

first_group-none : (m : IpGroups) (rm : Spec) → first_group m rm ≡ none → num_specs m rm ≡ 0
unfolding first_group num_specs
first_group-none [] rm h = refl
first_group-none ((k, grp) ∷ m) rm h = elim (Option-cases (remove_spec grp rm)) [
  | inl miss ↦ ground (arith, num_matching_unremoved grp rm miss, first_group-none m rm)
  | inr (left, hit) ↦ absurd (ground arith)
]

first_group-some :
    (m : IpGroups) (rm : Spec) (k : GroupKey) (left : List Spec)
    → IsMap m
    → first_group m rm ≡ some (k, left)
    → (grp : List Spec) × (lookup k m ≡ some grp) × (remove_spec grp rm ≡ some left)
unfolding first_group lookup
first_group-some [] rm k left v h = cc
first_group-some ((j, grp) ∷ m) rm k left v h = elim (Option-cases (remove_spec grp rm)) [
  | inl miss ↦
      let (g, found, hit) = first_group-some m rm k left v.1 (ground arith) in
      (g, ground (arith, group_key_beq_iff j k), hit)
  | inr (rest, hit) ↦ (grp, ground (arith, (group_key_beq_iff k k).1 refl), ground arith)
]

pub num_specs-insert :
    (m : IpGroups) (k : GroupKey) (old new : List Spec) (t : Spec)
    → lookup k m ≡ some old
    → num_specs (insert k new m) t + num_matching old t ≡ num_specs m t + num_matching new t
unfolding lookup insert num_specs
num_specs-insert [] k old new t h = cc
num_specs-insert ((j, x) ∷ m) k old new t h = elim (Bool-cases (j == k)) [
  | inl same ↦ ground arith
  | inr other ↦ rw other (omega (arith, num_specs-insert m k old new t (rw other at h)))
]

num_specs-delete :
    (m : IpGroups) (k : GroupKey) (old : List Spec) (t : Spec)
    → IsMap m
    → lookup k m ≡ some old
    → num_specs (delete k m) t + num_matching old t ≡ num_specs m t
unfolding lookup delete num_specs
num_specs-delete [] k old t v h = cc
num_specs-delete ((j, x) ∷ m) k old t v h = elim (Bool-cases (j == k)) [
  | inl same ↦ ground (arith, group_key_beq_iff j k, delete_absent k m)
  | inr other ↦ rw other (omega (arith, num_specs-delete m k old t v.1 (rw other at h)))
]

num_specs-remove_found :
    (groups : IpGroups) (k : GroupKey) (grp left : List Spec) (t : Spec)
    → IsMap groups
    → lookup k groups ≡ some grp
    → num_specs (remove_found groups k left) t + num_matching grp t
      ≡ num_specs groups t + num_matching left t
unfolding remove_found num_matching
num_specs-remove_found groups k grp [] t v e =
    let shrunk = num_specs-insert groups k grp [] t e in
    ground (
      arith,
      shrunk,
      str_beq_refl "",
      num_specs-delete (insert k [] groups) k [] t (insert-IsMap k [] groups v)
          (lookup-insert_self k [] groups),
    )
num_specs-remove_found groups k grp (x ∷ []) t v e = num_specs-insert groups k grp (x ∷ []) t e
num_specs-remove_found groups k grp (x ∷ y ∷ left) t v e =
    num_specs-insert groups k grp (x ∷ y ∷ left) t e

pub num_specs_cong :
    (groups : IpGroups) (a b : Spec) → equals a b ≡ true → num_specs groups a ≡ num_specs groups b
unfolding num_specs
num_specs_cong [] a b h = refl
num_specs_cong ((k, grp) ∷ groups) a b h =
    rw (num_matching_cong grp a b h, num_specs_cong groups a b h)

not_blank : (x : Spec) (left : List Spec) → is_blank ((x ∷ left) ++ empty_spec ∷ []) ≡ false
not_blank x [] = refl
not_blank x (y ∷ left) = refl

-- `removeFromIPGroup` takes exactly one spec of the resource out of the groups, if there is one,
-- and none of any other resource.
pub num_specs-remove_from_ip_group :
    (groups : IpGroups) (rm t : Spec)
    → IsGroups groups
    → named groups ≡ true
    → num_specs (remove_from_ip_group groups rm) t
      ≡ num_specs groups t - (if equals rm t then 1 else 0)
unfolding remove_from_ip_group removed_at
num_specs-remove_from_ip_group groups rm t v n = elim (Option-cases (first_group groups rm)) [
  | inl miss ↦
      rw (remove_loop-first_group groups groups rm n, miss, removed_at)
        (ground (arith, first_group-none groups rm miss, num_specs_cong groups rm t))
  | inr ((k, left), hit) ↦
      let (grp, found, cut) = first_group-some groups rm k left v.groups_map hit in
      rw (remove_loop-first_group groups groups rm n, hit, removed_at)
        (omega (
          arith,
          num_specs-remove_found groups k grp left t v.groups_map found,
          num_matching-remove_spec grp rm t left cut,
        ))
]

remove_found-IsGroups :
    (groups : IpGroups) (k : GroupKey) (grp left : List Spec) (rm : Spec)
    → IsGroups groups
    → lookup k groups ≡ some grp
    → remove_spec grp rm ≡ some left
    → IsGroups (remove_found groups k left)
unfolding remove_found
remove_found-IsGroups groups k grp [] rm v e cut =
    let m = insert k [] groups in
    rw (str_beq_refl "") (record {
      groups_map = delete-IsMap k m (insert-IsMap k [] groups v.groups_map);
      each = λ k' grp' e'.
          ground (arith, lookup-delete k k' m, lookup-insert k k' [] groups, v.each k' grp');
    })
remove_found-IsGroups groups k grp (x ∷ left) rm v e cut = rw (not_blank x left) (
    insert-IsGroups groups k (x ∷ left) v (record {
      inhabited = refl;
      distinct = λ t.
          omega
            (arith, num_matching-remove_spec grp rm t (x ∷ left) cut, (v.each k grp e).distinct t);
    }))

-- `removeFromIPGroup` keeps the groups well formed: in particular it leaves no empty group behind.
pub remove_from_ip_group-IsGroups :
    (groups : IpGroups) (rm : Spec)
    → IsGroups groups
    → named groups ≡ true
    → IsGroups (remove_from_ip_group groups rm)
unfolding remove_from_ip_group removed_at
remove_from_ip_group-IsGroups groups rm v n = elim (Option-cases (first_group groups rm)) [
  | inl miss ↦ rw (remove_loop-first_group groups groups rm n, miss, removed_at) v
  | inr ((k, left), hit) ↦
      let (grp, found, cut) = first_group-some groups rm k left v.groups_map hit in
      rw (remove_loop-first_group groups groups rm n, hit, removed_at)
        (remove_found-IsGroups groups k grp left rm v found cut)
]
