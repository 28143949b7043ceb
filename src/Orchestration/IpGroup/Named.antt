-- ===== src/Orchestration/IpGroup/Named.antt =====
-- The methods of pkg/orchestration/orchestration.go leave no spec without a kind in the groups.
use f5_ipam_ctlr.Prelude.{
  Bool, Bool-cases, List, Option, Option-cases, String, [], arith, contains, false, inl, inr, none,
  refl, some, string_eq, true, ◌&&◌, ◌++◌, ◌==◌, ◌∷◌, ◌≡◌,
}
use f5_ipam_ctlr.Orchestration.IpGroup.{
  add_to_group, add_to_ip_group, add_to_specs, is_blank, remove_found, remove_from_ip_group,
  remove_host, remove_host_loop, remove_host_specs, remove_loop, remove_spec, spec_of,
}
use f5_ipam_ctlr.Orchestration.IpGroup.Remove.{named, named_specs}
use f5_ipam_ctlr.Orchestration.Types.{
  GroupKey, IpGroups, ResourceKey, Spec, empty_spec, equals, equals_key, group_key_eq,
}
use f5_ipam_ctlr.Prelude.GoMap.{delete, insert, lookup}

named_specs-append : (xs ys : List Spec) → named_specs (xs ++ ys) ≡ named_specs xs && named_specs ys
unfolding named_specs
named_specs-append [] ys = refl
named_specs-append (x ∷ xs) ys = ground (arith, named_specs-append xs ys)

named_specs-lookup :
    (groups : IpGroups) (k : GroupKey) (grp : List Spec)
    → named groups ≡ true
    → lookup k groups ≡ some grp
    → named_specs grp ≡ true
unfolding named lookup
named_specs-lookup [] k grp h e = cc e
named_specs-lookup ((j, x) ∷ groups) k grp h e = ground (arith, named_specs-lookup groups k grp)

named-insert :
    (groups : IpGroups) (k : GroupKey) (grp : List Spec)
    → named groups ≡ true
    → named_specs grp ≡ true
    → named (insert k grp groups) ≡ true
unfolding named insert
named-insert [] k grp h n = ground arith
named-insert ((j, x) ∷ groups) k grp h n = ground (arith, named-insert groups k grp)

named-delete :
    (groups : IpGroups) (k : GroupKey) → named groups ≡ true → named (delete k groups) ≡ true
unfolding named delete
named-delete [] k h = refl
named-delete ((j, x) ∷ groups) k h = ground (arith, named-delete groups k)

named_specs-add_to_specs :
    (grp : List Spec) (s : Spec)
    → named_specs grp ≡ true
    → named_specs (add_to_specs grp s).specs ≡ true
unfolding named_specs add_to_specs
named_specs-add_to_specs [] s h = refl
named_specs-add_to_specs (spec ∷ grp) s h = elim (Bool-cases (equals spec s)) [
  | inl same ↦ rw same (ground (arith, named_specs-add_to_specs grp s))
  | inr other ↦ rw other (ground (arith, named_specs-add_to_specs grp s))
]

named-add_to_group :
    (o : Option (List Spec)) (groups : IpGroups) (k : GroupKey) (s : Spec)
    → lookup k groups ≡ o
    → named groups ≡ true
    → s.kind == "" ≡ false
    → named (add_to_group o groups k s).0 ≡ true
unfolding add_to_group named_specs
named-add_to_group none groups k s e h kind = named-insert groups k (s ∷ []) h (ground arith)
named-add_to_group (some grp) groups k s e h kind =
    let r = add_to_specs grp s in
    let n = named_specs-add_to_specs grp s (named_specs-lookup groups k grp h e) in
    elim (Bool-cases r.have_spec) [
      | inl have ↦ rw have (named-insert groups k r.specs h n)
      | inr missing ↦ rw missing (
          named-insert groups k (r.specs ++ s ∷ []) h
            (ground (arith, named_specs-append r.specs (s ∷ []))))
    ]

-- What `addToIPGroup` adds has the kind that it is given.
pub named-add_to_ip_group :
    (groups : IpGroups) (k : GroupKey) (kind rs_name namespace : String) (hosts : List String)
    → named groups ≡ true
    → kind == "" ≡ false
    → named (add_to_ip_group groups k kind rs_name namespace hosts).0 ≡ true
unfolding add_to_ip_group
named-add_to_ip_group groups k kind rs_name namespace hosts h e =
    named-add_to_group (lookup k groups) groups k (spec_of k kind rs_name namespace hosts) refl h e

named_specs-remove_spec :
    (grp : List Spec) (rm : Spec) (left : List Spec)
    → named_specs grp ≡ true
    → remove_spec grp rm ≡ some left
    → named_specs left ≡ true
unfolding named_specs remove_spec
named_specs-remove_spec [] rm left h e = cc e
named_specs-remove_spec (spec ∷ grp) rm left h e = elim (Bool-cases (equals spec rm)) [
  | inl same ↦ let is : grp ≡ left = ground (arith, same) in rw (← is) (ground arith)
  | inr other ↦ elim (Option-cases (remove_spec grp rm)) [
    | inl miss ↦ absurd (ground (arith, other, miss))
    | inr (rest, hit) ↦
        let is : spec ∷ rest ≡ left = ground (arith, other, hit) in
        rw (← is) (ground (arith, named_specs-remove_spec grp rm rest (ground arith) hit))
  ]
]

named-remove_found :
    (groups : IpGroups) (k : GroupKey) (left : List Spec)
    → named groups ≡ true
    → named_specs left ≡ true
    → named (remove_found groups k left) ≡ true
unfolding remove_found
named-remove_found groups k left h n =
    let m = insert k left groups in
    let i = named-insert groups k left h n in
    elim (Bool-cases (is_blank (left ++ empty_spec ∷ []))) [
      | inl bare ↦ rw bare (named-delete m k i)
      | inr full ↦ rw full i
    ]

named-remove_loop :
    (rest groups : IpGroups) (rm : Spec)
    → named rest ≡ true
    → named groups ≡ true
    → named (remove_loop rest groups rm) ≡ true
unfolding remove_loop named
named-remove_loop [] groups rm r h = h
named-remove_loop ((k, grp) ∷ rest) groups rm r h = elim (Option-cases (remove_spec grp rm)) [
  | inr (left, hit) ↦
      rw (hit, remove_loop)
        (named-remove_found groups k left h
          (named_specs-remove_spec grp rm left (ground arith) hit))
  | inl miss ↦
      rw (miss, remove_loop)
        (elim (Bool-cases (is_blank grp)) [
          | inl bare ↦
              rw bare (
                named-remove_loop rest (delete k groups) rm (ground arith)
                  (named-delete groups k h))
          | inr full ↦ rw full (named-remove_loop rest groups rm (ground arith) h)
        ])
]

-- `removeFromIPGroup` adds no spec.
pub named-remove_from_ip_group :
    (groups : IpGroups) (rm : Spec)
    → named groups ≡ true
    → named (remove_from_ip_group groups rm) ≡ true
unfolding remove_from_ip_group
named-remove_from_ip_group groups rm h = named-remove_loop groups groups rm h h

named_specs-remove_host_specs :
    (deleted : Bool) (grp : List Spec) (host : String) (key : ResourceKey)
    → named_specs (remove_host_specs deleted grp host key).0 ≡ named_specs grp
unfolding remove_host_specs named_specs
named_specs-remove_host_specs deleted [] host key = refl
named_specs-remove_host_specs deleted (spec ∷ grp) host key =
    let rest = named_specs-remove_host_specs false grp host key in
    elim (Bool-cases (equals_key spec key && contains spec.hosts host)) [
      | inl hit ↦ ground (arith, hit)
      | inr other ↦ ground (arith, other, rest)
    ]

named-remove_host_loop :
    (deleted : Bool) (groups : IpGroups) (host : String) (key : ResourceKey)
    → named (remove_host_loop deleted groups host key) ≡ named groups
unfolding remove_host_loop named
named-remove_host_loop deleted [] host key = refl
named-remove_host_loop deleted ((k, grp) ∷ groups) host key =
    let r = remove_host_specs deleted grp host key in
    ground (
      arith,
      named_specs-remove_host_specs deleted grp host key,
      named-remove_host_loop r.1 groups host key,
    )

-- `removeHost` changes no kind.
pub named-remove_host :
    (groups : IpGroups) (host : String) (key : ResourceKey)
    → named (remove_host groups host key) ≡ named groups
unfolding remove_host
named-remove_host groups host key = named-remove_host_loop false groups host key
