-- ===== src/Orchestration/IpGroup/Add.antt =====
-- What `addToIPGroup` does to the groups, and what its result says.
use f5_ipam_ctlr.Prelude.{
  Bool, Bool-cases, List, Option, String, [], arith, contains, contains-append, contains-sort,
  false, inl, inr, is_empty, none, refl, some, string_eq, ◌++◌, ◌<◌, ◌||◌, ◌∙◌, ◌∷◌, ◌≡◌, ◌≤◌,
}
use mathlib.Core.List.{append_assoc}
use f5_ipam_ctlr.Orchestration.IpGroup.{
  add_to_group, add_to_ip_group, add_to_specs, get_all_hosts, group_hosts, spec_hosts, spec_of,
}
use f5_ipam_ctlr.Orchestration.IpGroup.Merge.{
  Saturated, Saturated-add_to_specs, Saturated-append, Saturated-self, add_to_specs_have,
  add_to_specs_missing, add_to_specs_same, add_to_specs-Saturated, contains-add_to_specs,
  equals_refl, num_matching, num_matching-add_to_specs, num_matching-append, num_matching_cong,
  num_matching_have, num_matching_missing,
}
use f5_ipam_ctlr.Orchestration.Types.{GroupKey, IpGroups, Spec, group_key_eq}
use f5_ipam_ctlr.Prelude.GoMap.{
  IsMap, insert, insert-IsMap, insert_same, lookup, lookup-insert, lookup-insert_self,
}

-- A group that a map of groups may hold: not empty, and with one spec for a resource at most.
pub record IsGroup (grp : List Spec) : Type 0 where
  pub inhabited : is_empty grp ≡ false
  pub distinct : (s : Spec) → num_matching grp s ≤ 1

pub record IsGroups (groups : IpGroups) : Type 0 where
  pub groups_map : IsMap groups
  pub each : (k : GroupKey) (grp : List Spec) → lookup k groups ≡ some grp → IsGroup grp

pub insert-IsGroups :
    (groups : IpGroups) (k : GroupKey) (grp : List Spec)
    → IsGroups groups
    → IsGroup grp
    → IsGroups (insert k grp groups)
insert-IsGroups groups k grp v h = record {
  groups_map = insert-IsMap k grp groups v.groups_map;
  each = λ k' grp' e. ground (arith, lookup-insert k k' grp groups, v.each k' grp');
}

single-IsGroup : (s : Spec) → IsGroup (s ∷ [])
unfolding num_matching
single-IsGroup s = record { inhabited = refl; distinct = λ t. ground arith }

is_empty-add_to_specs :
    (grp : List Spec) (s : Spec) → is_empty (add_to_specs grp s).specs ≡ is_empty grp
unfolding add_to_specs
is_empty-add_to_specs [] s = refl
is_empty-add_to_specs (spec ∷ grp) s = ground arith

add_to_specs-IsGroup :
    (grp : List Spec) (s : Spec) → IsGroup grp → IsGroup (add_to_specs grp s).specs
add_to_specs-IsGroup grp s v = record {
  inhabited = is_empty-add_to_specs grp s ∙ v.inhabited;
  distinct = λ t. omega (arith, num_matching-add_to_specs grp s t, v.distinct t);
}

is_empty-snoc : (grp : List Spec) (s : Spec) → is_empty (grp ++ s ∷ []) ≡ false
is_empty-snoc [] s = refl
is_empty-snoc (x ∷ grp) s = refl

snoc-IsGroup :
    (grp : List Spec) (s : Spec)
    → IsGroup grp
    → (add_to_specs grp s).have_spec ≡ false
    → IsGroup (grp ++ s ∷ [])
unfolding num_matching
snoc-IsGroup grp s v missing = record {
  inhabited = is_empty-snoc grp s;
  distinct = λ t. ground (
    arith,
    num_matching-append grp (s ∷ []) t,
    num_matching_missing grp s missing,
    num_matching_cong grp s t,
    v.distinct t,
  );
}

one_matching : (grp : List Spec) (s : Spec) → 0 < num_matching (grp ++ s ∷ []) s
unfolding num_matching
one_matching grp s = ground (arith, num_matching-append grp (s ∷ []) s, equals_refl s)

module _ (groups : IpGroups) (g_key : GroupKey) (s : Spec) where
  add_to_group_same :
      (o : Option (List Spec))
      → lookup g_key groups ≡ o
      → (add_to_group o groups g_key s).1 ≡ false
      → (add_to_group o groups g_key s).0 ≡ groups
  unfolding add_to_group
  add_to_group_same none e h = cc
  add_to_group_same (some grp) e h = elim (Bool-cases (add_to_specs grp s).have_spec) [
    | inl have ↦
        rw have (rw (add_to_specs_same grp s (rw have at h)) (insert_same g_key grp groups e))
    | inr missing ↦ absurd (ground arith)
  ]

  -- At a group that has the spec with all of its hosts nothing changes.
  settled :
      (grp : List Spec)
      → lookup g_key groups ≡ some grp
      → Saturated grp s
      → 0 < num_matching grp s
      → add_to_group (lookup g_key groups) groups g_key s ≡ (groups, false)
  unfolding add_to_group
  settled grp e full present =
      let (specs, updated) = add_to_specs-Saturated grp s full in
      rw (e, add_to_group)
        (rw (add_to_specs_have grp s present, specs, updated) (rw (insert_same g_key grp groups e)))

  add_to_group-IsGroups :
      (o : Option (List Spec))
      → lookup g_key groups ≡ o
      → IsGroups groups
      → IsGroups (add_to_group o groups g_key s).0
  unfolding add_to_group
  add_to_group-IsGroups none e v = insert-IsGroups groups g_key (s ∷ []) v (single-IsGroup s)
  add_to_group-IsGroups (some grp) e v =
      let r = add_to_specs grp s in
      elim (Bool-cases r.have_spec) [
        | inl have ↦ rw have (
            insert-IsGroups groups g_key r.specs v
              (add_to_specs-IsGroup grp s (v.each g_key grp e)))
        | inr missing ↦
            rw (missing, add_to_specs_missing grp s missing)
              (insert-IsGroups groups g_key (grp ++ s ∷ []) v
                (snoc-IsGroup grp s (v.each g_key grp e) missing))
      ]

add_to_group_again :
    (groups : IpGroups) (g_key : GroupKey) (s : Spec) (o : Option (List Spec))
    → lookup g_key groups ≡ o
    → let groups' = (add_to_group o groups g_key s).0 in
      add_to_group (lookup g_key groups') groups' g_key s ≡ (groups', false)
unfolding add_to_group
add_to_group_again groups g_key s none e =
    settled (insert g_key (s ∷ []) groups) g_key s (s ∷ [])
      (lookup-insert_self g_key (s ∷ []) groups) (Saturated-self s) (one_matching [] s)
add_to_group_again groups g_key s (some grp) e =
    let r = add_to_specs grp s in
    elim (Bool-cases r.have_spec) [
      | inl have ↦ rw have (
          settled (insert g_key r.specs groups) g_key s r.specs
            (lookup-insert_self g_key r.specs groups) (Saturated-add_to_specs grp s)
            (omega (arith, num_matching-add_to_specs grp s s, num_matching_have grp s have)))
      | inr missing ↦
          let grp' = r.specs ++ s ∷ [] in
          rw missing (
            settled (insert g_key grp' groups) g_key s grp' (lookup-insert_self g_key grp' groups)
              (Saturated-append r.specs (s ∷ []) s (Saturated-add_to_specs grp s)
                (Saturated-self s))
              (one_matching r.specs s))
    ]

contains-insert_found :
    (groups : IpGroups) (k : GroupKey) (old new : List Spec) (h : String) (more : Bool)
    → lookup k groups ≡ some old
    → contains (spec_hosts new) h ≡ contains (spec_hosts old) h || more
    → contains (group_hosts (insert k new groups)) h ≡ contains (group_hosts groups) h || more
unfolding lookup insert group_hosts
contains-insert_found [] k old new h more e c = cc
contains-insert_found ((j, grp) ∷ groups) k old new h more e c = ground (
  arith,
  contains-insert_found groups k old new h more,
  contains-append (spec_hosts new) (group_hosts groups) h,
  contains-append (spec_hosts grp) (group_hosts groups) h,
  contains-append (spec_hosts grp) (group_hosts (insert k new groups)) h,
)

contains-insert_new :
    (groups : IpGroups) (k : GroupKey) (new : List Spec) (h : String)
    → lookup k groups ≡ none
    → contains (group_hosts (insert k new groups)) h
      ≡ contains (group_hosts groups) h || contains (spec_hosts new) h
unfolding lookup insert group_hosts contains
contains-insert_new [] k new h e = ground (arith, contains-append (spec_hosts new) [] h)
contains-insert_new ((j, grp) ∷ groups) k new h e = ground (
  arith,
  contains-insert_new groups k new h,
  contains-append (spec_hosts grp) (group_hosts groups) h,
  contains-append (spec_hosts grp) (group_hosts (insert k new groups)) h,
)

contains-spec_hosts_one :
    (s : Spec) (h : String) → contains (spec_hosts (s ∷ [])) h ≡ contains s.hosts h
unfolding spec_hosts contains
contains-spec_hosts_one s h = ground (arith, contains-append s.hosts [] h)

spec_hosts-append : (xs ys : List Spec) → spec_hosts (xs ++ ys) ≡ spec_hosts xs ++ spec_hosts ys
unfolding spec_hosts
spec_hosts-append [] ys = refl
spec_hosts-append (x ∷ xs) ys = simp (spec_hosts-append xs ys, append_assoc)

contains-add_to_group :
    (groups : IpGroups) (g_key : GroupKey) (s : Spec) (h : String) (o : Option (List Spec))
    → lookup g_key groups ≡ o
    → contains (group_hosts (add_to_group o groups g_key s).0) h
      ≡ contains (group_hosts groups) h || contains s.hosts h
unfolding add_to_group
contains-add_to_group groups g_key s h none e =
    ground (arith, contains-insert_new groups g_key (s ∷ []) h e, contains-spec_hosts_one s h)
contains-add_to_group groups g_key s h (some grp) e =
    let r = add_to_specs grp s in
    elim (Bool-cases r.have_spec) [
      | inl have ↦ rw have (
          contains-insert_found groups g_key grp r.specs h (contains s.hosts h) e
            (ground (arith, contains-add_to_specs grp s h)))
      | inr missing ↦
          rw (missing, add_to_specs_missing grp s missing)
            (contains-insert_found groups g_key grp (grp ++ s ∷ []) h (contains s.hosts h) e (
              rw (spec_hosts-append grp (s ∷ [])) (
                ground (
                  arith,
                  contains-append (spec_hosts grp) (spec_hosts (s ∷ [])) h,
                  contains-spec_hosts_one s h,
                ))))
    ]

module _ (groups : IpGroups) (g_key : GroupKey) (kind rs_name namespace : String)
    (hosts : List String) where
  -- If `addToIPGroup` returns `false`, it has left the groups as they were: no update is lost by
  -- acting on `true` alone.
  pub add_to_ip_group_same :
      (add_to_ip_group groups g_key kind rs_name namespace hosts).1 ≡ false
      → (add_to_ip_group groups g_key kind rs_name namespace hosts).0 ≡ groups
  unfolding add_to_ip_group
  add_to_ip_group_same h =
      add_to_group_same groups g_key (spec_of g_key kind rs_name namespace hosts) _ refl h

  -- A second call of `addToIPGroup` with the same arguments changes nothing and returns `false`, so
  -- that a resync of an unchanged resource writes nothing out.
  pub add_to_ip_group_again :
      let groups' = (add_to_ip_group groups g_key kind rs_name namespace hosts).0 in
      add_to_ip_group groups' g_key kind rs_name namespace hosts ≡ (groups', false)
  unfolding add_to_ip_group
  add_to_ip_group_again =
      add_to_group_again groups g_key (spec_of g_key kind rs_name namespace hosts) _ refl

  -- After `addToIPGroup`, `GetAllHosts` lists the hosts that it listed before and those that were
  -- added, and no others.
  pub contains-add_to_ip_group :
      (h : String)
      → contains (get_all_hosts (add_to_ip_group groups g_key kind rs_name namespace hosts).0) h
        ≡ contains (get_all_hosts groups) h || contains hosts h
  unfolding add_to_ip_group get_all_hosts
  contains-add_to_ip_group h =
      let s = spec_of g_key kind rs_name namespace hosts in
      ground (
        arith,
        contains-sort (group_hosts groups) h,
        contains-sort (group_hosts (add_to_group (lookup g_key groups) groups g_key s).0) h,
        contains-add_to_group groups g_key s h (lookup g_key groups) refl,
      )

  -- `addToIPGroup` keeps the groups well formed: distinct keys, no empty group, and no resource
  -- twice in one group.
  pub add_to_ip_group-IsGroups :
      IsGroups groups → IsGroups (add_to_ip_group groups g_key kind rs_name namespace hosts).0
  unfolding add_to_ip_group
  add_to_ip_group-IsGroups v =
      add_to_group-IsGroups groups g_key (spec_of g_key kind rs_name namespace hosts) _ refl v
