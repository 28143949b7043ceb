-- ===== src/Controller/Process.antt =====
-- `processIPGroups` as a whole: which hosts the store holds afterwards.
use f5_ipam_ctlr.Prelude.{
  List, String, [], arith, contains, if◌then◌else◌, occurrences, occurrences_nil, some, str_beq_iff,
  str_beq_refl, string_eq, true, ◌+◌, ◌∙◌, ◌∷◌, ◌≡◌, ◌≢◌,
}
use f5_ipam_ctlr.Controller.{
  Controller, Ranges, Sweep, create_loop, get_or_empty, process_ip_groups, sweep_hosts, sweep_loop,
}
use f5_ipam_ctlr.Controller.Cleanup.{
  IsRanges, SameHeld, SameHeld-refl, SameHeld-trans, sweep_hosts-Swept,
}
use f5_ipam_ctlr.Controller.Effects.{create_loop-Extends}
use f5_ipam_ctlr.Manager.{Client, IsClient}
use f5_ipam_ctlr.Orchestration.IpGroup.{get_all_hosts}
use f5_ipam_ctlr.Orchestration.Types.{IpGroups}
use f5_ipam_ctlr.Prelude.GoMap.{GoMap, IsMap, has, is_some, lookup}
use f5_ipam_ctlr.Store.{HostSet, Store}
use f5_ipam_ctlr.Store.Count.{holders, holders-delete_hosts}
use f5_ipam_ctlr.Store.Delete.{delete_hosts-IsValid}
use f5_ipam_ctlr.Store.Valid.{IsValid}
use f5_ipam_ctlr.Store.View.{type_of}

-- The records still to be visited are those of the store, and each host set is a map.
abbrev pub Agrees : GoMap String HostSet → Store → Type 0
Agrees [] st = Unit
Agrees ((ip, hosts) ∷ m) st =
    IsMap hosts
    × ((h : String) → has h hosts ≡ true → is_some (type_of st ip h) ≡ true)
    × ((h : String) → h ≢ "" → is_some (type_of st ip h) ≡ has h hosts)
    × Agrees m st

Agrees-SameHeld : (m : GoMap String HostSet) (s t : Store) → SameHeld s t → Agrees m s → Agrees m t
Agrees-SameHeld [] s t same h = tt
Agrees-SameHeld ((ip, hosts) ∷ m) s t same h = (
  h.0,
  λ x e. same.grows ip x (h.1 x e),
  λ x n. same.same ip x n ∙ h.2 x n,
  Agrees-SameHeld m s t same h.3,
)

Agrees-intro :
    (m : GoMap String HostSet) (st : Store)
    → IsMap m
    → ((ip : String) (hosts : HostSet)
        → lookup ip m ≡ some hosts
        → IsMap hosts × (lookup ip st.records ≡ some hosts))
    → Agrees m st
unfolding lookup type_of
Agrees-intro [] st v f = tt
Agrees-intro ((ip, hosts) ∷ m) st v f =
    let (distinct, found) = f ip hosts (ground (arith, str_beq_refl ip)) in
    (
      distinct,
      λ x e. rw found e,
      λ x n. rw found,
      Agrees-intro m st v.1 (λ ip' hosts' e. f ip' hosts' (ground (arith, str_beq_iff ip ip'))),
    )

pub Agrees-IsValid : (st : Store) → IsValid st → Agrees st.records st
Agrees-IsValid st v =
    Agrees-intro st.records st v.records_map (λ ip hosts e. ((v.sets ip hosts e).distinct, e))

pub record Removes (groups : List String) (m : GoMap String HostSet) (s : Store) (rem : List String)
    (t : Controller × List String) : Type 0 where
  pub store : SameHeld s t.0.store
  pub removed :
      (host : String)
      → host ≢ ""
      → occurrences t.1 host
        ≡ occurrences rem host + (if contains groups host then 0 else holders m host)

module _ (c : Client) (ranges : Ranges) (law : IsClient c) (go : IsRanges ranges) where
  pub sweep_loop-Removes :
      (groups : List String) (ctlr : Controller) (rem : List String) (m : GoMap String HostSet)
      → Agrees m ctlr.store
      → Removes groups m ctlr.store rem (sweep_loop c ranges groups ctlr rem m)
  unfolding sweep_loop holders
  sweep_loop-Removes groups ctlr rem [] h = record {
    store = SameHeld-refl ctlr.store;
    removed = λ host n. ground arith;
  }
  sweep_loop-Removes groups ctlr rem ((ip, hosts) ∷ m) h =
      let netview = get_or_empty (lookup ip ctlr.store.netviews) in
      let cidr = get_or_empty (lookup ip ctlr.store.cidrs) in
      let begin : Sweep = record {
        ctlr = ctlr;
        avail_hosts = ranges.range_keys hosts;
        to_remove = rem;
      } in
      let visits = ranges.range_hosts hosts in
      let done = sweep_hosts c ranges groups ip netview cidr begin visits in
      let here =
        sweep_hosts-Swept c ranges law groups ip netview cidr begin visits
          (λ x e. h.1 x (go.only_keys hosts x e)) in
      let rest =
        sweep_loop-Removes groups done.ctlr done.to_remove m
          (Agrees-SameHeld m ctlr.store done.ctlr.store here.store h.3) in
      record {
        store = SameHeld-trans ctlr.store done.ctlr.store _ here.store rest.store;
        removed = λ host n.
            ground (
              arith,
              here.removed host n,
              rest.removed host n,
              h.2 host n,
              go.once hosts host h.0 n,
            );
      }

  -- After `processIPGroups` the store holds a host of the groups where the first loop left it, and
  -- no other host; only of the host "" nothing is said.
  pub holders-process_ip_groups :
      (ctlr : Controller) (groups : IpGroups) (host : String)
      → IsValid ctlr.store
      → host ≢ ""
      → holders (process_ip_groups c ranges ctlr groups).store.records host ≡ (
          if contains (get_all_hosts groups) host
          then holders (create_loop c ctlr groups).store.records host
          else 0)
  unfolding process_ip_groups
  holders-process_ip_groups ctlr groups host v n =
      let created = create_loop c ctlr groups in
      let all = get_all_hosts groups in
      let valid = (create_loop-Extends c ctlr groups).valid v in
      let swept = sweep_loop c ranges all created [] created.store.records in
      let r =
        sweep_loop-Removes all created [] created.store.records
          (Agrees-IsValid created.store valid) in
      ground (
        arith,
        holders-delete_hosts swept.0.store swept.1 host (r.store.valid valid),
        r.removed host n,
        r.store.held host n,
        occurrences_nil host,
      )

  -- `processIPGroups` keeps the store well formed, whatever the client answers.
  pub process_ip_groups-IsValid :
      (ctlr : Controller) (groups : IpGroups)
      → IsValid ctlr.store
      → IsValid (process_ip_groups c ranges ctlr groups).store
  unfolding process_ip_groups
  process_ip_groups-IsValid ctlr groups v =
      let created = create_loop c ctlr groups in
      let all = get_all_hosts groups in
      let valid = (create_loop-Extends c ctlr groups).valid v in
      let swept = sweep_loop c ranges all created [] created.store.records in
      let r =
        sweep_loop-Removes all created [] created.store.records
          (Agrees-IsValid created.store valid) in
      delete_hosts-IsValid swept.0.store swept.1 (r.store.valid valid)
