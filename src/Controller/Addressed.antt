-- ===== src/Controller/Addressed.antt =====
-- No host is stored under the address "" by pkg/controller/controller.go, if the IPAM system hands
-- out no such address.
use f5_ipam_ctlr.Prelude.{
  Bool, Bool-cases, List, String, [], arith, false, inl, inr, not, refl, some, str_beq_iff,
  str_beq_refl, string_eq, true, ◌<◌, ◌==◌, ◌↔◌, ◌∷◌, ◌≡◌, ◌≢◌,
}
use f5_ipam_ctlr.Controller.{
  Block, Controller, Pass, Ranges, a, cname, create_loop, host_loop, host_step, process_group,
  process_ip_groups, release_unused, reserve, save_first, shared_loop, start, unique_loop,
}
use f5_ipam_ctlr.Controller.Cleanup.{IsRanges}
use f5_ipam_ctlr.Controller.Effects.{store-release_unused}
use f5_ipam_ctlr.Controller.Stable.{type_of-process_ip_groups}
use f5_ipam_ctlr.Manager.{Call, Client, IsClient}
use f5_ipam_ctlr.Orchestration.Types.{GroupKey, IpGroups, Spec}
use f5_ipam_ctlr.Prelude.GoMap.{GoMap, IsMap, has, is_some, lookup}
use f5_ipam_ctlr.Store.{HostSet, Store, add_record, get_ip, get_ip_loop, new_store}
use f5_ipam_ctlr.Store.Address.{get_ip-holders}
use f5_ipam_ctlr.Store.Count.{holders}
use f5_ipam_ctlr.Store.Valid.{IsValid}
use f5_ipam_ctlr.Store.View.{type_of, type_of-add_record}

-- Of the hosts other than "", the record of the address "" holds none.
unfoldable pub IsAddressed : Store → Type 0
IsAddressed st = (host : String) → host ≢ "" → is_some (type_of st "" host) ≡ false

pub new_store-IsAddressed : IsAddressed new_store
unfolding IsAddressed type_of lookup
new_store-IsAddressed host n = refl

add_record-IsAddressed :
    (st : Store) (ip host record_type netview cidr : String)
    → ip == "" ≡ false
    → IsAddressed st
    → IsAddressed (add_record st ip host record_type netview cidr)
unfolding IsAddressed
add_record-IsAddressed st ip host record_type netview cidr given h other n =
    ground (arith, type_of-add_record st ip host record_type netview cidr "" other, h other n)

get_ip_loop_found :
    (m : GoMap String HostSet) (host : String)
    → IsMap m
    → 0 < holders m host
    → get_ip_loop m host == "" ≡ true
    → (hosts : HostSet) × (lookup "" m ≡ some hosts) × (has host hosts ≡ true)
unfolding get_ip_loop holders lookup
get_ip_loop_found [] host v h e = absurd (omega arith)
get_ip_loop_found ((j, hosts) ∷ m) host v h e = elim (Bool-cases (has host hosts)) [
  | inl here ↦ (hosts, ground (arith, here), here)
  | inr later ↦
      let (hosts', found, there) =
        get_ip_loop_found m host v.1 (ground (arith, later)) (ground (arith, later)) in
      (hosts', ground (arith, found, v.0, str_beq_iff j ""), there)
]

-- Then GetIP finds an address for every host that a record holds, and for no other.
pub get_ip-IsAddressed :
    (st : Store) (host : String)
    → IsValid st
    → IsAddressed st
    → host ≢ ""
    → (not (get_ip st host == "") ≡ true) ↔ (0 < holders st.records host)
unfolding IsAddressed type_of get_ip
get_ip-IsAddressed st host v h n = elim (Bool-cases (get_ip_loop st.records host == "")) [
  | inr given ↦ (
    λ e. ground (arith, given, get_ip-holders st.records host, str_beq_refl ""),
    λ e. ground (arith, given),
  )
  | inl blank ↦ (
    λ e. absurd (ground (arith, blank)),
    λ e. absurd (
        let (hosts, found, there) = get_ip_loop_found st.records host v.records_map e blank in
        ground (arith, found, there, h host n)),
  )
]

-- The state of the innermost loop, with an address to store hosts under.
record IsReady (p : Pass) : Type 0 where
  cur : p.cur_addr == "" ≡ false
  addressed : IsAddressed p.ctlr.store

module _ (c : Client)
    (hands_out : (log : List Call) (view net : String) → c.on_get_next_addr log view net ≢ "") where
  host_step-IsReady :
      (is_first : Bool) (p : Pass) (b : Block) (host : String)
      → IsReady p
      → IsReady (host_step c is_first p b host)
  unfolding host_step
  host_step-IsReady is_first p b host i =
      let first = save_first b.unique_ip is_first p.first_host host in
      let added = λ (record_type : String).
        add_record-IsAddressed p.ctlr.store p.cur_addr host record_type b.netview b.cidr i.cur
          i.addressed in
      elim (Bool-cases (get_ip p.ctlr.store host == "")) [
        | inr known ↦ rw known (record { cur = known; addressed = i.addressed })
        | inl no_addr ↦ rw no_addr (elim (Bool-cases (host == first)) [
          | inl lead ↦
              rw lead
                (elim (Bool-cases (c.on_create_a_record p.ctlr.log host b.next_addr b.netview)) [
                  | inl made ↦ rw made (record { cur = i.cur; addressed = added a })
                  | inr refused ↦ rw refused (record { cur = i.cur; addressed = i.addressed })
                ])
          | inr other ↦ rw other (record { cur = i.cur; addressed = added cname })
        ])
      ]

  host_loop-IsReady :
      (is_first : Bool) (p : Pass) (b : Block) (hosts : List String)
      → IsReady p
      → IsReady (host_loop c is_first p b hosts)
  unfolding host_loop
  host_loop-IsReady is_first p b [] i = i
  host_loop-IsReady is_first p b (host ∷ hosts) i =
      host_loop-IsReady false (host_step c is_first p b host) b hosts
        (host_step-IsReady is_first p b host i)

  start-IsReady :
      (ctlr : Controller) (unique_ip : Bool) (netview cidr : String)
      → IsAddressed ctlr.store
      → IsReady (start c ctlr (reserve c ctlr unique_ip netview cidr))
  unfolding reserve
  start-IsReady ctlr unique_ip netview cidr h = record {
    cur = ground (
      arith,
      hands_out ctlr.log netview cidr,
      str_beq_iff (c.on_get_next_addr ctlr.log netview cidr) "",
    );
    addressed = h;
  }

  unique_loop-IsAddressed :
      (ctlr : Controller) (specs : List Spec)
      → IsAddressed ctlr.store
      → IsAddressed (unique_loop c ctlr specs).store
  unfolding unique_loop
  unique_loop-IsAddressed ctlr [] h = h
  unique_loop-IsAddressed ctlr (spec ∷ specs) h =
      let b = reserve c ctlr true spec.netview spec.cidr in
      let p = host_loop c true (start c ctlr b) b spec.hosts in
      let i =
        host_loop-IsReady true (start c ctlr b) b spec.hosts
          (start-IsReady ctlr true spec.netview spec.cidr h) in
      unique_loop-IsAddressed (release_unused c p b) specs
        (rw (store-release_unused c p b) i.addressed)

  shared_loop-IsReady :
      (p : Pass) (b : Block) (specs : List Spec) → IsReady p → IsReady (shared_loop c p b specs)
  unfolding shared_loop
  shared_loop-IsReady p b [] i = i
  shared_loop-IsReady p b (spec ∷ specs) i =
      shared_loop-IsReady (host_loop c true p b spec.hosts) b specs
        (host_loop-IsReady true p b spec.hosts i)

  process_group-IsAddressed :
      (ctlr : Controller) (group : GroupKey) (specs : List Spec)
      → IsAddressed ctlr.store
      → IsAddressed (process_group c ctlr group specs).store
  unfolding process_group
  process_group-IsAddressed ctlr group specs h =
      let b = reserve c ctlr false group.netview group.cidr in
      let p = shared_loop c (start c ctlr b) b specs in
      elim (Bool-cases (group.name == "")) [
        | inl unique ↦ rw unique (unique_loop-IsAddressed ctlr specs h)
        | inr shared ↦
            rw (shared, store-release_unused c p b)
              ((shared_loop-IsReady (start c ctlr b) b specs
                (start-IsReady ctlr false group.netview group.cidr h)).addressed)
      ]

  create_loop-IsAddressed :
      (ctlr : Controller) (groups : IpGroups)
      → IsAddressed ctlr.store
      → IsAddressed (create_loop c ctlr groups).store
  unfolding create_loop
  create_loop-IsAddressed ctlr [] h = h
  create_loop-IsAddressed ctlr ((group, specs) ∷ groups) h =
      create_loop-IsAddressed (process_group c ctlr group specs) groups
        (process_group-IsAddressed ctlr group specs h)

  -- `processIPGroups` stores no host but "" under the address "".
  pub process_ip_groups-IsAddressed :
      (ranges : Ranges) (ctlr : Controller) (groups : IpGroups)
      → IsClient c
      → IsRanges ranges
      → IsValid ctlr.store
      → IsAddressed ctlr.store
      → IsAddressed (process_ip_groups c ranges ctlr groups).store
  unfolding IsAddressed
  process_ip_groups-IsAddressed ranges ctlr groups law go v h host n = ground (
    arith,
    type_of-process_ip_groups c ranges law go ctlr groups "" host v n,
    create_loop-IsAddressed ctlr groups h host n,
  )
