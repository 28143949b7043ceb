-- ===== src/Controller/Complete.antt =====
-- Every host of the groups has an address after the first loop, if the IPAM system takes the A
-- records; with the second loop, the store then holds the hosts of the groups and no others.
use f5_ipam_ctlr.Prelude.{
  Bool, Bool-cases, List, String, [], ap, arith, contains, contains-append, contains-sort, false,
  inl, inr, str_beq_iff, str_beq_refl, string_eq, true, ◌<◌, ◌==◌, ◌↔◌, ◌∙◌, ◌∷◌, ◌≡◌, ◌≢◌,
}
use f5_ipam_ctlr.Controller.{
  Block, Controller, Pass, Ranges, create_loop, host_loop, host_step, process_group,
  process_ip_groups, release_unused, reserve, save_first, shared_loop, start, unique_loop,
}
use f5_ipam_ctlr.Controller.Cleanup.{IsRanges}
use f5_ipam_ctlr.Controller.Effects.{
  create_loop-Extends, host_loop-Extends, shared_loop-Extends, store-release_unused,
  unique_loop-Extends,
}
use f5_ipam_ctlr.Controller.Process.{holders-process_ip_groups}
use f5_ipam_ctlr.Manager.{Call, Client, IsClient}
use f5_ipam_ctlr.Orchestration.IpGroup.{get_all_hosts, group_hosts, spec_hosts}
use f5_ipam_ctlr.Orchestration.Types.{GroupKey, IpGroups, Spec}
use f5_ipam_ctlr.Store.{Store, add_record, get_ip, get_ip_loop}
use f5_ipam_ctlr.Store.Address.{get_ip-holders}
use f5_ipam_ctlr.Store.Count.{holders, holders-add_record, holders_of_type}
use f5_ipam_ctlr.Store.Valid.{IsValid}

added_holders :
    (st : Store) (ip host record_type netview cidr : String)
    → 0 < holders (add_record st ip host record_type netview cidr).records host
added_holders st ip host record_type netview cidr = ground (
  arith,
  holders-add_record st ip host record_type netview cidr host,
  str_beq_refl host,
  holders_of_type st ip host,
)

module _ (c : Client)
    (creates : (log : List Call) (name ip view : String)
      → c.on_create_a_record log name ip view ≡ true) where
  host_step-holders :
      (is_first : Bool) (p : Pass) (b : Block) (host : String)
      → 0 < holders (host_step c is_first p b host).ctlr.store.records host
  unfolding host_step get_ip
  host_step-holders is_first p b host =
      let first = save_first b.unique_ip is_first p.first_host host in
      elim (Bool-cases (get_ip_loop p.ctlr.store.records host == "")) [
        | inr known ↦
            rw known (ground (arith, get_ip-holders p.ctlr.store.records host, str_beq_refl ""))
        | inl no_addr ↦ rw no_addr (elim (Bool-cases (host == first)) [
          | inl lead ↦
              rw (lead, creates p.ctlr.log host b.next_addr b.netview) (added_holders _ _ _ _ _ _)
          | inr other ↦ rw other (added_holders _ _ _ _ _ _)
        ])
      ]

  host_loop-holders :
      (is_first : Bool) (p : Pass) (b : Block) (hosts : List String) (h : String)
      → contains hosts h ≡ true
      → 0 < holders (host_loop c is_first p b hosts).ctlr.store.records h
  unfolding host_loop contains
  host_loop-holders is_first p b [] h e = cc
  host_loop-holders is_first p b (host ∷ hosts) h e =
      let q = host_step c is_first p b host in
      elim (Bool-cases (host == h)) [
        | inl same ↦ omega (
          arith,
          host_step-holders is_first p b host,
          ap (λ x. holders q.ctlr.store.records x) ((str_beq_iff host h).0 same),
          (host_loop-Extends c false q b hosts).held h,
        )
        | inr other ↦ host_loop-holders false q b hosts h (rw other at e)
      ]

  unique_loop-holders :
      (ctlr : Controller) (specs : List Spec) (h : String)
      → contains (spec_hosts specs) h ≡ true
      → 0 < holders (unique_loop c ctlr specs).store.records h
  unfolding unique_loop spec_hosts contains
  unique_loop-holders ctlr [] h e = cc
  unique_loop-holders ctlr (spec ∷ specs) h e =
      let b = reserve c ctlr true spec.netview spec.cidr in
      let p = host_loop c true (start c ctlr b) b spec.hosts in
      let next = release_unused c p b in
      let same = ap (λ st. holders st.records h) (store-release_unused c p b) in
      elim (Bool-cases (contains spec.hosts h)) [
        | inl here ↦ omega (
          arith,
          same,
          host_loop-holders true (start c ctlr b) b spec.hosts h here,
          (unique_loop-Extends c next specs).held h,
        )
        | inr later ↦
            unique_loop-holders next specs h
              (ground (arith, contains-append spec.hosts (spec_hosts specs) h))
      ]

  shared_loop-holders :
      (p : Pass) (b : Block) (specs : List Spec) (h : String)
      → contains (spec_hosts specs) h ≡ true
      → 0 < holders (shared_loop c p b specs).ctlr.store.records h
  unfolding shared_loop spec_hosts contains
  shared_loop-holders p b [] h e = cc
  shared_loop-holders p b (spec ∷ specs) h e =
      let q = host_loop c true p b spec.hosts in
      elim (Bool-cases (contains spec.hosts h)) [
        | inl here ↦ omega (
          arith,
          host_loop-holders true p b spec.hosts h here,
          (shared_loop-Extends c q b specs).held h,
        )
        | inr later ↦
            shared_loop-holders q b specs h
              (ground (arith, contains-append spec.hosts (spec_hosts specs) h))
      ]

  process_group-holders :
      (ctlr : Controller) (group : GroupKey) (specs : List Spec) (h : String)
      → contains (spec_hosts specs) h ≡ true
      → 0 < holders (process_group c ctlr group specs).store.records h
  unfolding process_group
  process_group-holders ctlr group specs h e =
      let b = reserve c ctlr false group.netview group.cidr in
      let p = shared_loop c (start c ctlr b) b specs in
      elim (Bool-cases (group.name == "")) [
        | inl unique ↦ rw unique (unique_loop-holders ctlr specs h e)
        | inr shared ↦
            rw (shared, store-release_unused c p b)
              (shared_loop-holders (start c ctlr b) b specs h e)
      ]

  create_loop-holders :
      (ctlr : Controller) (groups : IpGroups) (h : String)
      → contains (group_hosts groups) h ≡ true
      → 0 < holders (create_loop c ctlr groups).store.records h
  unfolding create_loop group_hosts contains
  create_loop-holders ctlr [] h e = cc
  create_loop-holders ctlr ((group, specs) ∷ groups) h e =
      let next = process_group c ctlr group specs in
      elim (Bool-cases (contains (spec_hosts specs) h)) [
        | inl here ↦ omega (
          arith,
          process_group-holders ctlr group specs h here,
          (create_loop-Extends c next groups).held h,
        )
        | inr later ↦
            create_loop-holders next groups h
              (ground (arith, contains-append (spec_hosts specs) (group_hosts groups) h))
      ]

  -- If the IPAM system takes every A record, then after `processIPGroups` the store has an address
  -- for exactly the hosts of the groups, whatever it held before; only of the host "" nothing is
  -- said.
  pub process_ip_groups_exact :
      (ranges : Ranges) (ctlr : Controller) (groups : IpGroups) (host : String)
      → IsClient c
      → IsRanges ranges
      → IsValid ctlr.store
      → host ≢ ""
      → (0 < holders (process_ip_groups c ranges ctlr groups).store.records host)
        ↔ (contains (get_all_hosts groups) host ≡ true)
  unfolding get_all_hosts
  process_ip_groups_exact ranges ctlr groups host law go v n =
      let e = holders-process_ip_groups c ranges law go ctlr groups host v n in
      elim (Bool-cases (contains (group_hosts groups) host)) [
        | inl wanted ↦
            let made = create_loop-holders ctlr groups host wanted in
            let sorted = contains-sort (group_hosts groups) host in
            ((λ h. sorted ∙ wanted), λ h. ground arith)
        | inr unwanted ↦
            let sorted = contains-sort (group_hosts groups) host in
            ((λ h. absurd (ground arith)), λ h. cc (sorted, unwanted, h))
      ]
