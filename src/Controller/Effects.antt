-- ===== src/Controller/Effects.antt =====
-- What the first loop of `processIPGroups` does to the store: it only adds.
use f5_ipam_ctlr.Prelude.{
  Bool, Bool-cases, List, String, [], arith, false, inl, inr, some, str_beq_iff, string_eq, true,
  ◌==◌, ◌∷◌, ◌≡◌, ◌≤◌,
}
use f5_ipam_ctlr.Controller.{
  Block, Controller, Pass, create_loop, host_loop, host_step, process_group, release_unused,
  reserve, save_first, shared_loop, start, unique_loop,
}
use f5_ipam_ctlr.Manager.{Client}
use f5_ipam_ctlr.Orchestration.Types.{GroupKey, IpGroups, Spec}
use f5_ipam_ctlr.Store.{Store, add_record, get_ip}
use f5_ipam_ctlr.Store.Count.{holders, holders-add_record}
use f5_ipam_ctlr.Store.Valid.{IsValid, add_record-IsValid}
use f5_ipam_ctlr.Store.View.{type_of, type_of-add_record}

-- How the store of a later state extends an earlier one.
pub record Extends (s t : Store) : Type 0 where
  pub valid : IsValid s → IsValid t
  pub kept : (ip host r : String) → type_of s ip host ≡ some r → type_of t ip host ≡ some r
  pub held : (host : String) → holders s.records host ≤ holders t.records host

pub Extends-refl : (s : Store) → Extends s s
Extends-refl s = record { valid = λ v. v; kept = λ ip host r e. e; held = λ host. omega arith }

pub Extends-trans : (s t u : Store) → Extends s t → Extends t u → Extends s u
Extends-trans s t u f g = record {
  valid = λ v. g.valid (f.valid v);
  kept = λ ip host r e. g.kept ip host r (f.kept ip host r e);
  held = λ host. omega (arith, f.held host, g.held host);
}

pub add_record-Extends :
    (st : Store) (ip host record_type netview cidr : String)
    → Extends st (add_record st ip host record_type netview cidr)
add_record-Extends st ip host record_type netview cidr = record {
  valid = add_record-IsValid st ip host record_type netview cidr;
  kept = λ ip' host' r e. ground (
    arith,
    type_of-add_record st ip host record_type netview cidr ip' host',
    str_beq_iff ip ip',
    str_beq_iff host host',
  );
  held = λ h. omega (arith, holders-add_record st ip host record_type netview cidr h);
}

module _ (c : Client) where
  host_step-Extends :
      (is_first : Bool) (p : Pass) (b : Block) (host : String)
      → Extends p.ctlr.store (host_step c is_first p b host).ctlr.store
  unfolding host_step
  host_step-Extends is_first p b host =
      let first = save_first b.unique_ip is_first p.first_host host in
      elim (Bool-cases (get_ip p.ctlr.store host == "")) [
        | inr known ↦ rw known (Extends-refl p.ctlr.store)
        | inl no_addr ↦ rw no_addr (elim (Bool-cases (host == first)) [
          | inl lead ↦
              rw lead
                (elim (Bool-cases (c.on_create_a_record p.ctlr.log host b.next_addr b.netview)) [
                  | inl made ↦ rw made (add_record-Extends _ _ _ _ _ _)
                  | inr refused ↦ rw refused (Extends-refl p.ctlr.store)
                ])
          | inr other ↦ rw other (add_record-Extends _ _ _ _ _ _)
        ])
      ]

  pub host_loop-Extends :
      (is_first : Bool) (p : Pass) (b : Block) (hosts : List String)
      → Extends p.ctlr.store (host_loop c is_first p b hosts).ctlr.store
  unfolding host_loop
  host_loop-Extends is_first p b [] = Extends-refl p.ctlr.store
  host_loop-Extends is_first p b (host ∷ hosts) =
      let q = host_step c is_first p b host in
      Extends-trans p.ctlr.store q.ctlr.store _ (host_step-Extends is_first p b host)
        (host_loop-Extends false q b hosts)

  pub store-release_unused : (p : Pass) (b : Block) → (release_unused c p b).store ≡ p.ctlr.store
  store-release_unused p b = ground arith

  pub unique_loop-Extends :
      (ctlr : Controller) (specs : List Spec) → Extends ctlr.store (unique_loop c ctlr specs).store
  unfolding unique_loop
  unique_loop-Extends ctlr [] = Extends-refl ctlr.store
  unique_loop-Extends ctlr (spec ∷ specs) =
      let b = reserve c ctlr true spec.netview spec.cidr in
      let p = host_loop c true (start c ctlr b) b spec.hosts in
      Extends-trans ctlr.store p.ctlr.store _ (host_loop-Extends true (start c ctlr b) b spec.hosts)
        (rw (← store-release_unused p b) (unique_loop-Extends (release_unused c p b) specs))

  pub shared_loop-Extends :
      (p : Pass) (b : Block) (specs : List Spec)
      → Extends p.ctlr.store (shared_loop c p b specs).ctlr.store
  unfolding shared_loop
  shared_loop-Extends p b [] = Extends-refl p.ctlr.store
  shared_loop-Extends p b (spec ∷ specs) =
      let q = host_loop c true p b spec.hosts in
      Extends-trans p.ctlr.store q.ctlr.store _ (host_loop-Extends true p b spec.hosts)
        (shared_loop-Extends q b specs)

  pub process_group-Extends :
      (ctlr : Controller) (group : GroupKey) (specs : List Spec)
      → Extends ctlr.store (process_group c ctlr group specs).store
  unfolding process_group
  process_group-Extends ctlr group specs =
      let b = reserve c ctlr false group.netview group.cidr in
      let p = shared_loop c (start c ctlr b) b specs in
      elim (Bool-cases (group.name == "")) [
        | inl unique ↦ rw unique (unique_loop-Extends ctlr specs)
        | inr shared ↦
            rw (shared, store-release_unused p b) (shared_loop-Extends (start c ctlr b) b specs)
      ]

  -- Creating records keeps the store well formed, keeps every host with its record type at its
  -- address, and takes no host out of a record.
  pub create_loop-Extends :
      (ctlr : Controller) (groups : IpGroups) → Extends ctlr.store (create_loop c ctlr groups).store
  unfolding create_loop
  create_loop-Extends ctlr [] = Extends-refl ctlr.store
  create_loop-Extends ctlr ((group, specs) ∷ groups) =
      let next = process_group c ctlr group specs in
      Extends-trans ctlr.store next.store _ (process_group-Extends ctlr group specs)
        (create_loop-Extends next groups)
