-- ===== src/Controller/Accounts.antt =====
-- The books of addresses: what the calls of the first loop of `processIPGroups` reserve, release and
-- give to an A record.
use f5_ipam_ctlr.Prelude.{
  Bool, Bool-cases, List, String, [], arith, false, if◌then◌else◌, inl, inr, string_eq, true, ℕ,
  ◌&&◌, ◌+◌, ◌==◌, ◌∷◌, ◌≡◌, ◌≤◌,
}
use f5_ipam_ctlr.Controller.{
  Block, Controller, Pass, create_loop, host_loop, host_step, process_group, release_unused,
  reserve, shared_loop, start, unique_loop,
}
use f5_ipam_ctlr.Manager.{Call, Client, create_a_record, get_next_addr, release_addr}
use f5_ipam_ctlr.Orchestration.Types.{GroupKey, IpGroups, Spec}

module _ (c : Client) (addr : String) where
  -- How often a client handed out the address, in the calls of a log.
  unfoldable pub reserved : List Call → ℕ
  reserved [] = 0
  reserved (get_next_addr netview cidr ∷ log) =
      (if c.on_get_next_addr log netview cidr == addr then 1 else 0) + reserved log
  reserved (_ ∷ log) = reserved log

  -- How often the address was released.
  unfoldable pub released : List Call → ℕ
  released [] = 0
  released (release_addr netview cidr ip ∷ log) = (if ip == addr then 1 else 0) + released log
  released (_ ∷ log) = released log

  -- How often an A record was created with the address.
  unfoldable pub recorded : List Call → ℕ
  recorded [] = 0
  recorded (create_a_record name ip netview ∷ log) =
      (if c.on_create_a_record log name ip netview && ip == addr then 1 else 0) + recorded log
  recorded (_ ∷ log) = recorded log

  abbrev due : Block → ℕ
  due b = if b.next_addr == addr then 1 else 0

  -- What the innermost loop leaves of the books.
  record Loop (b : Block) (p q : Pass) : Type 0 where
    same_reserved : reserved q.ctlr.log ≡ reserved p.ctlr.log
    same_released : released q.ctlr.log ≡ released p.ctlr.log
    more_recorded : recorded p.ctlr.log ≤ recorded q.ctlr.log
    used_recorded :
        recorded p.ctlr.log + (if q.addr_used then due b else 0)
        ≤ recorded q.ctlr.log + (if p.addr_used then due b else 0)

  host_step-Loop :
      (is_first : Bool) (p : Pass) (b : Block) (host : String)
      → Loop b p (host_step c is_first p b host)
  unfolding host_step reserved released recorded
  host_step-Loop is_first p b host = ground arith

  host_loop-Loop :
      (is_first : Bool) (p : Pass) (b : Block) (hosts : List String)
      → Loop b p (host_loop c is_first p b hosts)
  unfolding host_loop
  host_loop-Loop is_first p b [] = omega arith
  host_loop-Loop is_first p b (host ∷ hosts) = omega (
    arith,
    host_step-Loop is_first p b host,
    host_loop-Loop false (host_step c is_first p b host) b hosts,
  )

  shared_loop-Loop : (p : Pass) (b : Block) (specs : List Spec) → Loop b p (shared_loop c p b specs)
  unfolding shared_loop
  shared_loop-Loop p b [] = omega arith
  shared_loop-Loop p b (spec ∷ specs) = omega (
    arith,
    host_loop-Loop true p b spec.hosts,
    shared_loop-Loop (host_loop c true p b spec.hosts) b specs,
  )

  -- Every address that was reserved has been released or has an A record, and none is released that
  -- was not reserved.
  pub record Settled (log log' : List Call) : Type 0 where
    pub none_leaks :
        reserved log' + released log + recorded log ≤ reserved log + released log' + recorded log'
    pub none_invented : released log' + reserved log ≤ released log + reserved log'

  Settled-refl : (log : List Call) → Settled log log
  Settled-refl log = omega arith

  -- A block whose loop kept the books and which then released an unused address.
  block-Settled :
      (ctlr : Controller) (unique_ip : Bool) (netview cidr : String) (q : Pass)
      → let b = reserve c ctlr unique_ip netview cidr in
        Loop b (start c ctlr b) q → Settled ctlr.log (release_unused c q b).log
  unfolding reserve reserved released recorded
  block-Settled ctlr unique_ip netview cidr q l = elim (Bool-cases q.addr_used) [
    | inl used ↦ rw used (ground (arith, l))
    | inr unused ↦ rw unused (ground (arith, l))
  ]

  unique_loop-Settled :
      (ctlr : Controller) (specs : List Spec) → Settled ctlr.log (unique_loop c ctlr specs).log
  unfolding unique_loop
  unique_loop-Settled ctlr [] = Settled-refl ctlr.log
  unique_loop-Settled ctlr (spec ∷ specs) =
      let b = reserve c ctlr true spec.netview spec.cidr in
      let q = host_loop c true (start c ctlr b) b spec.hosts in
      omega (
        arith,
        block-Settled ctlr true spec.netview spec.cidr q
            (host_loop-Loop true (start c ctlr b) b spec.hosts),
        unique_loop-Settled (release_unused c q b) specs,
      )

  process_group-Settled :
      (ctlr : Controller) (group : GroupKey) (specs : List Spec)
      → Settled ctlr.log (process_group c ctlr group specs).log
  unfolding process_group
  process_group-Settled ctlr group specs =
      let b = reserve c ctlr false group.netview group.cidr in
      let q = shared_loop c (start c ctlr b) b specs in
      elim (Bool-cases (group.name == "")) [
        | inl unique ↦ rw unique (unique_loop-Settled ctlr specs)
        | inr shared ↦ rw shared (
            block-Settled ctlr false group.netview group.cidr q
              (shared_loop-Loop (start c ctlr b) b specs))
      ]

  -- Over the first loop of `processIPGroups`, every time that an address was handed out it was
  -- released again or given to an A record, and it was released no more often than handed out.
  pub create_loop-Settled :
      (ctlr : Controller) (groups : IpGroups) → Settled ctlr.log (create_loop c ctlr groups).log
  unfolding create_loop
  create_loop-Settled ctlr [] = Settled-refl ctlr.log
  create_loop-Settled ctlr ((group, specs) ∷ groups) = omega (
    arith,
    process_group-Settled ctlr group specs,
    create_loop-Settled (process_group c ctlr group specs) groups,
  )
