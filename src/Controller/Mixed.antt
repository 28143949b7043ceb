-- ===== src/Controller/Mixed.antt =====
-- A group that shares an address, with a host that has another address already.
use f5_ipam_ctlr.Prelude.{
  String, [], arith, false, head?, refl, some, str_beq_refl, string_eq, true, ◌==◌, ◌∙◌, ◌∷◌, ◌≡◌,
}
use f5_ipam_ctlr.Controller.{
  Block, Controller, Pass, a, cname, host_loop, host_step, process_group, reserve, shared_loop,
  start,
}
use f5_ipam_ctlr.Manager.{Client, create_a_record, create_cname_record, get_next_addr}
use f5_ipam_ctlr.Orchestration.Types.{GroupKey, Spec}
use f5_ipam_ctlr.Store.{add_record, get_ip}
use f5_ipam_ctlr.Store.Address.{get_ip-add_record_new, get_ip-add_record_other, get_ip-holders}
use f5_ipam_ctlr.Store.Count.{holders, holders-add_record}

module _ (c : Client) (b : Block) where
  step_first :
      (ctlr : Controller) (x : String)
      → b.unique_ip ≡ false
      → get_ip ctlr.store x ≡ ""
      → c.on_create_a_record (get_next_addr b.netview b.cidr ∷ ctlr.log) x b.next_addr b.netview
        ≡ true
      → let s = start c ctlr b in
        host_step c true s b x ≡ record {
          ctlr = record {
            store = add_record ctlr.store b.next_addr x a b.netview b.cidr;
            log = create_a_record x b.next_addr b.netview ∷ s.ctlr.log;
          };
          addr_used = true;
          cur_addr = b.next_addr;
          first_host = x;
        }
  unfolding host_step
  step_first ctlr x u no_addr created =
      rw (u, no_addr, str_beq_refl "", str_beq_refl x, created) refl

  step_known :
      (p : Pass) (y : String)
      → get_ip p.ctlr.store y == "" ≡ false
      → host_step c false p b y ≡ record p { cur_addr = get_ip p.ctlr.store y }
  unfolding host_step
  step_known p y known = rw known refl

  step_cname :
      (p : Pass) (z : String)
      → get_ip p.ctlr.store z ≡ ""
      → z == p.first_host ≡ false
      → host_step c false p b z ≡ record p {
        ctlr = record {
          store = add_record p.ctlr.store p.cur_addr z cname b.netview b.cidr;
          log = create_cname_record z p.first_host b.netview ∷ p.ctlr.log;
        };
      }
  unfolding host_step
  step_cname p z no_addr other = rw (no_addr, str_beq_refl "", other) refl

module _ (c : Client) (ctlr : Controller) (group : GroupKey) (spec : Spec) (x y z : String) where
  abbrev addr : String
  addr = c.on_get_next_addr ctlr.log group.netview group.cidr

  -- If in a named group with three different hosts the first and the last have no address, the
  -- second has one, and CreateARecord succeeds for the first, then the last call makes the last host
  -- a CNAME of the first, which is stored at the reserved address, while the last host itself is
  -- stored at the address of the second.
  pub mixed_group_split :
      group.name == "" ≡ false
      → spec.hosts ≡ x ∷ y ∷ z ∷ []
      → x == y ≡ false
      → x == z ≡ false
      → z == x ≡ false
      → holders ctlr.store.records x ≡ 0
      → holders ctlr.store.records z ≡ 0
      → get_ip ctlr.store y == "" ≡ false
      → c.on_create_a_record
          (get_next_addr group.netview group.cidr ∷ ctlr.log)
          x
          addr
          group.netview
        ≡ true
      → let ctlr' = process_group c ctlr group (spec ∷ []) in
        (head? ctlr'.log ≡ some (create_cname_record z x group.netview))
        × (get_ip ctlr'.store x ≡ addr)
        × (get_ip ctlr'.store z ≡ get_ip ctlr.store y)
  unfolding process_group shared_loop host_loop reserve
  mixed_group_split has_name hosts xy xz zx fresh_x fresh_z known created =
      let b = reserve c ctlr false group.netview group.cidr in
      let st1 = add_record ctlr.store addr x a group.netview group.cidr in
      let p1 : Pass = record {
        ctlr = record {
          store = st1;
          log =
              create_a_record x addr group.netview
              ∷ get_next_addr group.netview group.cidr
              ∷ ctlr.log;
        };
        addr_used = true;
        cur_addr = addr;
        first_host = x;
      } in
      let no_x : get_ip ctlr.store x ≡ "" =
        unfold get_ip in get_ip-holders ctlr.store.records x fresh_x in
      let first = step_first c b ctlr x refl no_x created in
      let y_same = get_ip-add_record_other ctlr.store addr x a group.netview group.cidr y xy in
      let second = step_known c b p1 y (rw y_same known) in
      let p2 = record p1 { cur_addr = get_ip st1 y } in
      let no_z : get_ip st1 z ≡ "" =
        get_ip-add_record_other ctlr.store addr x a group.netview group.cidr z xz
        ∙ (unfold get_ip in get_ip-holders ctlr.store.records z fresh_z) in
      let third = step_cname c b p2 z no_z zx in
      let held_z : holders st1.records z ≡ 0 =
        ground (arith, holders-add_record ctlr.store addr x a group.netview group.cidr z) in
      rw (has_name, hosts, first, second, third)
        (
          refl,
          get_ip-add_record_other st1 (get_ip st1 y) z cname group.netview group.cidr x zx
              ∙ get_ip-add_record_new ctlr.store addr x a group.netview group.cidr fresh_x,
          get_ip-add_record_new st1 (get_ip st1 y) z cname group.netview group.cidr held_z ∙ y_same,
        )
