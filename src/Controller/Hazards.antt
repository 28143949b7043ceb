-- ===== src/Controller/Hazards.antt =====
-- Two answers of the IPAM system after which the store of the controller disagrees with it.
use f5_ipam_ctlr.Prelude.{
  Bool, Bool-cases, List, Option-cases, String, [], arith, contains, contains-append, false, head?,
  inl, inr, none, refl, some, str_beq_iff, str_beq_refl, string_eq, true, ◌==◌, ◌∷◌, ◌≡◌, ◌≢◌,
}
use f5_ipam_ctlr.Controller.{
  Block, Controller, Pass, add_host, cname, host_loop, host_step, new_host, process_group,
  release_unused, reserve, says, shared_loop, start,
}
use f5_ipam_ctlr.Controller.Effects.{host_loop-Extends, shared_loop-Extends}
use f5_ipam_ctlr.Manager.{Client, create_a_record, create_cname_record, get_next_addr, release_addr}
use f5_ipam_ctlr.Orchestration.IpGroup.{spec_hosts}
use f5_ipam_ctlr.Orchestration.Types.{GroupKey, Spec}
use f5_ipam_ctlr.Prelude.GoMap.{GoMap, lookup}
use f5_ipam_ctlr.Store.{HostSet, Store, get_ip}
use f5_ipam_ctlr.Store.Address.{get_ip-holders}
use f5_ipam_ctlr.Store.Count.{holders}
use f5_ipam_ctlr.Store.View.{type_of, type_of-add_record}

holders_absent :
    (m : GoMap String HostSet) (ip : String) (hosts : HostSet) (host : String)
    → lookup ip m ≡ some hosts
    → holders m host ≡ 0
    → lookup host hosts ≡ none
unfolding holders lookup
holders_absent [] ip hosts host found h = ground arith
holders_absent ((j, x) ∷ m) ip hosts host found h = elim (Bool-cases (j == ip)) [
  | inl here ↦ ground (arith, here)
  | inr other ↦ holders_absent m ip hosts host (ground (arith, other)) (omega arith)
]

type_of_absent :
    (st : Store) (ip host : String) → holders st.records host ≡ 0 → type_of st ip host ≡ none
unfolding type_of
type_of_absent st ip host h = elim (Option-cases (lookup ip st.records)) [
  | inl miss ↦ rw miss refl
  | inr (hosts, found) ↦ ground (arith, found, holders_absent st.records ip hosts host found h)
]

module _ (c : Client) where
  refused_first :
      (ctlr : Controller) (b : Block) (host : String)
      → b.unique_ip ≡ false
      → get_ip ctlr.store host ≡ ""
      → c.on_create_a_record (get_next_addr b.netview b.cidr ∷ ctlr.log) host b.next_addr b.netview
        ≡ false
      → let s = start c ctlr b in
        host_step c true s b host ≡ record s {
          ctlr = says s.ctlr (create_a_record host b.next_addr b.netview);
          first_host = host;
        }
  unfolding host_step
  refused_first ctlr b host u no_addr refused =
      rw (u, no_addr, str_beq_refl "", str_beq_refl host, refused)

  -- The reserved address is not used, and the first host is the given one.
  record IsUnused (first : String) (p : Pass) : Type 0 where
    unused : p.addr_used ≡ false
    same : p.first_host ≡ first

  module _ (b : Block) (first : String) (shared : b.unique_ip ≡ false)
      (has_first : first == "" ≡ false) where
    host_step-IsUnused :
        (is_first : Bool) (p : Pass) (host : String)
        → host == first ≡ false
        → IsUnused first p
        → IsUnused first (host_step c is_first p b host)
    unfolding host_step new_host add_host
    host_step-IsUnused is_first p host other u = record {
      unused = ground (arith, shared, has_first, other, u.unused, u.same);
      same = ground (arith, shared, has_first, other, u.unused, u.same);
    }

    host_loop-IsUnused :
        (is_first : Bool) (p : Pass) (hosts : List String)
        → contains hosts first ≡ false
        → IsUnused first p
        → IsUnused first (host_loop c is_first p b hosts)
    unfolding host_loop contains
    host_loop-IsUnused is_first p [] absent u = u
    host_loop-IsUnused is_first p (host ∷ hosts) absent u =
        host_loop-IsUnused false (host_step c is_first p b host) hosts (ground (arith, absent))
          (host_step-IsUnused is_first p host (ground (arith, absent)) u)

    shared_loop-IsUnused :
        (p : Pass) (specs : List Spec)
        → contains (spec_hosts specs) first ≡ false
        → IsUnused first p
        → IsUnused first (shared_loop c p b specs)
    unfolding shared_loop spec_hosts
    shared_loop-IsUnused p [] absent u = u
    shared_loop-IsUnused p (spec ∷ specs) absent u =
        let split = contains-append spec.hosts (spec_hosts specs) first in
        shared_loop-IsUnused (host_loop c true p b spec.hosts) specs (ground (arith, split, absent))
          (host_loop-IsUnused true p spec.hosts (ground (arith, split, absent)) u)

  abbrev after_refused : Controller → Block → String → String → Pass
  after_refused ctlr b host next =
      let s = start c ctlr b in
      let s' : Pass = record s {
        ctlr = says s.ctlr (create_a_record host b.next_addr b.netview);
        first_host = host;
      } in
      add_host c s' b next cname (create_cname_record next host b.netview)

  refused_second :
      (ctlr : Controller) (b : Block) (host next : String) (others : List String)
      → b.unique_ip ≡ false
      → get_ip ctlr.store host ≡ ""
      → get_ip ctlr.store next ≡ ""
      → next == host ≡ false
      → c.on_create_a_record (get_next_addr b.netview b.cidr ∷ ctlr.log) host b.next_addr b.netview
        ≡ false
      → host_loop c true (start c ctlr b) b (host ∷ next ∷ others)
        ≡ host_loop c false (after_refused ctlr b host next) b others
  unfolding host_loop host_step new_host
  refused_second ctlr b host next others u no_addr no_addr' other refused =
      rw (refused_first ctlr b host u no_addr refused, u, no_addr', str_beq_refl "", other) refl

  -- If in a named group, of which the first spec begins with two different hosts, GetIP finds no
  -- address for the first, which is not "" and stands in the group once, no record holds the second,
  -- and `CreateARecord` fails for the first, then the second is stored as a CNAME at the address
  -- that was reserved, and the last call releases that address, whatever the other hosts.
  pub refused_first_released :
      (ctlr : Controller) (group : GroupKey) (spec : Spec) (specs : List Spec) (host next : String)
      (others : List String)
      → let addr = c.on_get_next_addr ctlr.log group.netview group.cidr in
        let ctlr' = process_group c ctlr group (spec ∷ specs) in
        group.name ≢ ""
        → spec.hosts ≡ host ∷ next ∷ others
        → host ≢ ""
        → contains (next ∷ others) host ≡ false
        → contains (spec_hosts specs) host ≡ false
        → get_ip ctlr.store host ≡ ""
        → holders ctlr.store.records next ≡ 0
        → c.on_create_a_record
            (get_next_addr group.netview group.cidr ∷ ctlr.log)
            host
            addr
            group.netview
          ≡ false
        → (head? ctlr'.log ≡ some (release_addr group.netview group.cidr addr))
          × (type_of ctlr'.store addr next ≡ some "CNAME")
  unfolding process_group shared_loop host_loop reserve contains add_host
  refused_first_released ctlr group spec specs host next others group_named hosts not_blank once
        none_later no_addr absent refused =
      let b = reserve c ctlr false group.netview group.cidr in
      let addr = b.next_addr in
      let no_addr' : get_ip ctlr.store next ≡ "" =
        unfold get_ip in get_ip-holders ctlr.store.records next absent in
      let s2 = after_refused ctlr b host next in
      let p2 = host_loop c false s2 b others in
      let p3 = shared_loop c p2 b specs in
      let has_name : group.name == "" ≡ false = ground (arith, str_beq_iff group.name "") in
      let has_host : host == "" ≡ false = ground (arith, str_beq_iff host "") in
      let other : next == host ≡ false = ground (arith, once) in
      let e : process_group c ctlr group (spec ∷ specs) ≡ release_unused c p3 b =
        rw
          (
            process_group,
            has_name,
            shared_loop,
            hosts,
            refused_second ctlr b host next others refl no_addr no_addr' other refused,
          )
          refl in
      let u = shared_loop-IsUnused b host refl has_host p2 specs none_later (
        host_loop-IsUnused b host refl has_host false s2 others (ground (arith, once))
          (record { unused = refl; same = refl })) in
      let made : type_of s2.ctlr.store addr next ≡ some "CNAME" = ground (
        arith,
        type_of-add_record ctlr.store addr next cname group.netview group.cidr addr next,
        type_of_absent ctlr.store addr next absent,
        str_beq_refl addr,
        str_beq_refl next,
      ) in
      let kept =
        (shared_loop-Extends c p2 b specs).kept addr next "CNAME"
          ((host_loop-Extends c false s2 b others).kept addr next "CNAME" made) in
      rw (e, u.unused) (refl, kept)
