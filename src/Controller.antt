-- ===== src/Controller.antt =====
-- pkg/controller/controller.go: the controller between the orchestration and the IPAM system. Its
-- state is its store and the calls that it has made to the IPAM client, newest first.
pub mod Effects
pub mod Cleanup
pub mod Process
pub mod Complete
pub mod Run
pub mod Hazards
pub mod Refresh
pub mod Events
pub mod Stable
pub mod Addressed
pub mod Shared
pub mod Mixed
pub mod Tests
pub mod Accounts
use f5_ipam_ctlr.Prelude.{
  Bool, List, Option, String, [], contains, false, if◌then◌else◌, is_empty, none, not,
  remove_element, some, string_eq, true, ◌&&◌, ◌++◌, ◌==◌, ◌∷◌,
}
use f5_ipam_ctlr.Manager.{
  Call, Client, cname_to_a, create_a_record, create_cname_record, delete_a_record,
  delete_cname_record, get_next_addr, release_addr,
}
use f5_ipam_ctlr.Orchestration.IpGroup.{get_all_hosts}
use f5_ipam_ctlr.Orchestration.Types.{GroupKey, IpGroups, Spec}
use f5_ipam_ctlr.Prelude.GoMap.{GoMap, insert, lookup}
use f5_ipam_ctlr.Store.{HostSet, Store, add_record, delete_hosts, get_ip}
use f5_ipam_ctlr.Store.View.{type_of}

abbrev pub a : String
a = "A"

abbrev pub cname : String
cname = "CNAME"

-- The fields of `Controller` that change.
pub record Controller : Type 0 where
  pub store : Store
  pub log : List Call

-- The order in which Go visits the host set of an address: in the inner loop of `processIPGroups`
-- over the records, and in `mapKeys`.
pub record Ranges : Type 0 where
  pub range_hosts : HostSet → List String
  pub range_keys : HostSet → List String

abbrev pub says : Controller → Call → Controller
says ctlr call = record ctlr { log = call ∷ ctlr.log }

-- The variables of the first loop of `processIPGroups` that the innermost loop writes.
pub record Pass : Type 0 where
  pub ctlr : Controller
  pub addr_used : Bool
  pub cur_addr : String
  pub first_host : String

-- What the loops fix before the innermost one.
pub record Block : Type 0 where
  pub unique_ip : Bool
  pub next_addr : String
  pub netview : String
  pub cidr : String

-- The `if i == 0` of the innermost loop.
abbrev pub save_first : Bool → Bool → String → String → String
save_first unique_ip is_first first_host host =
    if is_first
    then (if not unique_ip && first_host == ""
        then host
        else (if unique_ip then host else first_host))
    else first_host

module _ (c : Client) where
  -- The `ctlr.store.AddRecord` after a call of the client.
  unfoldable pub add_host : Pass → Block → String → String → Call → Pass
  add_host p b host record_type call = record p {
    ctlr = record {
      store = add_record p.ctlr.store p.cur_addr host record_type b.netview b.cidr;
      log = call ∷ p.ctlr.log;
    };
  }

  -- The branch of the innermost loop for a host that has no address.
  unfoldable pub new_host : Pass → Block → String → Pass
  unfolding add_host
  new_host p b host =
      let a_call = create_a_record host b.next_addr b.netview in
      let cname_call = create_cname_record host p.first_host b.netview in
      if host == p.first_host
      then (if c.on_create_a_record p.ctlr.log host b.next_addr b.netview
          then record (add_host p b host a a_call) { addr_used = true }
          else record p { ctlr = says p.ctlr a_call })
      else add_host p b host cname cname_call

  -- The body of the innermost loop of `processIPGroups`, over the hosts of a spec.
  unfoldable pub host_step : Bool → Pass → Block → String → Pass
  unfolding new_host
  host_step is_first p b host =
      let p' = record p { first_host = save_first b.unique_ip is_first p.first_host host } in
      let known = get_ip p'.ctlr.store host in
      if not (known == "") then record p' { cur_addr = known } else new_host p' b host

  -- The innermost loop; the flag says that `i == 0`.
  unfoldable pub host_loop : Bool → Pass → Block → List String → Pass
  unfolding host_step
  host_loop is_first p b [] = p
  host_loop is_first p b (host ∷ hosts) = host_loop false (host_step is_first p b host) b hosts

  -- `GetNextAddr` for a block, and the variables that are set with it.
  unfoldable pub reserve : Controller → Bool → String → String → Block
  reserve ctlr unique_ip netview cidr = record {
    unique_ip = unique_ip;
    next_addr = c.on_get_next_addr ctlr.log netview cidr;
    netview = netview;
    cidr = cidr;
  }

  abbrev pub start : Controller → Block → Pass
  start ctlr b = record {
    ctlr = says ctlr (get_next_addr b.netview b.cidr);
    addr_used = false;
    cur_addr = b.next_addr;
    first_host = "";
  }

  -- If the address was reserved but not used, it is released.
  abbrev pub release_unused : Pass → Block → Controller
  release_unused p b =
      if p.addr_used then p.ctlr else says p.ctlr (release_addr b.netview b.cidr b.next_addr)

  -- The loop over the specs of the group "", each with an address of its own. What an earlier spec
  -- left in `firstHost` is not read: a spec with a host sets it.
  unfoldable pub unique_loop : Controller → List Spec → Controller
  unfolding host_loop reserve
  unique_loop ctlr [] = ctlr
  unique_loop ctlr (spec ∷ specs) =
      let b = reserve ctlr true spec.netview spec.cidr in
      unique_loop (release_unused (host_loop true (start ctlr b) b spec.hosts) b) specs

  -- The loop over the specs of a group that shares an address.
  unfoldable pub shared_loop : Pass → Block → List Spec → Pass
  unfolding host_loop
  shared_loop p b [] = p
  shared_loop p b (spec ∷ specs) = shared_loop (host_loop true p b spec.hosts) b specs

  -- The body of the loop over the groups.
  unfoldable pub process_group : Controller → GroupKey → List Spec → Controller
  unfolding unique_loop shared_loop reserve
  process_group ctlr group specs =
      let b = reserve ctlr false group.netview group.cidr in
      if group.name == ""
      then unique_loop ctlr specs
      else release_unused (shared_loop (start ctlr b) b specs) b

  -- The first loop of `processIPGroups`, which creates records.
  unfoldable pub create_loop : Controller → IpGroups → Controller
  unfolding process_group
  create_loop ctlr [] = ctlr
  create_loop ctlr ((group, specs) ∷ groups) = create_loop (process_group ctlr group specs) groups

-- The variables of the second loop of `processIPGroups`.
pub record Sweep : Type 0 where
  pub ctlr : Controller
  pub avail_hosts : List String
  pub to_remove : List String

abbrev pub get_or_empty : Option String → String
get_or_empty none = ""
get_or_empty (some s) = s

-- `ctlr.store.Records[ip][newA] = A`
unfoldable pub set_type : Store → String → String → String → Store
set_type st ip host record_type = elim (lookup ip st.records) [
  | none ↦ st
  | some hosts ↦ record st { records = insert ip (insert host record_type hosts) st.records }
]

module _ (c : Client) (ranges : Ranges) where
  -- The calls for a host that no group names any more, by its record type; `avail` is what is left
  -- of `availHosts`.
  unfoldable pub drop_record :
      Controller → List String → String → String → String → String → String → Controller
  unfolding set_type
  drop_record ctlr avail ip netview cidr host record_type =
      if record_type == a
      then (if not (is_empty avail)
          then (let (new_a, err) = c.on_cname_to_a ctlr.log avail host ip netview cidr in
              record {
                store = set_type ctlr.store ip new_a a;
                log = cname_to_a avail host ip netview cidr ∷ ctlr.log;
              })
          else says ctlr (delete_a_record host ip netview cidr))
      else (if record_type == cname
          then says ctlr (delete_cname_record host ip netview cidr)
          else ctlr)

  -- The body of the inner loop over the hosts of an address. A host that is not, or not any more,
  -- in the map is not visited.
  unfoldable pub sweep_host : List String → String → String → String → Sweep → String → Sweep
  unfolding drop_record
  sweep_host ip_group_hosts ip netview cidr s host = elim (type_of s.ctlr.store ip host) [
    | none ↦ s
    | some record_type ↦
        if contains ip_group_hosts host
        then s
        else (let avail = remove_element s.avail_hosts host in
            record {
              ctlr = drop_record s.ctlr avail ip netview cidr host record_type;
              avail_hosts = avail;
              to_remove = s.to_remove ++ host ∷ [];
            })
  ]

  unfoldable pub sweep_hosts : List String → String → String → String → Sweep → List String → Sweep
  unfolding sweep_host
  sweep_hosts ip_group_hosts ip netview cidr s [] = s
  sweep_hosts ip_group_hosts ip netview cidr s (host ∷ hosts) =
      sweep_hosts ip_group_hosts ip netview cidr (sweep_host ip_group_hosts ip netview cidr s host)
        hosts

  -- The second loop of `processIPGroups`, over the records still to be visited.
  unfoldable pub sweep_loop :
      List String → Controller → List String → GoMap String HostSet → Controller × List String
  unfolding sweep_hosts
  sweep_loop ip_group_hosts ctlr to_remove [] = (ctlr, to_remove)
  sweep_loop ip_group_hosts ctlr to_remove ((ip, hosts) ∷ records) =
      let netview = get_or_empty (lookup ip ctlr.store.netviews) in
      let cidr = get_or_empty (lookup ip ctlr.store.cidrs) in
      let begin : Sweep = record {
        ctlr = ctlr;
        avail_hosts = ranges.range_keys hosts;
        to_remove = to_remove;
      } in
      let done = sweep_hosts ip_group_hosts ip netview cidr begin (ranges.range_hosts hosts) in
      sweep_loop ip_group_hosts done.ctlr done.to_remove records

  -- `ctlr.store.DeleteHosts(toRemove)`
  abbrev pub finish : Controller × List String → Controller
  finish (ctlr, to_remove) = record ctlr { store = delete_hosts ctlr.store to_remove }

  -- `processIPGroups`
  unfoldable pub process_ip_groups : Controller → IpGroups → Controller
  unfolding create_loop sweep_loop
  process_ip_groups ctlr groups =
      let created = create_loop c ctlr groups in
      finish (sweep_loop (get_all_hosts groups) created [] created.store.records)
