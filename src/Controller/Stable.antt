-- ===== src/Controller/Stable.antt =====
-- `processIPGroups` at a single address: which hosts its record holds afterwards.
use f5_ipam_ctlr.Prelude.{
  Bool-cases, List, Option-cases, String, [], arith, contains, false, inl, inr, occurrences,
  occurrences_nil, occurrences_present, refl, string_eq, true, ◌&&◌, ◌==◌, ◌∷◌, ◌≡◌, ◌≢◌,
}
use f5_ipam_ctlr.Controller.{Controller, Ranges, create_loop, process_ip_groups, sweep_loop}
use f5_ipam_ctlr.Controller.Cleanup.{IsRanges}
use f5_ipam_ctlr.Controller.Effects.{create_loop-Extends}
use f5_ipam_ctlr.Controller.Process.{Agrees-IsValid, holders-process_ip_groups, sweep_loop-Removes}
use f5_ipam_ctlr.Manager.{Client, IsClient}
use f5_ipam_ctlr.Orchestration.IpGroup.{get_all_hosts}
use f5_ipam_ctlr.Orchestration.Types.{IpGroups}
use f5_ipam_ctlr.Prelude.GoMap.{is_some}
use f5_ipam_ctlr.Store.{Store, delete_host, delete_hosts}
use f5_ipam_ctlr.Store.Count.{holders_of_type}
use f5_ipam_ctlr.Store.Delete.{
  delete_host-IsValid, delete_host_none, delete_host_some, first_holder, first_holder-lookup,
}
use f5_ipam_ctlr.Store.Lookup.{type_of-delete_host_at}
use f5_ipam_ctlr.Store.Valid.{IsValid}
use f5_ipam_ctlr.Store.View.{type_of}

-- `DeleteHosts` leaves a host that it is not given with its record type at its address.
type_of-delete_host_other :
    (st : Store) (d ip host : String)
    → IsValid st
    → d == host ≡ false
    → type_of (delete_host st d) ip host ≡ type_of st ip host
unfolding delete_host
type_of-delete_host_other st d ip host v other = elim (Option-cases (first_holder st.records d)) [
  | inl miss ↦ rw (delete_host_none st d st.records miss) refl
  | inr ((j, hosts), hit) ↦
      let found = (first_holder-lookup st.records d j hosts v.records_map hit).0 in
      rw (delete_host_some st d st.records j hosts hit)
        (ground (arith, type_of-delete_host_at st j hosts d ip host found))
]

type_of-delete_hosts_other :
    (st : Store) (ds : List String) (ip host : String)
    → IsValid st
    → contains ds host ≡ false
    → type_of (delete_hosts st ds) ip host ≡ type_of st ip host
unfolding delete_hosts contains
type_of-delete_hosts_other st [] ip host v absent = refl
type_of-delete_hosts_other st (d ∷ ds) ip host v absent = ground (
  arith,
  type_of-delete_hosts_other (delete_host st d) ds ip host (delete_host-IsValid st d v),
  type_of-delete_host_other st d ip host v,
)

not_occurring :
    (xs : List String) (host : String) → occurrences xs host ≡ 0 → contains xs host ≡ false
not_occurring xs host none_left = elim (Bool-cases (contains xs host)) [
  | inl there ↦ absurd (omega (arith, occurrences_present xs host there))
  | inr absent ↦ absent
]

module _ (c : Client) (ranges : Ranges) (law : IsClient c) (go : IsRanges ranges) where
  -- After processIPGroups on a well-formed store, the record of an address holds a host exactly if
  -- the host is in the groups and stood there after the first loop; only of the host "" nothing is
  -- said.
  pub type_of-process_ip_groups :
      (ctlr : Controller) (groups : IpGroups) (ip host : String)
      → IsValid ctlr.store
      → host ≢ ""
      → is_some (type_of (process_ip_groups c ranges ctlr groups).store ip host)
        ≡ contains (get_all_hosts groups) host
          && is_some (type_of (create_loop c ctlr groups).store ip host)
  unfolding process_ip_groups
  type_of-process_ip_groups ctlr groups ip host v n =
      let created = create_loop c ctlr groups in
      let all = get_all_hosts groups in
      let valid = (create_loop-Extends c ctlr groups).valid v in
      let swept = sweep_loop c ranges all created [] created.store.records in
      let r =
        sweep_loop-Removes c ranges law go all created [] created.store.records
          (Agrees-IsValid created.store valid) in
      elim (Bool-cases (contains all host)) [
        | inl wanted ↦
            let kept =
              not_occurring swept.1 host (ground (arith, r.removed host n, occurrences_nil host)) in
            rw
              (
                type_of-delete_hosts_other swept.0.store swept.1 ip host (r.store.valid valid) kept,
                r.store.same ip host n,
                wanted,
              )
              refl
        | inr unwanted ↦
            let e = holders-process_ip_groups c ranges law go ctlr groups host v n in
            let after = process_ip_groups c ranges ctlr groups in
            elim (Bool-cases (is_some (type_of after.store ip host))) [
              | inl there ↦ absurd (ground (arith, e, holders_of_type after.store ip host there))
              | inr gone ↦ cc (gone, unwanted)
            ]
      ]

  -- A host of the groups keeps every address that it has: on a well-formed store, processIPGroups
  -- takes it out of no record; only of the host "" nothing is said.
  pub process_ip_groups_keeps :
      (ctlr : Controller) (groups : IpGroups) (ip host : String)
      → IsValid ctlr.store
      → host ≢ ""
      → contains (get_all_hosts groups) host ≡ true
      → is_some (type_of ctlr.store ip host) ≡ true
      → is_some (type_of (process_ip_groups c ranges ctlr groups).store ip host) ≡ true
  process_ip_groups_keeps ctlr groups ip host v n wanted there =
      elim (Option-cases (type_of ctlr.store ip host)) [
        | inl miss ↦ absurd (ground arith)
        | inr (r, typed) ↦
            let kept = (create_loop-Extends c ctlr groups).kept ip host r typed in
            rw (type_of-process_ip_groups ctlr groups ip host v n, wanted, kept) refl
      ]
