-- ===== src/Store/Delete.antt =====
-- `deleteHost` and `DeleteHosts`: the record that loses a host, and how many records hold a host
-- before and after.
use f5_ipam_ctlr.Prelude.{
  Bool-cases, List, Option, Option-cases, String, [], arith, false, if◌then◌else◌, inl, inr,
  is_empty, none, refl, some, str_beq_iff, str_beq_refl, string_eq, true, ◌∷◌, ◌≡◌,
}
use f5_ipam_ctlr.Prelude.GoMap.{
  GoMap, IsMap, delete, delete-IsMap, has, insert, insert-IsMap, lookup, lookup-delete,
  lookup-insert,
}
use f5_ipam_ctlr.Store.{
  HostSet, Store, delete_host, delete_host_at, delete_host_loop, delete_hosts, delete_record,
}
use f5_ipam_ctlr.Store.Valid.{IsHostSet, IsValid}

-- The first record, in the order of the `range`, that holds the host.
unfoldable pub first_holder : GoMap String HostSet → String → Option (String × HostSet)
first_holder [] host = none
first_holder ((ip, hosts) ∷ rest) host =
    if has host hosts then some (ip, hosts) else first_holder rest host

pub first_holder-lookup :
    (m : GoMap String HostSet) (host ip : String) (hosts : HostSet)
    → IsMap m
    → first_holder m host ≡ some (ip, hosts)
    → (lookup ip m ≡ some hosts) × (has host hosts ≡ true)
unfolding first_holder lookup
first_holder-lookup [] host ip hosts v h = cc
first_holder-lookup ((j, old) ∷ m) host ip hosts v h =
    ground (arith, str_beq_iff j ip, str_beq_refl ip, first_holder-lookup m host ip hosts v.1)

module _ (st : Store) (host : String) where
  pub delete_host_none :
      (m : GoMap String HostSet) → first_holder m host ≡ none → delete_host_loop m st host ≡ st
  unfolding first_holder delete_host_loop
  delete_host_none [] h = refl
  delete_host_none ((ip, hosts) ∷ m) h = ground (arith, delete_host_none m)

  pub delete_host_some :
      (m : GoMap String HostSet) (ip : String) (hosts : HostSet)
      → first_holder m host ≡ some (ip, hosts)
      → delete_host_loop m st host ≡ delete_host_at st ip hosts host
  unfolding first_holder delete_host_loop
  delete_host_some [] ip hosts h = cc
  delete_host_some ((j, old) ∷ m) ip hosts h = elim (Bool-cases (has host old)) [
    | inl found ↦ ground arith
    | inr absent ↦ rw absent (delete_host_some m ip hosts (rw absent at h))
  ]

left-IsHostSet :
    (hosts : HostSet) (host : String)
    → IsHostSet hosts
    → is_empty (delete host hosts) ≡ false
    → IsHostSet (delete host hosts)
left-IsHostSet hosts host h e = record {
  distinct = delete-IsMap host hosts h.distinct;
  inhabited = e;
}

-- A record that keeps a host keeps its address, its netview and its CIDR.
pub shrink-IsValid :
    (st : Store) (ip : String) (old hosts : HostSet)
    → IsValid st
    → lookup ip st.records ≡ some old
    → IsHostSet hosts
    → IsValid (record st { records = insert ip hosts st.records })
shrink-IsValid st ip old hosts v found h = record {
  records_map = insert-IsMap ip hosts st.records v.records_map;
  netviews_map = v.netviews_map;
  cidrs_map = v.cidrs_map;
  sets = λ ip' hosts' e. ground (arith, lookup-insert ip ip' hosts st.records, v.sets ip' hosts');
  netview_of = λ ip'.
      ground (arith, lookup-insert ip ip' hosts st.records, v.netview_of ip', str_beq_iff ip ip');
  cidr_of = λ ip'.
      ground (arith, lookup-insert ip ip' hosts st.records, v.cidr_of ip', str_beq_iff ip ip');
}

-- A record that loses its last host goes, and the write that empties it does not show.
empty-IsValid :
    (st : Store) (ip : String) (hosts : HostSet)
    → IsValid st
    → IsValid (delete_record (record st { records = insert ip hosts st.records }) ip)
unfolding delete_record
empty-IsValid st ip hosts v = record {
  records_map = delete-IsMap ip _ (insert-IsMap ip hosts st.records v.records_map);
  netviews_map = delete-IsMap ip st.netviews v.netviews_map;
  cidrs_map = delete-IsMap ip st.cidrs v.cidrs_map;
  sets = λ ip' hosts' e. ground (
    arith,
    lookup-insert ip ip' hosts st.records,
    lookup-delete ip ip' (insert ip hosts st.records),
    v.sets ip' hosts',
  );
  netview_of = λ ip'. ground (
    arith,
    lookup-insert ip ip' hosts st.records,
    lookup-delete ip ip' (insert ip hosts st.records),
    lookup-delete ip ip' st.netviews,
    v.netview_of ip',
  );
  cidr_of = λ ip'. ground (
    arith,
    lookup-insert ip ip' hosts st.records,
    lookup-delete ip ip' (insert ip hosts st.records),
    lookup-delete ip ip' st.cidrs,
    v.cidr_of ip',
  );
}

delete_host_at-IsValid :
    (st : Store) (ip : String) (hosts : HostSet) (host : String)
    → IsValid st
    → lookup ip st.records ≡ some hosts
    → IsValid (delete_host_at st ip hosts host)
unfolding delete_host_at
delete_host_at-IsValid st ip hosts host v found = elim (Bool-cases (is_empty (delete host hosts))) [
  | inl gone ↦ rw gone (empty-IsValid st ip (delete host hosts) v)
  | inr kept ↦ rw kept (
      shrink-IsValid st ip hosts (delete host hosts) v found
        (left-IsHostSet hosts host (v.sets ip hosts found) kept))
]

pub delete_host-IsValid : (st : Store) (host : String) → IsValid st → IsValid (delete_host st host)
unfolding delete_host
delete_host-IsValid st host v = elim (Option-cases (first_holder st.records host)) [
  | inl miss ↦ rw (delete_host_none st host st.records miss) v
  | inr ((ip, hosts), hit) ↦ rw (delete_host_some st host st.records ip hosts hit) (
      delete_host_at-IsValid st ip hosts host v
        (first_holder-lookup st.records host ip hosts v.records_map hit).0)
]

-- `DeleteHosts` keeps the invariant: a record that loses its last host is gone from all three maps.
pub delete_hosts-IsValid :
    (st : Store) (hosts : List String) → IsValid st → IsValid (delete_hosts st hosts)
unfolding delete_hosts
delete_hosts-IsValid st [] v = v
delete_hosts-IsValid st (host ∷ rest) v =
    delete_hosts-IsValid (delete_host st host) rest (delete_host-IsValid st host v)
