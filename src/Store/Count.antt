-- ===== src/Store/Count.antt =====
-- How many records hold a host, under `deleteHost`, `DeleteHosts` and `GetIP`.
use f5_ipam_ctlr.Prelude.{
  Bool-cases, List, Option-cases, String, [], arith, false, if◌then◌else◌, inl, inr, is_empty, none,
  not, occurrences, refl, some, str_beq_iff, string_eq, true, ℕ, ◌&&◌, ◌+◌, ◌-◌, ◌<◌, ◌==◌, ◌∷◌,
  ◌≡◌,
}
use f5_ipam_ctlr.Prelude.GoMap.{
  GoMap, IsMap, delete, delete_absent, has, insert, insert-IsMap, is_some, lookup, lookup-delete,
  lookup-insert, lookup-insert_self,
}
use f5_ipam_ctlr.Store.{
  HostSet, Store, add_record, delete_host, delete_host_at, delete_hosts, delete_record,
}
use f5_ipam_ctlr.Store.Delete.{
  delete_host-IsValid, delete_host_none, delete_host_some, first_holder, first_holder-lookup,
}
use f5_ipam_ctlr.Store.Valid.{IsValid}
use f5_ipam_ctlr.Store.View.{type_of}

abbrev pub weigh : String → HostSet → ℕ
weigh host hosts = if has host hosts then 1 else 0

-- The number of addresses whose record holds the host.
unfoldable pub holders : GoMap String HostSet → String → ℕ
holders [] host = 0
holders ((ip, hosts) ∷ rest) host = weigh host hosts + holders rest host

pub holders-insert :
    (m : GoMap String HostSet) (ip : String) (old new : HostSet) (host : String)
    → lookup ip m ≡ some old
    → holders (insert ip new m) host + weigh host old ≡ holders m host + weigh host new
unfolding lookup insert holders
holders-insert [] ip old new host h = cc
holders-insert ((j, x) ∷ m) ip old new host h = elim (Bool-cases (j == ip)) [
  | inl same ↦ ground arith
  | inr other ↦ rw other (omega (arith, holders-insert m ip old new host (rw other at h)))
]

pub holders-delete :
    (m : GoMap String HostSet) (ip : String) (old : HostSet) (host : String)
    → IsMap m
    → lookup ip m ≡ some old
    → holders (delete ip m) host + weigh host old ≡ holders m host
unfolding lookup delete holders
holders-delete [] ip old host v h = cc
holders-delete ((j, x) ∷ m) ip old host v h = elim (Bool-cases (j == ip)) [
  | inl same ↦ ground (arith, str_beq_iff j ip, delete_absent ip m)
  | inr other ↦ rw other (omega (arith, holders-delete m ip old host v.1 (rw other at h)))
]

pub holders-none :
    (m : GoMap String HostSet) (host : String) → first_holder m host ≡ none → holders m host ≡ 0
unfolding first_holder holders
holders-none [] host h = refl
holders-none ((ip, hosts) ∷ m) host h = ground (arith, holders-none m host)

weigh_empty : (hosts : HostSet) (host : String) → is_empty hosts ≡ true → weigh host hosts ≡ 0
unfolding lookup
weigh_empty [] host h = refl
weigh_empty (x ∷ hosts) host h = cc

weigh-delete :
    (hosts : HostSet) (d host : String)
    → has d hosts ≡ true
    → weigh host (delete d hosts) + (if d == host then 1 else 0) ≡ weigh host hosts
weigh-delete hosts d host h = ground (arith, lookup-delete d host hosts, str_beq_iff d host)

holders-delete_host_at :
    (st : Store) (ip : String) (hosts : HostSet) (d host : String)
    → IsValid st
    → lookup ip st.records ≡ some hosts
    → has d hosts ≡ true
    → holders (delete_host_at st ip hosts d).records host + (if d == host then 1 else 0)
      ≡ holders st.records host
unfolding delete_host_at delete_record
holders-delete_host_at st ip hosts d host v found member =
    let left = delete d hosts in
    let shrunk = holders-insert st.records ip hosts left host found in
    let lost = weigh-delete hosts d host member in
    elim (Bool-cases (is_empty left)) [
      | inl gone ↦ rw gone (
          omega (
            arith,
            shrunk,
            lost,
            weigh_empty left host gone,
            holders-delete (insert ip left st.records) ip left host
                (insert-IsMap ip left st.records v.records_map)
                (lookup-insert_self ip left st.records),
          ))
      | inr kept ↦ rw kept (omega (arith, shrunk, lost))
    ]

-- `deleteHost` takes the host out of exactly one record, if any holds it.
pub holders-delete_host :
    (st : Store) (d host : String)
    → IsValid st
    → holders (delete_host st d).records host
      ≡ holders st.records host - (if d == host then 1 else 0)
unfolding delete_host
holders-delete_host st d host v = elim (Option-cases (first_holder st.records d)) [
  | inl miss ↦
      rw (delete_host_none st d st.records miss)
        (ground (arith, str_beq_iff d host, holders-none st.records d miss))
  | inr ((ip, hosts), hit) ↦
      let (found, member) = first_holder-lookup st.records d ip hosts v.records_map hit in
      rw (delete_host_some st d st.records ip hosts hit)
        (omega (arith, holders-delete_host_at st ip hosts d host v found member))
]

-- `DeleteHosts` takes each host out of as many records as the slice names it, as far as records
-- hold it.
pub holders-delete_hosts :
    (st : Store) (ds : List String) (host : String)
    → IsValid st
    → holders (delete_hosts st ds).records host ≡ holders st.records host - occurrences ds host
unfolding delete_hosts occurrences
holders-delete_hosts st [] host v = omega arith
holders-delete_hosts st (d ∷ ds) host v = omega (
  arith,
  holders-delete_host st d host v,
  holders-delete_hosts (delete_host st d) ds host (delete_host-IsValid st d v),
)

holders-insert_new :
    (m : GoMap String HostSet) (ip : String) (new : HostSet) (host : String)
    → lookup ip m ≡ none
    → holders (insert ip new m) host ≡ holders m host + weigh host new
unfolding lookup insert holders
holders-insert_new [] ip new host h = omega arith
holders-insert_new ((j, x) ∷ m) ip new host h = elim (Bool-cases (j == ip)) [
  | inl same ↦ absurd (ground arith)
  | inr other ↦ rw other (omega (arith, holders-insert_new m ip new host (rw other at h)))
]

weigh-insert :
    (hosts : HostSet) (k record_type host : String)
    → has k hosts ≡ false
    → weigh host (insert k record_type hosts) ≡ weigh host hosts + (if k == host then 1 else 0)
weigh-insert hosts k record_type host h =
    ground (arith, lookup-insert k host record_type hosts, str_beq_iff k host)

-- `AddRecord` puts the host into one more record, unless the record of the address has it already.
pub holders-add_record :
    (st : Store) (ip host record_type netview cidr h : String)
    → holders (add_record st ip host record_type netview cidr).records h
      ≡ holders st.records h + (if host == h && not (is_some (type_of st ip host)) then 1 else 0)
unfolding add_record type_of
holders-add_record st ip host record_type netview cidr h =
    elim (Option-cases (lookup ip st.records)) [
      | inl new ↦
          rw (new, add_record)
            (ground (
              arith,
              holders-insert_new st.records ip (insert host record_type []) h new,
              weigh-insert [] host record_type h (unfold lookup in refl),
              weigh_empty [] h refl,
            ))
      | inr (hosts, old) ↦ elim (Bool-cases (has host hosts)) [
        | inl known ↦ rw (old, add_record, known) (ground arith)
        | inr unknown ↦
            rw (old, add_record, unknown)
              (ground (
                arith,
                holders-insert st.records ip hosts (insert host record_type hosts) h old,
                weigh-insert hosts host record_type h unknown,
              ))
      ]
    ]

pub holders_of_lookup :
    (m : GoMap String HostSet) (ip : String) (hosts : HostSet) (host : String)
    → lookup ip m ≡ some hosts
    → has host hosts ≡ true
    → 0 < holders m host
unfolding lookup holders
holders_of_lookup [] ip hosts host e h = cc
holders_of_lookup ((j, x) ∷ m) ip hosts host e h = ground (arith, holders_of_lookup m ip hosts host)

pub holders_of_type :
    (st : Store) (ip host : String)
    → is_some (type_of st ip host) ≡ true
    → 0 < holders st.records host
unfolding type_of
holders_of_type st ip host h = elim (Option-cases (lookup ip st.records)) [
  | inl miss ↦ absurd (ground arith)
  | inr (hosts, found) ↦ holders_of_lookup st.records ip hosts host found (ground arith)
]
