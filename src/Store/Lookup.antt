-- ===== src/Store/Lookup.antt =====
-- What `GetIP`, `getHosts`, `deleteHost` and `DeleteHosts` answer in terms of the view `type_of`.
use f5_ipam_ctlr.Prelude.{
  Bool-cases, List, Option-cases, String, [], ap, arith, contains, contains-sort, false,
  if◌then◌else◌, inl, inr, is_empty, none, refl, some, str_beq_iff, string_eq, true, ◌&&◌, ◌<◌,
  ◌==◌, ◌∙◌, ◌∷◌, ◌≡◌, ◌≢◌, ◌≤◌,
}
use f5_ipam_ctlr.Prelude.GoMap.{
  GoMap, IsMap, delete, delete-IsMap, has, insert, is_some, lookup, lookup-delete, lookup-insert,
  lookup_empty,
}
use f5_ipam_ctlr.Store.{
  HostSet, Store, delete_host, delete_host_at, delete_hosts, delete_record, get_hosts, get_ip,
  get_ip_loop, keys,
}
use f5_ipam_ctlr.Store.Count.{holders, holders-delete, holders-delete_host, holders-none}
use f5_ipam_ctlr.Store.Delete.{
  delete_host-IsValid, delete_host_none, delete_host_some, first_holder, first_holder-lookup,
}
use f5_ipam_ctlr.Store.Valid.{IsValid}
use f5_ipam_ctlr.Store.View.{type_of}

-- The host stands in the record of one address at most.
abbrev pub IsUnique : Store → String → Type 0
IsUnique st host = holders st.records host ≤ 1

holders_pos :
    (m : GoMap String HostSet) (host ip : String) (x : HostSet)
    → IsMap m
    → lookup ip m ≡ some x
    → has host x ≡ true
    → 0 < holders m host
holders_pos m host ip x v found member = ground (arith, holders-delete m ip x host v found)

holders_two :
    (m : GoMap String HostSet) (host i j : String) (x y : HostSet)
    → IsMap m
    → lookup i m ≡ some x
    → has host x ≡ true
    → lookup j m ≡ some y
    → has host y ≡ true
    → (i == j) ≡ false
    → 1 < holders m host
holders_two m host i j x y v fx hx fy hy ne =
    let other =
      holders_pos (delete i m) host j y (delete-IsMap i m v) (ground (arith, lookup-delete i j m))
        hy in
    ground (arith, holders-delete m i x host v fx)

-- A host that the view shows has a first holder; that is the address, if the host is unique.
first_holder_unique :
    (st : Store) (ip host t : String)
    → IsValid st
    → IsUnique st host
    → type_of st ip host ≡ some t
    → (hosts : HostSet) × (first_holder st.records host ≡ some (ip, hosts))
unfolding type_of
first_holder_unique st ip host t v u e = elim (Option-cases (lookup ip st.records)) [
  | inl miss ↦ absurd (ground arith)
  | inr (x, found) ↦
      let member : has host x ≡ true = ground arith in
      elim (Option-cases (first_holder st.records host)) [
        | inl none_holds ↦ absurd (
            omega (
              arith,
              holders-none st.records host none_holds,
              holders_pos st.records host ip x v.records_map found member,
            ))
        | inr ((j, y), hit) ↦
            let (fy, hy) = first_holder-lookup st.records host j y v.records_map hit in
            elim (Bool-cases (j == ip)) [
              | inl same ↦ (y, hit ∙ ap (λ k. some (k, y)) ((str_beq_iff j ip).0 same))
              | inr other ↦ absurd (
                  omega (
                    arith,
                    holders_two st.records host j ip y x v.records_map fy hy found member other,
                  ))
            ]
      ]
]

get_ip_none :
    (m : GoMap String HostSet) (host : String)
    → first_holder m host ≡ none
    → get_ip_loop m host ≡ ""
unfolding first_holder get_ip_loop
get_ip_none [] host h = refl
get_ip_none ((ip, hosts) ∷ m) host h = ground (arith, get_ip_none m host)

get_ip_some :
    (m : GoMap String HostSet) (host ip : String) (hosts : HostSet)
    → first_holder m host ≡ some (ip, hosts)
    → get_ip_loop m host ≡ ip
unfolding first_holder get_ip_loop
get_ip_some [] host ip hosts h = cc
get_ip_some ((j, x) ∷ m) host ip hosts h = elim (Bool-cases (has host x)) [
  | inl found ↦ ground arith
  | inr absent ↦ rw absent (get_ip_some m host ip hosts (rw absent at h))
]

-- An address that `GetIP` returns, other than the empty string that stands for no address, is one
-- whose record holds the host.
pub get_ip-type_of :
    (st : Store) (host : String)
    → IsValid st
    → get_ip st host ≢ ""
    → (t : String) × (type_of st (get_ip st host) host ≡ some t)
unfolding get_ip type_of
get_ip-type_of st host v ne = elim (Option-cases (first_holder st.records host)) [
  | inl miss ↦ absurd (ne (get_ip_none st.records host miss))
  | inr ((ip, hosts), hit) ↦
      let (found, member) = first_holder-lookup st.records host ip hosts v.records_map hit in
      elim (Option-cases (lookup host hosts)) [
        | inl no_host ↦ absurd (ground arith)
        | inr (t, typed) ↦ (t, rw (get_ip_some st.records host ip hosts hit, found) typed)
      ]
]

-- `GetIP` finds the address of a host that stands in one record.
pub get_ip_found :
    (st : Store) (ip host t : String)
    → IsValid st
    → IsUnique st host
    → type_of st ip host ≡ some t
    → get_ip st host ≡ ip
unfolding get_ip
get_ip_found st ip host t v u e =
    let (hosts, hit) = first_holder_unique st ip host t v u e in
    get_ip_some st.records host ip hosts hit

pub contains-keys : (hosts : HostSet) (host : String) → contains (keys hosts) host ≡ has host hosts
unfolding contains lookup
contains-keys [] host = refl
contains-keys ((k, t) ∷ hosts) host = ground (arith, contains-keys hosts host)

-- `getHosts` lists exactly the hosts of the record of the address, and nothing for an address that
-- has no record.
contains-get_hosts :
    (st : Store) (ip host : String) → contains (get_hosts st ip) host ≡ is_some (type_of st ip host)
unfolding get_hosts type_of contains
contains-get_hosts st ip host = elim (Option-cases (lookup ip st.records)) [
  | inl miss ↦ rw miss
  | inr (hosts, found) ↦ rw found (contains-sort (keys hosts) host ∙ contains-keys hosts host)
]

pub type_of-delete_host_at :
    (st : Store) (ip : String) (hosts : HostSet) (d ip' host : String)
    → lookup ip st.records ≡ some hosts
    → type_of (delete_host_at st ip hosts d) ip' host
      ≡ (if (d == host) && (ip == ip') then none else type_of st ip' host)
unfolding type_of delete_host_at delete_record
type_of-delete_host_at st ip hosts d ip' host found =
    let left = delete d hosts in
    let shrunk = lookup-insert ip ip' left st.records in
    let lost = lookup-delete d host hosts in
    elim (Bool-cases (is_empty left)) [
      | inl gone ↦ rw gone (
          ground (
            arith,
            shrunk,
            lost,
            str_beq_iff ip ip',
            lookup-delete ip ip' (insert ip left st.records),
            lookup_empty host left,
          ))
      | inr kept ↦ rw kept (ground (arith, shrunk, lost, str_beq_iff ip ip'))
    ]

type_of_no_holder :
    (st : Store) (d ip : String)
    → IsValid st
    → IsUnique st d
    → first_holder st.records d ≡ none
    → type_of st ip d ≡ none
type_of_no_holder st d ip v u miss = elim (Option-cases (type_of st ip d)) [
  | inl no_type ↦ no_type
  | inr (t, typed) ↦ absurd (ground (arith, first_holder_unique st ip d t v u typed))
]

type_of_other_holder :
    (st : Store) (d ip j : String) (hosts : HostSet)
    → IsValid st
    → IsUnique st d
    → first_holder st.records d ≡ some (j, hosts)
    → (j == ip) ≡ false
    → type_of st ip d ≡ none
type_of_other_holder st d ip j hosts v u hit ne = elim (Option-cases (type_of st ip d)) [
  | inl no_type ↦ no_type
  | inr (t, typed) ↦
      absurd (ground (arith, first_holder_unique st ip d t v u typed, str_beq_iff j ip))
]

-- `deleteHost` takes a host that stands in one record at most out of the store, and leaves every
-- other host with its record type at its address.
pub type_of-delete_host :
    (st : Store) (d : String)
    → IsValid st
    → IsUnique st d
    → (ip host : String)
    → type_of (delete_host st d) ip host ≡ (if d == host then none else type_of st ip host)
unfolding delete_host
type_of-delete_host st d v u ip host = elim (Option-cases (first_holder st.records d)) [
  | inl miss ↦
      rw (delete_host_none st d st.records miss)
        (ground (arith, type_of_no_holder st d ip v u miss, str_beq_iff d host))
  | inr ((j, hosts), hit) ↦
      let found = (first_holder-lookup st.records d j hosts v.records_map hit).0 in
      rw (delete_host_some st d st.records j hosts hit) (
        ground (
          arith,
          type_of-delete_host_at st j hosts d ip host found,
          type_of_other_holder st d ip j hosts v u hit,
          str_beq_iff d host,
        ))
]

-- `DeleteHosts` takes out of the store exactly the hosts that it is given, where each of them
-- stands in one record at most.
pub type_of-delete_hosts :
    (st : Store) (ds : List String)
    → IsValid st
    → ((host : String) → IsUnique st host)
    → (ip host : String)
    → type_of (delete_hosts st ds) ip host ≡ (if contains ds host then none else type_of st ip host)
unfolding delete_hosts contains
type_of-delete_hosts st [] v u ip host = refl
type_of-delete_hosts st (d ∷ ds) v u ip host = ground (
  arith,
  type_of-delete_hosts (delete_host st d) ds (delete_host-IsValid st d v)
      (λ h. omega (arith, holders-delete_host st d h v, u h)) ip host,
  type_of-delete_host st d v (u d) ip host,
)
