-- ===== src/Store/Address.antt =====
-- `GetIP` after `AddRecord`: the address of the host that is added, and of the others.
use f5_ipam_ctlr.Prelude.{
  Bool-cases, Option, Option-cases, String, [], arith, false, inl, inr, none, refl, some,
  str_beq_iff, string_eq, true, ◌==◌, ◌∷◌, ◌≡◌,
}
use f5_ipam_ctlr.Prelude.GoMap.{GoMap, has, insert, lookup, lookup-insert, lookup-insert_self}
use f5_ipam_ctlr.Store.{HostSet, Store, add_record, get_ip, get_ip_loop}
use f5_ipam_ctlr.Store.Count.{holders, holders_of_lookup}

abbrev or_empty : Option HostSet → HostSet
or_empty none = []
or_empty (some hosts) = hosts

-- `GetIP` finds no address for a host that no record holds.
pub get_ip-holders :
    (m : GoMap String HostSet) (host : String) → holders m host ≡ 0 → get_ip_loop m host ≡ ""
unfolding holders get_ip_loop
get_ip-holders [] host h = refl
get_ip-holders ((ip, hosts) ∷ m) host h = ground (arith, get_ip-holders m host)

-- A record whose hosts, as far as one of them is concerned, stay the same.
get_ip-insert_other :
    (m : GoMap String HostSet) (ip : String) (hosts : HostSet) (host : String)
    → has host hosts ≡ has host (or_empty (lookup ip m))
    → get_ip_loop (insert ip hosts m) host ≡ get_ip_loop m host
unfolding get_ip_loop insert lookup
get_ip-insert_other [] ip hosts host same = ground (arith, same)
get_ip-insert_other ((j, old) ∷ m) ip hosts host same = elim (Bool-cases (j == ip)) [
  | inl here ↦ ground arith
  | inr later ↦ rw later (ground (arith, get_ip-insert_other m ip hosts host (rw later at same)))
]

-- A host that no record holds, in the record that is written.
get_ip-insert_new :
    (m : GoMap String HostSet) (ip : String) (hosts : HostSet) (host : String)
    → holders m host ≡ 0
    → has host hosts ≡ true
    → get_ip_loop (insert ip hosts m) host ≡ ip
unfolding get_ip_loop insert holders
get_ip-insert_new [] ip hosts host none_left there = ground arith
get_ip-insert_new ((j, old) ∷ m) ip hosts host none_left there = elim (Bool-cases (j == ip)) [
  | inl here ↦ ground (arith, str_beq_iff j ip)
  | inr later ↦ rw later (ground (arith, get_ip-insert_new m ip hosts host))
]

module _ (st : Store) (ip host record_type netview cidr : String) where
  pub get_ip-add_record_other :
      (other : String)
      → host == other ≡ false
      → get_ip (add_record st ip host record_type netview cidr) other ≡ get_ip st other
  unfolding get_ip add_record
  get_ip-add_record_other other differ = elim (Option-cases (lookup ip st.records)) [
    | inl new ↦
        rw (add_record, new)
          (get_ip-insert_other st.records ip (insert host record_type []) other
            (rw new (ground (arith, lookup-insert host other record_type []))))
    | inr (hosts, found) ↦ elim (Bool-cases (has host hosts)) [
      | inl known ↦ rw (add_record, found, known) refl
      | inr unknown ↦
          rw (add_record, found, unknown)
            (get_ip-insert_other st.records ip (insert host record_type hosts) other
              (rw found (ground (arith, lookup-insert host other record_type hosts))))
    ]
  ]

  pub get_ip-add_record_new :
      holders st.records host ≡ 0
      → get_ip (add_record st ip host record_type netview cidr) host ≡ ip
  unfolding get_ip add_record
  get_ip-add_record_new none_left = elim (Option-cases (lookup ip st.records)) [
    | inl new ↦
        rw (add_record, new)
          (get_ip-insert_new st.records ip (insert host record_type []) host none_left
            (ground (arith, lookup-insert_self host record_type [])))
    | inr (hosts, found) ↦ elim (Bool-cases (has host hosts)) [
      | inl known ↦ absurd (omega (arith, holders_of_lookup st.records ip hosts host found known))
      | inr unknown ↦
          rw (add_record, found, unknown)
            (get_ip-insert_new st.records ip (insert host record_type hosts) host none_left
              (ground (arith, lookup-insert_self host record_type hosts)))
    ]
  ]
