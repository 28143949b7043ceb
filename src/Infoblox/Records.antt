-- ===== src/Infoblox/Records.antt =====
-- `GetRecords` of pkg/manager/infoblox.go: the store that the A and CNAME records of all zones give.
use f5_ipam_ctlr.Prelude.{
  Bool, List, String, [], arith, false, if◌then◌else◌, none, refl, some, string_eq, ◌&&◌, ◌==◌,
  ◌||◌, ◌∷◌, ◌≡◌,
}
use f5_ipam_ctlr.Infoblox.{
  ARecord, CnameRecord, IBloxClient, Server, get_a, get_a_record, get_cname, get_cname_record,
  get_network_cidr, get_networks, get_zones, sends,
}
use f5_ipam_ctlr.Prelude.GoMap.{is_some}
use f5_ipam_ctlr.Store.{Store, add_record, new_store}
use f5_ipam_ctlr.Store.View.{type_of, type_of-add_record}

-- The loop over the A records that is there to find the address of a CNAME: the last one wins.
unfoldable pub canonical_ip : String → String → List ARecord → String
canonical_ip ip_addr canonical [] = ip_addr
canonical_ip ip_addr canonical (rec ∷ res) =
    canonical_ip (if rec.name == canonical then rec.ipv4_addr else ip_addr) canonical res

abbrev pub zone_a : String → ARecord
zone_a fqdn = record { name = ""; ipv4_addr = ""; view = ""; zone = fqdn; ref = "" }

abbrev pub zone_cname : String → CnameRecord
zone_cname fqdn = record { name = ""; canonical = ""; view = ""; zone = fqdn; ref = "" }

module _ (s : Server) where
  -- The loop of `GetRecords` over the A records of a zone.
  unfoldable pub add_a_records : IBloxClient → Store → List ARecord → IBloxClient × Store
  add_a_records cl st [] = (cl, st)
  add_a_records cl st (rec ∷ res) =
      let cidr = get_network_cidr s cl rec.view rec.ipv4_addr in
      add_a_records (sends cl (get_networks rec.view))
        (add_record st rec.ipv4_addr rec.name "A" rec.view cidr) res

  -- The loop over the CNAME records of a zone.
  unfoldable pub add_cname_records :
      IBloxClient → Store → List ARecord → List CnameRecord → IBloxClient × Store
  unfolding canonical_ip
  add_cname_records cl st res_a [] = (cl, st)
  add_cname_records cl st res_a (rec ∷ res) =
      let ip_addr = canonical_ip "" rec.canonical res_a in
      let cidr = get_network_cidr s cl rec.view ip_addr in
      add_cname_records (sends cl (get_networks rec.view))
        (add_record st ip_addr rec.name "CNAME" rec.view cidr) res_a res

  -- The loop over the zones; an error ends it with the store so far.
  unfoldable pub zones_loop : IBloxClient → Store → List String → IBloxClient × Store
  unfolding add_a_records add_cname_records
  zones_loop cl st [] = (cl, st)
  zones_loop cl st (fqdn ∷ zones) = elim (get_a_record s cl (zone_a fqdn)) [
    | none ↦ (sends cl (get_a (zone_a fqdn)), st)
    | some res_a ↦
        let with_a = add_a_records (sends cl (get_a (zone_a fqdn))) st res_a in
        let asked = sends with_a.0 (get_cname (zone_cname fqdn)) in
        elim (get_cname_record s with_a.0 (zone_cname fqdn)) [
          | none ↦ (asked, with_a.1)
          | some res_c ↦
              let with_c = add_cname_records asked with_a.1 res_a res_c in
              zones_loop with_c.0 with_c.1 zones
        ]
  ]

  -- `GetRecords`
  unfoldable pub get_records : IBloxClient → IBloxClient × Store
  unfolding zones_loop
  get_records cl =
      let asked = sends cl get_zones in
      elim (s.on_get_zones cl.requests) [
        | none ↦ (asked, new_store)
        | some zones ↦ zones_loop asked new_store zones
      ]

-- An A record of the list gives the host the address.
unfoldable pub gives_a : List ARecord → String → String → Bool
gives_a [] ip host = false
gives_a (rec ∷ res) ip host = (rec.ipv4_addr == ip && rec.name == host) || gives_a res ip host

-- A CNAME of the list gives the host the address, that of the A record it names.
unfoldable pub gives_cname : List ARecord → List CnameRecord → String → String → Bool
gives_cname res_a [] ip host = false
gives_cname res_a (rec ∷ res) ip host =
    (canonical_ip "" rec.canonical res_a == ip && rec.name == host) || gives_cname res_a res ip host

unfoldable pub holds : Store → String → String → Bool
unfolding type_of
holds st ip host = is_some (type_of st ip host)

pub holds-add_record :
    (st : Store) (ip host record_type netview cidr ip' host' : String)
    → holds (add_record st ip host record_type netview cidr) ip' host'
      ≡ (ip == ip' && host == host') || holds st ip' host'
unfolding holds
holds-add_record st ip host record_type netview cidr ip' host' =
    ground (arith, type_of-add_record st ip host record_type netview cidr ip' host')

module _ (s : Server) where
  pub holds-add_a_records :
      (cl : IBloxClient) (st : Store) (res : List ARecord) (ip host : String)
      → holds (add_a_records s cl st res).1 ip host ≡ gives_a res ip host || holds st ip host
  unfolding add_a_records gives_a
  holds-add_a_records cl st [] ip host = refl
  holds-add_a_records cl st (rec ∷ res) ip host =
      let cidr = get_network_cidr s cl rec.view rec.ipv4_addr in
      ground (
        arith,
        holds-add_a_records (sends cl (get_networks rec.view))
            (add_record st rec.ipv4_addr rec.name "A" rec.view cidr) res ip host,
        holds-add_record st rec.ipv4_addr rec.name "A" rec.view cidr ip host,
      )

  pub holds-add_cname_records :
      (cl : IBloxClient) (st : Store) (res_a : List ARecord) (res : List CnameRecord)
      (ip host : String)
      → holds (add_cname_records s cl st res_a res).1 ip host
        ≡ gives_cname res_a res ip host || holds st ip host
  unfolding add_cname_records gives_cname
  holds-add_cname_records cl st res_a [] ip host = refl
  holds-add_cname_records cl st res_a (rec ∷ res) ip host =
      let ip_addr = canonical_ip "" rec.canonical res_a in
      let cidr = get_network_cidr s cl rec.view ip_addr in
      ground (
        arith,
        holds-add_cname_records (sends cl (get_networks rec.view))
            (add_record st ip_addr rec.name "CNAME" rec.view cidr) res_a res ip host,
        holds-add_record st ip_addr rec.name "CNAME" rec.view cidr ip host,
      )
