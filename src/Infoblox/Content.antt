-- ===== src/Infoblox/Content.antt =====
-- What the store holds that `GetRecords` of pkg/manager/infoblox.go returns.
use f5_ipam_ctlr.Prelude.{
  List, Option-cases, String, [], arith, inl, inr, refl, some, string_eq, ◌||◌, ◌∷◌, ◌≡◌,
}
use f5_ipam_ctlr.Infoblox.{
  ARecord, CnameRecord, IBloxClient, Request, Server, get_a, get_a_record, get_cname,
  get_cname_record, get_networks, get_zones, keep, matches_a, matches_cname, sends,
}
use f5_ipam_ctlr.Infoblox.Given.{gives, gives_a-keep, gives_cname-keep}
use f5_ipam_ctlr.Infoblox.Records.{
  add_a_records, add_cname_records, get_records, holds, holds-add_a_records,
  holds-add_cname_records, zone_a, zone_cname, zones_loop,
}
use f5_ipam_ctlr.Prelude.GoMap.{lookup}
use f5_ipam_ctlr.Store.{Store, new_store}
use f5_ipam_ctlr.Store.Valid.{IsValid, add_record-IsValid, new_store-IsValid}
use f5_ipam_ctlr.Store.View.{type_of}

module _ (s : Server) where
  add_a_records-IsValid :
      (cl : IBloxClient) (st : Store) (res : List ARecord)
      → IsValid st
      → IsValid (add_a_records s cl st res).1
  unfolding add_a_records
  add_a_records-IsValid cl st [] v = v
  add_a_records-IsValid cl st (rec ∷ res) v =
      add_a_records-IsValid (sends cl (get_networks rec.view)) _ res
        (add_record-IsValid st _ _ _ _ _ v)

  add_cname_records-IsValid :
      (cl : IBloxClient) (st : Store) (res_a : List ARecord) (res : List CnameRecord)
      → IsValid st
      → IsValid (add_cname_records s cl st res_a res).1
  unfolding add_cname_records
  add_cname_records-IsValid cl st res_a [] v = v
  add_cname_records-IsValid cl st res_a (rec ∷ res) v =
      add_cname_records-IsValid (sends cl (get_networks rec.view)) _ res_a res
        (add_record-IsValid st _ _ _ _ _ v)

  zones_loop-IsValid :
      (cl : IBloxClient) (st : Store) (zones : List String)
      → IsValid st
      → IsValid (zones_loop s cl st zones).1
  unfolding zones_loop
  zones_loop-IsValid cl st [] v = v
  zones_loop-IsValid cl st (fqdn ∷ zones) v =
      elim (Option-cases (get_a_record s cl (zone_a fqdn))) [
        | inl fails ↦ rw (zones_loop, fails) v
        | inr (res_a, answers) ↦
            let with_a = add_a_records s (sends cl (get_a (zone_a fqdn))) st res_a in
            let asked = sends with_a.0 (get_cname (zone_cname fqdn)) in
            let v' = add_a_records-IsValid (sends cl (get_a (zone_a fqdn))) st res_a v in
            elim (Option-cases (get_cname_record s with_a.0 (zone_cname fqdn))) [
              | inl fails ↦ rw (zones_loop, answers, fails) v'
              | inr (res_c, answers_c) ↦
                  rw (zones_loop, answers, answers_c)
                    (zones_loop-IsValid (add_cname_records s asked with_a.1 res_a res_c).0 _ zones
                      (add_cname_records-IsValid asked with_a.1 res_a res_c v'))
            ]
      ]

  -- Whatever the server answers, also where it fails midway, the store that GetRecords returns is
  -- well formed.
  pub get_records-IsValid : (cl : IBloxClient) → IsValid (get_records s cl).1
  unfolding get_records
  get_records-IsValid cl = elim (Option-cases (s.on_get_zones cl.requests)) [
    | inl fails ↦ rw (get_records, fails) new_store-IsValid
    | inr (zones, answers) ↦
        rw (get_records, answers) (zones_loop-IsValid _ _ zones new_store-IsValid)
  ]

-- The server answers every query for the records of a zone, and always alike.
pub record IsSteady (s : Server) (a_of : String → List ARecord)
    (cname_of : String → List CnameRecord) : Type 0 where
  pub a_records :
      (log : List Request) (fqdn : String) → s.on_get_a log (zone_a fqdn) ≡ some (a_of fqdn)
  pub cname_records :
      (log : List Request) (fqdn : String)
      → s.on_get_cname log (zone_cname fqdn) ≡ some (cname_of fqdn)

module _ (s : Server) (a_of : String → List ARecord) (cname_of : String → List CnameRecord)
    (steady : IsSteady s a_of cname_of) where
  holds-zones_loop :
      (cl : IBloxClient) (st : Store) (zones : List String) (ip host : String)
      → holds (zones_loop s cl st zones).1 ip host
        ≡ gives a_of cname_of zones ip host || holds st ip host
  unfolding zones_loop gives get_a_record get_cname_record
  holds-zones_loop cl st [] ip host = refl
  holds-zones_loop cl st (fqdn ∷ zones) ip host =
      let res_a = keep (matches_a (zone_a fqdn)) (a_of fqdn) in
      let res_c = keep (matches_cname (zone_cname fqdn)) (cname_of fqdn) in
      let with_a = add_a_records s (sends cl (get_a (zone_a fqdn))) st res_a in
      let asked = sends with_a.0 (get_cname (zone_cname fqdn)) in
      let with_c = add_cname_records s asked with_a.1 res_a res_c in
      let answers : get_a_record s cl (zone_a fqdn) ≡ some res_a =
        rw (get_a_record, steady.a_records cl.requests fqdn) refl in
      let answers_c : get_cname_record s with_a.0 (zone_cname fqdn) ≡ some res_c =
        rw (get_cname_record, steady.cname_records with_a.0.requests fqdn) refl in
      rw (zones_loop, answers, answers_c)
        (ground (
          arith,
          holds-zones_loop with_c.0 with_c.1 zones ip host,
          holds-add_cname_records s asked with_a.1 res_a res_c ip host,
          holds-add_a_records s (sends cl (get_a (zone_a fqdn))) st res_a ip host,
          gives_a-keep fqdn (a_of fqdn) ip host,
          gives_cname-keep fqdn (a_of fqdn) (cname_of fqdn) ip host,
        ))

  -- If the server lists its zones and answers every query for their records alike, GetRecords
  -- returns a store in which a host stands at an address exactly if, for some zone, an A record of
  -- the zone has that name and that address, or a CNAME of the zone has that name and the address is
  -- that of the last A record of the zone with the name it points to, or "" if there is no such A
  -- record. The records of a zone are those of the answer that name the zone, or have neither name
  -- nor view (nor address).
  pub holds-get_records :
      (cl : IBloxClient) (zones : List String) (ip host : String)
      → s.on_get_zones cl.requests ≡ some zones
      → holds (get_records s cl).1 ip host ≡ gives a_of cname_of zones ip host
  unfolding get_records holds type_of lookup
  holds-get_records cl zones ip host lists =
      rw (get_records, lists)
        (ground (arith, holds-zones_loop (sends cl get_zones) new_store zones ip host))
