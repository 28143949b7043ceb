-- ===== src/Infoblox/Given.antt =====
-- What the A and CNAME records of a zone give a host, told apart from how `GetRecords` of
-- pkg/manager/infoblox.go goes through them.
use f5_ipam_ctlr.Prelude.{
  Bool, List, String, [], arith, false, if◌then◌else◌, refl, str_beq_refl, string_eq, ◌&&◌, ◌==◌,
  ◌||◌, ◌∷◌, ◌≡◌,
}
use f5_ipam_ctlr.Infoblox.{ARecord, CnameRecord, keep, matches_a, matches_cname}
use f5_ipam_ctlr.Infoblox.Records.{canonical_ip, gives_a, gives_cname, zone_a, zone_cname}

-- A record of the answer is of the zone: it says so, or it has neither name nor address nor view.
abbrev a_of_zone : String → ARecord → Bool
a_of_zone fqdn rec = rec.zone == fqdn || (rec.name == "" && (rec.ipv4_addr == "" && rec.view == ""))

abbrev cname_of_zone : String → CnameRecord → Bool
cname_of_zone fqdn rec = rec.zone == fqdn || (rec.name == "" && rec.view == "")

-- Some A record of the zone has the address and the name.
unfoldable pub a_gives : String → List ARecord → String → String → Bool
a_gives fqdn [] ip host = false
a_gives fqdn (rec ∷ res) ip host =
    (a_of_zone fqdn rec && (rec.ipv4_addr == ip && rec.name == host)) || a_gives fqdn res ip host

-- The addresses of the A records of the zone with the name, in their order.
unfoldable pub addresses_of : String → String → List ARecord → List String
addresses_of fqdn name [] = []
addresses_of fqdn name (rec ∷ res) =
    let rest = addresses_of fqdn name res in
    if a_of_zone fqdn rec && rec.name == name then rec.ipv4_addr ∷ rest else rest

unfoldable pub last_or : String → List String → String
last_or ip [] = ip
last_or ip (x ∷ xs) = last_or x xs

-- Some CNAME of the zone has the name, and the address is the last of those that the A records of
-- the zone give the name it points to, or "" if they give none.
unfoldable pub cname_gives : String → List ARecord → List CnameRecord → String → String → Bool
unfolding addresses_of last_or
cname_gives fqdn res_a [] ip host = false
cname_gives fqdn res_a (rec ∷ res) ip host =
    (cname_of_zone fqdn rec
      && (last_or "" (addresses_of fqdn rec.canonical res_a) == ip && rec.name == host))
    || cname_gives fqdn res_a res ip host

-- A zone whose answers are `a_of` and `cname_of` gives the host the address.
unfoldable pub gives :
    (String → List ARecord) → (String → List CnameRecord) → List String → String → String → Bool
unfolding a_gives cname_gives
gives a_of cname_of [] ip host = false
gives a_of cname_of (fqdn ∷ zones) ip host =
    a_gives fqdn (a_of fqdn) ip host
    || (cname_gives fqdn (a_of fqdn) (cname_of fqdn) ip host || gives a_of cname_of zones ip host)

pub gives_a-keep :
    (fqdn : String) (res : List ARecord) (ip host : String)
    → gives_a (keep (matches_a (zone_a fqdn)) res) ip host ≡ a_gives fqdn res ip host
unfolding gives_a keep matches_a a_gives
gives_a-keep fqdn [] ip host = refl
gives_a-keep fqdn (rec ∷ res) ip host =
    ground (arith, str_beq_refl "", gives_a-keep fqdn res ip host)

canonical_ip-keep :
    (fqdn ip name : String) (res : List ARecord)
    → canonical_ip ip name (keep (matches_a (zone_a fqdn)) res)
      ≡ last_or ip (addresses_of fqdn name res)
unfolding canonical_ip keep matches_a addresses_of last_or
canonical_ip-keep fqdn ip name [] = refl
canonical_ip-keep fqdn ip name (rec ∷ res) = ground (
  arith,
  str_beq_refl "",
  canonical_ip-keep fqdn ip name res,
  canonical_ip-keep fqdn rec.ipv4_addr name res,
)

pub gives_cname-keep :
    (fqdn : String) (res_a : List ARecord) (res : List CnameRecord) (ip host : String)
    → gives_cname
        (keep (matches_a (zone_a fqdn)) res_a)
        (keep (matches_cname (zone_cname fqdn)) res)
        ip
        host
      ≡ cname_gives fqdn res_a res ip host
unfolding gives_cname keep matches_cname cname_gives
gives_cname-keep fqdn res_a [] ip host = refl
gives_cname-keep fqdn res_a (rec ∷ res) ip host = ground (
  arith,
  str_beq_refl "",
  gives_cname-keep fqdn res_a res ip host,
  canonical_ip-keep fqdn "" rec.canonical res_a,
)
