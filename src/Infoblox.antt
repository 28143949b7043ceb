-- ===== src/Infoblox.antt =====
-- pkg/manager/infoblox.go: the operations of `IBloxClient`. The WAPI server behind
-- infoblox-go-client is a rule that answers a request from the requests made before it, newest
-- first. `Ea` is the same in every object, and is left out.
pub mod Records
mod Tests
pub mod Requests
pub mod Rename
pub mod Delete
pub mod Replay
pub mod Refs
pub mod Content
pub mod Given
use mathlib.Core.Option
use f5_ipam_ctlr.Prelude.{
  Bool, List, Option, String, [], false, if◌then◌else◌, is_empty, none, not, some, string_eq, true,
  ◌&&◌, ◌==◌, ◌||◌, ◌∷◌,
}
use f5_ipam_ctlr.Prelude.GoMap.{GoMap, delete, insert, lookup}

-- `ibclient.RecordA`, as far as the code reads and sets it.
pub record ARecord : Type 0 where
  pub name : String
  pub ipv4_addr : String
  pub view : String
  pub zone : String
  pub ref : String

-- `ibclient.RecordCNAME`
pub record CnameRecord : Type 0 where
  pub name : String
  pub canonical : String
  pub view : String
  pub zone : String
  pub ref : String

-- The calls of the connector and of the object manager.
pub data Request : Type 0 where
  get_a : ARecord → Request
  get_cname : CnameRecord → Request
  get_networks : String → Request
  get_zones : Request
  create_a : ARecord → Request
  create_cname : CnameRecord → Request
  update_a : ARecord → String → Request
  update_cname : CnameRecord → String → Request
  delete_object : String → Request
  allocate_ip : String → String → Request
  release_ip : String → String → String → Request

-- `none` is an error. `on_write` is the reference that `CreateObject` and `UpdateObject` return,
-- whose error the code drops. `cidr_contains` is `Contains` of the network that `net.ParseCIDR`
-- reads, at the address that `net.ParseIP` reads; the server returns CIDRs that parse.
pub record Server : Type 0 where
  pub on_get_a : List Request → ARecord → Option (List ARecord)
  pub on_get_cname : List Request → CnameRecord → Option (List CnameRecord)
  pub on_get_networks : List Request → String → List String
  pub on_get_zones : List Request → Option (List String)
  pub on_write : List Request → Request → String
  pub on_allocate_ip : List Request → String → String → Option String
  pub cidr_contains : String → String → Bool

-- The fields of `IBloxClient` that change, and the requests made.
pub record IBloxClient : Type 0 where
  pub record_ref : GoMap String String
  pub requests : List Request

abbrev pub sends : IBloxClient → Request → IBloxClient
sends cl r = record cl { requests = r ∷ cl.requests }

-- `delete(iClient.recordRef, name)` after `DeleteObject`.
abbrev pub forget : IBloxClient → String → String → IBloxClient
forget cl ref name = record {
  record_ref = delete name cl.record_ref;
  requests = delete_object ref ∷ cl.requests;
}

-- The test of `getARecord`.
unfoldable pub matches_a : ARecord → ARecord → Bool
matches_a obj o =
    (o.name == obj.name && (o.ipv4_addr == obj.ipv4_addr && o.view == obj.view))
    || (obj.name == "" && o.zone == obj.zone)

-- The test of `getCNAMERecord`.
unfoldable pub matches_cname : CnameRecord → CnameRecord → Bool
matches_cname obj o =
    (o.name == obj.name && o.view == obj.view) || (obj.name == "" && o.zone == obj.zone)

unfoldable pub keep {ℓ} : {A : Type ℓ} → (A → Bool) → List A → List A
keep test [] = []
keep test (x ∷ xs) = let rest = keep test xs in if test x then x ∷ rest else rest

abbrev pub a_object : String → String → String → ARecord
a_object name ip_addr netview = record {
  name = name;
  ipv4_addr = ip_addr;
  view = netview;
  zone = "";
  ref = "";
}

abbrev pub cname_object : String → String → String → CnameRecord
cname_object name canonical netview = record {
  name = name;
  canonical = canonical;
  view = netview;
  zone = "";
  ref = "";
}

module _ (s : Server) where
  -- `getARecord`
  unfoldable pub get_a_record : IBloxClient → ARecord → Option (List ARecord)
  unfolding matches_a keep
  get_a_record cl obj = Option.map (keep (matches_a obj)) (s.on_get_a cl.requests obj)

  -- `getCNAMERecord`
  unfoldable pub get_cname_record : IBloxClient → CnameRecord → Option (List CnameRecord)
  unfolding matches_cname keep
  get_cname_record cl obj = Option.map (keep (matches_cname obj)) (s.on_get_cname cl.requests obj)

  unfoldable pub find_cidr : List String → String → String
  find_cidr [] ip = ""
  find_cidr (cidr ∷ networks) ip = if s.cidr_contains cidr ip then cidr else find_cidr networks ip

  -- `getNetworkCIDR`
  unfoldable pub get_network_cidr : IBloxClient → String → String → String
  unfolding find_cidr
  get_network_cidr cl netview ip = find_cidr (s.on_get_networks cl.requests netview) ip

  -- `CreateARecord`
  unfoldable pub create_a_record : IBloxClient → String → String → String → IBloxClient × Bool
  unfolding get_a_record
  create_a_record cl name ip_addr netview =
      let obj = a_object name ip_addr netview in
      let asked = sends cl (get_a obj) in
      elim (get_a_record cl obj) [
        | none ↦ (asked, false)
        | some res ↦ if not (is_empty res) then (asked, false) else (
          record {
            record_ref = insert name (s.on_write asked.requests (create_a obj)) cl.record_ref;
            requests = create_a obj ∷ asked.requests;
          },
          true,
        )
      ]

  -- `ReleaseAddr`
  abbrev pub release_addr : IBloxClient → String → String → String → IBloxClient
  release_addr cl netview cidr ip_addr = sends cl (release_ip netview cidr ip_addr)

  -- The loop of `DeleteARecord`.
  unfoldable pub delete_a_loop : IBloxClient → String → String → String → List ARecord → IBloxClient
  unfolding get_network_cidr
  delete_a_loop cl name netview cidr [] = cl
  delete_a_loop cl name netview cidr (rec ∷ res) =
      let asked = sends cl (get_networks netview) in
      let hit = get_network_cidr cl netview rec.ipv4_addr == cidr in
      delete_a_loop (if hit then forget asked rec.ref name else asked) name netview cidr res

  -- `DeleteARecord`; if the record does not exist the loop does nothing.
  unfoldable pub delete_a_record : IBloxClient → String → String → String → String → IBloxClient
  unfolding get_a_record delete_a_loop
  delete_a_record cl name ip_addr netview cidr =
      let obj = a_object name ip_addr netview in
      let asked = sends cl (get_a obj) in
      elim (get_a_record cl obj) [
        | none ↦ asked
        | some res ↦
            release_addr (if is_empty res then asked else delete_a_loop asked name netview cidr res)
              netview cidr ip_addr
      ]

  -- `CreateCNAMERecord`
  unfoldable pub create_cname_record : IBloxClient → String → String → String → IBloxClient
  unfolding get_cname_record
  create_cname_record cl name canonical netview =
      let obj = cname_object name canonical netview in
      let asked = sends cl (get_cname obj) in
      elim (get_cname_record cl obj) [
        | none ↦ asked
        | some res ↦ if not (is_empty res) then asked else record {
          record_ref = insert name (s.on_write asked.requests (create_cname obj)) cl.record_ref;
          requests = create_cname obj ∷ asked.requests;
        }
      ]

  -- The loop of `DeleteCNAMERecord`.
  unfoldable pub delete_cname_loop :
      IBloxClient → String → String → String → String → List CnameRecord → IBloxClient
  unfolding get_network_cidr
  delete_cname_loop cl name ip_addr netview cidr [] = cl
  delete_cname_loop cl name ip_addr netview cidr (rec ∷ res) =
      let asked = sends cl (get_networks netview) in
      let hit = get_network_cidr cl netview ip_addr == cidr in
      delete_cname_loop (if hit then forget asked rec.ref name else asked) name ip_addr netview cidr
        res

  -- `DeleteCNAMERecord`
  unfoldable pub delete_cname_record : IBloxClient → String → String → String → String → IBloxClient
  unfolding get_cname_record delete_cname_loop
  delete_cname_record cl name ip_addr netview cidr =
      let obj = cname_object name "" netview in
      let asked = sends cl (get_cname obj) in
      elim (get_cname_record cl obj) [
        | none ↦ asked
        | some res ↦ delete_cname_loop asked name ip_addr netview cidr res
      ]

  -- `UpdateObject`, and the new reference under the name of a host.
  abbrev pub update : IBloxClient → String → Request → IBloxClient
  update cl host r = record {
    record_ref = insert host (s.on_write cl.requests r) cl.record_ref;
    requests = r ∷ cl.requests;
  }

  -- The loop of `CNAMEToA` from its second host; the flag is the error.
  unfoldable pub update_cnames :
      IBloxClient → String → String → List String → IBloxClient × (String × Bool)
  update_cnames cl a_record netview [] = (cl, (a_record, false))
  update_cnames cl a_record netview (host ∷ hosts) =
      let obj = cname_object host a_record netview in
      elim (lookup host cl.record_ref) [
        | none ↦ (cl, ("", true))
        | some old_ref ↦
            update_cnames (update cl host (update_cname obj old_ref)) a_record netview hosts
      ]

  -- `CNAMEToA`; the object of the new A record has no view.
  unfoldable pub cname_to_a :
      IBloxClient → List String → String → String → String → String → IBloxClient × (String × Bool)
  unfolding delete_a_record delete_cname_record update_cnames
  cname_to_a cl [] del_host ip_addr netview cidr = (cl, ("", false))
  cname_to_a cl (host ∷ hosts) del_host ip_addr netview cidr =
      elim (lookup del_host cl.record_ref) [
        | none ↦ (delete_a_record cl del_host ip_addr netview cidr, ("", true))
        | some old_ref ↦
            let gone = delete_cname_record cl host ip_addr netview cidr in
            update_cnames (update gone host (update_a (a_object host ip_addr "") old_ref)) host
              netview hosts
      ]
