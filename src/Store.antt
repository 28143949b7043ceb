-- ===== src/Store.antt =====
-- pkg/store/store.go: the map of IP addresses to their hosts, netviews and CIDRs. The operations
-- are here; what they keep and what they answer is proved in the children.
pub mod View
pub mod Valid
pub mod Delete
pub mod Count
pub mod Lookup
pub mod Address
pub mod Order
mod Tests
use f5_ipam_ctlr.Prelude.{
  List, Option, String, [], if◌then◌else◌, is_empty, map, none, some, sort, string_eq, ◌∷◌,
}
use f5_ipam_ctlr.Prelude.GoMap.{GoMap, delete, insert, is_some, lookup}

-- `HostSet`: the record type of each host.
abbrev pub HostSet : Type 0
HostSet = GoMap String String

pub record Store : Type 0 where
  pub records : GoMap String HostSet
  pub netviews : GoMap String String
  pub cidrs : GoMap String String

-- `NewStore`
abbrev pub new_store : Store
new_store = record { records = []; netviews = []; cidrs = [] }

-- `overwriteRecord`
unfoldable pub overwrite_record : Store → String → String → String → String → String → Store
overwrite_record st ip host record_type netview cidr = record {
  records = insert ip (insert host record_type []) st.records;
  netviews = insert ip netview st.netviews;
  cidrs = insert ip cidr st.cidrs;
}

-- The `if _, found := st.Records[ip]` of `AddRecord`.
add_to_found : Option HostSet → Store → String → String → String → String → String → Store
unfolding overwrite_record
add_to_found none st ip host record_type netview cidr =
    overwrite_record st ip host record_type netview cidr
add_to_found (some hosts) st ip host record_type netview cidr =
    if is_some (lookup host hosts) then st else record {
      records = insert ip (insert host record_type hosts) st.records;
      netviews = insert ip netview st.netviews;
      cidrs = insert ip cidr st.cidrs;
    }

-- `AddRecord`
unfoldable pub add_record : Store → String → String → String → String → String → Store
unfolding add_to_found
add_record st ip host record_type netview cidr =
    add_to_found (lookup ip st.records) st ip host record_type netview cidr

-- `deleteRecord`
unfoldable pub delete_record : Store → String → Store
delete_record st ip = record {
  records = delete ip st.records;
  netviews = delete ip st.netviews;
  cidrs = delete ip st.cidrs;
}

-- What `deleteHost` does at the record that it finds.
unfoldable pub delete_host_at : Store → String → HostSet → String → Store
unfolding delete_record
delete_host_at st ip hosts del_host =
    let left = delete del_host hosts in
    let st' = record st { records = insert ip left st.records } in
    if is_empty left then delete_record st' ip else st'

-- The loop of `deleteHost` over the records that are still to be visited.
unfoldable pub delete_host_loop : GoMap String HostSet → Store → String → Store
unfolding delete_host_at
delete_host_loop [] st del_host = st
delete_host_loop ((ip, hosts) ∷ rest) st del_host =
    if is_some (lookup del_host hosts)
    then delete_host_at st ip hosts del_host
    else delete_host_loop rest st del_host

-- `deleteHost`
unfoldable pub delete_host : Store → String → Store
unfolding delete_host_loop
delete_host st del_host = delete_host_loop st.records st del_host

-- `DeleteHosts`
unfoldable pub delete_hosts : Store → List String → Store
unfolding delete_host
delete_hosts st [] = st
delete_hosts st (del_host ∷ rest) = delete_hosts (delete_host st del_host) rest

abbrev pub keys {ℓ} : {V : Type ℓ} → GoMap String V → List String
keys m = map (λ p. p.0) m

abbrev pub hosts_of : Option HostSet → List String
hosts_of none = []
hosts_of (some hosts) = sort (keys hosts)

-- `getHosts`
unfoldable pub get_hosts : Store → String → List String
get_hosts st ip = hosts_of (lookup ip st.records)

-- The loop of `GetIP` over the records that are still to be visited.
unfoldable pub get_ip_loop : GoMap String HostSet → String → String
get_ip_loop [] host = ""
get_ip_loop ((ip, hosts) ∷ rest) host =
    if is_some (lookup host hosts) then ip else get_ip_loop rest host

-- `GetIP`
unfoldable pub get_ip : Store → String → String
unfolding get_ip_loop
get_ip st host = get_ip_loop st.records host
