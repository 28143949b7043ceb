-- ===== src/Infoblox/Tests.antt =====
-- A server with one zone, and the theorems of the Infoblox client at it.
use f5_ipam_ctlr.Prelude.{
  List, String, [], append, head?, if◌then◌else◌, refl, some, str_beq, string_eq, true, ◌&&◌, ◌+◌,
  ◌==◌, ◌∷◌, ◌≡◌,
}
use f5_ipam_ctlr.Controller.Run.{run, timeout}
use f5_ipam_ctlr.Controller.Tests.{in_order, in_order-IsRanges}
use f5_ipam_ctlr.Infoblox.{
  ARecord, CnameRecord, IBloxClient, Server, a_object, cname_to_a, create_a, create_a_record,
  delete_a_record, get_a, get_a_record, release_ip,
}
use f5_ipam_ctlr.Infoblox.Content.{IsSteady, holds-get_records}
use f5_ipam_ctlr.Infoblox.Delete.{
  create_a_record_lem, is_absent, num_deleted, num_deleted-delete_a_record, num_in_network,
  num_writes,
}
use f5_ipam_ctlr.Infoblox.Given.{a_gives, addresses_of, cname_gives, gives, last_or}
use f5_ipam_ctlr.Infoblox.Records.{get_records, holds}
use f5_ipam_ctlr.Infoblox.Refs.{ip_from_ref, ip_from_ref_lem, lacks}
use f5_ipam_ctlr.Infoblox.Rename.{all_known, answer, cname_to_a_result}
use f5_ipam_ctlr.Infoblox.Replay.{infoblox_client, run_infoblox-IsValid}
use f5_ipam_ctlr.Infoblox.Requests.{
  HostConfig, build_url, build_url_filters, get, is_get, join, query_values,
}
use f5_ipam_ctlr.Prelude.GoMap.{has, lookup}
use f5_ipam_ctlr.Store.Valid.{IsValid}

abbrev rec_foo : ARecord
rec_foo = record {
  name = "foo.com";
  ipv4_addr = "1.2.3.4";
  view = "default";
  zone = "com";
  ref = "a1";
}

abbrev rec_bar : CnameRecord
rec_bar = record {
  name = "bar.com";
  canonical = "foo.com";
  view = "default";
  zone = "com";
  ref = "c1";
}

abbrev a_of : String → List ARecord
a_of fqdn = rec_foo ∷ []

abbrev cname_of : String → List CnameRecord
cname_of fqdn = rec_bar ∷ []

abbrev networks : List String
networks = "1.2.3.0/24" ∷ []

abbrev server : Server
server = record {
  on_get_a = λ log obj. some (rec_foo ∷ []);
  on_get_cname = λ log obj. some (rec_bar ∷ []);
  on_get_networks = λ log netview. networks;
  on_get_zones = λ log. some ("com" ∷ []);
  on_write = λ log r. "new";
  on_allocate_ip = λ log netview cidr. some "fixedaddress/ZG5:1.2.3.4/default";
  cidr_contains = λ cidr ip. true;
}

-- The client that knows both records.
abbrev client : IBloxClient
client = record { record_ref = ("foo.com", "a1") ∷ ("bar.com", "c1") ∷ []; requests = [] }

run_infoblox-IsValid_example :
    IsValid (run (infoblox_client server) in_order 1 (timeout ∷ [])).ctlr.store
run_infoblox-IsValid_example =
    run_infoblox-IsValid server in_order 1 (timeout ∷ []) in_order-IsRanges

steady : IsSteady server a_of cname_of
steady = record { a_records = λ log fqdn. refl; cname_records = λ log fqdn. refl }

holds-get_records_example :
    holds (get_records server client).1 "1.2.3.4" "bar.com"
    ≡ gives a_of cname_of ("com" ∷ []) "1.2.3.4" "bar.com"
holds-get_records_example =
    holds-get_records server a_of cname_of steady client ("com" ∷ []) "1.2.3.4" "bar.com" refl

-- Both sides are true.
gives_bar : gives a_of cname_of ("com" ∷ []) "1.2.3.4" "bar.com" ≡ true
unfolding gives a_gives cname_gives addresses_of last_or str_beq
gives_bar = refl

cname_to_a_result_example :
    (cname_to_a server client
      ("bar.com" ∷ "baz.com" ∷ [])
      "foo.com"
      "1.2.3.4"
      "default"
      "1.2.3.0/24").1
    ≡ answer
        (has "foo.com" client.record_ref && all_known client.record_ref "bar.com" ("baz.com" ∷ []))
        "bar.com"
cname_to_a_result_example =
    cname_to_a_result server client "bar.com" ("baz.com" ∷ []) "foo.com" "1.2.3.4" "default"
      "1.2.3.0/24"

num_deleted-delete_a_record_example :
    let cl' = delete_a_record server client "foo.com" "1.2.3.4" "default" "1.2.3.0/24" in
    (num_deleted "a1" cl'.requests
      ≡ num_in_network server networks "1.2.3.0/24" "a1" (rec_foo ∷ []) + num_deleted "a1" [])
    × (head? cl'.requests ≡ some (release_ip "default" "1.2.3.0/24" "1.2.3.4"))
unfolding get_a_record str_beq
num_deleted-delete_a_record_example =
    num_deleted-delete_a_record server "default" networks (λ log. refl) client "foo.com" "1.2.3.4"
      "1.2.3.0/24" "a1" (rec_foo ∷ []) refl

create_a_record_lem_example :
    let obj = a_object "new.com" "1.2.3.5" "default" in
    let result = create_a_record server client "new.com" "1.2.3.5" "default" in
    let ok = is_absent (get_a_record server client obj) in
    (result.1 ≡ ok)
    × ((num_writes result.0.requests ≡ (if ok then 1 else 0) + num_writes client.requests)
        × ((host : String)
            → lookup host result.0.record_ref ≡ (
                if ok && "new.com" == host
                then some (server.on_write (get_a obj ∷ client.requests) (create_a obj))
                else lookup host client.record_ref)))
create_a_record_lem_example = create_a_record_lem server client "new.com" "1.2.3.5" "default"

ip_from_ref_lem_example :
    ip_from_ref (append "fixedaddress/ZG5" (append ":" (append "1.2.3.4" (append "/" "default"))))
    ≡ "1.2.3.4"
unfolding lacks str_beq
ip_from_ref_lem_example = ip_from_ref_lem "fixedaddress/ZG5" "1.2.3.4" "default" refl refl refl

abbrev cfg : HostConfig
cfg = record {
  host = "10.0.0.1";
  version = "2.2";
  port = "443";
  username = "admin";
  password = "secret";
}

abbrev record_a : String
record_a = "record:a"

abbrev two_fields : List String
two_fields = "name" ∷ "zone" ∷ []

build_url_filters_example :
    let vals = query_values get record_a two_fields in
    ((build_url (λ vals. "q") cfg get record_a "" two_fields).raw_query
      ≡ (if is_get get then "q" else ""))
    × (lookup "_return_fields" vals ≡ some "name,zone")
unfolding join append str_beq
build_url_filters_example =
    build_url_filters (λ vals. "q") cfg get record_a "" two_fields "_return_fields"

-- The path and the query of that request.
url_path : (build_url (λ vals. "q") cfg get record_a "" []).path ≡ "wapi/v2.2/record:a"
unfolding build_url join append str_beq
url_path = refl
