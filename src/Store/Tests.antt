-- ===== src/Store/Tests.antt =====
-- The store of pkg/store/store_test.go, and the theorems at it.
use f5_ipam_ctlr.Prelude.{
  String, [], arith, contains, false, if◌then◌else◌, none, occurrences, refl, sort, str_beq,
  str_beq_iff, string_eq, ◌-◌, ◌∷◌, ◌≡◌,
}
use f5_ipam_ctlr.Prelude.GoMap.{delete, insert, lookup}
use f5_ipam_ctlr.Store.{
  Store, add_record, delete_host, delete_hosts, get_hosts, get_ip, new_store, overwrite_record,
}
use f5_ipam_ctlr.Store.Count.{holders, holders-delete_hosts}
use f5_ipam_ctlr.Store.Delete.{first_holder}
use f5_ipam_ctlr.Store.Lookup.{IsUnique, type_of-delete_hosts}
use f5_ipam_ctlr.Store.Order.{SameHosts, delete_hosts-SameHosts}
use f5_ipam_ctlr.Store.Valid.{IsValid, add_record-IsValid, new_store-IsValid}
use f5_ipam_ctlr.Store.View.{type_of}

abbrev view : String
view = "default"

abbrev net : String
net = "1.2.3.0/24"

abbrev two : Store
two = record {
  records = ("1.2.3.4", ("bar.com", "A") ∷ ("baz.com", "CNAME") ∷ []) ∷ [];
  netviews = ("1.2.3.4", view) ∷ [];
  cidrs = ("1.2.3.4", net) ∷ [];
}

-- The same hosts, met in the other order.
abbrev swapped : Store
swapped = record two { records = ("1.2.3.4", ("baz.com", "CNAME") ∷ ("bar.com", "A") ∷ []) ∷ [] }

abbrev three : Store
three = add_record two "5.6.7.8" "qux.com" "A" view net

code : Unit {0}
unfolding add_record delete_host delete_hosts get_hosts get_ip overwrite_record lookup insert delete
    sort contains holders occurrences type_of str_beq first_holder
code = tt

-- "adds records" of the test suite.
adds_records :
    (get_hosts three "1.2.3.4" ≡ "bar.com" ∷ "baz.com" ∷ [])
    × (get_hosts three "5.6.7.8" ≡ "qux.com" ∷ [])
    × (add_record three "5.6.7.8" "qux.com" "A" view net ≡ three)
unfolding code
adds_records = (refl, refl, refl)

-- "deletes hosts from records" of the test suite.
deletes_hosts :
    (get_hosts (delete_hosts three ("bar.com" ∷ [])) "1.2.3.4" ≡ "baz.com" ∷ [])
    × (delete_hosts three ("bar.com" ∷ "baz.com" ∷ "qux.com" ∷ []) ≡ new_store)
    × (get_ip three "qux.com" ≡ "5.6.7.8")
    × (get_ip three "fake.com" ≡ "")
unfolding code
deletes_hosts = (refl, refl, refl, refl)

two-IsValid : IsValid two
unfolding code
two-IsValid =
    add_record-IsValid _ "1.2.3.4" "baz.com" "CNAME" view net
      (add_record-IsValid new_store "1.2.3.4" "bar.com" "A" view net new_store-IsValid)

swapped-IsValid : IsValid swapped
unfolding code
swapped-IsValid =
    add_record-IsValid _ "1.2.3.4" "bar.com" "A" view net
      (add_record-IsValid new_store "1.2.3.4" "baz.com" "CNAME" view net new_store-IsValid)

two-IsUnique : (host : String) → IsUnique two host
unfolding holders
two-IsUnique host = ground arith

swapped-IsUnique : (host : String) → IsUnique swapped host
unfolding holders
swapped-IsUnique host = ground arith

bar_not_baz : str_beq "bar.com" "baz.com" ≡ false
unfolding str_beq
bar_not_baz = refl

two-SameHosts : SameHosts two swapped
unfolding type_of lookup
two-SameHosts = record {
  types = λ ip host.
      ground (arith, bar_not_baz, str_beq_iff "bar.com" host, str_beq_iff "baz.com" host);
}

holders-delete_hosts_example :
    holders (delete_hosts two ("bar.com" ∷ [])).records "bar.com"
    ≡ holders two.records "bar.com" - occurrences ("bar.com" ∷ []) "bar.com"
holders-delete_hosts_example = holders-delete_hosts two ("bar.com" ∷ []) "bar.com" two-IsValid

type_of-delete_hosts_example :
    type_of (delete_hosts two ("bar.com" ∷ [])) "1.2.3.4" "baz.com"
    ≡ (if contains ("bar.com" ∷ []) "baz.com" then none else type_of two "1.2.3.4" "baz.com")
type_of-delete_hosts_example =
    type_of-delete_hosts two ("bar.com" ∷ []) two-IsValid two-IsUnique "1.2.3.4" "baz.com"

delete_hosts-SameHosts_example :
    SameHosts (delete_hosts two ("bar.com" ∷ [])) (delete_hosts swapped ("bar.com" ∷ []))
delete_hosts-SameHosts_example =
    delete_hosts-SameHosts two swapped ("bar.com" ∷ []) two-IsValid swapped-IsValid two-IsUnique
      swapped-IsUnique two-SameHosts
