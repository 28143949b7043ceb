-- ===== src/Controller/Tests.antt =====
-- A client that hands out one address, and the theorems of the controller at it.
use f5_ipam_ctlr.Prelude.{
  List, String, [], arith, contains, false, first_or, head?, if◌then◌else◌, inl, inr, is_empty,
  none, not, occurrences, refl, remove_element, some, sort, str_beq, str_beq_iff, str_beq_refl,
  string_eq, sym, true, ◌++◌, ◌==◌, ◌∙◌, ◌∷◌, ◌≡◌, ◌≢◌, ◌⊎◌,
}
use f5_ipam_ctlr.Controller.{
  Controller, Ranges, create_loop, process_group, process_ip_groups, reserve,
}
use f5_ipam_ctlr.Controller.Accounts.{Settled, create_loop-Settled, recorded, released, reserved}
use f5_ipam_ctlr.Controller.Addressed.{IsAddressed}
use f5_ipam_ctlr.Controller.Cleanup.{IsRanges}
use f5_ipam_ctlr.Controller.Effects.{Extends, create_loop-Extends}
use f5_ipam_ctlr.Controller.Events.{run_last_exact}
use f5_ipam_ctlr.Controller.Hazards.{refused_first_released}
use f5_ipam_ctlr.Controller.Mixed.{mixed_group_split}
use f5_ipam_ctlr.Controller.Process.{holders-process_ip_groups}
use f5_ipam_ctlr.Controller.Refresh.{SameStore, refresh_store-SameStore}
use f5_ipam_ctlr.Controller.Run.{decoded, ip_bytes, refresh_store, run, timeout}
use f5_ipam_ctlr.Controller.Shared.{process_group_shared}
use f5_ipam_ctlr.Controller.Stable.{process_ip_groups_keeps}
use f5_ipam_ctlr.Manager.{Client, IsClient, create_cname_record, release_addr}
use f5_ipam_ctlr.Orchestration.IpGroup.{get_all_hosts, spec_hosts}
use f5_ipam_ctlr.Orchestration.Types.{GroupKey, IpGroups, Spec, group_key_beq}
use f5_ipam_ctlr.Prelude.GoMap.{IsMap, delete, has, insert, is_some, lookup}
use f5_ipam_ctlr.Store.{HostSet, Store, add_record, delete_hosts, get_ip, keys, new_store}
use f5_ipam_ctlr.Store.Count.{holders}
use f5_ipam_ctlr.Store.Lookup.{contains-keys}
use f5_ipam_ctlr.Store.Valid.{IsValid, add_record-IsValid, new_store-IsValid}
use f5_ipam_ctlr.Store.View.{type_of}

-- Go's order of visiting a map, as the order of the entries.
abbrev pub in_order : Ranges
in_order = record { range_hosts = λ hosts. keys hosts; range_keys = λ hosts. keys hosts }

occurrences-keys_absent :
    (hosts : HostSet) (host : String) → lookup host hosts ≡ none → occurrences (keys hosts) host ≡ 0
unfolding occurrences lookup
occurrences-keys_absent [] host e = refl
occurrences-keys_absent ((k, t) ∷ hosts) host e = ground (arith, occurrences-keys_absent hosts host)

occurrences-keys :
    (hosts : HostSet) (host : String)
    → IsMap hosts
    → occurrences (keys hosts) host ≡ (if has host hosts then 1 else 0)
unfolding occurrences lookup
occurrences-keys [] host v = refl
occurrences-keys ((k, t) ∷ hosts) host v =
    ground
      (arith, occurrences-keys hosts host, occurrences-keys_absent hosts host, str_beq_iff k host)

pub in_order-IsRanges : IsRanges in_order
in_order-IsRanges = record {
  once = λ hosts host v n. occurrences-keys hosts host v;
  only_keys = λ hosts host e. sym (contains-keys hosts host) ∙ e;
}

abbrev old_store : Store
old_store = record {
  records = ("1.2.3.4", ("old.com", "A") ∷ ("bar.com", "CNAME") ∷ []) ∷ [];
  netviews = ("1.2.3.4", "default") ∷ [];
  cidrs = ("1.2.3.4", "1.2.3.0/24") ∷ [];
}

abbrev pub taking : Client
taking = record {
  on_create_a_record = λ log name ip view. true;
  on_cname_to_a = λ log avail host ip view net. (first_or "" avail, is_empty avail);
  on_get_next_addr = λ log view net. "1.2.3.9";
  on_get_records = λ log. old_store;
}

first_or-avail :
    (avail : List String) → (contains avail (first_or "" avail) ≡ true) ⊎ (first_or "" avail ≡ "")
unfolding contains
first_or-avail [] = inr refl
first_or-avail (x ∷ avail) = inl (ground (arith, str_beq_refl x))

pub taking-IsClient : IsClient taking
taking-IsClient = record { new_a = λ log avail host ip view net. first_or-avail avail }

-- The same, but A records are refused.
abbrev refusing : Client
refusing = record taking { on_create_a_record = λ log name ip view. false }

code : Unit {0}
unfolding run refresh_store process_ip_groups create_loop add_record delete_hosts get_ip
    get_all_hosts lookup insert delete sort contains occurrences remove_element str_beq
    group_key_beq type_of holders reserved released recorded reserve
code = tt

abbrev shared_key : GroupKey
shared_key = record { name = "web"; netview = "default"; cidr = "1.2.3.0/24" }

abbrev spec : Spec
spec = record {
  kind = "Ingress";
  name = "ing";
  namespace = "default";
  hosts = "foo.com" ∷ "bar.com" ∷ [];
  netview = "default";
  cidr = "1.2.3.0/24";
}

abbrev groups : IpGroups
groups = (shared_key, spec ∷ []) ∷ []

abbrev old : Controller
old = record { store = old_store; log = [] }

abbrev fresh : Controller
fresh = record { store = new_store; log = [] }

pub old-IsValid : IsValid old_store
unfolding code
old-IsValid =
    add_record-IsValid _ "1.2.3.4" "bar.com" "CNAME" "default" "1.2.3.0/24" (
      add_record-IsValid new_store "1.2.3.4" "old.com" "A" "default" "1.2.3.0/24" new_store-IsValid)

-- "old.com" goes, its CNAME "bar.com" becomes the A record, and "foo.com" comes.
processed : (process_ip_groups taking in_order old groups).store ≡ record {
  records = ("1.2.3.4", ("bar.com", "A") ∷ []) ∷ ("1.2.3.9", ("foo.com", "A") ∷ []) ∷ [];
  netviews = ("1.2.3.4", "default") ∷ ("1.2.3.9", "default") ∷ [];
  cidrs = ("1.2.3.4", "1.2.3.0/24") ∷ ("1.2.3.9", "1.2.3.0/24") ∷ [];
}
unfolding code
processed = refl

foo_not_empty : ◌≢◌ {A = String} "foo.com" ""
unfolding str_beq
foo_not_empty e = cc

web_not_empty : ◌≢◌ {A = String} "web" ""
unfolding str_beq
web_not_empty e = cc

foo_not_bar : ◌≢◌ {A = String} "foo.com" "bar.com"
unfolding str_beq
foo_not_bar e = ground (arith, str_beq_iff "foo.com" "bar.com")

holders-process_ip_groups_example :
    holders (process_ip_groups taking in_order old groups).store.records "foo.com" ≡ (
      if contains (get_all_hosts groups) "foo.com"
      then holders (create_loop taking old groups).store.records "foo.com"
      else 0)
holders-process_ip_groups_example =
    holders-process_ip_groups taking in_order taking-IsClient in_order-IsRanges old groups "foo.com"
      old-IsValid foo_not_empty

pub addr_not_empty : ◌≢◌ {A = String} "1.2.3.9" ""
unfolding str_beq
addr_not_empty e = cc

pub old-IsAddressed : IsAddressed old_store
unfolding IsAddressed type_of lookup str_beq
old-IsAddressed host n = refl

run_last_exact_example :
    not (
      get_ip
        (run taking in_order 30 ((timeout ∷ []) ++ ip_bytes (decoded groups) ∷ [])).ctlr.store
        "foo.com"
      == "")
    ≡ contains (get_all_hosts groups) "foo.com"
run_last_exact_example =
    run_last_exact taking in_order taking-IsClient in_order-IsRanges (λ log. old-IsValid)
      (λ log. old-IsAddressed) (λ log view net. addr_not_empty) (λ log name ip view. refl) 30
      (timeout ∷ []) groups "foo.com" foo_not_empty

create_loop-Settled_example : Settled taking "1.2.3.9" old.log (create_loop taking old groups).log
create_loop-Settled_example = create_loop-Settled taking "1.2.3.9" old groups

create_loop-Extends_example : Extends old.store (create_loop taking old groups).store
create_loop-Extends_example = create_loop-Extends taking old groups

refresh_store-SameStore_example :
    SameStore (refresh_store taking fresh).0.store (taking.on_get_records fresh.log)
refresh_store-SameStore_example = refresh_store-SameStore taking fresh

refused_first_released_example :
    let ctlr' = process_group refusing fresh shared_key (spec ∷ []) in
    (head? ctlr'.log ≡ some (release_addr "default" "1.2.3.0/24" "1.2.3.9"))
    × (type_of ctlr'.store "1.2.3.9" "bar.com" ≡ some "CNAME")
unfolding code
refused_first_released_example =
    refused_first_released refusing fresh shared_key spec [] "foo.com" "bar.com" [] web_not_empty
      refl foo_not_empty refl refl refl refl refl

bar_not_empty : ◌≢◌ {A = String} "bar.com" ""
unfolding str_beq
bar_not_empty e = cc

-- "bar.com" has the address of "old.com", which goes.
process_ip_groups_keeps_example :
    is_some (type_of (process_ip_groups taking in_order old groups).store "1.2.3.4" "bar.com")
    ≡ true
unfolding code
process_ip_groups_keeps_example =
    process_ip_groups_keeps taking in_order taking-IsClient in_order-IsRanges old groups "1.2.3.4"
      "bar.com" old-IsValid bar_not_empty refl refl

process_group_shared_example :
    get_ip (process_group taking fresh shared_key (spec ∷ [])).store "bar.com" ≡ "1.2.3.9"
unfolding code spec_hosts
process_group_shared_example =
    process_group_shared taking fresh shared_key (spec ∷ []) (λ log name ip view. refl)
      web_not_empty addr_not_empty (λ h e. refl) "bar.com" refl

abbrev mixed_spec : Spec
mixed_spec = record spec { hosts = "foo.com" ∷ "bar.com" ∷ "zoo.com" ∷ [] }

-- "zoo.com" is stored at the address of "bar.com".
mixed_group_split_example :
    let ctlr' = process_group taking old shared_key (mixed_spec ∷ []) in
    (head? ctlr'.log ≡ some (create_cname_record "zoo.com" "foo.com" "default"))
    × (get_ip ctlr'.store "foo.com" ≡ "1.2.3.9")
    × (get_ip ctlr'.store "zoo.com" ≡ get_ip old_store "bar.com")
unfolding code
mixed_group_split_example =
    mixed_group_split taking old shared_key mixed_spec "foo.com" "bar.com" "zoo.com" refl refl refl
      refl refl refl refl refl refl
