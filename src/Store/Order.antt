-- ===== src/Store/Order.antt =====
-- That the answers of the store do not depend on the order in which Go visits a map.
use f5_ipam_ctlr.Prelude.{
  Bool-cases, List, String, inl, inr, str_beq_iff, string_eq, sym, ◌==◌, ◌∙◌, ◌≡◌,
}
use f5_ipam_ctlr.Store.{Store, delete_hosts, get_ip}
use f5_ipam_ctlr.Store.Lookup.{IsUnique, get_ip-type_of, get_ip_found, type_of-delete_hosts}
use f5_ipam_ctlr.Store.Valid.{IsValid}
use f5_ipam_ctlr.Store.View.{type_of}

-- The two stores hold the same hosts, with the same record types, at the same addresses: they
-- differ in the order of their entries.
pub record SameHosts (s t : Store) : Type 0 where
  pub types : (ip host : String) → type_of s ip host ≡ type_of t ip host

-- `GetIP` answers the same for every order in which Go visits the records, for a host that stands
-- in one record at most.
get_ip-SameHosts :
    (s t : Store) (host : String)
    → IsValid s
    → IsValid t
    → IsUnique s host
    → IsUnique t host
    → SameHosts s t
    → get_ip s host ≡ get_ip t host
get_ip-SameHosts s t host vs vt us ut same = elim (Bool-cases (get_ip s host == "")) [
  | inl no_s ↦ elim (Bool-cases (get_ip t host == "")) [
    | inl no_t ↦ (str_beq_iff _ _).0 no_s ∙ sym ((str_beq_iff _ _).0 no_t)
    | inr in_t ↦
        let (r, typed) = get_ip-type_of t host vt (λ e. cc (in_t, (str_beq_iff _ _).1 e)) in
        get_ip_found s (get_ip t host) host r vs us (same.types _ host ∙ typed)
  ]
  | inr in_s ↦
      let (r, typed) = get_ip-type_of s host vs (λ e. cc (in_s, (str_beq_iff _ _).1 e)) in
      sym (get_ip_found t (get_ip s host) host r vt ut (sym (same.types _ host) ∙ typed))
]

-- Two runs of `DeleteHosts` that visit the maps in different orders leave the same hosts.
pub delete_hosts-SameHosts :
    (s t : Store) (ds : List String)
    → IsValid s
    → IsValid t
    → ((host : String) → IsUnique s host)
    → ((host : String) → IsUnique t host)
    → SameHosts s t
    → SameHosts (delete_hosts s ds) (delete_hosts t ds)
delete_hosts-SameHosts s t ds vs vt us ut same = record {
  types = λ ip host. rw (
    type_of-delete_hosts s ds vs us ip host,
    type_of-delete_hosts t ds vt ut ip host,
    same.types ip host,
  );
}
