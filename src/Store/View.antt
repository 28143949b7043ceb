-- ===== src/Store/View.antt =====
-- What can be read from the store: the record type of a host at an address, the netview and the
-- CIDR of an address.
use f5_ipam_ctlr.Prelude.{
  Option, String, arith, if◌then◌else◌, none, some, str_beq_iff, string_eq, ◌&&◌, ◌==◌, ◌≡◌,
}
use f5_ipam_ctlr.Prelude.GoMap.{insert, lookup, lookup-insert}
use f5_ipam_ctlr.Store.{HostSet, Store, add_record}

abbrev pub host_type : Option HostSet → String → Option String
host_type none host = none
host_type (some hosts) host = lookup host hosts

-- The record type of `host` at the address `ip`.
unfoldable pub type_of : Store → String → String → Option String
type_of st ip host = host_type (lookup ip st.records) host

-- A host that a record already has keeps its record type.
abbrev pub or_new : Option String → String → String
or_new none record_type = record_type
or_new (some old) record_type = old

module _ (st : Store) (ip host record_type netview cidr : String) where
  -- `AddRecord` gives the host the record type at the address unless it has one there, and changes
  -- the record type of no other host or address.
  pub type_of-add_record :
      (ip' host' : String)
      → type_of (add_record st ip host record_type netview cidr) ip' host' ≡ (
          if (ip == ip') && (host == host')
          then some (or_new (type_of st ip host) record_type)
          else type_of st ip' host')
  unfolding type_of add_record lookup insert
  type_of-add_record ip' host' = grind (arith, str_beq_iff, lookup-insert)
