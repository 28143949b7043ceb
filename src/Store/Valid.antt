-- ===== src/Store/Valid.antt =====
-- The invariant of the store: one entry for each key, no address without a host, and a netview and
-- a CIDR for exactly the addresses that have a record.
use f5_ipam_ctlr.Prelude.{
  Bool-cases, Option-cases, String, [], arith, false, inl, inr, is_empty, refl, some, string_eq,
  ◌∷◌, ◌≡◌,
}
use f5_ipam_ctlr.Prelude.GoMap.{
  IsMap, delete-IsMap, has, insert, insert-IsMap, is_some, lookup, lookup-delete, lookup-insert,
}
use f5_ipam_ctlr.Store.{HostSet, Store, add_record, delete_record, new_store}

pub record IsHostSet (hosts : HostSet) : Type 0 where
  pub distinct : IsMap hosts
  pub inhabited : is_empty hosts ≡ false

pub record IsValid (st : Store) : Type 0 where
  pub records_map : IsMap st.records
  pub netviews_map : IsMap st.netviews
  pub cidrs_map : IsMap st.cidrs
  pub sets : (ip : String) (hosts : HostSet) → lookup ip st.records ≡ some hosts → IsHostSet hosts
  pub netview_of : (ip : String) → has ip st.netviews ≡ has ip st.records
  pub cidr_of : (ip : String) → has ip st.cidrs ≡ has ip st.records

-- `NewStore` is well formed.
pub new_store-IsValid : IsValid new_store
unfolding lookup
new_store-IsValid = record {
  records_map = tt;
  netviews_map = tt;
  cidrs_map = tt;
  sets = λ ip hosts e. cc;
  netview_of = λ ip. refl;
  cidr_of = λ ip. refl;
}

is_empty-insert : (k v : String) (m : HostSet) → is_empty (insert k v m) ≡ false
unfolding insert
is_empty-insert k v [] = refl
is_empty-insert k v ((j, w) ∷ m) = ground arith

pub insert-IsHostSet : (k v : String) (m : HostSet) → IsMap m → IsHostSet (insert k v m)
insert-IsHostSet k v m h = record {
  distinct = insert-IsMap k v m h;
  inhabited = is_empty-insert k v m;
}

-- A write of a host set at an address, with its netview and its CIDR.
write-IsValid :
    (st : Store) (ip netview cidr : String) (hosts : HostSet)
    → IsValid st
    → IsHostSet hosts
    → IsValid (record {
      records = insert ip hosts st.records;
      netviews = insert ip netview st.netviews;
      cidrs = insert ip cidr st.cidrs;
    })
write-IsValid st ip netview cidr hosts v h = record {
  records_map = insert-IsMap ip hosts st.records v.records_map;
  netviews_map = insert-IsMap ip netview st.netviews v.netviews_map;
  cidrs_map = insert-IsMap ip cidr st.cidrs v.cidrs_map;
  sets = λ ip' hosts' e. ground (arith, lookup-insert ip ip' hosts st.records, v.sets ip' hosts');
  netview_of = λ ip'. ground (
    arith,
    lookup-insert ip ip' hosts st.records,
    lookup-insert ip ip' netview st.netviews,
    v.netview_of ip',
  );
  cidr_of = λ ip'. ground (
    arith,
    lookup-insert ip ip' hosts st.records,
    lookup-insert ip ip' cidr st.cidrs,
    v.cidr_of ip',
  );
}

-- Every write of `AddRecord`, and the case in which it writes nothing, keeps the invariant.
pub add_record-IsValid :
    (st : Store) (ip host record_type netview cidr : String)
    → IsValid st
    → IsValid (add_record st ip host record_type netview cidr)
unfolding add_record
add_record-IsValid st ip host record_type netview cidr v =
    elim (Option-cases (lookup ip st.records)) [
      | inl new ↦
          rw (new, add_record)
            (write-IsValid st ip netview cidr _ v (insert-IsHostSet host record_type [] tt))
      | inr (hosts, old) ↦ elim (Bool-cases (is_some (lookup host hosts))) [
        | inl known ↦ rw (old, add_record, known) v
        | inr unknown ↦
            rw (old, add_record, unknown)
              (write-IsValid st ip netview cidr _ v
                (insert-IsHostSet host record_type hosts (v.sets ip hosts old).distinct))
      ]
    ]

-- `deleteRecord` removes the address from all three maps.
pub delete_record-IsValid : (st : Store) (ip : String) → IsValid st → IsValid (delete_record st ip)
unfolding delete_record
delete_record-IsValid st ip v = record {
  records_map = delete-IsMap ip st.records v.records_map;
  netviews_map = delete-IsMap ip st.netviews v.netviews_map;
  cidrs_map = delete-IsMap ip st.cidrs v.cidrs_map;
  sets = λ ip' hosts' e. ground (arith, lookup-delete ip ip' st.records, v.sets ip' hosts');
  netview_of = λ ip'.
      ground (
        arith,
        lookup-delete ip ip' st.records,
        lookup-delete ip ip' st.netviews,
        v.netview_of ip',
      );
  cidr_of = λ ip'.
      ground (arith, lookup-delete ip ip' st.records, lookup-delete ip ip' st.cidrs, v.cidr_of ip');
}
