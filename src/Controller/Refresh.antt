-- ===== src/Controller/Refresh.antt =====
-- `refreshStore`: the store of the controller follows the records of the IPAM system.
use f5_ipam_ctlr.Prelude.{
  Bool, Bool-cases, Option, Option-cases, String, [], ap, arith, inl, inr, none, refl, some,
  str_beq, str_beq_iff, string_eq, true, ◌==◌, ◌∷◌, ◌≡◌,
}
use f5_ipam_ctlr.Controller.{Controller}
use f5_ipam_ctlr.Controller.Run.{deep_equal, map_equal, refresh_store, sub_map}
use f5_ipam_ctlr.Manager.{Client}
use f5_ipam_ctlr.Prelude.GoMap.{GoMap, lookup}
use f5_ipam_ctlr.Store.{HostSet, Store}
use f5_ipam_ctlr.Store.View.{host_type, type_of}

module _ {V : Type 0} (eq : V → V → Bool) where
  sub_map-lookup :
      (m n : GoMap String V) (k : String) (v : V)
      → sub_map eq m n ≡ true
      → lookup k m ≡ some v
      → (w : V) × (lookup k n ≡ some w) × (eq v w ≡ true)
  unfolding sub_map lookup
  sub_map-lookup [] n k v h e = cc
  sub_map-lookup ((j, u) ∷ m) n k v h e = elim (Bool-cases (j == k)) [
    | inl same ↦ elim (Option-cases (lookup j n)) [
      | inl miss ↦ absurd (ground arith)
      | inr (w, found) ↦ (w, ground (arith, str_beq_iff j k), ground arith)
    ]
    | inr other ↦ sub_map-lookup m n k v (ground arith) (rw other at e)
  ]

-- What two lookups in equal maps give.
data Same {V : Type 0} (eq : V → V → Bool) : Option V → Option V → Type 0 where
  neither : Same eq none none
  both : {v w : V} → eq v w ≡ true → Same eq (some v) (some w)

map_equal-lookup :
    {V : Type 0} (eq : V → V → Bool) (m n : GoMap String V) (k : String)
    → map_equal eq m n ≡ true
    → Same eq (lookup k m) (lookup k n)
unfolding map_equal
map_equal-lookup eq m n k h = elim (Option-cases (lookup k m)) [
  | inr (v, found) ↦
      let (w, at, e) = sub_map-lookup eq m n k v (ground arith) found in rw (found, at) (both e)
  | inl miss ↦ elim (Option-cases (lookup k n)) [
    | inl none_too ↦ rw (miss, none_too) neither
    | inr (w, found) ↦
        let (v, at, e) = sub_map-lookup (λ x y. eq y x) n m k w (ground arith) found in
        cc (miss, at)
  ]
]

Same-eq : (o p : Option String) → Same str_beq o p → o ≡ p
Same-eq _ _ neither = refl
Same-eq _ _ (both {v} {w} e) = ap some ((str_beq_iff v w).0 e)

Same-host_type :
    (o p : Option HostSet) (host : String)
    → Same (map_equal str_beq) o p
    → host_type o host ≡ host_type p host
Same-host_type _ _ host neither = refl
Same-host_type _ _ host (both {v} {w} e) =
    Same-eq (lookup host v) (lookup host w) (map_equal-lookup str_beq v w host e)

-- Two stores that a reader cannot tell apart.
pub record SameStore (s t : Store) : Type 0 where
  pub types : (ip host : String) → type_of s ip host ≡ type_of t ip host
  pub netviews : (ip : String) → lookup ip s.netviews ≡ lookup ip t.netviews
  pub cidrs : (ip : String) → lookup ip s.cidrs ≡ lookup ip t.cidrs

deep_equal-SameStore : (s t : Store) → deep_equal s t ≡ true → SameStore s t
unfolding deep_equal type_of
deep_equal-SameStore s t h = record {
  types = λ ip host.
      Same-host_type _ _ host
        (map_equal-lookup (map_equal str_beq) s.records t.records ip (ground arith));
  netviews = λ ip. Same-eq _ _ (map_equal-lookup str_beq s.netviews t.netviews ip (ground arith));
  cidrs = λ ip. Same-eq _ _ (map_equal-lookup str_beq s.cidrs t.cidrs ip (ground arith));
}

-- After `refreshStore` the store reads as the records that the IPAM system returned, whether or not
-- the call found a difference.
pub refresh_store-SameStore :
    (c : Client) (ctlr : Controller)
    → SameStore (refresh_store c ctlr).0.store (c.on_get_records ctlr.log)
unfolding refresh_store
refresh_store-SameStore c ctlr =
    let ipam = c.on_get_records ctlr.log in
    elim (Bool-cases (deep_equal ctlr.store ipam)) [
      | inl same ↦ rw same (deep_equal-SameStore ctlr.store ipam same)
      | inr differ ↦
          rw differ (record { types = λ ip host. refl; netviews = λ ip. refl; cidrs = λ ip. refl })
    ]
