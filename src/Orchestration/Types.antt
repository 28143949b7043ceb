-- ===== src/Orchestration/Types.antt =====
-- pkg/orchestration/types.go: resource keys, specs and the keys of their groups. The mutex of an
-- `IPGroup` is left out: the methods that change the groups hold it from their first to their last
-- statement, so that each is one step.
use f5_ipam_ctlr.Prelude.{
  Bool, Comparable, List, String, [], ap, arith, str_beq_iff, string_eq, true, ◌&&◌, ◌==◌, ◌↔◌, ◌≡◌,
}
use f5_ipam_ctlr.Prelude.GoMap.{GoMap}

-- `resourceKey`
pub record ResourceKey : Type 0 where
  pub kind : String
  pub name : String
  pub namespace : String

-- `GroupKey`
pub record GroupKey : Type 0 where
  pub name : String
  pub netview : String
  pub cidr : String

-- `Spec`
pub record Spec : Type 0 where
  pub kind : String
  pub name : String
  pub namespace : String
  pub hosts : List String
  pub netview : String
  pub cidr : String

-- Go's `==` on `GroupKey`.
unfoldable pub group_key_beq : GroupKey → GroupKey → Bool
group_key_beq a b = a.name == b.name && (a.netview == b.netview && a.cidr == b.cidr)

GroupKey-path : (a b : GroupKey) → a.name ≡ b.name → a.netview ≡ b.netview → a.cidr ≡ b.cidr → a ≡ b
GroupKey-path a b p q r = λ i. record { name = p i; netview = q i; cidr = r i }

pub group_key_beq_iff : (a b : GroupKey) → (group_key_beq a b ≡ true) ↔ (a ≡ b)
unfolding group_key_beq
group_key_beq_iff a b = (
  λ h.
      let p : a.name == b.name ≡ true = ground arith in
      let q : a.netview == b.netview ≡ true = ground arith in
      let r : a.cidr == b.cidr ≡ true = ground arith in
      GroupKey-path a b ((str_beq_iff _ _).0 p) ((str_beq_iff _ _).0 q) ((str_beq_iff _ _).0 r),
  λ e. ground (
    arith,
    (str_beq_iff a.name b.name).1 (ap (λ (k : GroupKey). k.name) e),
    (str_beq_iff a.netview b.netview).1 (ap (λ (k : GroupKey). k.netview) e),
    (str_beq_iff a.cidr b.cidr).1 (ap (λ (k : GroupKey). k.cidr) e),
  ),
)

instance abbrev pub group_key_eq : Comparable GroupKey
group_key_eq = record { equals = group_key_beq; equals_iff = group_key_beq_iff }

-- `IPGroups`
abbrev pub IpGroups : Type 0
IpGroups = GoMap GroupKey (List Spec)

-- `Spec{}`
abbrev pub empty_spec : Spec
empty_spec = record { kind = ""; name = ""; namespace = ""; hosts = []; netview = ""; cidr = "" }

-- `equalsKey`
unfoldable pub equals_key : Spec → ResourceKey → Bool
equals_key spec key =
    spec.kind == key.kind && (spec.name == key.name && spec.namespace == key.namespace)

-- `equals`
unfoldable pub equals : Spec → Spec → Bool
equals spec new_spec =
    spec.kind == new_spec.kind
    && (spec.name == new_spec.name && spec.namespace == new_spec.namespace)
