-- ===== src/Orchestration/Kubernetes/Annotate.antt =====
-- `AnnotateResources` of pkg/orchestration/kubernetes.go. The API server is an interface: a record
-- of its calls and of what they promise while nobody else writes.
pub mod Exact
pub mod Panics
use f5_ipam_ctlr.Prelude.{
  Bool, Comparable, List, Option, String, [], ap, arith, if◌then◌else◌, none, some, str_beq_iff,
  string_eq, true, ◌&&◌, ◌==◌, ◌||◌, ◌↔◌, ◌∷◌, ◌≡◌,
}
use f5_ipam_ctlr.Controller.{a, get_or_empty}
use f5_ipam_ctlr.Orchestration.IpGroup.{get_specs_with_hosts}
use f5_ipam_ctlr.Orchestration.Types.{IpGroups, ResourceKey, Spec, equals, group_key_eq}
use f5_ipam_ctlr.Prelude.GoMap.{GoMap, insert, lookup}

abbrev pub ip_annotation : String
ip_annotation = "virtual-server.f5.com/ip"

unfoldable pub resource_key_beq : ResourceKey → ResourceKey → Bool
resource_key_beq a b = a.kind == b.kind && (a.name == b.name && a.namespace == b.namespace)

ResourceKey-path :
    (a b : ResourceKey) → a.kind ≡ b.kind → a.name ≡ b.name → a.namespace ≡ b.namespace → a ≡ b
ResourceKey-path a b p q r = λ i. record { kind = p i; name = q i; namespace = r i }

pub resource_key_beq_iff : (a b : ResourceKey) → (resource_key_beq a b ≡ true) ↔ (a ≡ b)
unfolding resource_key_beq
resource_key_beq_iff a b = (
  λ h.
      let p : a.kind == b.kind ≡ true = ground arith in
      let q : a.name == b.name ≡ true = ground arith in
      let r : a.namespace == b.namespace ≡ true = ground arith in
      ResourceKey-path a b ((str_beq_iff _ _).0 p) ((str_beq_iff _ _).0 q) ((str_beq_iff _ _).0 r),
  λ e. ground (
    arith,
    (str_beq_iff a.kind b.kind).1 (ap (λ (k : ResourceKey). k.kind) e),
    (str_beq_iff a.name b.name).1 (ap (λ (k : ResourceKey). k.name) e),
    (str_beq_iff a.namespace b.namespace).1 (ap (λ (k : ResourceKey). k.namespace) e),
  ),
)

instance abbrev pub resource_key_eq : Comparable ResourceKey
resource_key_eq = record { equals = resource_key_beq; equals_iff = resource_key_beq_iff }

-- The annotations of a resource; `none` is a nil map.
abbrev pub Annotations : Type 0
Annotations = Option (GoMap String String)

-- `Get` and `Update` of ConfigMaps and Ingresses by their kinds, names and namespaces; `none` is an
-- error. An update is read back, and leaves the other resources alone.
pub record ResourceApi : Type 1 where
  pub Api : Type 0
  pub get : Api → ResourceKey → Option Annotations
  pub update : Api → ResourceKey → GoMap String String → Option Api
  pub get-update :
      (s s' : Api) (key read : ResourceKey) (annotations : GoMap String String)
      → update s key annotations ≡ some s'
      → get s' read ≡ (if key == read then some (some annotations) else get s read)

-- `Annotations[ipAnnotation]`
abbrev pub ip_of : Annotations → String
ip_of none = ""
ip_of (some annotations) = get_or_empty (lookup ip_annotation annotations)

abbrev pub key_of_spec : Spec → ResourceKey
key_of_spec spec = record { kind = spec.kind; name = spec.name; namespace = spec.namespace }

module _ (api : ResourceApi) (ip : String) where
  -- The assignment to the map, which panics if the map is nil, and the update.
  unfoldable pub write_annotation : api.Api → ResourceKey → Annotations → Option api.Api
  write_annotation s key none = none
  write_annotation s key (some annotations) =
      elim (api.update s key (insert ip_annotation ip annotations)) [
        | none ↦ some s
        | some s' ↦ some s'
      ]

  unfoldable pub annotate_resource : api.Api → ResourceKey → Option api.Api
  unfolding write_annotation
  annotate_resource s key = elim (api.get s key) [
    | none ↦ some s
    | some annotations ↦
        if ip_of annotations == ip then some s else write_annotation s key annotations
  ]

  -- The two branches of the loop read and write alike, each with its kind.
  unfoldable pub annotate_spec : api.Api → Spec → Option api.Api
  unfolding annotate_resource
  annotate_spec s spec =
      if spec.kind == "ConfigMap" || spec.kind == "Ingress"
      then annotate_resource s (key_of_spec spec)
      else some s

  unfoldable pub annotate_loop : api.Api → List Spec → Option api.Api
  unfolding annotate_spec
  annotate_loop s [] = some s
  annotate_loop s (spec ∷ specs) = elim (annotate_spec s spec) [
    | none ↦ none
    | some s' ↦ annotate_loop s' specs
  ]

  -- `AnnotateResources`; `none` is a panic.
  unfoldable pub annotate_resources : IpGroups → List String → api.Api → Option api.Api
  unfolding annotate_loop
  annotate_resources groups hosts s = elim (get_specs_with_hosts groups hosts) [
    | none ↦ none
    | some specs ↦ annotate_loop s specs
  ]
