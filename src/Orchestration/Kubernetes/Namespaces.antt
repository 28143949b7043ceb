-- ===== src/Orchestration/Kubernetes/Namespaces.antt =====
-- The registry of informers in pkg/orchestration/kubernetes.go: which namespaces are watched.
use f5_ipam_ctlr.Prelude.{
  Bool, Bool-cases, Option-cases, String, [], arith, false, inl, inr, is_empty, none, not, refl,
  some, str_beq_iff, string_eq, true, ◌&&◌, ◌==◌, ◌||◌, ◌∷◌, ◌≡◌,
}
use f5_ipam_ctlr.Orchestration.Kubernetes.{
  K8sClient, RsInformer, add_informer, add_namespace, get_resource_informer,
  watching_all_namespaces,
}
use f5_ipam_ctlr.Orchestration.Types.{group_key_eq}
use f5_ipam_ctlr.Prelude.GoMap.{
  GoMap, IsMap, has, insert, insert-IsMap, is_some, lookup, lookup-insert,
}

unfoldable pub watched : K8sClient → String → Bool
unfolding get_resource_informer
watched cl namespace = is_some (get_resource_informer cl namespace)

-- Either all namespaces are watched, by one informer, or none of the informers is for all.
pub data IsRegistry : GoMap String RsInformer → Type 0 where
  all_namespaces : (rs_inf : RsInformer) → IsRegistry (("", rs_inf) ∷ [])
  some_namespaces :
      {infs : GoMap String RsInformer} → IsMap infs → lookup "" infs ≡ none → IsRegistry infs

lookup-not_all :
    (infs : GoMap String RsInformer) → watching_all_namespaces infs ≡ false → lookup "" infs ≡ none
unfolding watching_all_namespaces lookup
lookup-not_all [] h = refl
lookup-not_all (x ∷ infs) h = ground arith

IsMap-registry : (infs : GoMap String RsInformer) → IsRegistry infs → IsMap infs
unfolding lookup
IsMap-registry _ (all_namespaces rs_inf) = (refl, tt)
IsMap-registry _ (some_namespaces m e) = m

add_informer-IsRegistry :
    (infs : GoMap String RsInformer) (namespace : String)
    → IsMap infs
    → lookup "" infs ≡ none
    → namespace == "" ≡ false
    → IsRegistry (add_informer infs namespace).0
unfolding add_informer
add_informer-IsRegistry infs namespace m none_all named =
    elim (Option-cases (lookup namespace infs)) [
      | inl new ↦
          rw (add_informer, new)
            (some_namespaces (insert-IsMap namespace (record { namespace = namespace }) infs m) (
              ground (
                arith,
                lookup-insert namespace "" (record { namespace = namespace }) infs,
                str_beq_iff namespace "",
              )))
      | inr (rs_inf, found) ↦ rw (add_informer, found) (some_namespaces m none_all)
    ]

pub watching_all-has : (infs : GoMap String RsInformer) → watching_all_namespaces infs ≡ has "" infs
unfolding watching_all_namespaces lookup
watching_all-has [] = refl
watching_all-has (x ∷ infs) = refl

add_informer_all :
    (infs : GoMap String RsInformer) → is_empty infs ≡ true → IsRegistry (add_informer infs "").0
unfolding add_informer lookup insert
add_informer_all [] h = all_namespaces (record { namespace = "" })
add_informer_all (x ∷ infs) h = cc

-- The informers that `addNamespace` adds to are for all namespaces only if there are none.
allowed-IsRegistry :
    (infs : GoMap String RsInformer) (namespace : String)
    → IsRegistry infs
    → watching_all_namespaces infs ≡ false
    → not (is_empty infs) && "" == namespace ≡ false
    → IsRegistry (add_informer infs namespace).0
allowed-IsRegistry infs namespace reg not_all allowed = elim (Bool-cases (namespace == "")) [
  | inl same ↦
      let e = (str_beq_iff namespace "").0 same in
      rw e (add_informer_all infs (ground (arith, str_beq_iff "" namespace)))
  | inr named ↦
      add_informer-IsRegistry infs namespace (IsMap-registry infs reg) (lookup-not_all infs not_all)
        named
]

watched-insert :
    (cl : K8sClient) (namespace other : String) (rs_inf : RsInformer)
    → watching_all_namespaces cl.rs_informers ≡ false
    → watched (record cl { rs_informers = insert namespace rs_inf cl.rs_informers }) other
      ≡ (namespace == "" || namespace == other) || watched cl other
unfolding watched get_resource_informer
watched-insert cl namespace other rs_inf not_all =
    let infs = cl.rs_informers in
    ground (
      arith,
      watching_all-has infs,
      watching_all-has (insert namespace rs_inf infs),
      lookup-insert namespace "" rs_inf infs,
      lookup-insert namespace other rs_inf infs,
      str_beq_iff namespace "",
    )

watched_already :
    (cl : K8sClient) (namespace other : String) (rs_inf : RsInformer)
    → watching_all_namespaces cl.rs_informers ≡ false
    → lookup namespace cl.rs_informers ≡ some rs_inf
    → watched cl other ≡ (namespace == "" || namespace == other) || watched cl other
unfolding watched get_resource_informer
watched_already cl namespace other rs_inf not_all found =
    ground (
      arith,
      watching_all-has cl.rs_informers,
      str_beq_iff namespace "",
      str_beq_iff namespace other,
    )

-- A call of addNamespace keeps the registry: either all namespaces are watched, by one informer, or
-- none of the informers is for all.
pub add_namespace-IsRegistry :
    (cl : K8sClient) (namespace : String)
    → IsRegistry cl.rs_informers
    → IsRegistry (add_namespace cl namespace).0.rs_informers
unfolding add_namespace
add_namespace-IsRegistry cl namespace reg =
    elim (Bool-cases (watching_all_namespaces cl.rs_informers)) [
      | inl all ↦ rw (add_namespace, all) reg
      | inr not_all ↦ elim (Bool-cases (not (is_empty cl.rs_informers) && "" == namespace)) [
        | inl refused ↦ rw (add_namespace, not_all, refused) reg
        | inr allowed ↦
            rw (add_namespace, not_all, allowed)
              (allowed-IsRegistry cl.rs_informers namespace reg not_all allowed)
      ]
    ]

-- After an addNamespace that succeeds, the namespace is watched, and so is every namespace if it is
-- ""; every other namespace is watched exactly if it was before.
pub watched-add_namespace :
    (cl : K8sClient) (namespace other : String)
    → is_some (add_namespace cl namespace).1 ≡ true
    → watched (add_namespace cl namespace).0 other
      ≡ (namespace == "" || namespace == other) || watched cl other
unfolding add_namespace add_informer
watched-add_namespace cl namespace other ok =
    let infs = cl.rs_informers in
    elim (Bool-cases (watching_all_namespaces infs)) [
      | inl all ↦ absurd (ground arith)
      | inr not_all ↦ elim (Bool-cases (not (is_empty infs) && "" == namespace)) [
        | inl refused ↦ absurd (ground arith)
        | inr allowed ↦ elim (Option-cases (lookup namespace infs)) [
          | inl new ↦
              rw (add_namespace, not_all, allowed, add_informer, new)
                (watched-insert cl namespace other (record { namespace = namespace }) not_all)
          | inr (rs_inf, found) ↦
              rw (add_namespace, not_all, allowed, add_informer, found)
                (watched_already cl namespace other rs_inf not_all found)
        ]
      ]
    ]
