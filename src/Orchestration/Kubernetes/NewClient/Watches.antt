-- ===== src/Orchestration/Kubernetes/NewClient/Watches.antt =====
-- Which namespaces a new client of pkg/orchestration/kubernetes.go watches.
use f5_ipam_ctlr.Prelude.{
  Bool, Bool-cases, List, Option, Option-cases, String, [], arith, contains, false, if◌then◌else◌,
  inl, inr, is_empty, none, not, refl, str_beq, str_beq_iff, string_eq, true, ◌&&◌, ◌==◌, ◌||◌, ◌∙◌,
  ◌∷◌, ◌≡◌,
}
use f5_ipam_ctlr.Orchestration.Kubernetes.{
  K8sClient, RsInformer, add_informer, add_namespace, add_namespace_label_informer,
  get_resource_informer, watching_all_namespaces,
}
use f5_ipam_ctlr.Orchestration.Kubernetes.NamespaceSync.{add_namespace_new}
use f5_ipam_ctlr.Orchestration.Kubernetes.Namespaces.{
  watched, watched-add_namespace, watching_all-has,
}
use f5_ipam_ctlr.Orchestration.Kubernetes.NewClient.{
  KubeParams, add_namespaces, create_label, empty_client, new_kubernetes_client, watch_namespaces,
}
use f5_ipam_ctlr.Orchestration.Types.{group_key_eq}
use f5_ipam_ctlr.Prelude.GoMap.{GoMap, insert, lookup, lookup-insert, lookup_empty}

-- A registry with informers for single namespaces.
record IsNarrow (cl : K8sClient) : Type 0 where
  not_all : watching_all_namespaces cl.rs_informers ≡ false
  has_some : is_empty cl.rs_informers ≡ false

insert_nonempty :
    (k : String) (v : RsInformer) (m : GoMap String RsInformer) → is_empty (insert k v m) ≡ false
unfolding insert
insert_nonempty k v [] = refl
insert_nonempty k v ((j, w) ∷ m) = ground arith

add_namespace_refused : (cl : K8sClient) → IsNarrow cl → (add_namespace cl "").0 ≡ cl
unfolding add_namespace str_beq
add_namespace_refused cl n = rw (add_namespace, n.not_all, n.has_some) refl

add_namespace-IsNarrow :
    (cl : K8sClient) (namespace : String)
    → watching_all_namespaces cl.rs_informers ≡ false
    → namespace == "" ≡ false
    → IsNarrow (add_namespace cl namespace).0
unfolding add_namespace add_informer
add_namespace-IsNarrow cl namespace not_all single =
    let infs = cl.rs_informers in
    let allowed : not (is_empty infs) && "" == namespace ≡ false =
      ground (arith, str_beq_iff "" namespace, str_beq_iff namespace "") in
    elim (Option-cases (lookup namespace infs)) [
      | inl new ↦
          rw (add_namespace, not_all, allowed, add_informer, new)
            (record {
              not_all = ground (
                arith,
                watching_all-has infs,
                watching_all-has (insert namespace (record { namespace = namespace }) infs),
                lookup-insert namespace "" (record { namespace = namespace }) infs,
              );
              has_some = insert_nonempty namespace (record { namespace = namespace }) infs;
            })
      | inr (rs_inf, found) ↦
          rw (add_namespace, not_all, allowed, add_informer, found)
            (record {
              not_all = not_all;
              has_some = ground (arith, lookup_empty namespace infs, found);
            })
    ]

add_namespaces_narrow :
    (cl : K8sClient) (namespaces : List String) (other : String)
    → IsNarrow cl
    → watched (add_namespaces cl namespaces) other
      ≡ (contains namespaces other && not (other == "")) || watched cl other
unfolding add_namespaces contains
add_namespaces_narrow cl [] other n = refl
add_namespaces_narrow cl (namespace ∷ namespaces) other n = elim (Bool-cases (namespace == "")) [
  | inl all ↦
      let e = (str_beq_iff namespace "").0 all in
      rw (e, add_namespaces, add_namespace_refused cl n)
        (ground (
          arith,
          add_namespaces_narrow cl namespaces other n,
          str_beq_iff "" other,
          str_beq_iff other "",
        ))
  | inr single ↦
      let cl' = (add_namespace cl namespace).0 in
      let n' = add_namespace-IsNarrow cl namespace n.not_all single in
      let ok = add_namespace_new cl namespace n.not_all single in
      ground (
        arith,
        add_namespaces_narrow cl' namespaces other n',
        watched-add_namespace cl namespace other ok,
        str_beq_iff namespace other,
        str_beq_iff namespace "",
        str_beq_iff other "",
      )
]

add_namespaces_all :
    (cl : K8sClient) (namespaces : List String)
    → watching_all_namespaces cl.rs_informers ≡ true
    → add_namespaces cl namespaces ≡ cl
unfolding add_namespaces add_namespace
add_namespaces_all cl [] all = refl
add_namespaces_all cl (namespace ∷ namespaces) all =
    rw (add_namespaces, add_namespace, all) (add_namespaces_all cl namespaces all)

abbrev pub starts_with_all : List String → Bool
starts_with_all [] = true
starts_with_all (namespace ∷ namespaces) = namespace == ""

all_client : watching_all_namespaces (add_namespace empty_client "").0.rs_informers ≡ true
unfolding add_namespace add_informer watching_all_namespaces insert lookup str_beq
all_client = refl

watched-all_client : (other : String) → watched (add_namespace empty_client "").0 other ≡ true
unfolding watched get_resource_informer add_namespace add_informer watching_all_namespaces insert
    lookup str_beq
watched-all_client other = refl

watched-empty_client : (other : String) → watched empty_client other ≡ false
unfolding watched get_resource_informer watching_all_namespaces lookup
watched-empty_client other = refl

add_namespaces_empty :
    (namespace : String) (namespaces : List String) (other : String)
    → watched (add_namespaces empty_client (namespace ∷ namespaces)) other
      ≡ namespace == "" || (contains (namespace ∷ namespaces) other && not (other == ""))
unfolding add_namespaces contains watching_all_namespaces
add_namespaces_empty namespace namespaces other = elim (Bool-cases (namespace == "")) [
  | inl all ↦
      let e = (str_beq_iff namespace "").0 all in
      let cl = (add_namespace empty_client "").0 in
      let same : add_namespaces empty_client (namespace ∷ namespaces) ≡ cl =
        rw (e, add_namespaces) (add_namespaces_all cl namespaces all_client) in
      rw (same, watched-all_client other, all) refl
  | inr single ↦
      let cl = (add_namespace empty_client namespace).0 in
      let n = add_namespace-IsNarrow empty_client namespace refl single in
      let ok = add_namespace_new empty_client namespace refl single in
      ground (
        arith,
        add_namespaces_narrow cl namespaces other n,
        watched-add_namespace empty_client namespace other ok,
        watched-empty_client other,
        str_beq_iff namespace other,
        str_beq_iff namespace "",
        str_beq_iff other "",
      )
]

watched-label_client :
    (other : String) → watched (add_namespace_label_informer empty_client).0 other ≡ false
unfolding watched get_resource_informer watching_all_namespaces lookup add_namespace_label_informer
watched-label_client other = refl

watched-watch_namespaces :
    (namespaces : List String) (other : String)
    → watched (watch_namespaces namespaces) other
      ≡ starts_with_all namespaces || (contains namespaces other && not (other == ""))
unfolding watch_namespaces contains
watched-watch_namespaces [] other = watched-all_client other
watched-watch_namespaces (namespace ∷ namespaces) other =
    add_namespaces_empty namespace namespaces other

has_ns_informer-add_namespace :
    (cl : K8sClient) (namespace : String)
    → (add_namespace cl namespace).0.has_ns_informer ≡ cl.has_ns_informer
unfolding add_namespace
has_ns_informer-add_namespace cl namespace = ground arith

has_ns_informer-add_namespaces :
    (cl : K8sClient) (namespaces : List String)
    → (add_namespaces cl namespaces).has_ns_informer ≡ cl.has_ns_informer
unfolding add_namespaces
has_ns_informer-add_namespaces cl [] = refl
has_ns_informer-add_namespaces cl (namespace ∷ namespaces) =
    has_ns_informer-add_namespaces (add_namespace cl namespace).0 namespaces
    ∙ has_ns_informer-add_namespace cl namespace

has_ns_informer-watch_namespaces :
    (namespaces : List String) → (watch_namespaces namespaces).has_ns_informer ≡ false
unfolding watch_namespaces
has_ns_informer-watch_namespaces [] = has_ns_informer-add_namespace empty_client ""
has_ns_informer-watch_namespaces (namespace ∷ namespaces) =
    has_ns_informer-add_namespaces empty_client (namespace ∷ namespaces)

module _ {Selector : Type 0} (everything : Selector) (parse : String → Option Selector) where
  -- Without a label, a new client watches all namespaces if none is named or the first name is "", and
  -- otherwise exactly the namespaces that are named, "" left out. With a label, it watches no
  -- namespace yet, and its informer of namespaces has the selector of the label, which is nil if the
  -- label cannot be parsed.
  pub new_kubernetes_client_watches :
      (params : KubeParams) (other : String)
      → let made = new_kubernetes_client everything parse params in
        (watched made.0 other
          ≡ params.namespace_label == ""
            && (starts_with_all params.namespaces
                || (contains params.namespaces other && not (other == ""))))
        × (made.0.has_ns_informer ≡ not (params.namespace_label == ""))
        × (made.1 ≡ (if params.namespace_label == "" then none else parse params.namespace_label))
  unfolding new_kubernetes_client add_namespace_label_informer
  new_kubernetes_client_watches params other = elim (Bool-cases (params.namespace_label == "")) [
    | inl no_label ↦
        rw (new_kubernetes_client, no_label)
          (
            watched-watch_namespaces params.namespaces other,
            has_ns_informer-watch_namespaces params.namespaces,
            refl,
          )
    | inr label ↦
        rw (new_kubernetes_client, label, create_label) (watched-label_client other, refl, refl)
  ]
