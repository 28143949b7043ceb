-- ===== src/Orchestration/Kubernetes/Sound.antt =====
-- What holds of the Kubernetes client of pkg/orchestration/kubernetes.go after any steps of its
-- goroutines.
use f5_ipam_ctlr.Prelude.{
  Bool-cases, List, Option, String, [], arith, false, inl, inr, is_empty, not, refl, string_eq, sym,
  true, ◌&&◌, ◌==◌, ◌||◌, ◌∙◌, ◌∷◌, ◌≡◌,
}
use f5_ipam_ctlr.Orchestration.IpGroup.Add.{IsGroups, add_to_ip_group-IsGroups}
use f5_ipam_ctlr.Orchestration.IpGroup.Named.{
  named-add_to_ip_group, named-remove_from_ip_group, named-remove_host,
}
use f5_ipam_ctlr.Orchestration.IpGroup.Remove.{named, remove_from_ip_group-IsGroups}
use f5_ipam_ctlr.Orchestration.IpGroup.RemoveHost.{remove_host-IsGroups}
use f5_ipam_ctlr.Orchestration.Kubernetes.{
  Fate, K8sClient, RsInformer, add_namespace, add_namespace_label_informer, no_channel, not_encoded,
  remove_resource_informers, send, taken, timed_out, watching_all_namespaces, write_ip_groups,
  written,
}
use f5_ipam_ctlr.Orchestration.Kubernetes.Namespaces.{
  IsRegistry, add_namespace-IsRegistry, all_namespaces, some_namespaces,
}
use f5_ipam_ctlr.Orchestration.Kubernetes.NewClient.{
  KubeParams, add_namespaces, empty_client, new_kubernetes_client, watch_namespaces,
}
use f5_ipam_ctlr.Orchestration.Kubernetes.Steps.{
  Step, Steps, adds_label, adds_namespace, adds_spec, marks, no_step, queues, removes_host,
  removes_namespace, removes_spec, then_step, writes,
}
use f5_ipam_ctlr.Orchestration.Types.{IpGroups, group_key_eq}
use f5_ipam_ctlr.Prelude.GoMap.{GoMap, delete, delete-IsMap, has, lookup, lookup-delete}

-- Every message has well-formed groups.
abbrev pub AllGroups : List IpGroups → Type 0
AllGroups [] = Unit
AllGroups (message ∷ messages) = IsGroups message × AllGroups messages

-- The groups are well formed and every spec has a kind, and so were the groups of every message that
-- was received; the registry is well formed; nothing is received before the initial state is set.
pub record IsSound (cl : K8sClient) : Type 0 where
  pub groups : IsGroups cl.ip_group
  pub kinds : named cl.ip_group ≡ true
  pub registry : IsRegistry cl.rs_informers
  pub messages : AllGroups cl.received
  pub silent : cl.initial_state ≡ false → cl.received ≡ []

IsRegistry-delete :
    (infs : GoMap String RsInformer) (namespace : String)
    → IsRegistry infs
    → IsRegistry (delete namespace infs)
unfolding delete lookup
IsRegistry-delete _ namespace (all_namespaces rs_inf) = elim (Bool-cases ("" == namespace)) [
  | inl same ↦ rw same (some_namespaces tt refl)
  | inr other ↦ rw other (all_namespaces rs_inf)
]
IsRegistry-delete infs namespace (some_namespaces m e) =
    some_namespaces (delete-IsMap namespace infs m)
      (ground (arith, lookup-delete namespace "" infs))

written-IsSound : (cl : K8sClient) → IsSound cl → IsSound (written cl)
written-IsSound cl i = record {
  groups = i.groups;
  kinds = i.kinds;
  registry = i.registry;
  messages = i.messages;
  silent = λ h. cc h;
}

send-IsSound : (cl : K8sClient) (f : Fate) → IsSound cl → IsSound (send cl f)
unfolding send
send-IsSound cl no_channel i = written-IsSound cl i
send-IsSound cl not_encoded i = i
send-IsSound cl taken i = record {
  groups = i.groups;
  kinds = i.kinds;
  registry = i.registry;
  messages = (i.groups, i.messages);
  silent = λ h. cc h;
}
send-IsSound cl timed_out i = written-IsSound cl i

regroup :
    (cl : K8sClient) (groups : IpGroups)
    → IsSound cl
    → IsGroups groups
    → named groups ≡ true
    → IsSound (record cl { ip_group = groups })
regroup cl groups i g n = record {
  groups = g;
  kinds = n;
  registry = i.registry;
  messages = i.messages;
  silent = i.silent;
}

-- What `addNamespace` and the others do to the registry leaves the other fields alone.
add_namespace-others :
    (cl : K8sClient) (namespace : String)
    → (add_namespace cl namespace).0
      ≡ record cl { rs_informers = (add_namespace cl namespace).0.rs_informers }
unfolding add_namespace
add_namespace-others cl namespace = elim (Bool-cases (watching_all_namespaces cl.rs_informers)) [
  | inl all ↦ rw (add_namespace, all) refl
  | inr not_all ↦ elim (Bool-cases (not (is_empty cl.rs_informers) && "" == namespace)) [
    | inl refused ↦ rw (add_namespace, not_all, refused) refl
    | inr allowed ↦ rw (add_namespace, not_all, allowed) refl
  ]
]

reinform :
    (cl : K8sClient) (infs : GoMap String RsInformer)
    → IsSound cl
    → IsRegistry infs
    → IsSound (record cl { rs_informers = infs })
reinform cl infs i r = record {
  groups = i.groups;
  kinds = i.kinds;
  registry = r;
  messages = i.messages;
  silent = i.silent;
}

-- The fields that soundness does not read are free.
same-IsSound :
    (cl cl' : K8sClient)
    → cl'.ip_group ≡ cl.ip_group
    → cl'.rs_informers ≡ cl.rs_informers
    → cl'.received ≡ cl.received
    → cl'.initial_state ≡ cl.initial_state
    → IsSound cl
    → IsSound cl'
same-IsSound cl cl' g r m s i = record {
  groups = rw g i.groups;
  kinds = rw g i.kinds;
  registry = rw r i.registry;
  messages = rw m i.messages;
  silent = λ h. rw m (i.silent (sym s ∙ h));
}

Step-IsSound : (cl cl' : K8sClient) → Step cl cl' → IsSound cl → IsSound cl'
unfolding write_ip_groups remove_resource_informers add_namespace_label_informer
Step-IsSound cl _ (adds_spec _ g_key kind rs_name namespace hosts e) i =
    regroup cl _ i
      (add_to_ip_group-IsGroups cl.ip_group g_key kind rs_name namespace hosts i.groups)
      (named-add_to_ip_group cl.ip_group g_key kind rs_name namespace hosts i.kinds e)
Step-IsSound cl _ (removes_spec _ spec) i =
    regroup cl _ i (remove_from_ip_group-IsGroups cl.ip_group spec i.groups i.kinds)
      (named-remove_from_ip_group cl.ip_group spec i.kinds)
Step-IsSound cl _ (removes_host _ host key) i =
    regroup cl _ i (remove_host-IsGroups cl.ip_group host key i.groups)
      (named-remove_host cl.ip_group host key ∙ i.kinds)
Step-IsSound cl _ (marks _ b) i = same-IsSound cl _ refl refl refl refl i
Step-IsSound cl _ (queues _ key) i = same-IsSound cl _ refl refl refl refl i
Step-IsSound cl _ (writes _ s) i = elim (Bool-cases (s.quiet || cl.initial_state)) [
  | inl due ↦ rw (write_ip_groups, due) (send-IsSound cl s.fate i)
  | inr waits ↦ rw (write_ip_groups, waits) i
]
Step-IsSound cl _ (adds_namespace _ namespace) i =
    rw (add_namespace-others cl namespace)
      (reinform cl _ i (add_namespace-IsRegistry cl namespace i.registry))
Step-IsSound cl _ (adds_label _) i =
    elim (Bool-cases (cl.has_ns_informer || not (is_empty cl.rs_informers))) [
      | inl refused ↦ rw (add_namespace_label_informer, refused) i
      | inr added ↦
          rw (add_namespace_label_informer, added) (same-IsSound cl _ refl refl refl refl i)
    ]
Step-IsSound cl _ (removes_namespace _ namespace) i =
    elim (Bool-cases (not (has namespace cl.rs_informers))) [
      | inl missing ↦ rw (remove_resource_informers, missing) i
      | inr found ↦
          rw (remove_resource_informers, found)
            (reinform cl _ i (IsRegistry-delete cl.rs_informers namespace i.registry))
    ]

Steps-IsSound : (cl cl' : K8sClient) → Steps cl cl' → IsSound cl → IsSound cl'
Steps-IsSound cl _ (no_step _) i = i
Steps-IsSound cl cl' (then_step {next = next} earlier s) i =
    Step-IsSound next cl' s (Steps-IsSound cl next earlier i)

empty_client-IsSound : IsSound empty_client
unfolding named lookup
empty_client-IsSound = record {
  groups = record { groups_map = tt; each = λ k grp e. cc e };
  kinds = refl;
  registry = some_namespaces tt refl;
  messages = tt;
  silent = λ h. refl;
}

add_namespaces-IsSound :
    (cl : K8sClient) (namespaces : List String)
    → IsSound cl
    → IsSound (add_namespaces cl namespaces)
unfolding add_namespaces
add_namespaces-IsSound cl [] i = i
add_namespaces-IsSound cl (namespace ∷ namespaces) i =
    add_namespaces-IsSound (add_namespace cl namespace).0 namespaces
      (Step-IsSound cl _ (adds_namespace cl namespace) i)

watch_namespaces-IsSound : (namespaces : List String) → IsSound (watch_namespaces namespaces)
unfolding watch_namespaces
watch_namespaces-IsSound [] =
    Step-IsSound empty_client _ (adds_namespace empty_client "") empty_client-IsSound
watch_namespaces-IsSound (namespace ∷ namespaces) =
    add_namespaces-IsSound empty_client (namespace ∷ namespaces) empty_client-IsSound

module _ {Selector : Type 0} (everything : Selector) (parse : String → Option Selector) where
  -- After any steps of the goroutines of a new client, in every interleaving, its groups are well
  -- formed and their specs have kinds, so were the groups of every message that the controller has
  -- received, the registry is for all namespaces or for single ones but never both, and the controller has received nothing
  -- before the initial state is set.
  pub new_kubernetes_client-IsSound :
      (params : KubeParams) (cl : K8sClient)
      → Steps (new_kubernetes_client everything parse params).0 cl
      → IsSound cl
  unfolding new_kubernetes_client
  new_kubernetes_client-IsSound params cl steps =
      let start : IsSound (new_kubernetes_client everything parse params).0 =
        elim (Bool-cases (params.namespace_label == "")) [
          | inl no_label ↦
              rw (new_kubernetes_client, no_label) (watch_namespaces-IsSound params.namespaces)
          | inr label ↦
              rw (new_kubernetes_client, label)
                (Step-IsSound empty_client _ (adds_label empty_client) empty_client-IsSound)
        ] in
      Steps-IsSound _ cl steps start
