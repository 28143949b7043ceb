-- ===== src/Orchestration/Kubernetes/Annotate/Panics.antt =====
-- When `AnnotateResources` of pkg/orchestration/kubernetes.go panics, and what it does otherwise.
use f5_ipam_ctlr.Prelude.{
  Bool, Bool-cases, List, Option, Option-cases, String, [], arith, false, if◌then◌else◌, inl, inr,
  none, not, refl, some, str_beq_iff, str_beq_refl, string_eq, true, ◌&&◌, ◌==◌, ◌||◌, ◌↔◌, ◌∙◌,
  ◌∷◌, ◌≡◌,
}
use f5_ipam_ctlr.Orchestration.IpGroup.{get_specs_with_hosts}
use f5_ipam_ctlr.Orchestration.IpGroup.Query.{
  all_have_hosts, all_specs, get_specs_with_hosts-led_by, led_by,
}
use f5_ipam_ctlr.Orchestration.Kubernetes.Annotate.{
  Annotations, ResourceApi, annotate_loop, annotate_resource, annotate_resources, annotate_spec,
  ip_annotation, ip_of, key_of_spec, resource_key_beq_iff, resource_key_eq, write_annotation,
}
use f5_ipam_ctlr.Orchestration.Kubernetes.Annotate.Exact.{
  Writes, annotate_loop-get, annotate_spec-get, is_reached, reached, with_ip,
}
use f5_ipam_ctlr.Orchestration.Types.{IpGroups, ResourceKey, Spec, group_key_eq}
use f5_ipam_ctlr.Prelude.GoMap.{insert, lookup-insert_self}

abbrev pub is_nil : Option Annotations → Bool
is_nil none = false
is_nil (some none) = true
is_nil (some (some m)) = false

module _ (api : ResourceApi) (ip : String) where
  -- One of the specs is for a resource that has no annotations at all.
  unfoldable pub nil_among : api.Api → List Spec → Bool
  nil_among s [] = false
  nil_among s (spec ∷ specs) =
      ((spec.kind == "ConfigMap" || spec.kind == "Ingress")
        && is_nil (api.get s (key_of_spec spec)))
      || nil_among s specs

  is_nil-with_ip : (x : Option Annotations) → is_nil (with_ip ip x) ≡ is_nil x
  is_nil-with_ip none = refl
  is_nil-with_ip (some none) = refl
  is_nil-with_ip (some (some m)) = refl

  annotate_spec_panics :
      (s : api.Api) (spec : Spec)
      → ip == "" ≡ false
      → (annotate_spec api ip s spec ≡ none) ↔ (nil_among s (spec ∷ []) ≡ true)
  unfolding annotate_spec annotate_resource write_annotation nil_among
  annotate_spec_panics s spec has_ip = elim (Option-cases (api.get s (key_of_spec spec))) [
    | inl lost ↦ ground (arith, lost)
    | inr (none, found) ↦ ground (arith, found, str_beq_iff "" ip, str_beq_iff ip "")
    | inr (some m, found) ↦
        elim (Option-cases (api.update s (key_of_spec spec) (insert ip_annotation ip m))) [
          | inl refused ↦ ground (arith, found, refused)
          | inr (s1, ends) ↦ ground (arith, found, ends)
        ]
  ]

  -- The code would not write the resource.
  abbrev settled : Option Annotations → Bool
  settled none = true
  settled (some annotations) = ip_of annotations == ip

  nil_among_kept :
      (s s' : api.Api) (spec : Spec) (specs : List Spec)
      → Writes api
      → annotate_spec api ip s spec ≡ some s'
      → nil_among s' specs ≡ nil_among s specs
  unfolding nil_among
  nil_among_kept s s' spec [] writes e = refl
  nil_among_kept s s' spec (other ∷ specs) writes e = ground (
    arith,
    annotate_spec-get api ip s s' spec (key_of_spec other) writes e,
    is_nil-with_ip (api.get s (key_of_spec other)),
    nil_among_kept s s' spec specs writes e,
  )

  annotate_loop_panics :
      (s : api.Api) (specs : List Spec)
      → Writes api
      → ip == "" ≡ false
      → (annotate_loop api ip s specs ≡ none) ↔ (nil_among s specs ≡ true)
  unfolding annotate_loop nil_among
  annotate_loop_panics s [] writes has_ip = ground arith
  annotate_loop_panics s (spec ∷ specs) writes has_ip =
      elim (Option-cases (annotate_spec api ip s spec)) [
        | inl panicked ↦ ground (arith, panicked, annotate_spec_panics s spec has_ip)
        | inr (s1, first) ↦ ground (
          arith,
          first,
          annotate_spec_panics s spec has_ip,
          nil_among_kept s s1 spec specs writes first,
          annotate_loop_panics s1 specs writes has_ip,
        )
      ]

  annotate_loop_again :
      (s : api.Api) (specs : List Spec)
      → ((key : ResourceKey) → reached specs key ≡ true → settled (api.get s key) ≡ true)
      → annotate_loop api ip s specs ≡ some s
  unfolding annotate_loop reached annotate_spec annotate_resource
  annotate_loop_again s [] done = refl
  annotate_loop_again s (spec ∷ specs) done =
      let fine = done (key_of_spec spec) in
      let others = annotate_loop_again s specs (λ key h. done key (ground (arith, h))) in
      elim (Bool-cases (spec.kind == "ConfigMap" || spec.kind == "Ingress")) [
        | inr other ↦ rw (annotate_loop, annotate_spec, other) others
        | inl known ↦ elim (Option-cases (api.get s (key_of_spec spec))) [
          | inl lost ↦ rw (annotate_loop, annotate_spec, known, annotate_resource, lost) others
          | inr (m, found) ↦
              let equal : ip_of m == ip ≡ true = ground (
                arith,
                fine,
                known,
                found,
                resource_key_beq_iff (key_of_spec spec) (key_of_spec spec),
              ) in
              rw (annotate_loop, annotate_spec, known, annotate_resource, found, equal) others
        ]
      ]

  settled-with_ip : (x : Option Annotations) → is_nil x ≡ false → settled (with_ip ip x) ≡ true
  settled-with_ip none h = refl
  settled-with_ip (some none) h = cc h
  settled-with_ip (some (some m)) h =
      ground (arith, lookup-insert_self ip_annotation ip m, str_beq_refl ip)

  nil_among-reached :
      (s : api.Api) (specs : List Spec) (key : ResourceKey)
      → reached specs key ≡ true
      → is_nil (api.get s key) ≡ true
      → nil_among s specs ≡ true
  unfolding reached nil_among
  nil_among-reached s [] key r h = cc r
  nil_among-reached s (spec ∷ specs) key r h = elim (Bool-cases (is_reached spec key)) [
    | inl here ↦
        let same : key_of_spec spec ≡ key = (resource_key_beq_iff _ _).0 (ground (arith, here)) in
        let nil : is_nil (api.get s (key_of_spec spec)) ≡ true = rw same h in
        ground (arith, here, nil)
    | inr elsewhere ↦ ground (arith, nil_among-reached s specs key)
  ]

  annotate_loop_settles :
      (s s' : api.Api) (specs : List Spec)
      → Writes api
      → ip == "" ≡ false
      → annotate_loop api ip s specs ≡ some s'
      → annotate_loop api ip s' specs ≡ some s'
  annotate_loop_settles s s' specs writes has_ip e = annotate_loop_again s' specs (λ key r. ground (
    arith,
    annotate_loop-get api ip s s' specs key writes e,
    annotate_loop_panics s specs writes has_ip,
    nil_among-reached s specs key r,
    settled-with_ip (api.get s key),
  ))

  -- If no update is refused, AnnotateResources panics exactly if some spec has no host or a resource
  -- it is to annotate has no annotations at all; otherwise the resources of the specs that it finds
  -- have the address afterwards, with their other annotations as before, all other resources are
  -- unchanged, and a second call changes nothing.
  pub annotate_resources_exact :
      (groups : IpGroups) (hosts : List String) (s : api.Api)
      → Writes api
      → ip == "" ≡ false
      → ((annotate_resources api ip groups hosts s ≡ none) ↔ (
          not (all_have_hosts (all_specs groups)) || nil_among s (led_by (all_specs groups) hosts)
          ≡ true))
        × ((s' : api.Api)
            → annotate_resources api ip groups hosts s ≡ some s'
            → (annotate_resources api ip groups hosts s' ≡ some s')
              × ((key : ResourceKey)
                  → api.get s' key ≡ (
                      if reached (led_by (all_specs groups) hosts) key
                      then with_ip ip (api.get s key)
                      else api.get s key)))
  unfolding annotate_resources
  annotate_resources_exact groups hosts s writes has_ip =
      let specs = led_by (all_specs groups) hosts in
      elim (Bool-cases (all_have_hosts (all_specs groups))) [
        | inr bare ↦
            let found : get_specs_with_hosts groups hosts ≡ none =
              get_specs_with_hosts-led_by groups hosts ∙ rw bare refl in
            rw (annotate_resources, found, bare) (ground arith, λ s' e. absurd (cc e))
        | inl full ↦
            let found : get_specs_with_hosts groups hosts ≡ some specs =
              get_specs_with_hosts-led_by groups hosts ∙ rw full refl in
            let runs : (t : api.Api)
                → annotate_resources api ip groups hosts t ≡ annotate_loop api ip t specs =
              λ t. rw (annotate_resources, found) refl in
            let panics = annotate_loop_panics s specs writes has_ip in
            rw (runs s, full)
              (
                panics,
                λ s' e. (
                  runs s' ∙ annotate_loop_settles s s' specs writes has_ip e,
                  λ key. annotate_loop-get api ip s s' specs key writes e,
                ),
              )
      ]
