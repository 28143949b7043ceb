-- ===== src/Orchestration/Kubernetes/Annotate/Exact.antt =====
-- What `AnnotateResources` of pkg/orchestration/kubernetes.go does to each resource.
use f5_ipam_ctlr.Prelude.{
  Bool, Bool-cases, List, Option, Option-cases, String, [], arith, false, if◌then◌else◌, inl, inr,
  none, refl, some, str_beq_refl, string_eq, sym, true, ◌&&◌, ◌==◌, ◌||◌, ◌∷◌, ◌≡◌,
}
use f5_ipam_ctlr.Orchestration.Kubernetes.Annotate.{
  Annotations, ResourceApi, annotate_loop, annotate_resource, annotate_spec, ip_annotation, ip_of,
  key_of_spec, resource_key_beq_iff, resource_key_eq, write_annotation,
}
use f5_ipam_ctlr.Orchestration.Types.{ResourceKey, Spec, group_key_eq}
use f5_ipam_ctlr.Prelude.GoMap.{GoMap, insert, is_some, lookup-insert_self}

-- No update is refused.
abbrev pub Writes : ResourceApi → Type 0
Writes api =
    (s : api.Api) (key : ResourceKey) (m : GoMap String String)
    → is_some (api.update s key m) ≡ true

-- The resource with the address: read errors and equal addresses leave it as it is.
abbrev pub with_ip : String → Option Annotations → Option Annotations
with_ip ip none = none
with_ip ip (some none) = some none
with_ip ip (some (some m)) =
    some (some (if ip_of (some m) == ip then m else insert ip_annotation ip m))

abbrev pub is_reached : Spec → ResourceKey → Bool
is_reached spec key =
    (spec.kind == "ConfigMap" || spec.kind == "Ingress") && key_of_spec spec == key

-- One of the specs is for the resource, and of a kind that the code knows.
unfoldable pub reached : List Spec → ResourceKey → Bool
reached [] key = false
reached (spec ∷ specs) key = is_reached spec key || reached specs key

module _ (api : ResourceApi) (ip : String) where
  with_ip_twice : (x : Option Annotations) → with_ip ip (with_ip ip x) ≡ with_ip ip x
  with_ip_twice none = refl
  with_ip_twice (some none) = refl
  with_ip_twice (some (some m)) =
      ground (arith, lookup-insert_self ip_annotation ip m, str_beq_refl ip)

  kept-get :
      (s : api.Api) (key read : ResourceKey)
      → with_ip ip (api.get s key) ≡ api.get s key
      → api.get s read ≡ (if key == read then with_ip ip (api.get s read) else api.get s read)
  kept-get s key read e = elim (Bool-cases (key == read)) [
    | inl same ↦ rw (same, ← (resource_key_beq_iff key read).0 same) (sym e)
    | inr other ↦ rw other refl
  ]

  written-get :
      (s s' : api.Api) (key read : ResourceKey) (m : GoMap String String)
      → api.get s key ≡ some (some m)
      → ip_of (some m) == ip ≡ false
      → api.update s key (insert ip_annotation ip m) ≡ some s'
      → api.get s' read ≡ (if key == read then with_ip ip (api.get s read) else api.get s read)
  written-get s s' key read m found differs e =
      rw (api.get-update s s' key read _ e) (elim (Bool-cases (key == read)) [
        | inl same ↦ rw (same, ← (resource_key_beq_iff key read).0 same, found, differs) refl
        | inr other ↦ rw other refl
      ])

  -- Afterwards the resource has the annotation, and the other resources are as they were.
  annotate_resource-get :
      (s s' : api.Api) (key read : ResourceKey)
      → Writes api
      → annotate_resource api ip s key ≡ some s'
      → api.get s' read ≡ (if key == read then with_ip ip (api.get s read) else api.get s read)
  unfolding annotate_resource write_annotation
  annotate_resource-get s s' key read writes e = elim (Option-cases (api.get s key)) [
    | inl missing ↦
        let same : s ≡ s' = ground (arith, missing) in
        rw (← same) (kept-get s key read (rw missing refl))
    | inr (none, found) ↦
        let same : s ≡ s' = ground (arith, found) in
        rw (← same) (kept-get s key read (rw found refl))
    | inr (some m, found) ↦ elim (Bool-cases (ip_of (some m) == ip)) [
      | inl equal ↦
          let same : s ≡ s' = ground (arith, found, equal) in
          rw (← same) (kept-get s key read (rw (found, equal) refl))
      | inr differs ↦ elim (Option-cases (api.update s key (insert ip_annotation ip m))) [
        | inl refused ↦ absurd (ground (arith, writes s key (insert ip_annotation ip m)))
        | inr (s1, ends) ↦
            let same : s1 ≡ s' = ground (arith, found, differs, ends) in
            rw (← same) (written-get s s1 key read m found differs ends)
      ]
    ]
  ]

  pub annotate_spec-get :
      (s s' : api.Api) (spec : Spec) (read : ResourceKey)
      → Writes api
      → annotate_spec api ip s spec ≡ some s'
      → api.get s' read
        ≡ (if is_reached spec read then with_ip ip (api.get s read) else api.get s read)
  unfolding annotate_spec
  annotate_spec-get s s' spec read writes e =
      elim (Bool-cases (spec.kind == "ConfigMap" || spec.kind == "Ingress")) [
        | inl known ↦
            let r : annotate_resource api ip s (key_of_spec spec) ≡ some s' =
              ground (arith, known) in
            rw known (annotate_resource-get s s' (key_of_spec spec) read writes r)
        | inr other ↦ let same : s ≡ s' = ground (arith, other) in rw (other, same) refl
      ]

  pub annotate_loop-get :
      (s s' : api.Api) (specs : List Spec) (read : ResourceKey)
      → Writes api
      → annotate_loop api ip s specs ≡ some s'
      → api.get s' read
        ≡ (if reached specs read then with_ip ip (api.get s read) else api.get s read)
  unfolding annotate_loop reached
  annotate_loop-get s s' [] read writes e = let same : s ≡ s' = cc e in rw same refl
  annotate_loop-get s s' (spec ∷ specs) read writes e =
      elim (Option-cases (annotate_spec api ip s spec)) [
        | inl panicked ↦ absurd (ground (arith, panicked))
        | inr (s1, first) ↦
            let others : annotate_loop api ip s1 specs ≡ some s' = ground (arith, first) in
            ground (
              arith,
              annotate_spec-get s s1 spec read writes first,
              annotate_loop-get s1 s' specs read writes others,
              with_ip_twice (api.get s read),
            )
      ]
