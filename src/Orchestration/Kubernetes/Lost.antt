-- ===== src/Orchestration/Kubernetes/Lost.antt =====
-- What the controller learns of a resource through `syncResource` of
-- pkg/orchestration/kubernetes.go when a message is not taken.
use f5_ipam_ctlr.Prelude.{
  Bool, Bool-cases, List, Option-cases, String, [], ap, arith, false, if◌then◌else◌, inl, inr, none,
  not, refl, some, str_beq, string_eq, sym, true, ◌==◌, ◌||◌, ◌∙◌, ◌∷◌, ◌≡◌,
}
use f5_ipam_ctlr.Controller.{get_or_empty}
use f5_ipam_ctlr.Orchestration.IpGroup.{add_to_ip_group}
use f5_ipam_ctlr.Orchestration.IpGroup.Add.{add_to_ip_group_again}
use f5_ipam_ctlr.Orchestration.Kubernetes.{
  ConfigMap, Ingress, K8sClient, Send, get_resource_informer, group_annotation, hostname_annotation,
  timed_out, write_ip_groups, written,
}
use f5_ipam_ctlr.Orchestration.Kubernetes.Sync.{
  Caches, add_resource, finish_sync, group_of, ingress_hosts, lacks_network, sync_config_map,
  sync_ingress, sync_kind, sync_loop, sync_resource, synced,
}
use f5_ipam_ctlr.Orchestration.Types.{GroupKey, IpGroups, ResourceKey, group_key_eq}
use f5_ipam_ctlr.Prelude.GoMap.{is_some, lookup}

add_resource_again :
    (cl cl' : K8sClient) (g_key : GroupKey) (kind : String) (key : ResourceKey)
    (hosts : List String)
    → cl'.ip_group ≡ (add_resource cl g_key kind key hosts).ip_group
    → cl'.updated ≡ false
    → add_resource cl' g_key kind key hosts ≡ cl'
unfolding add_resource
add_resource_again cl cl' g_key kind key hosts same settled =
    let twice = add_to_ip_group_again cl.ip_group g_key kind key.name key.namespace hosts in
    let now : add_to_ip_group cl'.ip_group g_key kind key.name key.namespace hosts
        ≡ (cl'.ip_group, false) =
      rw (same, twice) refl in
    λ i. record cl' {
      ip_group = ap (λ (r : IpGroups × Bool). r.0) now i;
      updated =
          (ap (λ (r : IpGroups × Bool). cl'.updated || r.1) now
              ∙ ap (λ b. b || false) settled
              ∙ sym settled)
            i;
    }

-- What the body of a loop of `syncResource` does is fixed by the resource.
data IsStep (kind : String) (key : ResourceKey) (step : K8sClient → K8sClient × Bool) : Type 0 where
  skips : ((cl : K8sClient) → step cl ≡ (cl, false)) → IsStep kind key step
  stops : ((cl : K8sClient) → step cl ≡ (cl, true)) → IsStep kind key step
  adds :
      (g_key : GroupKey) (hosts : List String)
      → ((cl : K8sClient) → step cl ≡ (add_resource cl g_key kind key hosts, false))
      → IsStep kind key step

sync_config_map-IsStep :
    (ipam : String) (key : ResourceKey) (cm : ConfigMap)
    → IsStep "ConfigMap" key (λ c. sync_config_map ipam c key cm)
unfolding sync_config_map
sync_config_map-IsStep ipam key cm =
    elim (Bool-cases (not (cm.namespace == key.namespace) || not (cm.name == key.name))) [
      | inl other ↦ skips (λ cl. rw (sync_config_map, other) refl)
      | inr match ↦ elim (Option-cases (lookup hostname_annotation cm.annotations)) [
        | inl miss ↦ stops (λ cl. rw (sync_config_map, match, miss) refl)
        | inr (host, found) ↦ elim (Bool-cases (lacks_network ipam cm.annotations)) [
          | inl lacks ↦ stops (λ cl. rw (sync_config_map, match, found, lacks) refl)
          | inr ready ↦
              adds (group_of cm.annotations "") (host ∷ [])
                (λ cl. rw (sync_config_map, match, found, ready) refl)
        ]
      ]
    ]

sync_ingress-IsStep :
    (ipam : String) (key : ResourceKey) (ing : Ingress)
    → IsStep "Ingress" key (λ c. sync_ingress ipam c key ing)
unfolding sync_ingress
sync_ingress-IsStep ipam key ing =
    elim (Bool-cases (not (ing.namespace == key.namespace) || not (ing.name == key.name))) [
      | inl other ↦ skips (λ cl. rw (sync_ingress, other) refl)
      | inr match ↦ elim (Bool-cases (lacks_network ipam ing.annotations)) [
        | inl lacks ↦ stops (λ cl. rw (sync_ingress, match, lacks) refl)
        | inr ready ↦ elim (Option-cases (ingress_hosts ing)) [
          | inl miss ↦ skips (λ cl. rw (sync_ingress, match, ready, miss) refl)
          | inr (hosts, found) ↦
              adds
                (group_of ing.annotations (get_or_empty (lookup group_annotation ing.annotations)))
                hosts (λ cl. rw (sync_ingress, match, ready, found) refl)
        ]
      ]
    ]

abbrev pub lost : Send
lost = record { quiet = true; fate = timed_out }

module _ {A : Type 0} (step : K8sClient → A → K8sClient × Bool) (x : A) where
  -- The end of a sync whose message is not taken, and the next sync of the same resource.
  record IsLost (cl cl' : K8sClient) : Type 0 where
    ends : finish_sync (sync_loop step cl (x ∷ [])) lost ≡ synced cl'
    received_same : cl'.received ≡ cl.received
    informers_same : cl'.rs_informers ≡ cl.rs_informers
    next : (s : Send) → finish_sync (sync_loop step cl' (x ∷ [])) s ≡ synced cl'

  sync_loop_one :
      (cl cl' : K8sClient) (b : Bool) → step cl x ≡ (cl', b) → sync_loop step cl (x ∷ []) ≡ (cl', b)
  unfolding sync_loop
  sync_loop_one cl cl' true e = rw e refl
  sync_loop_one cl cl' false e = rw e refl

  pub ends_added :
      (cl added : K8sClient) (s : Send)
      → step cl x ≡ (added, false)
      → finish_sync (sync_loop step cl (x ∷ [])) s
        ≡ synced (if added.updated then write_ip_groups added s else added)
  unfolding finish_sync
  ends_added cl added s e = rw (sync_loop_one cl added false e) (ground arith)

  idle :
      (cl : K8sClient) (b : Bool) (s : Send)
      → step cl x ≡ (cl, b)
      → cl.updated ≡ false
      → finish_sync (sync_loop step cl (x ∷ [])) s ≡ synced cl
  unfolding finish_sync sync_loop
  idle cl true s e settled = rw e refl
  idle cl false s e settled = rw (e, settled) refl

  again :
      (cl w : K8sClient) (kind : String) (key : ResourceKey) (g_key : GroupKey)
      (hosts : List String)
      → ((c : K8sClient) → step c x ≡ (add_resource c g_key kind key hosts, false))
      → w.ip_group ≡ (add_resource cl g_key kind key hosts).ip_group
      → w.updated ≡ false
      → (s : Send) → finish_sync (sync_loop step w (x ∷ [])) s ≡ synced w
  again cl w kind key g_key hosts h same off s =
      idle w false s
        (h w
          ∙ ap (λ (c : K8sClient). (c, false))
              (add_resource_again cl w g_key kind key hosts same off))
        off

  sync_loop-IsLost :
      (kind : String) (key : ResourceKey) (cl : K8sClient)
      → IsStep kind key (λ c. step c x)
      → cl.updated ≡ false
      → (cl' : K8sClient) × IsLost cl cl'
  unfolding write_ip_groups
  sync_loop-IsLost kind key cl (skips h) settled = (
    cl,
    record {
      ends = idle cl false lost (h cl) settled;
      received_same = refl;
      informers_same = refl;
      next = λ s. idle cl false s (h cl) settled;
    },
  )
  sync_loop-IsLost kind key cl (stops h) settled = (
    cl,
    record {
      ends = idle cl true lost (h cl) settled;
      received_same = refl;
      informers_same = refl;
      next = λ s. idle cl true s (h cl) settled;
    },
  )
  sync_loop-IsLost kind key cl (adds g_key hosts h) settled =
      let added = add_resource cl g_key kind key hosts in
      elim (Bool-cases added.updated) [
        | inl grew ↦ (
          written added,
          record {
            ends = ends_added cl added lost (h cl) ∙ rw grew refl;
            received_same = unfold add_resource in refl;
            informers_same = unfold add_resource in refl;
            next = again cl (written added) kind key g_key hosts h refl refl;
          },
        )
        | inr same ↦ (
          added,
          record {
            ends = ends_added cl added lost (h cl) ∙ rw same refl;
            received_same = unfold add_resource in refl;
            informers_same = unfold add_resource in refl;
            next = again cl added kind key g_key hosts h refl same;
          },
        )
      ]

-- The listing of a cache with one object of the name.
abbrev pub one_config_map : ConfigMap → Caches
one_config_map cm = record { config_maps = some (cm ∷ []); ingresses = none }

abbrev pub one_ingress : Ingress → Caches
one_ingress ing = record { config_maps = none; ingresses = some (ing ∷ []) }

-- A caches' listing for a key: one object of its kind.
pub data Listing : ResourceKey → Caches → Type 0 where
  a_config_map :
      {key : ResourceKey} (cm : ConfigMap)
      → key.kind ≡ "ConfigMap"
      → Listing key (one_config_map cm)
  an_ingress :
      {key : ResourceKey} (ing : Ingress) → key.kind ≡ "Ingress" → Listing key (one_ingress ing)

-- The client after `syncResource` for a listed resource whose message, if one is due, is not taken
-- within three seconds: the controller has received nothing, and every later `syncResource` for the
-- unchanged resource leaves the client as it is, so that the controller receives nothing either.
pub record IsForgotten (ipam : String) (key : ResourceKey) (caches : Caches) (cl cl' : K8sClient)
    : Type 0 where
  pub ends : sync_resource ipam cl key caches lost ≡ synced cl'
  pub received_same : cl'.received ≡ cl.received
  pub next : (s : Send) → sync_resource ipam cl' key caches s ≡ synced cl'

module _ (ipam : String) (key : ResourceKey) where
  pub sync_config_map_listed :
      (cl : K8sClient) (cm : ConfigMap) (s : Send)
      → is_some (get_resource_informer cl key.namespace) ≡ true
      → key.kind ≡ "ConfigMap"
      → sync_resource ipam cl key (one_config_map cm) s
        ≡ finish_sync (sync_loop (λ c x. sync_config_map ipam c key x) cl (cm ∷ [])) s
  unfolding sync_resource sync_kind str_beq
  sync_config_map_listed cl cm s watched kind = rw (sync_resource, sync_kind, watched, kind) refl

  pub sync_ingress_listed :
      (cl : K8sClient) (ing : Ingress) (s : Send)
      → is_some (get_resource_informer cl key.namespace) ≡ true
      → key.kind ≡ "Ingress"
      → sync_resource ipam cl key (one_ingress ing) s
        ≡ finish_sync (sync_loop (λ c x. sync_ingress ipam c key x) cl (ing ∷ [])) s
  unfolding sync_resource sync_kind str_beq
  sync_ingress_listed cl ing s watched kind = rw (sync_resource, sync_kind, watched, kind) refl

  informer_same :
      (cl cl' : K8sClient)
      → cl'.rs_informers ≡ cl.rs_informers
      → is_some (get_resource_informer cl key.namespace) ≡ true
      → is_some (get_resource_informer cl' key.namespace) ≡ true
  unfolding get_resource_informer
  informer_same cl cl' same watched = rw same watched

  -- If a client with nothing to write syncs a listed resource of a watched namespace, and the
  -- message, if one is due, is not taken within three seconds, then the controller has received
  -- nothing new, and no later sync of the unchanged resource changes the client: the controller
  -- receives nothing from it.
  pub sync_resource_forgets :
      (cl : K8sClient) (caches : Caches)
      → Listing key caches
      → is_some (get_resource_informer cl key.namespace) ≡ true
      → cl.updated ≡ false
      → (cl' : K8sClient) × IsForgotten ipam key caches cl cl'
  sync_resource_forgets cl _ (a_config_map cm kind) watched settled =
      let (cl', l) =
        sync_loop-IsLost (λ c x. sync_config_map ipam c key x) cm "ConfigMap" key cl
          (sync_config_map-IsStep ipam key cm) settled in
      (
        cl',
        record {
          ends = sync_config_map_listed cl cm lost watched kind ∙ l.ends;
          received_same = l.received_same;
          next = λ s.
              sync_config_map_listed cl' cm s (informer_same cl cl' l.informers_same watched) kind
              ∙ l.next s;
        },
      )
  sync_resource_forgets cl _ (an_ingress ing kind) watched settled =
      let (cl', l) =
        sync_loop-IsLost (λ c x. sync_ingress ipam c key x) ing "Ingress" key cl
          (sync_ingress-IsStep ipam key ing) settled in
      (
        cl',
        record {
          ends = sync_ingress_listed cl ing lost watched kind ∙ l.ends;
          received_same = l.received_same;
          next = λ s.
              sync_ingress_listed cl' ing s (informer_same cl cl' l.informers_same watched) kind
              ∙ l.next s;
        },
      )
