-- ===== src/Orchestration/Kubernetes/Worker/Balance.antt =====
-- What the workers of pkg/orchestration/kubernetes.go do with the keys that they take.
use f5_ipam_ctlr.Prelude.{
  Bool, Comparable, List, Option, String, [], arith, if◌then◌else◌, inl, inr, none, refl, some,
  string_eq, ℕ, ◌+◌, ◌==◌, ◌∷◌, ◌≡◌, ◌⊎◌,
}
use f5_ipam_ctlr.Orchestration.Kubernetes.{K8sClient}
use f5_ipam_ctlr.Orchestration.Kubernetes.Annotate.{resource_key_eq}
use f5_ipam_ctlr.Orchestration.Kubernetes.NamespaceSync.{NsSynced, ns_crashed, ns_failed, ns_synced}
use f5_ipam_ctlr.Orchestration.Kubernetes.Steps.{Steps, Steps-append, no_step}
use f5_ipam_ctlr.Orchestration.Kubernetes.Sync.{Synced, crashed, failed, synced}
use f5_ipam_ctlr.Orchestration.Kubernetes.SyncSteps.{
  Ends, NsEnds, sync_namespace-NsEnds, sync_resource-Ends,
}
use f5_ipam_ctlr.Orchestration.Kubernetes.Worker.{
  QueueCall, Round, Worked, Worker, adds_rate_limited, after_sync, after_sync_namespace, breaks,
  dones, forgets, goes_on, namespace_worker, process_next_namespace, process_next_resource, quits,
  resource_worker, worker,
}
use f5_ipam_ctlr.Orchestration.Types.{ResourceKey, group_key_eq}
use f5_ipam_ctlr.Vlogger.{rounds}

module _ {K : Type 0} ⦃cmp : Comparable K⦄ where
  -- The calls of `Done` for a key.
  unfoldable pub num_dones : K → List (QueueCall K) → ℕ
  num_dones key [] = 0
  num_dones key (forgets k ∷ calls) = num_dones key calls
  num_dones key (adds_rate_limited k ∷ calls) = num_dones key calls
  num_dones key (dones k ∷ calls) = (if k == key then 1 else 0) + num_dones key calls

  -- The calls that forget a key or give it back.
  unfoldable pub num_settled : K → List (QueueCall K) → ℕ
  num_settled key [] = 0
  num_settled key (forgets k ∷ calls) = (if k == key then 1 else 0) + num_settled key calls
  num_settled key (adds_rate_limited k ∷ calls) =
      (if k == key then 1 else 0) + num_settled key calls
  num_settled key (dones k ∷ calls) = num_settled key calls

  unfoldable pub num_taken : {R : Type 0} → (R → K) → K → List R → ℕ
  num_taken key_of_round key [] = 0
  num_taken key_of_round key (r ∷ rounds) =
      (if key_of_round r == key then 1 else 0) + num_taken key_of_round key rounds

  -- A round that ends: the client took steps, and the key is done and settled.
  pub data IsRound (key : K) (w : Worker K) : Worker K → Type 0 where
    forgotten :
        (cl : K8sClient)
        → Steps w.client cl
        → IsRound key w (record { client = cl; calls = dones key ∷ forgets key ∷ w.calls })
    given_back :
        (cl : K8sClient)
        → Steps w.client cl
        → IsRound key w
            (record { client = cl; calls = dones key ∷ adds_rate_limited key ∷ w.calls })

  -- A worker that has ended: its client took steps, and each key is done and settled as often as it
  -- was taken.
  pub record IsBalanced {R : Type 0} (key_of_round : R → K) (w w' : Worker K) (rounds : List R)
      : Type 0 where
    pub steps : Steps w.client w'.client
    pub done :
        (key : K)
        → num_dones key w'.calls ≡ num_taken key_of_round key rounds + num_dones key w.calls
    pub settled :
        (key : K)
        → num_settled key w'.calls ≡ num_taken key_of_round key rounds + num_settled key w.calls

  step-IsBalanced :
      {R : Type 0} (key_of_round : R → K) (r : R) (w next w' : Worker K) (rounds : List R)
      → IsRound (key_of_round r) w next
      → IsBalanced key_of_round next w' rounds
      → IsBalanced key_of_round w w' (r ∷ rounds)
  unfolding num_dones num_settled num_taken
  step-IsBalanced key_of_round r w _ w' rounds (forgotten cl s) b = record {
    steps = Steps-append s b.steps;
    done = λ key. omega (arith, b.done key);
    settled = λ key. omega (arith, b.settled key);
  }
  step-IsBalanced key_of_round r w _ w' rounds (given_back cl s) b = record {
    steps = Steps-append s b.steps;
    done = λ key. omega (arith, b.done key);
    settled = λ key. omega (arith, b.settled key);
  }

  -- How a round of a worker ends.
  abbrev Ended : K → Worker K → Worked K → Type 0
  Ended key w d =
      ((w' : Worker K) × (d ≡ goes_on w') × IsRound key w w')
      ⊎ ((calls : List (QueueCall K)) × (d ≡ breaks calls))

  module _ {R : Type 0} (key_of_round : R → K) (next : Worker K → Option R → Worked K)
      (last_round : (w : Worker K) → next w none ≡ quits w)
      (law : (w : Worker K) (r : R) → Ended (key_of_round r) w (next w (some r))) where
    worker-IsBalanced :
        (w w' : Worker K) (rounds : List R)
        → worker next w rounds ≡ quits w'
        → IsBalanced key_of_round w w' rounds
    unfolding worker num_taken
    worker-IsBalanced w w' [] e =
        let same : w ≡ w' = cc (e, last_round w) in
        rw (← same) (record {
          steps = no_step w.client;
          done = λ key. omega arith;
          settled = λ key. omega arith;
        })
    worker-IsBalanced w w' (r ∷ rounds) e = elim (law w r) [
      | inl (w1, f, i) ↦
          step-IsBalanced key_of_round r w w1 w' rounds i
            (worker-IsBalanced w1 w' rounds (rw (f, worker) at e))
      | inr (calls, f) ↦ absurd (ground (arith, f))
    ]

after_sync-Ended :
    (key : ResourceKey) (w : Worker ResourceKey) (d : Synced)
    → Ends w.client d
    → Ended key w (after_sync key w.calls d)
unfolding after_sync
after_sync-Ended key w crashed h = inr (_, refl)
after_sync-Ended key w (failed cl) h = inl (_, refl, given_back cl h)
after_sync-Ended key w (synced cl) h = inl (_, refl, forgotten cl h)

after_sync_namespace-Ended :
    (key : String) (w : Worker String) (d : NsSynced)
    → NsEnds w.client d
    → Ended key w (after_sync_namespace key w.calls d)
unfolding after_sync_namespace
after_sync_namespace-Ended key w ns_crashed h = inr (_, refl)
after_sync_namespace-Ended key w (ns_failed cl) h = inl (_, refl, given_back cl h)
after_sync_namespace-Ended key w (ns_synced cl) h = inl (_, refl, forgotten cl h)

-- A worker of resources that ends when its queue is shut down has called `Done` for each key as
-- often as it took it, has forgotten it or given it back as often, and its client took single steps.
pub resource_worker-IsBalanced :
    (ipam : String) (w w' : Worker ResourceKey) (rounds : List Round)
    → resource_worker ipam w rounds ≡ quits w'
    → IsBalanced (λ r. r.key) w w' rounds
unfolding process_next_resource
resource_worker-IsBalanced ipam w w' rounds e =
    worker-IsBalanced (λ r. r.key) (process_next_resource ipam) (λ w1. refl)
      (λ w1 r.
        after_sync-Ended r.key w1 _ (sync_resource-Ends ipam w1.client r.key r.caches r.message))
      w w' rounds e

-- The same of a worker of namespaces.
pub namespace_worker-IsBalanced :
    (w w' : Worker String) (rounds : List (String × Option Bool))
    → namespace_worker w rounds ≡ quits w'
    → IsBalanced (λ r. r.0) w w' rounds
unfolding process_next_namespace
namespace_worker-IsBalanced w w' rounds e =
    worker-IsBalanced (λ r. r.0) process_next_namespace (λ w1. refl)
      (λ w1 r. after_sync_namespace-Ended r.0 w1 _ (sync_namespace-NsEnds w1.client r.0 r.1)) w w'
      rounds e
