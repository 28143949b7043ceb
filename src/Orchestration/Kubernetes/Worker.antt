-- ===== src/Orchestration/Kubernetes/Worker.antt =====
-- `processNextResource`, `processNextNamespace` and their workers in pkg/orchestration/kubernetes.go.
-- A work queue of client-go is kept by the calls that it gets; what its `Get` returns is an argument,
-- `none` for the end of the queue.
pub mod Balance
use f5_ipam_ctlr.Prelude.{Bool, List, Option, String, [], none, some, ◌∷◌}
use f5_ipam_ctlr.Orchestration.Kubernetes.{K8sClient, Send}
use f5_ipam_ctlr.Orchestration.Kubernetes.NamespaceSync.{
  NsSynced, ns_crashed, ns_failed, ns_synced, sync_namespace,
}
use f5_ipam_ctlr.Orchestration.Kubernetes.Sync.{
  Caches, Synced, crashed, failed, sync_resource, synced,
}
use f5_ipam_ctlr.Orchestration.Types.{ResourceKey}
use f5_ipam_ctlr.Vlogger.{rounds}

pub data QueueCall (K : Type 0) : Type 0 where
  forgets : K → QueueCall K
  adds_rate_limited : K → QueueCall K
  dones : K → QueueCall K

-- A client, and the calls of a queue, newest first.
pub record Worker (K : Type 0) : Type 0 where
  pub client : K8sClient
  pub calls : List (QueueCall K)

-- The worker ends, or panics with its deferred `Done`, or goes on.
pub data Worked (K : Type 0) : Type 0 where
  quits : Worker K → Worked K
  breaks : List (QueueCall K) → Worked K
  goes_on : Worker K → Worked K

-- `syncResource` and the rest of `processNextResource` after `Get`; `Done` is deferred.
unfoldable pub after_sync : ResourceKey → List (QueueCall ResourceKey) → Synced → Worked ResourceKey
after_sync key calls crashed = breaks (dones key ∷ calls)
after_sync key calls (failed cl) =
    goes_on (record { client = cl; calls = dones key ∷ adds_rate_limited key ∷ calls })
after_sync key calls (synced cl) =
    goes_on (record { client = cl; calls = dones key ∷ forgets key ∷ calls })

unfoldable pub after_sync_namespace : String → List (QueueCall String) → NsSynced → Worked String
after_sync_namespace key calls ns_crashed = breaks (dones key ∷ calls)
after_sync_namespace key calls (ns_failed cl) =
    goes_on (record { client = cl; calls = dones key ∷ adds_rate_limited key ∷ calls })
after_sync_namespace key calls (ns_synced cl) =
    goes_on (record { client = cl; calls = dones key ∷ forgets key ∷ calls })

-- What a round of a worker finds: the key, what the caches list, and the fate of a message.
pub record Round : Type 0 where
  pub key : ResourceKey
  pub caches : Caches
  pub message : Send

-- `processNextResource`, without the goroutine that it starts for the first message.
unfoldable pub process_next_resource :
    String → Worker ResourceKey → Option Round → Worked ResourceKey
unfolding after_sync
process_next_resource ipam w none = quits w
process_next_resource ipam w (some r) =
    after_sync r.key w.calls (sync_resource ipam w.client r.key r.caches r.message)

-- `processNextNamespace`; a round is a key and what the cache says of it.
unfoldable pub process_next_namespace :
    Worker String → Option (String × Option Bool) → Worked String
unfolding after_sync_namespace
process_next_namespace w none = quits w
process_next_namespace w (some (key, exists)) =
    after_sync_namespace key w.calls (sync_namespace w.client key exists)

-- `resourceWorker` and `namespaceWorker`, over the rounds of a run.
unfoldable pub worker :
    {K R : Type 0} → (Worker K → Option R → Worked K) → Worker K → List R → Worked K
worker next w [] = next w none
worker next w (r ∷ rounds) = elim (next w (some r)) [
  | quits w' ↦ quits w'
  | breaks calls ↦ breaks calls
  | goes_on w' ↦ worker next w' rounds
]

abbrev pub resource_worker : String → Worker ResourceKey → List Round → Worked ResourceKey
resource_worker ipam w rounds = worker (process_next_resource ipam) w rounds

abbrev pub namespace_worker : Worker String → List (String × Option Bool) → Worked String
namespace_worker w rounds = worker process_next_namespace w rounds
