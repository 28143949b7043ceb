-- ===== src/Lib.antt =====
-- The F5 IPAM controller. It watches the Kubernetes resources that ask for IP addresses, keeps
-- their hosts in groups, reserves addresses for the groups in an IPAM system (Infoblox), keeps a
-- store of the hosts of each address, and writes the addresses back to the resources. The program
-- (main.go) checks its flags, sets the level of its loggers (pkg/vlogger), and makes the clients
-- and the controller.
--
-- The parts, and how they interact. The orchestration (pkg/orchestration) sends its groups,
-- encoded, over a channel to the controller (pkg/controller). At each message the controller makes
-- the records of its store (pkg/store) and those of the IPAM system (pkg/manager) follow the
-- groups; at each timeout it refreshes the store from the IPAM system. It hands the hosts of each
-- address back to the orchestration for annotation.
--
-- Which file models what:
-- - Prelude: Go's `==` on comparable types (Equality), slices as lists (Lists), integers that may
--   be negative (Integers), strings (Text), maps as association lists with distinct keys (GoMap).
--   The order of the entries of a map is the order in which a `range` visits it. Go leaves that
--   order open, so theorems hold for each order.
-- - Store: pkg/store/store.go. `Store` is the struct of three maps; `add_record`, `delete_hosts`,
--   `get_hosts`, `get_ip` are its methods. Store/View reads a store, Store/Valid is its invariant,
--   Store/Delete, Store/Count, Store/Lookup and Store/Order are about deletion, the number of
--   records of a host, the queries, and the independence of Go's order; Store/Address is about the
--   address that `GetIP` answers.
-- - Manager: pkg/manager/manager.go. The interface `Client` as the list of the calls made and a
--   rule that answers a call from the calls before it. `IsClient` is what the controller relies on.
-- - Infoblox: pkg/manager/infoblox.go. The methods of `IBloxClient` over a server that is a rule
--   from the requests made before to its answer. Infoblox/Records, Content and Given are
--   `GetRecords`, Infoblox/Rename is `CNAMEToA`, Infoblox/Delete `CreateARecord` and
--   `DeleteARecord`, Infoblox/Refs `GetNextAddr` and `ipFromRef`. Infoblox/Replay makes it a
--   `Client` of the controller. Infoblox/Requests is `NewInfobloxClient`, `BuildUrl` and
--   `BuildRequest`, with what infoblox-go-client and net/http do as arguments.
-- - Orchestration: pkg/orchestration. Orchestration/Types is types.go; Orchestration/IpGroup is the
--   methods of `IPGroup` in orchestration.go, with a child for each group of them.
--   Orchestration/Kubernetes is kubernetes.go: the registry of informers, the checks of resources
--   and `writeIPGroups`; Kubernetes/Sync is `syncResource`, Kubernetes/Handlers are the handlers of
--   added, updated and deleted resources. What the informers' caches list, whether the queues are
--   empty, and whether a message is taken are arguments. Kubernetes/NamespaceSync is
--   `syncNamespace`. Kubernetes/Namespaces, Lost and Skipped are about the registry, messages that
--   are not taken, and the loop over the hosts of a spec, which reads an array that `removeHost`
--   shifts; Kubernetes/Kept is about what `updateConfigMap` leaves. Kubernetes/NewClient is `NewKubernetesClient` and `createLabel`, with `labels.Parse` as
--   an argument. Kubernetes/Annotate is `AnnotateResources` over an API server that is a record of
--   its calls and their law. Kubernetes/Steps has the single steps of the goroutines of the client,
--   Kubernetes/Sound what holds after any of them, Kubernetes/Handled the handlers and workers as
--   sequences of steps, from Kubernetes/EventSteps and Kubernetes/SyncSteps. Kubernetes/Worker is
--   the two workers with the calls that they make of their queues, Worker/Balance what becomes of a
--   key.
-- - Controller: pkg/controller/controller.go. `process_ip_groups` is `processIPGroups`, whose two
--   loops are `create_loop` and `sweep_loop`; its nested loops are functions on the variables that
--   they write (`Pass`, `Sweep`). Controller/Run is `refreshStore`, `writeIPHosts` and the event
--   loop `Run`, one step for each message or timeout. Controller/Effects, Accounts, Cleanup,
--   Process and Complete are about the loops of `processIPGroups`; Controller/Refresh, Events and
--   Hazards about the event loop and about what goes wrong. Controller/Stable, Shared, Mixed and
--   Addressed are about the addresses that hosts keep and get.
-- - Vlogger: pkg/vlogger. The table of loggers of log.go, which holds references to loggers, with
--   `RegisterLogger`, `SetLogLevel` and the functions that print; the two loggers of log_null.go
--   and console/log_console.go are one record. Vlogger/Levels is the names and the JSON of the
--   levels, Vlogger/Register and Vlogger/Filter are about the table and the filter.
-- - Main: main.go from the parsed flags on: the exit of `--version`, `verifyArgs`,
--   `getCredentials` and the choice of the clients. Main/Args, Start, Watch and Connect are about the flags that are accepted, the start
--   of the controller, the namespaces that its client watches, and the credentials that Infoblox is
--   asked with.
-- - Flow: the way of a host from a resource to the store of the controller.
-- - The modules called Tests hold concrete states and runs.
--
-- Bounds and fuel: every loop of the code that is modelled runs over a slice or a map, and is
-- structural recursion on a list, but for the loop of `RegisterLogger`, which runs from one level
-- to another: it is recursion on the number of its rounds, which `rounds` computes from the two
-- levels before it starts. The event loop of `Run` is a function of a finite sequence of events, of
-- any length. Integers are unbounded: the program counts, but computes nothing that could overflow.
--
-- Concurrency: the methods that change an `IPGroup`, and `getSpecsWithHosts`, hold its mutex from
-- their first to their last statement, so each is one step. `getSpec`, `GetAllHosts` and `NumHosts`
-- take no lock; they are steps too, so that a read between two writes of another goroutine's call
-- is not modelled. Orchestration/Kubernetes/Steps takes the handlers and workers apart into such
-- steps, so that the steps of several goroutines may alternate. `processIPGroups` and
-- `refreshStore` run in one goroutine only. The events of `Run` come in the order in which `select`
-- takes them from its channels.
--
-- A call of the IPAM system that returns nothing has no answer in the model. Where Go would panic,
-- the model returns `none` (`getSpecsWithHosts`) or a result of its own (`crashed` of
-- `syncResource`, `ns_crashed` of `syncNamespace`, `panics` of `main`). Log messages of the other
-- packages are left out.
--
-- Not modelled: in pkg/orchestration/kubernetes.go the work queues themselves, of which the model
-- keeps the calls, the goroutine that writes the first message after two seconds (its write is one
-- of the events of Kubernetes/Handled), and the building and running of the informers, which are
-- calls of client-go; in main.go the parsing of the flags by pflag and their usage texts, and the
-- wait for a signal; in pkg/vlogger the prefix of the log package; the encoding with gob, of which
-- the model has the decoded groups, or those decoded before an error.
mod Prelude
pub mod Store
pub mod Manager
pub mod Orchestration
pub mod Controller
pub mod Infoblox
pub mod Vlogger
pub mod Main
pub mod Flow
