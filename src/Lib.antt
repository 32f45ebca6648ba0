-- ===== src/Lib.antt =====
-- A model of kvsynk8s, the operator that copies Azure Key Vault secrets into Kubernetes Secrets.
--
-- The program has two ways into one reconcile. `SecretSyncReconciler.Reconcile`
-- (internal/controller/secretsync_controller.go) runs for every SecretSync, at an interval and
-- when it changes. `Listener.Start` (internal/events/listener.go) polls a storage queue, parses
-- each message (internal/events/parser.go) and sends the SecretSyncs that it concerns into the
-- channel from which the reconciler is woken. A reconcile settles conflicts over the target, reads
-- the vault through `Engine.Sync` (internal/sync/engine.go), which uses the reader of
-- internal/azure/keyvault.go, and writes the Secret through `SecretWriter.CreateOrUpdate`
-- (internal/sync/writer.go).
--
-- Base passes on the libraries' names and holds the helpers: tests, lists, maps, signed numbers
-- and the order of texts. Errors has Go's errors as leaves under wraps, and `errors.Is`. Exec has
-- the computations that take and give back the outside world. Api has
-- api/v1alpha1/secretsync_types.go and the fields of Kubernetes objects that the code uses. Kube
-- has the parameters: the clients of the cluster, the helpers of apimachinery and controllerutil,
-- the reader of Key Vault, the clock; its record of laws says what is relied on of their
-- documented behaviour. The world is any type, so the clients may answer as they like and may
-- change what they answer from call to call: other writers, stale caches and failures are all
-- among those. Where a theorem relies on how an API server answers, a record says it:
-- Sync/Writer/Server has one for a server with optimistic concurrency that others write to,
-- Sync/Writer/Quiet one for a target that is left alone. Exec/Keeps, Exec/Costs and Exec/Triples
-- have the rules for invariants of the world, for bounds on requests and for what holds at the two
-- ends of a computation. Controller/Reconcile/Live, Steady and Converges compose the engine, the
-- writer and the clean-up into statements on a whole reconcile; Controller/Reconcile/Undisturbed
-- says what the last of them relies on. Controller/Removal/Released is on a deletion, with a cache
-- that is up to date. Controller/Reconcile/Rivals is on a SecretSync that another one has the
-- better claim against (Controller/Reconcile/Claims), Controller/Reconcile/Blocked on one that
-- cannot be synced, with Controller/Reconcile/Reports for a reconcile that ends in a report,
-- Controller/Reconcile/Fetched on an undisturbed reconcile from its Get on, and
-- Controller/Reconcile/Orderly on all of `Reconcile`; Controller/Reconcile/History is on the
-- statuses that it stores, with Controller/Reconcile/Sound on what they may be. Two workers may
-- interleave, which is part of what the calls do to the world. Azure/KeyVault/Lock has the steps
-- of concurrent `clientFor` calls and the mutex, and Azure/KeyVault/Lock/Atomic compares them with
-- `client_for`, which does it all at once.
--
-- Sync/Writer, with Sync/Writer/Managed for the shape of a Secret, is internal/sync/writer.go, and
-- Sync/Engine is internal/sync/engine.go. Controller is internal/controller: Controller.antt what
-- it decides with, Controller/Reconcile the `Reconcile` method cut where it decides, with
-- Controller/Reconcile/Inputs for what it computes first, Controller/Removal the two deletions,
-- Controller/Metrics metrics.go. Controller/Setup is what `SetupWithManager` and the metrics
-- registration do, and Context the deadlines of the calls. Events/Parser, Events/Base64,
-- Events/Fold, Events/Listener and Events/Registration are internal/events; Events/Listener/Log
-- has a listener that logs what it does, on which its theorems are. Azure is internal/azure, with
-- the classification of errors in Azure/KeyVault/Classify. Config has the values of cmd/main.go and Main its `main`: the flags and
-- options, and in Main/Launch the steps up to the start of the manager, where the libraries are
-- one parameter that answers requests. Under each of these stand the modules of its proofs.
-- Examples holds concrete values and applies the theorems to them.
--
-- A method of the source is a function of the same name in the spelling of this language; where a
-- method branches on the error of a call, the branches are a helper that takes the call's result.
-- A `SecretSync` is passed on as the source passes on its pointer: what an Update stores into the
-- object is the value that the next step takes.
--
-- Loops over lists are recursion on the list. `Listener.Start` is a loop without end, so `rounds`
-- takes the number of rounds; its theorems hold for every number, so none is too small.
--
-- Not modelled: logging, but for the lines that carry what must stay secret or that an operator
-- relies on; what happens inside a call that runs out of time, which is a call that returns an
-- error; what controller-runtime does with the watches, caches and servers that it is told of; the
-- scheme registration of init; the wait of `sleepOrDone`, which is a parameter of the listener;
-- generated code. The text that wraps an error is left out. Times, generations and counters count
-- up and are natural numbers.
pub mod Base
pub mod Errors
pub mod Message
pub mod Api
pub mod Exec
pub mod Kube
pub mod Sync
pub mod Controller
pub mod Events
pub mod Azure
pub mod Config
pub mod Main
pub mod Context
pub mod Examples
