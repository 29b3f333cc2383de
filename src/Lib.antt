-- ===== src/Lib.antt =====
-- The piraeus operator brings a LINSTOR cluster on Kubernetes to the state that its custom resources
-- ask for. This library models the parts of it that decide: what a status condition says, how the
-- properties of LINSTOR objects, nodes and node connections are brought in line, how the configurations
-- of a satellite are merged, how a satellite is evacuated and removed, which storage pools it gets and
-- loses, and which storage pools and properties the webhook accepts.
--
-- How the parts interact: the controller of satellites (internal/controller) makes a LINSTOR client,
-- registers the node
-- (pkg/linstorhelper), resolves properties from the fields of a node (pkg/utils), reconciles storage
-- pools and deletes satellites. The controllers call the evacuation
-- (pkg/evacuation), which admits a satellite, runs its steps, releases the hooks of its ClusterAPI
-- machine (pkg/clusterapi) and records its progress in the conditions (pkg/conditions). Both the
-- controllers and the node connections change LINSTOR's properties through pkg/linstorhelper. The
-- webhooks (internal/webhook/v1) refuse objects before a controller sees them.
--
-- Which file models which part (children named after a property hold its proofs, Tests the examples):
--   Conditions             pkg/conditions/conditions.go. `Conditions` is the list of the collected
--                          conditions; `get_cond`, `add_success` ... `add_unknown` and `to_conditions`
--                          are the methods, the changed list being returned.
--   LinstorHelper/Properties
--                          pkg/linstorhelper/properties.go. Maps are lists of pairs (Base/Maps);
--                          `encoding/json` is the record `Json` with its round trip.
--   LinstorHelper          pkg/linstorhelper/client.go: Client is `NewClientForCluster`, Nodes
--                          `CreateOrUpdateNode`; Interfaces and Stale have the proofs about the latter.
--   Cluster                the objects of Kubernetes and LINSTOR that the evacuation reads, the calls
--                          (`Call`), and, in Cluster/Effect, actions: from the calls made so far to a
--                          result and more calls. What an API answers may depend on all calls before,
--                          so other actors may change the cluster between any two of them.
--                          Cluster/Calls has the rules for which calls an action makes, Cluster/Answers
--                          those for what it answers, Cluster/Trace those for the exact calls of an
--                          action that does not fail. Cluster/Linstor is what LINSTOR and Kubernetes
--                          answer to the controllers.
--   ClusterApi             pkg/clusterapi/machine.go: `prevent_machine_deletion`,
--                          `allow_machine_drain`, `allow_machine_termination` and the search for the
--                          machine. A nil machine is `none`, a nil client `connected = false`.
--   Evacuation             pkg/evacuation/evacuation.go: Admission is `admitEvacuation`, Volumes the
--                          maps and the evacuation action of a volume, Prepare
--                          `preparePVsforEvacuation`, Reattach `waitForConfiguredSatellites` and
--                          `waitForReattach`, Relocate `evacuateNode`, `waitForEvacuation` and
--                          `cleanPVsAfterEvacuation`, Run `evacuateSatellite` and `EvacuateSatellite`.
--                          The proofs: Admission's children, Quiet, Gate, Reach, Finish, Syncing,
--                          Overridden, Stuck, Outcomes.
--   StoragePool            api/v1/storagepool.go, the type and its accessors. Validation, Lvm and Pools
--                          are internal/webhook/v1/storagepool.go, Sources the `Validate` methods of
--                          api/v1. Errors and warnings are two functions where Go returns a pair; an
--                          error has its kind, path and text, not the quoted value. Regular expressions
--                          are tests on characters, `path.Clean` and `path.Join` are in Base/GoPath.
--   NodeConnection         internal/controller/linstornodeconnection_controller.go and the types of
--                          api/v1/linstornodeconnection_types.go; Selectors also has
--                          `ValidateNodeConnectionSelectors` of
--                          internal/webhook/v1/linstornodeconnection_webhook.go. The generator of
--                          combinations is a parameter. Merged and Desired are proofs.
--
--   Satellite              internal/controller/linstorsatellite_controller.go: Deletion is
--                          `deleteSatellite`, Pools `reconcileStoragePools`, State
--                          `reconcileLinstorSatelliteState`; Probe is
--                          internal/controller/storagepool_probe.go. The proofs: Looks, Release, Policy
--                          on the deletion, Surplus and Backed on the pools, Requests and Steady on the
--                          state. A satellite's object holds
--                          what is read of it; a nil client is `none`.
--   FieldPath              pkg/utils/fieldpath/fieldpath.go; Properties is `ResolveNodeProperties` of
--                          pkg/utils/property_resolution.go and `ValidateNodeProperties` of
--                          internal/webhook/v1/properties.go. The proofs: Paths, Wildcards, Accepted.
--   Merge                  pkg/merge/linstorsatelliteconfiguration.go; Folds and Merged are the proofs.
--   Tolerations            pkg/utils/tolerations/tolerations.go: `MergeTolerations`; Later is the proofs.
--   Base                   numbers, texts, lists, maps and sorting as Go has them; Base/Cuts is the
--                          cutting of texts, Base/Named maps from names.
--
-- Bounds: every loop of the source runs over a list and is a recursion on it, so there is no fuel.
-- Generations, instants and durations are natural numbers; nothing in the modelled code adds to or
-- multiplies what an API returns except the sum of an instant and a timeout, which Go computes by
-- subtraction of instants on 63 bits.
--
-- Not modelled: the order in which Go walks a map (a list of pairs has one), except where a result is
-- shown not to depend on it; contexts, logging and the quoting of texts in errors; the set-up of
-- controllers and webhooks, and embedded manifests; the figures in a satellite's status and its own
-- reconciler's frame, the rendering of resources, the reconciler of clusters and image
-- versions; that a failing call ends the changes of node connections.
-- What LINSTOR, Kubernetes, encoding/json, crypto/tls, the tables of Unicode and gonum's combinations do
-- is a parameter of the definitions that use it.
mod Base
pub mod Conditions
pub mod Cluster
pub mod LinstorHelper
pub mod ClusterApi
pub mod Evacuation
pub mod StoragePool
pub mod NodeConnection
pub mod Satellite
pub mod FieldPath
pub mod Merge
pub mod Tolerations
