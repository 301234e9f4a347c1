-- ===== src/Lib.antt =====
-- A model of the Cluster API provider for Nomad, with the theorems that make its reconcilers
-- correct.
--
-- The provider runs two reconcilers in one manager. The cluster controller gives a NomadCluster its
-- DNS name and endpoint, and polls the workload cluster's API server until it answers. The machine
-- controller registers one Nomad job for each NomadMachine, waits for its evaluation, copies the
-- deployment into the object, registers control planes as a Consul service, and on deletion takes all
-- of it back. Each reconciler works on a scope, which patches the object when the run ends.
--
-- The files and the code that they model:
-- - Api: the objects, statuses, conditions and the template's webhook, api/v1alpha3. Api.Meta has the
--   fields that the provider reads of the objects of other projects.
-- - World: the runs. World.Remote is a record of operations for the remote systems (the management
--   and the workload cluster, Nomad, HTTP, the environment, time), which answer as they like and
--   whose state changes as they like; World.Kit is a record for the library functions that the code
--   calls on conditions, finalizers, sets and formats, and IsLawful lists the documented behaviour
--   that theorems rely on. World.Monad is a computation on `Sys`: the world's state, the calls made
--   so far (the newest first), the two objects that a reconciler holds a pointer to, and the
--   polling. It ends with a value, a panic, or `unfinished` where a loop's fuel ran out.
--   World.Keeps, World.Ensures and World.Leads have the rules of reasoning, one for each way to
--   build a computation. World.Wire has the data on the wire, with the record of
--   pkg/consulclient/service.go.
-- - Consul: pkg/consulclient. Dns: pkg/nomad/dns.
-- - Scope: pkg/nomad/scope, with the sets of states of api/v1alpha3/types.go. The scope's object is
--   the one in `Sys`; a setter of the code is a function on that object.
-- - Poller: ReconcileNomadClusterWhenAPIServerIsOnline of pkg/nomad/scope/cluster.go, as steps: a
--   call of the function, which holds the mutex, or the next action of one goroutine.
-- - Machine: pkg/nomad/machine. Machine.Mac is the MAC address, with FNV-1a on 32 bits written out;
--   Machine.Job is the job that is registered; Machine.Service deploys and releases.
-- - Controllers: controllers. Controllers.MachineReconcile is Reconcile of the machine controller,
--   MachineNormal and MachineDelete are its two halves, DnsAttachment is reconcileDNSAttachment;
--   ClusterReconcile is the cluster controller; Requests are the functions of the watches.
-- - System: the provider as a whole, as interleavings of runs of the two reconcilers and of actions
--   of the goroutines, on one state. Footprint: which calls a computation may make, and so which
--   calls a run of Reconcile makes; Footprint.UserData and Footprint.Deploys are
--   about the job that is registered, and Footprint.Render is a record Renderer for how Nomad renders
--   a task's templates, with the one rule that a text without the left delimiter comes out as it is.
-- - Controllers.MachineReconcile.NoJob and Controllers.DnsAttachment.Mirror state the documented
--   behaviour of Nomad's table of jobs and of Consul's table of services, as records JobTable and
--   ServiceTable that theorems take.
-- - Manager: main.go, and SetupWithManager of both controllers. Manager.Boot is a computation on the
--   steps that are asked of the libraries (the manager, its checks, the cache tracker, the
--   controllers and their watches), each of which may fail; Manager.Setup is the code; a record Host
--   stands for the libraries. Manager.Scheme is the registration of the types with the scheme.
-- - DeepCopy: api/v1alpha3/zz_generated.deepcopy.go, one file for each Go type. DeepCopy.Memory is a
--   memory of cells, each at an address, so that what a copy shares with its original is seen;
--   DeepCopy.Structs has the structs of api/v1alpha3 with their references, as addresses in memory and
--   as values; DeepCopy.Library is a record for the deep copies of metav1 and Cluster API, with what
--   they promise; DeepCopy.Rules says what a stored struct shows and how copies compose;
--   DeepCopy.Dispatch is DeepCopyObject through runtime.Object. The reconcilers' own model holds
--   objects by value.
-- - Frames: what the computations that only read leave alone. Tests: a lawful kit, a world and
--   objects, on which the model and the theorems are run.
--
-- A Go function that is long is several definitions, one from each early return on. A pointer is an
-- Option, and reading through nil is a panic. An error is a value that keeps its text and whether it
-- is "not found". Numbers of seconds stand for durations.
--
-- Fuel: getDeploymentIDFromEval calls itself for as long as the evaluation is pending, with no bound.
-- The model takes fuel for it, one unit for each read; fuel above the number of pending reads is
-- enough. Every other definition is total. Where the fuel runs out, the model ends the run as
-- `unfinished` and also runs the deferred Close, though the program would still be waiting and would
-- not have come to it; what a theorem says of the deferred patch is about the program's runs that
-- end.
--
-- A step of System is a whole run of a reconciler or a whole action of a goroutine. The two share
-- the map of triggers alone, whose every use stands under one mutex; the objects that a reconciler
-- holds are its own. In the program the goroutine that a run starts may act before the run returns;
-- System orders its actions after the run that started it, so its theorems are about interleavings
-- of whole runs. A panic ends the process, and the theorems on interleavings hold up to there and
-- after it.
--
-- Not modelled: logging; the seed of the random numbers and the feature gates of main.go, whose
-- ctrl.GetConfigOrDie is part of the step that makes the manager; a negative number among the
-- flags; slices that share a part of an array, since a deep copy reads a slice from its start to
-- its length and the model's arrays are that long; the insides of controller-runtime, Kubernetes,
-- Nomad, Consul, net/http and encoding/json; a failing json.Marshal, since the provider marshals
-- only texts and numbers; the interleaving of two reconciler runs on the same object, which
-- controller-runtime excludes.
pub mod Base
pub mod Api
pub mod World
pub mod Poller
pub mod Consul
pub mod Scope
pub mod Machine
pub mod DeepCopy
pub mod Dns
pub mod Frames
pub mod Controllers
pub mod Footprint
pub mod System
pub mod Manager
pub mod Tests
