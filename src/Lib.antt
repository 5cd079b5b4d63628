-- ===== src/Lib.antt =====
-- The scheduling core of the frp operator, a Kubernetes operator that places tunnels on exit servers.
-- A tunnel asks for public ports, resources and label requirements. One Solve of the scheduler
-- places each waiting tunnel on an existing exit, else on a claim in flight, else on a new claim made
-- from the heaviest pool that can serve it, at the cheapest offering of a cloud provider. The
-- scheduler reads the cluster state, which informers keep in step with the Kubernetes objects. A
-- disruption controller takes exits down again, within the budgets of their pools and with
-- replacements where it can, and a finalizer drains an exit before its provider deletes it.
--
-- Prelude    tests on numbers, equality, lists, Go maps and `sort.SliceStable`
-- Text       of Go's `strings` and `strconv`: TrimSpace, Cut, Atoi and Itoa, on code points
-- Api        api/v1alpha1: the resources as records, one file per group of types
-- State      pkg/controllers/state: stateexit.go, statepool.go and statetunnel.go in State/Exit,
--            cluster.go in State/Cluster, one function per method, synced.go in State/Synced,
--            the controllers of informer/ in State/Informer and as steps of a cluster in State/Events
-- Cloudprovider  pkg/cloudprovider/types.go and registry.go
-- Scheduling     pkg/controllers/provisioning/scheduling, one module per file: Ports (ports.go),
--            Requirements, Resources, Exits (existing_exit.go, inflight_claim.go, new_claim.go),
--            Offerings (offering.go) and Solve (scheduler.go, results.go, preferences.go). Children hold
--            the proofs; a child named Tests holds runs on concrete data.
-- Kube       the answers of the Kubernetes client and the result of a reconciler
-- Conditions     pkg/controllers/conditions, and Race for writers that meet on an apiserver
-- Disruption     pkg/controllers/disruption: types.go, Budgets (budgets.go), Candidates (candidates.go,
--            validation.go), Methods (emptiness.go, expiration.go, drift.go, replacement.go),
--            Simulation (consolidation_sim.go), Consolidation (packing and both methods on it), Queue
--            and Controller
-- Provisioning   pkg/controllers/provisioning: provisioner.go, and in Batcher batcher.go,
--            pod_controller.go and node_controller.go
-- Lifecycle  pkg/controllers/exitclaim/lifecycle: the finalizer of controller.go, Phases for launch.go,
--            registration.go and initialization.go, and Liveness; Controller is Reconcile as a
--            whole, and Emptiness exitclaim/emptiness
-- Exitpool   pkg/controllers/exitpool: the counter, and in Surfaces readiness and validation
-- Servicewatcher   pkg/controllers/servicewatcher: the translation of a Service, and in Sibling the
--            reconcilers of controller.go and reverse_sync.go
-- Stamps     the hash controllers of pkg/controllers/exitpool and pkg/controllers/providerclass
--
-- How the code is read:
--   * an `int32` port is its bit pattern, a number below 2^32, and its order flips the sign bit;
--   * a Go map is an association list in the order in which one iteration yields it, a set of ports a
--     list; where the order could matter it is an argument of the theorem;
--   * `resource.Quantity` is a type with the operations that the code calls, a section parameter;
--     a price is a number of a unit that every price is a multiple of; a time is in nanoseconds;
--   * the eight digits of SHA-256 in the name of a claim are a parameter `digest`;
--   * the cluster state is behind a lock, so that each method is one step from state to state; Solve
--     reads it several times, and `ClusterView` has a field for each read;
--   * what the code calls outside is a record of functions on a world `W`, which every call replaces by
--     another one: the answers may depend on all that came before;
--   * a duration is not negative, the parser of cron schedules is a parameter `parse_standard`, and a
--     pass of the disruption controller reads the list of tunnels once;
--   * `Preferences.Relax` always returns false, so its loop runs once.
--   * CanAdd and poolLimitsExceeded read the exit or the pool again for every tunnel; here one Solve sees
--     one answer, so that informers do not come in between;
--   * the pairs of one pool count its budget down in the loop, where the code writes the map of budgets:
--     every pool has one bucket; computeBudgets reads the clock once for all pools.
-- Every loop is structural recursion on the list it runs over; a range of ports runs on its length, the
-- number of its ports. Scheduling/Ports/Loop has the loop over it as it runs, on an int that wraps around:
-- 2^63 rounds are enough below the greatest int, and no number is for a range up to it. The wait for replacements runs on a number of rounds: one
-- more than the poll intervals in the timeout are enough, as each of them moves the clock. A cordon makes
-- two attempts, as in the code. Itoa runs on more rounds than the number has digits.
--
-- Not modelled: `SpecHash`, which works by reflection, the cloud providers, and the wiring of the
-- operator, most of which is calls of the Kubernetes client or of a remote service.
pub mod Prelude
pub mod Text
pub mod Api
pub mod Kube
pub mod Conditions
pub mod State
pub mod Cloudprovider
pub mod Scheduling
pub mod Disruption
pub mod Lifecycle
pub mod Provisioning
pub mod Stamps
pub mod Exitpool
pub mod Servicewatcher
