-- ===== src/Lib.antt =====
-- The Cluster API provider for Huawei Cloud CCE: reconcilers that keep CCE clusters and node pools
-- in step with Kubernetes objects.
--
-- The program's parts. Three controllers (internal/controller/) read an object, find its owner, and
-- run a service on it within a scope; the scope (pkg/cloud/scope/) holds the object and patches it
-- back when it is closed. The services (pkg/cloud/services/cce/) call the cloud's clients: the
-- control plane's service reconciles the network, the cluster, its public address and its
-- kubeconfig; the node pool's service reconciles one node pool. Both wait by polling.
--
-- Which file models which part:
--   Prelude           shared names, tests and maps
--   Errors, Go        error values, and Go's functions as actions: a state with the world outside,
--                     the object in memory and the calls made so far; an outcome that is a return,
--                     an error or a panic; `defer`. Go/Keeps, Go/Within, Go/Returns and Go/Ranks
--                     have the rules for invariants, for the calls that an action may make, for
--                     what it leaves behind when it returns, and for the order of its calls;
--                     Go/Gives has those for what holds only where it returns.
--   Api               api/v1beta1/*_types.go, the objects as values
--   Memory            memory with pointers, and what a deep copy is; Api/Memory has the objects as they
--                     lie there, Api/DeepCopy is api/v1beta1/zz_generated.deepcopy.go.
--                     Api/Webhook has the handlers of api/v1beta1/*_webhook.go, which main does not
--                     register.
--   Sdk, Env          the cloud's SDK, the Kubernetes client and the libraries: parameters, with
--                     the laws that their documentation states
--   Call              the calls that leave the process, as the trace records them
--   Scope             pkg/cloud/scope/managedcontrolplane.go and managednodepool.go
--   Service           pkg/cloud/services/cce/service.go: clients, waitUntil, parseURL
--   Network           vpc.go, subnets.go and network.go there, with pkg/util
--   Eip, Kubeconfig   eip.go and config.go there
--   Cluster           cluster.go there, one file for each of its functions or groups of them
--   Nodepool          nodepool.go there, in the same way
--   Controller        the reconcilers, the map functions of their watches, and SetupWithManager;
--                     Controller/Deadlock is about two reconcilers together
--   Logger            pkg/logger/logger.go: a logger shared by pointer
--   Manager, Main     controller-runtime's manager as a parameter, and cmd/main.go
--   Tests             a small concrete world, and each theorem at a concrete input
-- A Go function of name fooBar is the definition foo_bar; parts of a function that a proof speaks
-- of are definitions of their own beside it.
--
-- Bounds. The only loop that is not over a list is waitUntil: it is structural on the number of
-- retries, which is 40 with 30 seconds between two polls in all its uses. Ports are kept as bit
-- patterns: 64 bits from strconv.Atoi, of which the endpoint keeps the low 32.
--
-- Not modelled: the log lines of the reconcilers and services, contexts and their cancellation, the
-- parsing of flags, what the client's configuration holds, and the scheme. The text of an error
-- keeps its first message only; the format's other arguments are left out.
pub mod Prelude
pub mod Api
pub mod Errors
pub mod Sdk
pub mod Go
pub mod Env
pub mod Call
pub mod Logger
pub mod Manager
pub mod Scope
pub mod Service
pub mod Network
pub mod Eip
pub mod Kubeconfig
pub mod Cluster
pub mod Nodepool
pub mod Controller
pub mod Main
pub mod Memory
pub mod Tests
