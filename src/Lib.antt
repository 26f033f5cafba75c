-- ===== src/Lib.antt =====
-- Kidle: a Kubernetes operator that idles and wakes up workloads.
--
-- An IdlingResource names a Deployment, a StatefulSet or a CronJob and says whether it is to be
-- idle. The reconcile loop of the operator reads both, and an idler for the kind of the workload
-- carries the wish out: it saves what it needs in annotations of the workload, scales it to 0 or
-- suspends it, and undoes this later. A finalizer keeps an IdlingResource from going away before its
-- workload is woken up. An event filter decides which changes of workloads start the loop again.
--
-- The files and the code they model:
--   Prelude        shared names, Boolean tests, signed integers and the conversion to int32
--   Exec           errors, results and code with state
--   Strconv        Itoa, FormatBool and Atoi of Go's strconv
--   Array          pkg/utils/array/string.go
--   Pointer        pkg/utils/pointer/pointer.go, over the variables that a program has made
--   Meta           pkg/utils/k8s/annotations.go over the metadata of an object
--   Objects        the Kubernetes objects, with the fields that the code uses
--   Api            pkg/api/v1beta1/idlingresource_types.go, and Api/Registration
--                  (groupversion_info.go)
--   Cluster        client.Client of controller-runtime, what the API stores, and RetryOnConflict
--   Idler          pkg/controllers/idler: the interface `Idler` with its contract, Idler/Change and
--                  Idler/Object (idler.go), Idler/Replicas (deployment.go and statefulset.go) and
--                  Idler/CronJob (cronjob.go)
--   Watch          KidleChangedPredicate.Update and objectForIdlingResourceMapper of
--                  pkg/controllers/idlingresource_controller.go
--   Dns            pkg/utils/k8s/name.go
--   Containers     pkg/utils/k8s/types.go
--   Controller     the reconcile loop: Controller/Reconcile (Reconcile, reconcileResourceNotFound),
--                  Controller/WithIdler (ReconcileWithIdler) and Controller/Finalizer (addFinalizer
--                  and removeFinalizer) of the same file, and Controller/CronStrategies
--                  (pkg/controllers/cron_strategies.go: Values for the contents of the CronJobs, Rbac
--                  for createRBAC); Controller/Maintains is about code that keeps something
--   History        histories: runs of the loop and commands of kidlectl, in any order and outcome
--   Operator       cmd/operator/main.go, and SetupWithManager of the controller
--   Strings        strings.Split and sort.Strings of Go
--   Kidlectl       the command line client: Kidlectl/Resources and Kidlectl/Client
--                  (cmd/kidlectl/pkg/kidleclient.go) and Kidlectl/Commands (cmd/kidlectl/cmd,
--                  cmd/kidlectl/main.go and pkg/version/version.go); Kidlectl/Authorized is
--                  kidlectl under the Role that createRBAC makes
--   Tests          an API server in memory, and runs of the code on it
--
-- State and calls. A method of an idler is a function of the idler's copy of its object and of the
-- state of the API server, and returns both with its result: a value, an error or a panic. A run of
-- the reconcile loop also carries the events recorded so far.
--
-- Assumptions, each a hypothesis of the results that need it. `IsLawful`: while one run of the
-- loop is the only writer, a read returns the stored object and changes nothing, a write that
-- succeeds changes the one object that it names, as a delete does in any case, a write that fails
-- changes nothing, a delete that succeeds leaves nothing or an object that is marked as being
-- deleted, and an object that is being deleted goes away with its last finalizer.
-- `IsRetry`: RetryOnConflict runs its function again only after a conflict, and ends as the last
-- run does. `IsDocumented`: controllerutil adds and removes a finalizer. `IsResponsive`: while it
-- is up, the server returns what it stores and accepts a write over it. `IsRbac`: RBAC permits a
-- request whose verb, group, resource and name a rule of the Role lists. SetControllerReference and
-- the group of a Role are fields of `Settings`; of the first, `KeepsKey` says that it does not
-- rename the object. What fmt.Errorf makes of a format without arguments is a field of `Setup`. Of
-- the cluster that kidlectl asks for its kinds (`Discovery`), the results say where they need that
-- asking changes nothing and that the names of resources have no
-- capitals. The server and the libraries in Tests have all of this.
--
-- A process, the operator or a command of kidlectl, returns, exits with a code or panics; its log
-- lines are a list of texts. `Maintains` (Controller/Maintains) says of a piece of the loop's code
-- what it keeps of the cluster in every outcome, `Gives` (Operator/Gives) the same of the start of
-- the operator; both go through code as it is composed. A history (History) is a sequence of steps:
-- a run of `Reconcile` for any request, a command of kidlectl, or anything that leaves the workload
-- in question as it is.
--
-- Kidlectl and the operator share the stored IdlingResource: what the one writes, the loop of the
-- other reads.
--
-- A field that holds a pointer is modelled by the value behind it. `Pointer.differs_from_new` is the
-- comparison of such a field with `pointer.Int32` or `pointer.Bool`, which compares addresses.
--
-- Bounds and fuel. Replicas are values of an int32, `IsInt32`. Decimal digits are printed with more
-- fuel than the number has digits, and Atoi has the bounds of a 64-bit int.
--
-- Not modelled: log lines of the loop, the set-up of the logger, contexts, fields of objects that the
-- code does not touch, writers beside a run while it runs, the insides of controller-runtime, the
-- parsing of flags by go-flags and by Go's flag, and the generated deep copies
-- (pkg/api/v1beta1/zz_generated.deepcopy.go), since values do not change. Log lines of kidlectl and
-- of main of the operator are modelled by their texts. A failed read leaves the idler's copy as it
-- was. Texts are Unicode texts; where a length counts, they are ASCII, as names in Kubernetes are.
pub mod Api
pub mod Array
pub mod Cluster
pub mod Containers
pub mod Controller
pub mod Dns
pub mod Exec
pub mod History
pub mod Idler
pub mod Kidlectl
pub mod Meta
pub mod Objects
pub mod Operator
pub mod Pointer
pub mod Prelude
pub mod Strconv
pub mod Strings
pub mod Tests
pub mod Watch
