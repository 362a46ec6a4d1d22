-- ===== src/Lib.antt =====
-- The special resource operator: a Kubernetes controller that reconciles SpecialResource objects.
-- For each of them it creates a namespace, collects what the cluster says of itself, and carries
-- out a recipe, a list of manifests, waiting where the manifests ask for it.
--
-- The program's parts and the modules that model them. controllers/specialresource.go and
-- controllers/specialresource_controller.go handle a request: Reconcile, whose children treat the
-- order of the work, the search for dependencies, the creation of missing ones and the errors. For
-- each resource they call ReconcileHardwareConfigurations of controllers/resources.go: Hardware
-- (with sort.Strings in Hardware/Order, the order in which the states are carried out in
-- Hardware/Ascending, and what it makes of the range over a map in Hardware/Ranges). From there,
-- createFromYAML reads a manifest with yamlutil/scan.go (Scanner), templates and decodes each
-- document and applies it: Create. An object passes the hooks of controllers/callbacks.go
-- (Callbacks; controllers/custom.go is Grafana, the proxy part of controllers/runtime.go is Proxy),
-- then CRUD (Crud), then the hooks after it, which wait as controllers/waitfor.go does (Wait) and
-- label nodes as controllers/scale_up_down.go does (Labels; controllers/status.go and cacheNodes
-- are Nodes). createImagePullerRoleBinding is RoleBinding, controllers/manifests.go is Manifests,
-- and the facts about the cluster in controllers/runtime.go are RuntimeInfo (types),
-- OperatingSystem and Runtime. Safety follows what the operator sends over any number of requests
-- and restarts. api/v1beta1/specialresource_types.go is Api.
--
-- Start is the process before the first request: main.go, with what it calls of
-- controllers/misc.go, controllers/resources.go and controllers/specialresource_controller.go, on
-- the package variables that it sets; its Runtime names what client-go and controller-runtime do.
-- It hands Reconcile to the controller, which handles one request at a time.
--
-- DeepCopy is api/v1beta1/zz_generated.deepcopy.go. There the types are as they lie in memory
-- (DeepCopy/Types: a slice is nil or the address of an array), DeepCopy/Memory has the arrays,
-- make, copy and the loops over them, and DeepCopy/Methods the methods. A Shape says what a value
-- denotes and which arrays it leads to, a Copier is a method with the proof that it copies; the
-- metadata's methods, which belong to k8s.io/apimachinery, are Copiers that the theorems take. The
-- other modules read the resource as a value, since the operator writes to no element of its
-- slices.
--
-- State holds what the program keeps between calls: the fields of SpecialResourceReconciler, the
-- package variables node and runInfo, and the world, which stands for everything behind the API
-- client. Exec is the kind of a Go function on that state: it returns a value, returns an error,
-- exits the process or panics, and what was written before stays written. Value holds the JSON
-- values that unstructured objects are made of. A function that writes to its argument object
-- returns the object instead. A function of the model has the name of the Go function, in snake
-- case; the helpers in its module are parts of its body, such as one round of a loop. A Go map is a
-- list of entries, in the order in which a range meets them.
--
-- Env names what the program calls and this repository does not contain: the API client, the
-- accessors of unstructured objects, owner references, YAML and JSON, templates, regular
-- expressions, wait.Poll, and the files of the container image. The definitions assume nothing of
-- them. Where a theorem needs documented behaviour it takes it as a hypothesis: PollsInRounds
-- (wait.Poll runs its condition for some number of rounds), KeepsKind, SetsFields and ReadsSubjects
-- (what a setter leaves alone and what a getter finds again), LogsUpdates and LogsWrites (which
-- calls reach a log of updates, or of writes), PollsFor (how often wait.Poll runs its condition at
-- least), Registers (what AddToScheme adds to a scheme), KeepsStore and KeepsKey (that the API
-- server answers from a store, and which fields of an object make its key). Crud/Store is the
-- abstract view of CRUD: one step on a function from keys to objects. Tests/Accessors and
-- Tests/Server give concrete accessors and a small API server with these properties, at which each
-- theorem is applied.
--
-- Fuel: the loop of createFromYAML alone runs on fuel, one round more than the reader has answers,
-- which is enough because each round uses up one of them; every other loop is structural. In
-- Safety, wait.Poll is a number of rounds, which the hypothesis chooses. Integers: node.count and
-- the counters of a DaemonSet are integers, compared for equality only; the parsing of a version
-- number saturates as strconv.Atoi does.
--
-- Not modelled: logging and its colours (controllers/color.go, logRuntimeInformation), the
-- registration of the types (api/v1beta1/groupversion_info.go), the end-to-end tests and their
-- client set, and the recipes, which are data. Concurrency: the manager runs one request at a time,
-- so requests are a sequence; other controllers move the world between the calls. Get fills an
-- object that starts as a copy of another; the model takes the server's answer for it.
pub mod Prelude
pub mod Exec
pub mod Value
pub mod Api
pub mod DeepCopy
pub mod RuntimeInfo
pub mod State
pub mod Env
pub mod Cluster
pub mod Crud
pub mod Scanner
pub mod Nodes
pub mod Labels
pub mod Wait
pub mod Proxy
pub mod OperatingSystem
pub mod Runtime
pub mod Grafana
pub mod Callbacks
pub mod RoleBinding
pub mod Manifests
pub mod Create
pub mod Hardware
pub mod Reconcile
pub mod Safety
pub mod Start
pub mod Tests
