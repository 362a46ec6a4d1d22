-- ===== src/Start.antt =====
-- main.go, with the functions that it calls of the operator: AddKubeClient and AddConfigClient
-- (controllers/misc.go), Add3dpartyResourcesToScheme (controllers/resources.go) and SetupWithManager
-- (controllers/specialresource_controller.go).
pub mod Groups
pub mod Prepared
pub mod Clients
use special_resource_operato.Prelude.{
  ℕ, String, Bool, true, false, List, [], ◌∷◌, Option, none, some,
}
use special_resource_operato.Exec.{
  Error, Exec, Attempt, returned, raised, pure, raise, os_exit, panicking, gets, modify, attempt,
  lift, exit_on_failure, ◌>>=◌, ◌>>◌,
}
use special_resource_operato.State.{State}
use special_resource_operato.Env.{Env}
use special_resource_operato.Reconcile.{ReconcileResult, reconciler_special_resources}

-- The packages whose AddToScheme is called.
pub data Group : Type 0 where
  route_v1 sec_v1 build_v1 image_v1 monitoring_v1 client_go sro_v1beta1 : Group

pub record Flags : Type 0 where
  pub metrics_addr : String
  pub enable_leader_election : Bool

-- ctrl.Options
pub record Options (Scheme : Type 0) : Type 0 where
  pub scheme : Scheme
  pub metrics_bind_address : String
  pub port : ℕ
  pub leader_election : Bool
  pub leader_election_id : String

-- What SetupWithManager tells the builder: the kinds watched, and how a request is reconciled.
pub record Controller (W : Type 0) : Type 0 where
  pub for : String
  pub owns : List String
  pub max_concurrent_reconciles : ℕ
  pub reconcile : Exec (State W) ReconcileResult

-- The types and functions of client-go and controller-runtime. `Outside` is the world outside of the process;
-- `get_config` is `none` where GetConfigOrDie exits, and so is `parse` where flag.Parse does.
pub record Runtime : Type 1 where
  pub Scheme : Type 0
  pub Config : Type 0
  pub KubeClient : Type 0
  pub ConfigClient : Type 0
  pub Manager : Type 0
  pub World : Type 0
  pub Outside : Type 0
  pub add_to_scheme : Group → Scheme → Attempt Scheme
  pub get_config : Outside → Option Config × Outside
  pub kubernetes_new_for_config : Config → Attempt KubeClient
  pub config_new_for_config : Config → Attempt ConfigClient
  pub parse : Flags → List String → Outside → Option Flags × Outside
  pub new_manager : Config → Options Scheme → Outside → Attempt Manager × Outside
  pub env_of : Manager → Env World
  pub complete : Controller World → Manager → Outside → Attempt (Unit {0}) × Outside
  pub start : Manager → Outside → Attempt (Unit {0}) × Outside

-- The package variables that are set on the way.
pub record Process (r : Runtime) : Type 0 where
  pub scheme : r.Scheme
  pub kubeclient : Option r.KubeClient
  pub configclient : Option r.ConfigClient
  pub outside : r.Outside

-- utilruntime.Must
unfoldable pub must : {S A : Type 0} → Attempt A → Exec S A
must (returned a) = pure a
must (raised e) = panicking

unfoldable pub or_exit : {S A : Type 0} → Option A → Exec S A
or_exit (some a) = pure a
or_exit none = os_exit

-- flag.StringVar and flag.BoolVar, with the values that the flags have when they are not given.
abbrev pub default_flags : Flags
default_flags = record { metrics_addr = ":8080"; enable_leader_election = false }

-- SpecialResourceReconciler.Reconcile
unfoldable pub reconcile : {W : Type 0} → Env W → Exec (State W) ReconcileResult
reconcile env = reconciler_special_resources env

module _ (r : Runtime) where
  abbrev pub Starting : Type 0 → Type 0
  Starting A = Exec (Process r) A

  unfoldable pub outside : {A : Type 0} → (r.Outside → A × r.Outside) → Starting A
  outside call p = gets (λ q. (call p.outside).0) (record p { outside = (call p.outside).1 })

  unfoldable pub add_to_scheme : Group → Starting (Unit {0})
  add_to_scheme group = do
    scheme ← gets (λ p. p.scheme)
    added ← must (r.add_to_scheme group scheme)
    modify (λ p. record p { scheme = added })

  unfoldable pub add_3dparty_resources_to_scheme : Starting (Unit {0})
  unfolding add_to_scheme
  add_3dparty_resources_to_scheme = do
    add_to_scheme route_v1
    add_to_scheme sec_v1
    add_to_scheme build_v1
    add_to_scheme image_v1
    add_to_scheme monitoring_v1

  unfoldable pub add_kube_client : r.Config → Starting (Unit {0})
  add_kube_client cfg = do
    client_set ← lift (r.kubernetes_new_for_config cfg)
    modify (λ p. record p { kubeclient = some client_set })

  unfoldable pub add_config_client : r.Config → Starting (Unit {0})
  add_config_client cfg = do
    client_set ← lift (r.config_new_for_config cfg)
    modify (λ p. record p { configclient = some client_set })

  unfoldable pub get_config_or_die : Starting r.Config
  get_config_or_die = do cfg ← outside r.get_config; or_exit cfg

  -- The errors of AddConfigClient and AddKubeClient are dropped.
  unfoldable pub init : Starting (Unit {0})
  init = do
    add_3dparty_resources_to_scheme
    config ← get_config_or_die
    _ ← attempt (add_config_client config)
    kube_config ← get_config_or_die
    _ ← attempt (add_kube_client kube_config)
    add_to_scheme client_go
    add_to_scheme sro_v1beta1

  abbrev pub controller : r.Manager → Controller r.World
  controller mgr = record {
    for = "SpecialResource";
    owns = "Pod" ∷ "DaemonSet" ∷ [];
    max_concurrent_reconciles = 1;
    reconcile = reconcile (r.env_of mgr);
  }

  unfoldable pub setup_with_manager : r.Manager → Starting (Unit {0})
  setup_with_manager mgr = do done ← outside (r.complete (controller mgr) mgr); lift done

  abbrev pub options : Flags → r.Scheme → Options r.Scheme
  options flags scheme = record {
    scheme = scheme;
    metrics_bind_address = flags.metrics_addr;
    port = 9443;
    leader_election = flags.enable_leader_election;
    leader_election_id = "b6ae617b.openshift.io";
  }

  -- main up to the call of Start.
  unfoldable pub prepare_manager : List String → Starting r.Manager
  prepare_manager args = do
    parsed ← outside (r.parse default_flags args)
    flags ← or_exit parsed
    config ← get_config_or_die
    scheme ← gets (λ p. p.scheme)
    made ← outside (r.new_manager config (options flags scheme))
    mgr ← exit_on_failure (lift made)
    exit_on_failure (setup_with_manager mgr)
    pure mgr

  unfoldable pub main : List String → Starting (Unit {0})
  main args = do
    mgr ← prepare_manager args
    ended ← outside (r.start mgr)
    exit_on_failure (lift ended)

  -- The process: the package is initialised, then main runs.
  unfoldable pub run_process : List String → Starting (Unit {0})
  run_process args = do init; main args
