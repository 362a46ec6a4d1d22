-- ===== src/Callbacks.antt =====
-- controllers/callbacks.go: what is done before and after `CRUD` as an object's annotations ask.
pub mod Before
use special_resource_operato.Prelude.{
  not, ◌||◌, String, ◌<>◌, Option, none, some, true, List, [], ◌∷◌, index, index_or, ◌==◌,
  if◌then◌else◌,
}
use special_resource_operato.Exec.{
  new, api, Exec, returned, raised, pure, raise, gets, modify, ◌>>=◌, ◌>>◌, attempt, wrap,
  exit_on_error_or_not_found,
}
use special_resource_operato.Value.{Value, object, Fields}
use special_resource_operato.State.{State}
use special_resource_operato.Env.{Env, Nested, Unstructured, answered, refused}
use special_resource_operato.Cluster.{ask}
use special_resource_operato.Proxy.{setup_proxy}
use special_resource_operato.Grafana.{custom_grafana_config_map}
use special_resource_operato.Wait.{wait_for_daemon_set, wait_for_resource, wait_for_daemon_set_logs}
use special_resource_operato.Labels.{label_nodes_according_to_state}

-- Why the first container of a pod waits; empty if it does not say.
unfoldable pub waiting_reason : Unstructured → List Value → String
waiting_reason u (object status ∷ rest) =
    (u.nested_string status ("state" ∷ "waiting" ∷ "reason" ∷ [])).0
waiting_reason u statuses = ""

module _ {W : Type 0} (env : Env W) where
  -- The map `customCallback`.
  unfoldable pub custom_callback : String → Option (Fields → Exec (State W) Fields)
  custom_callback todo =
      if todo == "specialresource-grafana-configmap"
      then some (custom_grafana_config_map env)
      else none

  unfoldable pub run_prefix :
      Option (Fields → Exec (State W) Fields) → Fields → Exec (State W) Fields
  run_prefix (some prefix) obj = wrap "Could not run prefix callback" (prefix obj)
  run_prefix none obj = pure obj

  unfoldable pub run_callback : Option String → Fields → Exec (State W) Fields
  run_callback none obj = pure obj
  run_callback (some todo) obj = run_prefix (custom_callback todo) obj

  unfoldable pub before_crud_hooks : Fields → Exec (State W) Fields
  before_crud_hooks obj = do
    let annotations = env.annotations obj
    obj' ←
        (if index_or annotations "specialresource.openshift.io/proxy" == "true"
          then wrap "Could not setup Proxy" (setup_proxy env obj)
          else pure obj)
    run_callback (index annotations "specialresource.openshift.io/callback") obj'

  -- A container whose image cannot be pulled asks for a build by its vendor; any other state of it
  -- takes that back.
  unfoldable pub ask_rebuild : Option String → Exec (State W) (Unit {0})
  ask_rebuild (some vendor) = do
    modify (λ s. record s { run_info = record s.run_info { update_vendor = vendor } })
    raise (new ("ImagePullBackOff need to rebuild" <> vendor <> "driver-container"))
  ask_rebuild none = modify (λ s. record s { run_info = record s.run_info { update_vendor = "" } })

  unfoldable pub judge_reason : Fields → String → Exec (State W) (Unit {0})
  judge_reason obj reason = ask_rebuild (
      if reason == "ImagePullBackOff" || reason == "ErrImagePull"
      then index (env.annotations obj) "specialresource.openshift.io/driver-container-vendor"
      else none)

  -- What a pod's container statuses say, or what comes after the pod if it has none: then it must
  -- have a phase.
  unfoldable pub judge_pod :
      Fields → Fields → Nested (List Value) → Exec (State W) (Unit {0}) → Exec (State W) (Unit {0})
  judge_pod obj pod (statuses, true, none) next =
      judge_reason obj (waiting_reason env.unstructured statuses)
  judge_pod obj pod statuses next = do
    let (phase, found, e) = env.nested_string pod ("status" ∷ "phase" ∷ [])
    exit_on_error_or_not_found found e
    next

  -- The first pod with container statuses decides.
  unfoldable pub judge_pods : Fields → List Fields → Exec (State W) (Unit {0})
  judge_pods obj [] = raise (new ("Unexpected Phase of Pods in DameonSet: " <> env.name obj))
  judge_pods obj (pod ∷ rest) =
      judge_pod obj pod (env.nested_slice pod ("status" ∷ "containerStatuses" ∷ []))
        (judge_pods obj rest)

  unfoldable pub pods_of_daemon_set : Fields → Exec (State W) (List Fields)
  pods_of_daemon_set obj = do
    namespace ← gets (λ s. s.specialresource.spec.namespace)
    answer ← ask (
        env.client.list "v1" "PodList" (record {
          in_namespace = some namespace;
          matching_labels = ("app", index_or (env.labels obj) "app") ∷ [];
        }))
    elim answer [ answered pods ↦ pure pods | refused e ↦ raise (api e) ]

  unfoldable pub check_pods : Fields → List Fields → Exec (State W) (Unit {0})
  check_pods obj [] = raise (new "No Pods found, reconciling")
  check_pods obj (pod ∷ rest) = judge_pods obj (pod ∷ rest)

  unfoldable pub check_for_image_pull_back_off : Fields → Exec (State W) (Unit {0})
  check_for_image_pull_back_off obj = do
    waited ← attempt (wait_for_daemon_set env obj)
    elim waited [
      | returned up ↦ pure tt
      | raised e ↦ (do pods ← pods_of_daemon_set obj; check_pods obj pods)
    ]

  unfoldable pub check_state : Fields → Exec (State W) (Unit {0})
  check_state obj =
      if index_or (env.annotations obj) "specialresource.openshift.io/state" == "driver-container"
      then wrap "Cannot check for ImagePullBackOff" (check_for_image_pull_back_off obj)
      else pure tt

  unfoldable pub wait_if_asked : Fields → Exec (State W) (Unit {0})
  wait_if_asked obj =
      if index_or (env.annotations obj) "specialresource.openshift.io/wait" == "true"
      then wrap "Could not wait for resource" (wait_for_resource env obj)
      else pure tt

  unfoldable pub wait_for_logs_if_asked : Fields → Exec (State W) (Unit {0})
  wait_for_logs_if_asked obj =
      let pattern = index_or (env.annotations obj) "specialresource.openshift.io/wait-for-logs" in
      if not (pattern == "")
      then wrap "Could not wait for DaemonSet logs" (wait_for_daemon_set_logs env obj pattern)
      else pure tt

  unfoldable pub after_crud_hooks : Fields → Exec (State W) (Unit {0})
  after_crud_hooks obj = do
    check_state obj
    wait_if_asked obj
    wait_for_logs_if_asked obj
    label_nodes_according_to_state env obj
