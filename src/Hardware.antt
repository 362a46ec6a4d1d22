-- ===== src/Hardware.antt =====
-- `ReconcileHardwareConfigurations` of controllers/resources.go: one special resource, from its
-- namespace to the last of its states.
pub mod Order
pub mod Sorted
pub mod States
pub mod Permuted
pub mod Ranges
pub mod Dropped
pub mod Ascending
use special_resource_operato.Prelude.{
  Bool, true, false, not, String, ◌<>◌, Option, none, some, List, [], ◌∷◌, map, Dict, lookup, ◌==◌,
  if◌then◌else◌,
}
use special_resource_operato.Exec.{
  ApiError, not_found, Error, Exec, Attempt, returned, raised, pure, panicking, gets, modify, ◌>>=◌,
  ◌>>◌, wrap, lift, exit_on_failure, exit_on_error_or_not_found,
}
use special_resource_operato.Value.{Value, string, Fields, empty}
use special_resource_operato.State.{State}
use special_resource_operato.Env.{Env, NamespacedName, Answer, answered, refused}
use special_resource_operato.Cluster.{ask}
use special_resource_operato.Nodes.{cache_nodes}
use special_resource_operato.Runtime.{new_object, get_runtime_information}
use special_resource_operato.RoleBinding.{create_image_puller_role_binding}
use special_resource_operato.Manifests.{AssetsFromFile, get_assets_from}
use special_resource_operato.Create.{create_from_yaml}
use Order.{sort_strings}

abbrev pub namespace_manifest : String
namespace_manifest =
    "apiVersion: v1\nkind: Namespace\nmetadata:\n  annotations:\n    specialresource.openshift.io/wait: \"true\"\n  name: "

module _ {W : Type 0} (env : Env W) where
  -- The working namespace is the resource's name unless one is set.
  unfoldable pub create_special_resource_namespace : Exec (State W) (Unit {0})
  create_special_resource_namespace = do
    s ← gets (λ s. s)
    let resource = s.specialresource
    (if not (resource.spec.namespace == "")
        then pure tt
        else modify λ t. record t {
          specialresource = record t.specialresource {
            spec = record t.specialresource.spec { namespace = t.specialresource.name };
          };
        })
    namespace ← gets (λ s. s.specialresource.spec.namespace)
    exit_on_failure (create_from_yaml env (namespace_manifest <> namespace) "")

  unfoldable pub asset_entry : AssetsFromFile → String × String
  asset_entry a = (a.name, a.content)

  unfoldable pub get_local_hardware_configuration : String → String → Exec (State W) Fields
  get_local_hardware_configuration path specialresource = do
    let cm = env.set_name specialresource (new_object env "v1" "ConfigMap")
    manifests ← get_assets_from env path
    wrap "Couldn't update ConfigMap data field"
        (lift (env.set_nested_string_map (map asset_entry manifests) ("data" ∷ []) cm))

  -- Only a missing ConfigMap sends the operator to the recipes of the image; any other error of the
  -- read is dropped, and the ConfigMap is the empty one.
  unfoldable pub found_configuration : String → Fields → Answer Fields → Exec (State W) Fields
  found_configuration name cm (answered found) = pure found
  found_configuration name cm (refused not_found) =
      get_local_hardware_configuration ("/opt/sro/recipes/" <> name <> "/manifests") name
  found_configuration name cm (refused failure) = pure cm

  unfoldable pub get_hardware_configuration : Exec (State W) Fields
  get_hardware_configuration = do
    resource ← gets (λ s. s.specialresource)
    let cm = new_object env "v1" "ConfigMap"
    answer ←
        ask
          (env.client.get cm (record { namespace = resource.spec.namespace; name = resource.name }))
    found_configuration resource.name cm answer

  -- `manifests[state].(string)` panics on any other value.
  unfoldable pub manifest_of : Option Value → Exec (State W) String
  manifest_of (some (string yaml)) = pure yaml
  manifest_of other = panicking

  unfoldable pub execute_state : Dict Value → String → Exec (State W) (Unit {0})
  execute_state manifests state = do
    yaml ← manifest_of (lookup state manifests)
    namespace ← gets (λ s. s.specialresource.spec.namespace)
    wrap "Failed to create resources" (create_from_yaml env yaml namespace)

  unfoldable pub execute_states : Dict Value → List String → Exec (State W) (Unit {0})
  execute_states manifests [] = pure tt
  execute_states manifests (state ∷ rest) = do
    execute_state manifests state
    execute_states manifests rest

  abbrev pub keys : Dict Value → List String
  keys manifests = map (λ e. e.0) manifests

  unfoldable pub reconcile_hardware_states : Fields → Exec (State W) (Unit {0})
  reconcile_hardware_states config = do
    let (manifests, found, e) = env.nested_map config ("data" ∷ [])
    exit_on_error_or_not_found found e
    execute_states manifests (sort_strings (keys manifests))

  unfoldable pub reconcile_hardware_configurations : Exec (State W) (Unit {0})
  reconcile_hardware_configurations = do
    create_special_resource_namespace
    wrap "Could not create ImagePuller RoleBinding " (create_image_puller_role_binding env)
    config ← wrap "Error reconciling Hardware Configuration States" get_hardware_configuration
    nodes ← exit_on_failure (wrap "Failed to cache Nodes" (cache_nodes env false))
    modify (λ s. record s { node = record s.node { list = nodes } })
    get_runtime_information env
    wrap "Cannot reconcile hardware states" (reconcile_hardware_states config)
