-- ===== src/Runtime.antt =====
-- `getRuntimeInformation` of controllers/runtime.go and what it calls: the facts about the cluster
-- that the manifests are templated with.
pub mod Versions
pub mod Secrets
use Prim.Native.Char.{code}
use special_resource_operato.Prelude.{
  String, ◌<>◌, none, some, List, [], ◌∷◌, index, contains, nat_eq, ◌==◌, if◌then◌else◌,
}
use special_resource_operato.Exec.{
  Error, new, api, wrapped, not_found, Exec, Attempt, returned, raised, pure, raise, gets, modify,
  ◌>>=◌, ◌>>◌, wrap, lift, exit_on_failure, exit_on_error_or_not_found,
}
use special_resource_operato.Value.{Fields, empty}
use special_resource_operato.RuntimeInfo.{RuntimeInformation}
use special_resource_operato.State.{State}
use special_resource_operato.Env.{Env, Unstructured, Answer, answered, refused, UpdateHistory}
use special_resource_operato.Cluster.{ask, accept}
use special_resource_operato.OperatingSystem.{get_operating_system}
use special_resource_operato.Proxy.{get_proxy_configuration}

-- The kernel version of the first node; with no node it is empty.
unfoldable pub get_kernel_version : Unstructured → List Fields → Attempt String
get_kernel_version u [] = returned ""
get_kernel_version u (node ∷ rest) =
    elim (index (u.labels node) "feature.node.kubernetes.io/kernel-version.full") [
      | some version ↦ returned version
      | none ↦ raised (
          new
            "Label feature.node.kubernetes.io/kernel-version.full not found is NFD running? Check node labels")
    ]

-- strings.Split(s, "."): never an empty list
unfoldable pub split_dots : String → String × List String
split_dots String.[] = ("", [])
split_dots (String.◌∷◌ c s) =
    let (head, rest) = split_dots s in
    if nat_eq (code c) b'.' then ("", head ∷ rest) else (String.◌∷◌ c head, rest)

unfoldable pub major_minor : String × List String → String
major_minor (major, []) = major
major_minor (major, minor ∷ rest) = major <> "." <> minor

-- The version of the first entry of the history that is completed, and its first two parts.
unfoldable pub completed_version : List UpdateHistory → Attempt (String × String)
unfolding split_dots major_minor
completed_version [] = raised (new "Undefined Cluster Version")
completed_version (condition ∷ rest) =
    if condition.state == "Completed"
    then returned (condition.version, major_minor (split_dots condition.version))
    else completed_version rest

module _ {W : Type 0} (env : Env W) where
  unfoldable pub get_cluster_version : Exec (State W) (String × String)
  get_cluster_version = do
    answer ← ask env.client.cluster_version
    history ← accept "ConfigClient unable to get ClusterVersions" answer
    lift (completed_version history)

  unfoldable pub find_push_secret : List Fields → Attempt String
  find_push_secret [] = raised (new "Cannot find Secret builder-dockercfg")
  find_push_secret (secret ∷ rest) =
      if contains (env.name secret) "builder-dockercfg"
      then returned (env.name secret)
      else find_push_secret rest

  unfoldable pub get_push_secret_name : Exec (State W) String
  get_push_secret_name = do
    namespace ← gets (λ s. s.specialresource.spec.namespace)
    answer ← ask (
        env.client.list "v1" "SecretList"
          (record { in_namespace = some namespace; matching_labels = [] }))
    secrets ← accept "Client cannot get SecretList" answer
    lift (find_push_secret secrets)

  -- An empty object of a kind, `cm := &unstructured.Unstructured{}` with its kind set.
  unfoldable pub new_object : String → String → Fields
  new_object version kind = env.set_kind kind (env.set_api_version version empty)

  -- What a read leaves in the object that it fills, when only a missing object is an error.
  unfoldable pub unless_not_found : Error → Fields → Answer Fields → Exec (State W) Fields
  unless_not_found e cm (answered found) = pure found
  unless_not_found e cm (refused not_found) = raise e
  unless_not_found e cm (refused failure) = pure cm

  unfoldable pub get_os_image_url : Exec (State W) String
  get_os_image_url = do
    let cm = new_object "v1" "ConfigMap"
    answer ← ask (
        env.client.get cm (record {
          namespace = "openshift-machine-config-operator";
          name = "machine-config-osimageurl";
        }))
    cm' ←
        unless_not_found
          (wrapped (api not_found)
            "ConfigMap machine-config-osimageurl -n  openshift-machine-config-operator not found")
          cm answer
    let (url, found, e) = env.nested_string cm' ("data" ∷ "osImageURL" ∷ [])
    exit_on_error_or_not_found found e
    pure url

  abbrev pub set_info : (RuntimeInformation → RuntimeInformation) → Exec (State W) (Unit {0})
  set_info f = modify (λ s. record s { run_info = f s.run_info })

  -- Every fact that cannot be read ends the process.
  unfoldable pub get_runtime_information : Exec (State W) (Unit {0})
  get_runtime_information = do
    nodes ← gets (λ s. s.node.list)
    os ←
        exit_on_failure (
          wrap "Failed to get operating system"
            (lift (get_operating_system env.unstructured nodes)))
    set_info λ i. record i {
      operating_system_major = os.major;
      operating_system_major_minor = os.major_minor;
      operating_system_decimal = os.decimal;
    }
    kernel ←
        exit_on_failure
          (wrap "Failed to get kernel version" (lift (get_kernel_version env.unstructured nodes)))
    set_info (λ i. record i { kernel_version = kernel })
    version ← exit_on_failure (wrap "Failed to get cluster version" get_cluster_version)
    set_info λ i. record i { cluster_version = version.0; cluster_version_major_minor = version.1 }
    secret ← exit_on_failure (wrap "Failed to get push secret name" get_push_secret_name)
    set_info (λ i. record i { push_secret_name = secret })
    url ← exit_on_failure (wrap "Failed to get OSImageURL" get_os_image_url)
    set_info (λ i. record i { os_image_url = url })
    proxy ← exit_on_failure (wrap "Failed to get Proxy Configuration" (get_proxy_configuration env))
    set_info (λ i. record i { proxy = proxy })
    resource ← gets (λ s. s.specialresource)
    set_info (λ i. record i { special_resource = resource })
