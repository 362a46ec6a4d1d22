-- ===== src/Proxy.antt =====
-- The proxy settings of controllers/runtime.go: reading the cluster's configuration, and the
-- environment variables for the containers of a Pod or a DaemonSet.
pub mod Written
pub mod Selected
use special_resource_operato.Prelude.{
  String, none, some, List, [], ◌∷◌, ◌++◌, ◌==◌, contains, if◌then◌else◌,
}
use special_resource_operato.Exec.{
  Exec, Attempt, returned, raised, pure, gets, ◌>>=◌, ◌>>◌, wrap, exit_on_error,
  exit_on_error_or_not_found,
}
use special_resource_operato.Value.{Value, string, object, Fields, field, empty}
use special_resource_operato.RuntimeInfo.{ProxyConfiguration, no_proxy_configuration}
use special_resource_operato.State.{State}
use special_resource_operato.Env.{Env, Nested}
use special_resource_operato.Cluster.{ask, accept}

-- {name, value}, an entry of a container's `env`.
unfoldable pub env_var : String → String → Value
env_var name value = object (field "name" (string name) (field "value" (string value) empty))

-- The value that an accessor found. An error is logged, and the value is empty.
unfoldable pub or_empty : Nested String → String
or_empty (value, found, none) = value
or_empty (value, found, some e) = ""

-- A container whose `env` was to be written; an error of the write is lost.
unfoldable pub or_unchanged : Fields → Attempt Fields → Fields
or_unchanged container (returned container') = container'
or_unchanged container (raised e) = container

module _ {W : Type 0} (env : Env W) where
  unfoldable pub read_proxy : Fields → ProxyConfiguration
  read_proxy cfg = record {
    http_proxy = or_empty (env.nested_string cfg ("spec" ∷ "httpProxy" ∷ []));
    https_proxy = or_empty (env.nested_string cfg ("spec" ∷ "httpsProxy" ∷ []));
    no_proxy = or_empty (env.nested_string cfg ("spec" ∷ "noProxy" ∷ []));
    trusted_ca = or_empty (env.nested_string cfg ("spec" ∷ "trustedCA" ∷ "name" ∷ []));
  }

  unfoldable pub select_proxy : List Fields → ProxyConfiguration → ProxyConfiguration
  select_proxy [] proxy = proxy
  select_proxy (cfg ∷ rest) proxy =
      select_proxy rest (if contains (env.name cfg) "cluster" then read_proxy cfg else proxy)

  unfoldable pub get_proxy_configuration : Exec (State W) ProxyConfiguration
  get_proxy_configuration = do
    answer ← ask (
        env.client.list "config.openshift.io/v1" "ProxyList"
          (record { in_namespace = none; matching_labels = [] }))
    cfgs ← accept "Client cannot get ProxyList" answer
    pure (select_proxy cfgs no_proxy_configuration)

  -- The variables are appended to the `env` of the first container.
  -- The result is the slice with that container's map written to.
  unfoldable pub setup_containers_proxy : List Value → Exec (State W) (List Value)
  setup_containers_proxy (object container ∷ rest) = do
    let (vars, found, e) = env.nested_slice container ("env" ∷ [])
    exit_on_error e
    proxy ← gets (λ s. s.run_info.proxy)
    let old = if found then vars else []
    let new_env =
        old
        ++ (env_var "HTTP_PROXY" proxy.http_proxy
            ∷ env_var "HTTPS_PROXY" proxy.https_proxy
            ∷ env_var "NO_PROXY" proxy.no_proxy
            ∷ [])
    pure (
        object (or_unchanged container (env.set_nested_slice new_env ("env" ∷ []) container))
        ∷ rest)
  setup_containers_proxy containers = pure containers

  -- `NestedSlice` returns a copy, and nothing writes the copy back: the object stays what it was.
  unfoldable pub setup_daemon_set_proxy : Fields → Exec (State W) Fields
  setup_daemon_set_proxy obj = do
    let (containers, found, e) =
        env.nested_slice obj ("spec" ∷ "template" ∷ "spec" ∷ "containers" ∷ [])
    exit_on_error_or_not_found found e
    _ ← wrap "Cannot set proxy for Pod" (setup_containers_proxy containers)
    pure obj

  unfoldable pub setup_pod_proxy : Fields → Exec (State W) Fields
  setup_pod_proxy obj = do
    let (containers, found, e) = env.nested_slice obj ("spec" ∷ "containers" ∷ [])
    exit_on_error_or_not_found found e
    _ ← wrap "Cannot set proxy for Pod" (setup_containers_proxy containers)
    pure obj

  unfoldable pub setup_proxy : Fields → Exec (State W) Fields
  setup_proxy obj = do
    obj' ←
        (if env.kind obj == "Pod"
          then wrap "Cannot setup Pod Proxy" (setup_pod_proxy obj)
          else pure obj)
    (if env.kind obj' == "DaemonSet"
        then wrap "Cannot setup DaemonSet Proxy" (setup_daemon_set_proxy obj')
        else pure obj')
