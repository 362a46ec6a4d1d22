-- ===== src/Grafana.antt =====
-- controllers/custom.go: the callback that writes the cluster's Prometheus address and password
-- into the Grafana ConfigMap.
pub mod Filled
use special_resource_operato.Prelude.{String, List, [], ◌∷◌, Dict, some, replace_all, index_or}
use special_resource_operato.Exec.{
  api, Exec, pure, raise, ◌>>=◌, ◌>>◌, lift, exit_on_error_or_not_found,
}
use special_resource_operato.Value.{Value, string, object, Fields}
use special_resource_operato.State.{State}
use special_resource_operato.Env.{Env, Answer, answered, refused}
use special_resource_operato.Cluster.{ask}

module _ {W : Type 0} (env : Env W) where
  unfoldable pub answered_secret : Answer (Dict String) → Exec (State W) (Dict String)
  answered_secret (answered data') = pure data'
  answered_secret (refused e) = raise (api e)

  -- The address and the password of the first data source.
  unfoldable pub first_datasource : List Value → Exec (State W) (String × String)
  first_datasource (object datasource ∷ rest) = do
    let (url, found, e) = env.nested_string datasource ("url" ∷ [])
    exit_on_error_or_not_found found e
    let (pass, found', e') = env.nested_string datasource ("basicAuthPassword" ∷ [])
    exit_on_error_or_not_found found' e'
    pure (url, pass)
  first_datasource datasources = pure ("", "")

  unfoldable pub get_prom_url_pass : Exec (State W) (String × String)
  get_prom_url_pass = do
    answer ← ask (
        env.client.secret
          (record { namespace = "openshift-monitoring"; name = "grafana-datasources" }))
    secret ← answered_secret answer
    sec ← lift (env.json_unmarshal (index_or (some secret) "prometheus.yaml"))
    let (datasources, found, e) = env.nested_slice sec ("datasources" ∷ [])
    exit_on_error_or_not_found found e
    first_datasource datasources

  unfoldable pub fill_prom_data : String → String × String → String
  fill_prom_data prom_data (url, pass) =
      replace_all
        (replace_all (replace_all prom_data "REPLACE_PROM_URL" url) "REPLACE_PROM_PASS" pass)
        "REPLACE_PROM_USER" "internal"

  unfoldable pub custom_grafana_config_map : Fields → Exec (State W) Fields
  custom_grafana_config_map obj = do
    let (prom_data, found, e) = env.nested_string obj ("data" ∷ "ocp-prometheus.yml" ∷ [])
    exit_on_error_or_not_found found e
    prom ← get_prom_url_pass
    lift (
        env.set_nested_field (string (fill_prom_data prom_data prom))
          ("data" ∷ "ocp-prometheus.yml" ∷ []) obj)
