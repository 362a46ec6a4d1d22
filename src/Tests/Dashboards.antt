-- ===== src/Tests/Dashboards.antt =====
-- The Grafana ConfigMap and the secret of the cluster's data sources, in the test of Grafana/Filled.
use special_resource_operato.Prelude.{
  ◌≡◌, ◌≢◌, refl, [], ◌∷◌, String, eq_iff, arith, lookup, replace_all,
}
use special_resource_operato.Exec.{ok, returned, ◌>>=◌}
use special_resource_operato.Value.{Fields, nil, cons, field, empty, string, object, slice}
use special_resource_operato.State.{State, initial}
use special_resource_operato.Env.{Env, answered}
use special_resource_operato.Cluster.{ask}
use special_resource_operato.Grafana.{
  custom_grafana_config_map, get_prom_url_pass, answered_secret, first_datasource, fill_prom_data,
}
use special_resource_operato.Grafana.Filled.{Filled, custom_grafana_config_map-Filled}
use special_resource_operato.Tests.Accessors.{accessors-SetsFields}
use special_resource_operato.Tests.Cluster.{cluster}
use special_resource_operato.Tests.Server.{World, client, test_env}

-- What the secret's JSON decodes to.
abbrev datasources : Fields
datasources =
    field "datasources"
      (slice (
        cons
          (object (
            field "url" (string "https://prom")
              (field "basicAuthPassword" (string "secret") empty)))
          nil))
      empty

abbrev secret_env : Env World
secret_env = record test_env {
  client = record client { secret = λ k w. (answered (("prometheus.yaml", "{}") ∷ []), w) };
  json_unmarshal = λ s. returned datasources;
}

abbrev with_text : Fields
with_text =
    field "kind" (string "ConfigMap") (
      field "data" (object (field "ocp-prometheus.yml" (string "at REPLACE_PROM_URL") empty)) empty)

abbrev with_url : Fields
with_url =
    field "kind" (string "ConfigMap")
      (field "data" (object (field "ocp-prometheus.yml" (string "at https://prom") empty)) empty)

abbrev start : State World
start = initial cluster

abbrev data_key : String
data_key = "data"

data_not_kind : data_key ≢ "kind"
data_not_kind = ground (arith, eq_iff "data" "kind")

filled : (custom_grafana_config_map secret_env with_text start).0 ≡ ok with_url
unfolding custom_grafana_config_map get_prom_url_pass answered_secret first_datasource
    fill_prom_data replace_all lookup ask ◌>>=◌
filled = refl

custom_grafana_config_map-Filled_example :
    Filled secret_env with_text with_url start
    × (secret_env.nested_string with_url ("kind" ∷ [])
        ≡ secret_env.nested_string with_text ("kind" ∷ []))
custom_grafana_config_map-Filled_example =
    custom_grafana_config_map-Filled secret_env accessors-SetsFields with_text with_url start "kind"
      [] data_not_kind filled
