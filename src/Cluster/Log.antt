-- ===== src/Cluster/Log.antt =====
-- A record of the updates that the API server was sent, for theorems about the operator's writes.
use special_resource_operato.Prelude.{◌≡◌, List, ◌∷◌, String}
use special_resource_operato.Value.{Fields}
use special_resource_operato.Api.{SpecialResource}
use special_resource_operato.Env.{Env, NamespacedName, ListOptions}

-- `log` reads off the world the updates that the server was sent, the last one first: an update adds
-- its object, and no other call adds anything.
pub record LogsUpdates {W : Type 0} (env : Env W) (log : W → List Fields) : Type 0 where
  pub get : (o : Fields) (k : NamespacedName) (w : W) → log (env.client.get o k w).1 ≡ log w
  pub list :
      (version kind : String) (o : ListOptions) (w : W)
      → log (env.client.list version kind o w).1 ≡ log w
  pub create : (o : Fields) (w : W) → log (env.client.create o w).1 ≡ log w
  pub update : (o : Fields) (w : W) → log (env.client.update o w).1 ≡ o ∷ log w
  pub update_status : (r : SpecialResource) (w : W) → log (env.client.update_status r w).1 ≡ log w
  pub list_special_resources : (w : W) → log (env.client.list_special_resources w).1 ≡ log w
  pub cluster_version : (w : W) → log (env.client.cluster_version w).1 ≡ log w
  pub secret : (k : NamespacedName) (w : W) → log (env.client.secret k w).1 ≡ log w
  pub open_logs : (k : NamespacedName) (w : W) → log (env.client.open_logs k w).1 ≡ log w
