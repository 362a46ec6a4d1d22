-- ===== src/Crud.antt =====
-- `CRUD` of controllers/resources.go and the functions that it calls: one object of a manifest is
-- created if the cluster does not have it, and updated if it does.
pub mod Writes
pub mod Log
pub mod Steps
pub mod Keys
pub mod Store
use special_resource_operato.Prelude.{
  Bool, true, false, ◌||◌, String, List, [], ◌∷◌, ◌==◌, if◌then◌else◌,
}
use special_resource_operato.Exec.{
  not_found, forbidden, api, wrapped, Exec, pure, raise, gets, ◌>>=◌, ◌>>◌, wrap, lift,
  exit_on_error_or_not_found,
}
use special_resource_operato.Value.{string, Fields}
use special_resource_operato.State.{State}
use special_resource_operato.Env.{Env, NamespacedName, Answer, answered, refused}
use special_resource_operato.Cluster.{ask, accept}

-- Some resources need the found object's resourceVersion in an update.
unfoldable pub need_to_update_resource_version : String → Bool
need_to_update_resource_version kind =
    kind == "SecurityContextConstraints"
    || kind == "Service"
    || kind == "ServiceMonitor"
    || kind == "Route"
    || kind == "BuildConfig"
    || kind == "ImageStream"
    || kind == "PrometheusRule"
    || kind == "CSIDriver"

unfoldable pub resource_namespaced : String → Bool
resource_namespaced kind =
    if kind == "Namespace"
      || kind == "ClusterRole"
      || kind == "ClusterRoleBinding"
      || kind == "SecurityContextConstraint"
      || kind == "SpecialResource"
    then false
    else true

-- The kinds that `CRUD` leaves as they are once they exist.
unfoldable pub never_updated : String → Bool
never_updated kind = kind == "ServiceAccount" || kind == "Pod" || kind == "BuildConfig"

module _ {W : Type 0} (env : Env W) where
  abbrev pub object_key : Fields → NamespacedName
  object_key obj = record { namespace = env.namespace obj; name = env.name obj }

  -- One field is copied from the found object into the required one.
  unfoldable pub copy_field : String → List String → Fields → Fields → Exec (State W) Fields
  copy_field msg path req found = do
    let (value, fnd, e) = env.nested_string found path
    exit_on_error_or_not_found fnd e
    wrap msg (lift (env.set_nested_field (string value) path req))

  unfoldable pub update_resource_version : Fields → Fields → Exec (State W) Fields
  unfolding need_to_update_resource_version copy_field
  update_resource_version req found = do
    req' ←
        (if need_to_update_resource_version (env.kind found)
          then copy_field "Couldn't update ResourceVersion" ("metadata" ∷ "resourceVersion" ∷ [])
              req found
          else pure req)
    (if env.kind found == "Service"
        then copy_field "Couldn't update clusterIP" ("spec" ∷ "clusterIP" ∷ []) req' found
        else pure req')

  -- SpecialResource is the parent: every other object gets a reference to it.
  unfoldable pub own : Fields → Exec (State W) Fields
  own obj = if env.kind obj == "SpecialResource" then pure obj else (do
    owner ← gets (λ s. s.specialresource)
    wrap "Failed to set controller reference" (lift (env.set_controller_reference owner obj)))

  unfoldable pub update_found : Fields → Fields → Exec (State W) Fields
  unfolding never_updated update_resource_version
  update_found obj found = if never_updated (env.kind obj) then pure obj else (do
    required ← wrap "Couldn't Update ResourceVersion" (update_resource_version obj found)
    answer ← ask (env.client.update required)
    _ ← accept "Couldn't Update Resource" answer
    pure obj)

  unfoldable pub create_or_update : Fields → Answer Fields → Exec (State W) Fields
  unfolding update_found
  create_or_update obj (refused not_found) = do
    answer ← ask (env.client.create obj)
    accept "Couldn't Create Resource" answer
  create_or_update obj (refused forbidden) =
      raise (wrapped (api forbidden) "Forbidden check Role, ClusterRole and Bindings for operator")
  create_or_update obj (refused e) = raise (wrapped (api e) "Unexpected error")
  create_or_update obj (answered found) = update_found obj found

  -- The object as the calls have left it: `SetControllerReference` and `Create` write to it.
  unfoldable pub crud : Fields → Exec (State W) Fields
  unfolding own create_or_update
  crud obj = do
    owned ← own obj
    found ← ask (env.client.get obj (object_key owned))
    create_or_update owned found
