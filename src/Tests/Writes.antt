-- ===== src/Tests/Writes.antt =====
-- What is written to the cluster, at concrete objects.
use special_resource_operato.Prelude.{◌≡◌, ◌≢◌, refl, false, [], ◌∷◌}
use special_resource_operato.Exec.{ok, exit, not_found, forbidden, returned, ◌>>=◌}
use special_resource_operato.Value.{Fields, field, empty, string, object, slice, cons, nil}
use special_resource_operato.Api.{zero_resource}
use special_resource_operato.State.{State, initial}
use special_resource_operato.Env.{Env, refused}
use special_resource_operato.Cluster.{accept}
use special_resource_operato.Crud.{
  object_key, own, crud, update_resource_version, copy_field, need_to_update_resource_version,
}
use special_resource_operato.Crud.Log.{Writes, crud-log}
use special_resource_operato.Cluster.{ask}
use special_resource_operato.Crud.Writes.{
  version_path, cluster_ip_path, update_resource_version-Service,
}
use special_resource_operato.Hardware.{get_hardware_configuration, reconcile_hardware_states}
use special_resource_operato.Hardware.Dropped.{get_hardware_configuration-refused}
use special_resource_operato.Runtime.{new_object}
use special_resource_operato.RoleBinding.{new_subject, has_subject, update_role_binding}
use special_resource_operato.RoleBinding.Idempotent.{update_role_binding-twice}
use special_resource_operato.Tests.Accessors.{accessors-SetsFields, accessors-ReadsSubjects}
use special_resource_operato.Tests.Cluster.{cluster}
use special_resource_operato.Tests.Server.{
  writes_of, test_env-LogsWrites, World, client, test_env, object_with,
}

abbrev start : State World
start = initial (record cluster { objects = object_with "Pod" [] [] ∷ [] })

abbrev owned_of : Fields → Fields
owned_of obj = elim (test_env.set_controller_reference zero_resource obj) [
  | returned f ↦ f
  | _ ↦ obj
]

service_created :
    (crud test_env (object_with "Service" [] []) start).0
    ≡ ok (owned_of (object_with "Service" [] []))
unfolding crud own ask accept ◌>>=◌
service_created = refl

crud-log_example :
    (owned : Fields) × (own test_env (object_with "Service" [] []) start ≡ (ok owned, start))
    × Writes test_env owned start []
        (test_env.client.get
          (object_with "Service" [] [])
          (object_key test_env owned)
          start.world).0
        (crud test_env (object_with "Service" [] []) start).1.world.writes
crud-log_example =
    crud-log test_env writes_of test_env-LogsWrites (object_with "Service" [] [])
      (owned_of (object_with "Service" [] [])) start service_created

-- A service in the cluster, and the one of the manifest.
abbrev found_service : Fields
found_service = field "kind" (string "Service") (
    field "metadata" (object (field "resourceVersion" (string "17") empty))
      (field "spec" (object (field "clusterIP" (string "10.0.0.9") empty)) empty))

abbrev new_service : Fields
new_service = field "kind" (string "Service") (field "metadata" (object empty) empty)

abbrev updated_service : Fields
updated_service = field "kind" (string "Service") (
    field "metadata" (object (field "resourceVersion" (string "17") empty))
      (field "spec" (object (field "clusterIP" (string "10.0.0.9") empty)) empty))

service_updated :
    (update_resource_version test_env new_service found_service start).0 ≡ ok updated_service
unfolding update_resource_version need_to_update_resource_version copy_field ◌>>=◌
service_updated = refl

update_resource_version-Service_example :
    (test_env.nested_string updated_service version_path
      ≡ test_env.nested_string found_service version_path)
    × (test_env.nested_string updated_service cluster_ip_path
        ≡ test_env.nested_string found_service cluster_ip_path)
    × ((update_resource_version test_env new_service found_service start).1 ≡ start)
update_resource_version-Service_example =
    update_resource_version-Service test_env accessors-SetsFields new_service found_service
      updated_service start refl service_updated

abbrev binding : Fields
binding = field "kind" (string "RoleBinding") (field "subjects" (slice nil) empty)

abbrev bound : Fields
bound =
    field "kind" (string "RoleBinding")
      (field "subjects" (slice (cons (new_subject "simple-kmod") nil)) empty)

not_yet_bound : (u : State World) → has_subject test_env "simple-kmod" [] u ≡ (ok false, u)
unfolding has_subject ◌>>=◌
not_yet_bound u = refl

update_role_binding-twice_example :
    ((update_role_binding test_env "simple-kmod" binding start).1
      ≡ record start { world = (client.update bound start.world).1 })
    × (update_role_binding test_env "simple-kmod" bound start ≡ (ok tt, start))
update_role_binding-twice_example =
    update_role_binding-twice test_env accessors-ReadsSubjects "simple-kmod" binding bound [] start
      start refl not_yet_bound refl

-- The server refuses every read.
abbrev refusing_env : Env World
refusing_env = record test_env { client = record client { get = λ o k w. (refused forbidden, w) } }

forbidden_not_missing : forbidden ≢ not_found
forbidden_not_missing h = cc

get_hardware_configuration-refused_example :
    (get_hardware_configuration refusing_env >>= reconcile_hardware_states refusing_env) start
    ≡ (exit, start)
unfolding new_object
get_hardware_configuration-refused_example =
    get_hardware_configuration-refused refusing_env forbidden start start.world
      forbidden_not_missing refl refl
