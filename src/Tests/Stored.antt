-- ===== src/Tests/Stored.antt =====
-- A server that keeps its objects, each under its key, in the test of Crud/Store.
use special_resource_operato.Prelude.{
  ◌≡◌, refl, ap, List, [], ◌∷◌, Option, none, some, if◌then◌else◌,
}
use special_resource_operato.Exec.{ok, not_found, returned, ◌>>=◌}
use special_resource_operato.Value.{Fields, field, empty, string, object}
use special_resource_operato.Api.{zero_resource}
use special_resource_operato.State.{State, initial}
use special_resource_operato.Env.{Env, Answer, answered, refused}
use special_resource_operato.Cluster.{ask, accept}
use special_resource_operato.Crud.{
  crud, own, create_or_update, update_found, update_resource_version, copy_field, never_updated,
  need_to_update_resource_version,
}
use special_resource_operato.Crud.Keys.{key_of, KeepsKey}
use special_resource_operato.Crud.Store.{Store, put, KeepsStore, Applied, key_eq, crud-Applied}
use special_resource_operato.Tests.Cluster.{cluster}
use special_resource_operato.Tests.Keys.{test_env-KeepsKey}
use special_resource_operato.Tests.Server.{World, test_env, client, object_with}

abbrev stored : List Fields → Store
stored [] key = none
stored (x ∷ xs) key = if key_eq (key_of test_env x) key then some x else stored xs key

abbrev store_of : World → Store
store_of w = stored w.objects

abbrev answer_of : Option Fields → Answer Fields
answer_of none = refused not_found
answer_of (some x) = answered x

abbrev with_object : Fields → World → World
with_object o w = record w { objects = o ∷ w.objects }

abbrev store_env : Env World
store_env = record test_env {
  client = record client {
    get = λ o k w. (
      answer_of
          (store_of w (record { kind = test_env.kind o; namespace = k.namespace; name = k.name })),
      w,
    );
    create = λ o w. (answered o, with_object o w);
    update = λ o w. (answered o, with_object o w);
  };
}

store_env-KeepsKey : KeepsKey store_env
store_env-KeepsKey = record {
  field_set = λ v first second obj obj' other h.
      test_env-KeepsKey.field_set v first second obj obj' other h;
  owned = λ owner obj obj' h. test_env-KeepsKey.owned owner obj obj' h;
}

answered_some : (x : Option Fields) (o : Fields) → answer_of x ≡ answered o → x ≡ some o
answered_some none o h = cc
answered_some (some y) o h = cc

refused_none : (x : Option Fields) → answer_of x ≡ refused not_found → x ≡ none
refused_none none h = refl
refused_none (some y) h = cc

same_answer : (o x : Fields) (w : World) → answered o ≡ answered x → o ≡ x
same_answer o x w h = cc

store_env-KeepsStore : KeepsStore store_env store_of
store_env-KeepsStore = record {
  found = λ o x k w h. answered_some _ x h;
  missing = λ o k w h. refused_none _ h;
  read = λ o k w. refl;
  create = λ o x w h. ap (λ y. put (key_of test_env o) y (store_of w)) (same_answer o x w h);
  update = λ o x w h. ap (λ y. put (key_of test_env o) y (store_of w)) (same_answer o x w h);
}

-- The service of the manifest, the one in the cluster, and a pod with the same name.
abbrev manifest : Fields
manifest = object_with "Service" [] []

abbrev in_cluster : Fields
in_cluster = field "kind" (string "Service") (
    field "metadata"
      (object (
        field "name" (string "x")
          (field "namespace" (string "ns") (field "resourceVersion" (string "17") empty))))
      (field "spec" (object (field "clusterIP" (string "10.0.0.9") empty)) empty))

abbrev running : State World
running = initial (record cluster { objects = object_with "Pod" [] [] ∷ in_cluster ∷ [] })

abbrev owned_manifest : Fields
owned_manifest = elim (test_env.set_controller_reference zero_resource manifest) [
  | returned f ↦ f
  | _ ↦ manifest
]

service_updated : (crud store_env manifest running).0 ≡ ok owned_manifest
unfolding crud own create_or_update update_found update_resource_version copy_field never_updated
    need_to_update_resource_version ask accept ◌>>=◌
service_updated = refl

crud-Applied_example :
    Applied
      (key_of store_env manifest)
      (store_of running.world)
      (store_of (crud store_env manifest running).1.world)
crud-Applied_example =
    crud-Applied store_env store_of store_env-KeepsKey store_env-KeepsStore manifest owned_manifest
      running service_updated
