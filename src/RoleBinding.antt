-- ===== src/RoleBinding.antt =====
-- `createImagePullerRoleBinding` of controllers/resources.go: letting the builder of the parent's
-- namespace pull images from the namespace of the resource that it depends on.
pub mod Idempotent
use special_resource_operato.Prelude.{
  Bool, true, false, not, String, List, [], ◌∷◌, ◌++◌, ◌==◌, if◌then◌else◌,
}
use special_resource_operato.Exec.{
  not_found, forbidden, api, wrapped, Exec, returned, raised, pure, raise, gets, lift,
  exit_on_failure, ◌>>=◌, ◌>>◌, exit_on_error,
}
use special_resource_operato.Value.{Value, string, object, Fields, field, empty}
use special_resource_operato.State.{State}
use special_resource_operato.Env.{Env, Answer, answered, refused}
use special_resource_operato.Cluster.{ask, accept}

unfoldable pub new_subject : String → Value
new_subject namespace = object (
    field "kind" (string "ServiceAccount")
      (field "name" (string "builder") (field "namespace" (string namespace) empty)))

module _ {W : Type 0} (env : Env W) where
  -- err := unstructured.SetNestedField(...); exitOnError(err)
  unfoldable pub must_set : Value → List String → Fields → Exec (State W) Fields
  must_set value path obj = exit_on_failure (lift (env.set_nested_field value path obj))

  -- unstructured.SetNestedSlice(...), with the error that it returns not looked at
  unfoldable pub set_subjects : List Value → Fields → Fields
  set_subjects subjects obj = elim (env.set_nested_slice subjects ("subjects" ∷ []) obj) [
    | returned obj' ↦ obj'
    | raised e ↦ obj
  ]

  unfoldable pub role_binding_template : Fields
  role_binding_template =
      env.set_kind "RoleBinding" (env.set_api_version "rbac.authorization.k8s.io/v1" empty)

  unfoldable pub create_role_binding : String → String → Fields → Exec (State W) (Unit {0})
  create_role_binding namespace parent_namespace rb = do
    let named = env.set_namespace namespace (env.set_name "system:image-puller" rb)
    a ← must_set (string "rbac.authorization.k8s.io") ("roleRef" ∷ "apiGroup" ∷ []) named
    b ← must_set (string "ClusterRole") ("roleRef" ∷ "kind" ∷ []) a
    c ← must_set (string "system:image-puller") ("roleRef" ∷ "name" ∷ []) b
    answer ← ask (env.client.create (set_subjects (new_subject parent_namespace ∷ []) c))
    _ ← accept "Couldn't Create Resource" answer
    pure tt

  -- Whether a subject lies in the namespace; a namespace that is no text ends the process.
  unfoldable pub has_subject : String → List Value → Exec (State W) Bool
  has_subject namespace [] = pure false
  has_subject namespace (object subject ∷ rest) = do
    let (found, _, e) = env.nested_string subject ("namespace" ∷ [])
    exit_on_error e
    (if found == namespace then pure true else has_subject namespace rest)
  has_subject namespace (other ∷ rest) = has_subject namespace rest

  unfoldable pub update_object : Fields → Exec (State W) (Unit {0})
  update_object obj = do
    answer ← ask (env.client.update obj)
    _ ← accept "Couldn't Update Resource" answer
    pure tt

  unfoldable pub update_role_binding : String → Fields → Exec (State W) (Unit {0})
  update_role_binding parent_namespace rb = do
    let (subjects, _, e) = env.nested_slice rb ("subjects" ∷ [])
    exit_on_error e
    present ← has_subject parent_namespace subjects
    (if present
        then pure tt
        else update_object (set_subjects (subjects ++ new_subject parent_namespace ∷ []) rb))

  unfoldable pub bind_image_puller :
      String → String → Fields → Answer Fields → Exec (State W) (Unit {0})
  bind_image_puller namespace parent_namespace rb (refused not_found) =
      create_role_binding namespace parent_namespace rb
  bind_image_puller namespace parent_namespace rb (refused forbidden) =
      raise (wrapped (api forbidden) "Forbidden check Role, ClusterRole and Bindings for operator")
  bind_image_puller namespace parent_namespace rb (refused e) =
      raise (wrapped (api e) "Unexpected error")
  bind_image_puller namespace parent_namespace rb (answered found) =
      update_role_binding parent_namespace found

  unfoldable pub create_image_puller_role_binding : Exec (State W) (Unit {0})
  create_image_puller_role_binding = do
    s ← gets (λ s. s)
    let namespace = s.specialresource.spec.namespace
    (if not (s.dependency.image_reference == "true") then pure tt else (do
      let rb = role_binding_template
      found ←
          ask (env.client.get rb (record { namespace = namespace; name = "system:image-puller" }))
      bind_image_puller namespace s.parent.spec.namespace rb found))
