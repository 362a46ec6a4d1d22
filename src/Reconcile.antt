-- ===== src/Reconcile.antt =====
-- `ReconcilerSpecialResources` of controllers/specialresource.go, which `Reconcile` of
-- controllers/specialresource_controller.go calls for each request.
pub mod Requests
pub mod Missing
pub mod Named
pub mod Order
pub mod Done
use special_resource_operato.Prelude.{
  Bool, true, false, String, ◌<>◌, Option, none, some, List, [], ◌∷◌, ◌==◌, if◌then◌else◌,
}
use special_resource_operato.Exec.{
  not_found, new, api, Exec, Attempt, returned, raised, pure, raise, gets, modify, ◌>>=◌, ◌>>◌,
  attempt, os_exit, exit_on_failure,
}
use special_resource_operato.Api.{SpecialResource, SpecialResourceDependency, zero_resource}
use special_resource_operato.State.{State}
use special_resource_operato.Env.{Env, Answer, answered, refused}
use special_resource_operato.Cluster.{ask}
use special_resource_operato.Manifests.{AssetsFromFile, get_assets_from}
use special_resource_operato.Create.{create_from_yaml}
use special_resource_operato.Hardware.{reconcile_hardware_configurations}

-- reconcile.Result
pub record ReconcileResult : Type 0 where
  pub requeue : Bool

unfoldable pub get_dependency_from : List SpecialResource → String → Attempt SpecialResource
get_dependency_from [] name = raised (new "Not found")
get_dependency_from (specialresource ∷ rest) name =
    if specialresource.name == name then returned specialresource else get_dependency_from rest name

module _ {W : Type 0} (env : Env W) where
  -- Only the first manifest is created, and the call always returns an error.
  unfoldable pub create_first : List AssetsFromFile → Exec (State W) SpecialResource
  create_first [] = os_exit
  create_first (manifest ∷ rest) = do
    namespace ← gets (λ s. s.specialresource.spec.namespace)
    exit_on_failure (create_from_yaml env manifest.content namespace)
    raise (new "Created new SpecialResource we need to Reconcile")

  unfoldable pub create_special_resource_from : String → Exec (State W) SpecialResource
  create_special_resource_from name = do
    manifests ← get_assets_from env ("/opt/sro/recipes/" <> name)
    create_first manifests

  abbrev pub set_resource : SpecialResource → Exec (State W) (Unit {0})
  set_resource r = modify (λ s. record s { specialresource = r })

  -- The result with which the reconciler returns early, or none to go on.
  abbrev pub Step : Type 0
  Step = Exec (State W) (Option ReconcileResult)

  -- Once the creation of a missing dependency has returned.
  unfoldable pub after_creation : Attempt SpecialResource → Step
  after_creation (raised e) = do set_resource zero_resource; pure (some (record { requeue = true }))
  after_creation (returned r) = do set_resource r; pure (some (record { requeue = false }))

  unfoldable pub create_missing : String → Step
  create_missing name = do
    set_resource zero_resource
    created ← attempt (create_special_resource_from name)
    after_creation created

  unfoldable pub after_reconciliation : Attempt (Unit {0}) → Step
  after_reconciliation (raised e) = pure (some (record { requeue = true }))
  after_reconciliation (returned u) = pure none

  -- The resource that is set is reconciled; an error requeues the request.
  unfoldable pub reconcile_current : Step
  reconcile_current = do
    done ← attempt (reconcile_hardware_configurations env)
    after_reconciliation done

  unfoldable pub reconcile_found : String → Attempt SpecialResource → Step
  reconcile_found name (returned r) = do set_resource r; reconcile_current
  reconcile_found name (raised e) = create_missing name

  unfoldable pub reconcile_dependency : List SpecialResource → SpecialResourceDependency → Step
  reconcile_dependency items dependency = do
    modify (λ s. record s { dependency = dependency })
    reconcile_found dependency.name (get_dependency_from items dependency.name)

  abbrev pub unless_done : Option ReconcileResult → Step → Step
  unless_done (some r) next = pure (some r)
  unless_done none next = next

  unfoldable pub reconcile_dependencies :
      List SpecialResource → List SpecialResourceDependency → Step
  reconcile_dependencies items [] = pure none
  reconcile_dependencies items (dependency ∷ rest) = do
    done ← reconcile_dependency items dependency
    unless_done done (reconcile_dependencies items rest)

  unfoldable pub reconcile_parent : List SpecialResource → SpecialResource → Step
  reconcile_parent items parent = do
    modify (λ s. record s { parent = parent })
    done ← reconcile_dependencies items parent.spec.depends_on
    unless_done done (do set_resource parent; reconcile_current)

  unfoldable pub reconcile_parents : List SpecialResource → List SpecialResource → Step
  reconcile_parents items [] = pure none
  reconcile_parents items (parent ∷ rest) = do
    done ← reconcile_parent items parent
    unless_done done (reconcile_parents items rest)

  abbrev pub result_of : Option ReconcileResult → ReconcileResult
  result_of none = record { requeue = false }
  result_of (some r) = r

  unfoldable pub reconcile_listed : Answer (List SpecialResource) → Exec (State W) ReconcileResult
  reconcile_listed (refused not_found) = pure (record { requeue = false })
  reconcile_listed (refused e) = raise (api e)
  reconcile_listed (answered items) = do done ← reconcile_parents items items; pure (result_of done)

  unfoldable pub reconciler_special_resources : Exec (State W) ReconcileResult
  reconciler_special_resources = do
    answer ← ask env.client.list_special_resources
    reconcile_listed answer
