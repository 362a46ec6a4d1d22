-- ===== src/Safety/Requests.antt =====
-- The guard on updates, and the fuel, for whole requests: controllers/specialresource.go.
use special_resource_operato.Prelude.{
  arith, ◌≡◌, All, false, String, List, [], ◌∷◌, Option, none, some, Dict,
}
use special_resource_operato.Exec.{
  Exec, ok, wrap, exit_on_failure, ◌>>=◌, not_found, Attempt, returned, raised,
}
use special_resource_operato.Exec.Safe.{
  Safe-bind_post, Safe, Safe-exit_on_failure, Safe-modify, Safe-gets, Safe-wrap, Safe-os_exit,
  Safe-pure, Safe-raise, Safe-panicking, Safe-bind, safe_rules,
}
use special_resource_operato.Value.{Value, string, Fields}
use special_resource_operato.Api.{SpecialResource, SpecialResourceDependency}
use special_resource_operato.Env.{Env, Answer, answered, refused}
use special_resource_operato.Manifests.{AssetsFromFile}
use special_resource_operato.Hardware.{
  create_special_resource_namespace, get_local_hardware_configuration, found_configuration,
  get_hardware_configuration, manifest_of, execute_state, execute_states, reconcile_hardware_states,
  reconcile_hardware_configurations,
}
use special_resource_operato.Reconcile.{
  ReconcileResult, Step, create_first, create_special_resource_from, after_creation, create_missing,
  after_reconciliation, reconcile_current, reconcile_found, reconcile_dependency, unless_done,
  reconcile_dependencies, reconcile_parent, reconcile_parents, reconcile_listed,
  reconciler_special_resources,
}
use special_resource_operato.Safety.{
  IsListed, PollsInRounds, KeepsKind, IsGuarded, On, guarded_rules,
}
use special_resource_operato.Safety.Objects.{Safe-cache_nodes, cache_nodes-IsListed}
use special_resource_operato.Safety.Manifests.{Safe-create_from_yaml}
use special_resource_operato.Safety.Facts.{
  Safe-get_assets_from, Safe-get_runtime_information, Safe-create_image_puller_role_binding,
}

exit_on_failure-ok :
    {S A : Type 0} (msg : String) (m : Exec S A) (s : S) (a : A)
    → (exit_on_failure (wrap msg m) s).0 ≡ ok a
    → (m s).0 ≡ ok a
unfolding ◌>>=◌
exit_on_failure-ok msg m s a h = ground arith

module _ {W : Type 0} (env : Env W) {P : W → Type 0} (g : IsGuarded env P) where
  Safe-manifest_of : (value : Option Value) → Safe (On env P) (manifest_of env value)
  unfolding manifest_of
  Safe-manifest_of (some (string yaml)) = Safe-pure yaml
  Safe-manifest_of none = Safe-panicking
  Safe-manifest_of (some _) = Safe-panicking

  Safe-found_configuration :
      (name : String) (cm : Fields) (answer : Answer Fields)
      → Safe (On env P) (found_configuration env name cm answer)
  unfolding found_configuration get_local_hardware_configuration
  Safe-found_configuration name cm (answered found) = Safe-pure found
  Safe-found_configuration name cm (refused not_found) =
      search (safe_rules, Safe-get_assets_from) depth 9
  Safe-found_configuration name cm (refused _) = Safe-pure cm

  Safe-get_hardware_configuration : Safe (On env P) (get_hardware_configuration env)
  unfolding get_hardware_configuration
  Safe-get_hardware_configuration = search (guarded_rules, g.get, Safe-found_configuration) depth 9

module _ {W : Type 0} (env : Env W) (polls : PollsInRounds env) (k : KeepsKind env.unstructured)
    {P : W → Type 0} (g : IsGuarded env P) where
  Safe-create_special_resource_namespace : Safe (On env P) (create_special_resource_namespace env)
  unfolding create_special_resource_namespace
  Safe-create_special_resource_namespace =
      search (guarded_rules, Safe-create_from_yaml env polls k g) depth 20

  Safe-execute_state :
      (manifests : Dict Value) (state : String)
      → Safe (On env P) (execute_state env manifests state)
  unfolding execute_state
  Safe-execute_state manifests state = Safe-bind _ _ (Safe-manifest_of env g _) (λ yaml.
      Safe-bind _ _ (Safe-gets _)
        (λ namespace. Safe-wrap _ _ (Safe-create_from_yaml env polls k g yaml namespace)))

  Safe-execute_states :
      (manifests : Dict Value) (states : List String)
      → Safe (On env P) (execute_states env manifests states)
  unfolding execute_states
  Safe-execute_states manifests [] = Safe-pure tt
  Safe-execute_states manifests (state ∷ rest) =
      Safe-bind _ _ (Safe-execute_state manifests state) (λ _. Safe-execute_states manifests rest)

  Safe-reconcile_hardware_states :
      (config : Fields) → Safe (On env P) (reconcile_hardware_states env config)
  unfolding reconcile_hardware_states
  Safe-reconcile_hardware_states config = search (safe_rules, Safe-execute_states) depth 9

  Safe-reconcile_hardware_configurations : Safe (On env P) (reconcile_hardware_configurations env)
  unfolding reconcile_hardware_configurations
  Safe-reconcile_hardware_configurations =
      Safe-bind _ _ Safe-create_special_resource_namespace (λ _.
        Safe-bind _ _ (Safe-wrap _ _ (Safe-create_image_puller_role_binding env g)) (λ _.
          Safe-bind _ _ (Safe-wrap _ _ (Safe-get_hardware_configuration env g)) (λ config.
            Safe-bind_post (All (IsListed env)) _ _
              (λ s nodes p h.
                cache_nodes-IsListed env g false s nodes p (exit_on_failure-ok _ _ s nodes h))
              (Safe-exit_on_failure _ (Safe-wrap _ _ (Safe-cache_nodes env g false)))
              (λ nodes all. Safe-bind _ _ (Safe-modify _ (λ s p. (p.0, p.1, all))) (λ _.
                Safe-bind _ _ (Safe-get_runtime_information env g)
                  (λ _. Safe-wrap _ _ (Safe-reconcile_hardware_states config)))))))

  Safe-create_first :
      (manifests : List AssetsFromFile) → Safe (On env P) (create_first env manifests)
  unfolding create_first
  Safe-create_first [] = Safe-os_exit
  Safe-create_first (manifest ∷ rest) =
      search (safe_rules, Safe-create_from_yaml env polls k g) depth 9

  Safe-after_creation :
      (created : Attempt SpecialResource) → Safe (On env P) (after_creation env created)
  unfolding after_creation
  Safe-after_creation (raised e) = search guarded_rules
  Safe-after_creation (returned r) = search guarded_rules

  Safe-create_missing : (name : String) → Safe (On env P) (create_missing env name)
  unfolding create_missing create_special_resource_from
  Safe-create_missing name =
      search (guarded_rules, Safe-get_assets_from env g, Safe-create_first, Safe-after_creation)
        depth 20

  Safe-after_reconciliation :
      (done : Attempt (Unit {0})) → Safe (On env P) (after_reconciliation env done)
  unfolding after_reconciliation
  Safe-after_reconciliation (raised e) = Safe-pure _
  Safe-after_reconciliation (returned u) = Safe-pure none

  Safe-reconcile_current : Safe (On env P) (reconcile_current env)
  unfolding reconcile_current
  Safe-reconcile_current =
      search (safe_rules, Safe-reconcile_hardware_configurations, Safe-after_reconciliation) depth 9

  Safe-reconcile_found :
      (name : String) (found : Attempt SpecialResource)
      → Safe (On env P) (reconcile_found env name found)
  unfolding reconcile_found
  Safe-reconcile_found name (returned r) = search (guarded_rules, Safe-reconcile_current)
  Safe-reconcile_found name (raised e) = Safe-create_missing name

  Safe-reconcile_dependency :
      (items : List SpecialResource) (dependency : SpecialResourceDependency)
      → Safe (On env P) (reconcile_dependency env items dependency)
  unfolding reconcile_dependency
  Safe-reconcile_dependency items dependency = search (guarded_rules, Safe-reconcile_found)

  Safe-unless_done :
      (done : Option ReconcileResult) (next : Step env)
      → Safe (On env P) next
      → Safe (On env P) (unless_done env done next)
  Safe-unless_done (some r) next h = Safe-pure (some r)
  Safe-unless_done none next h = h

  Safe-reconcile_dependencies :
      (items : List SpecialResource) (dependencies : List SpecialResourceDependency)
      → Safe (On env P) (reconcile_dependencies env items dependencies)
  unfolding reconcile_dependencies
  Safe-reconcile_dependencies items [] = Safe-pure none
  Safe-reconcile_dependencies items (dependency ∷ rest) =
      Safe-bind _ _ (Safe-reconcile_dependency items dependency)
        (λ done. Safe-unless_done done _ (Safe-reconcile_dependencies items rest))

  Safe-reconcile_parent :
      (items : List SpecialResource) (parent : SpecialResource)
      → Safe (On env P) (reconcile_parent env items parent)
  unfolding reconcile_parent
  Safe-reconcile_parent items parent =
      search (guarded_rules, Safe-reconcile_dependencies, Safe-unless_done, Safe-reconcile_current)
        depth 12

  Safe-reconcile_parents :
      (items parents : List SpecialResource) → Safe (On env P) (reconcile_parents env items parents)
  unfolding reconcile_parents
  Safe-reconcile_parents items [] = Safe-pure none
  Safe-reconcile_parents items (parent ∷ rest) =
      Safe-bind _ _ (Safe-reconcile_parent items parent)
        (λ done. Safe-unless_done done _ (Safe-reconcile_parents items rest))

  Safe-reconcile_listed :
      (answer : Answer (List SpecialResource)) → Safe (On env P) (reconcile_listed env answer)
  unfolding reconcile_listed
  Safe-reconcile_listed (answered items) = search (safe_rules, Safe-reconcile_parents)
  Safe-reconcile_listed (refused not_found) = Safe-pure _
  Safe-reconcile_listed (refused _) = Safe-raise _

  pub Safe-reconciler_special_resources : Safe (On env P) (reconciler_special_resources env)
  unfolding reconciler_special_resources
  Safe-reconciler_special_resources =
      search (guarded_rules, g.list_special_resources, Safe-reconcile_listed)
