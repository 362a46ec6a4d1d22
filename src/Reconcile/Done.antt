-- ===== src/Reconcile/Done.antt =====
-- A request whose resources can all be reconciled, in the relation of Reconcile/Order, and the code of
-- controllers/specialresource.go.
use mathlib.Core.Path.{subst}
use special_resource_operato.Prelude.{◌↔◌, ◌≡◌, refl, false, List, none, ap}
use special_resource_operato.Exec.{ok, ◌>>=◌, returned}
use special_resource_operato.Api.{SpecialResource, SpecialResourceDependency}
use special_resource_operato.State.{State}
use special_resource_operato.Env.{Env, Answer, answered, refused}
use special_resource_operato.Cluster.{ask}
use special_resource_operato.Hardware.{reconcile_hardware_configurations}
use special_resource_operato.Reconcile.{
  get_dependency_from, after_reconciliation, reconcile_current, reconcile_found,
  reconcile_dependency, reconcile_dependencies, reconcile_parent, reconcile_parents,
  reconcile_listed, reconciler_special_resources,
}
use special_resource_operato.Reconcile.Order.{
  DependenciesDone, no_dependency, dependency_done, ParentsDone, no_parent, parent_done, AllDone,
  reconciler-done,
}

module _ {W : Type 0} (env : Env W) (items : List SpecialResource) where
  current_done :
      (s t : State W)
      → reconcile_hardware_configurations env s ≡ (ok tt, t)
      → reconcile_current env s ≡ (ok none, t)
  unfolding reconcile_current after_reconciliation ◌>>=◌
  current_done s t run = rw run refl

  dependency_reconciled :
      (d : SpecialResourceDependency) (r : SpecialResource) (s t : State W)
      → get_dependency_from items d.name ≡ returned r
      → reconcile_hardware_configurations env (record s { dependency = d; specialresource = r })
        ≡ (ok tt, t)
      → reconcile_dependency env items d s ≡ (ok none, t)
  unfolding reconcile_dependency reconcile_found ◌>>=◌
  dependency_reconciled d r s t found run = rw found (current_done _ t run)

  dependencies_reconciled :
      {ds : List SpecialResourceDependency} {s t : State W}
      → DependenciesDone env items ds s t
      → reconcile_dependencies env items ds s ≡ (ok none, t)
  unfolding reconcile_dependencies ◌>>=◌
  dependencies_reconciled no_dependency = refl
  dependencies_reconciled {s = s} (dependency_done {d = d} {t = t} r found run rest) =
      rw (dependency_reconciled d r s t found run) (dependencies_reconciled rest)

  parent_reconciled :
      (p : SpecialResource) (s t u : State W)
      → DependenciesDone env items p.spec.depends_on (record s { parent = p }) t
      → reconcile_hardware_configurations env (record t { specialresource = p }) ≡ (ok tt, u)
      → reconcile_parent env items p s ≡ (ok none, u)
  unfolding reconcile_parent ◌>>=◌
  parent_reconciled p s t u before run =
      rw (dependencies_reconciled before) (current_done (record t { specialresource = p }) u run)

  parents_reconciled :
      {ps : List SpecialResource} {s t : State W}
      → ParentsDone env items ps s t
      → reconcile_parents env items ps s ≡ (ok none, t)
  unfolding reconcile_parents ◌>>=◌
  parents_reconciled no_parent = refl
  parents_reconciled {s = s} (parent_done {p = p} {t = t} {u = u} before run rest) =
      rw (parent_reconciled p s t u before run) (parents_reconciled rest)

module _ {W : Type 0} (env : Env W) where
  listed_done :
      (answer : Answer (List SpecialResource) × W) (s t : State W)
      → AllDone env answer s t
      → reconcile_listed env answer.0 (record s { world = answer.1 })
        ≡ (ok (record { requeue = false }), t)
  unfolding reconcile_listed ◌>>=◌
  listed_done (refused e, w) s t (missing, same) = rw (missing, same) refl
  listed_done (answered items, w) s t done = rw (parents_reconciled env items done) refl

  done-reconciler :
      (s t : State W)
      → AllDone env (env.client.list_special_resources s.world) s t
      → reconciler_special_resources env s ≡ (ok (record { requeue = false }), t)
  unfolding reconciler_special_resources ask ◌>>=◌
  done-reconciler s t done = listed_done (env.client.list_special_resources s.world) s t done

  -- A request ends without being queued again, in some state, exactly where there is nothing left to do
  -- in that state: no special resource type was found, or every listed resource, in the order of the
  -- list, was reconciled without an error after each of its dependencies, in their order, was found
  -- among the listed resources by name and reconciled without an error, each step starting in the
  -- state in which the one before it ended.
  pub reconciler_iff :
      (s t : State W)
      → (reconciler_special_resources env s ≡ (ok (record { requeue = false }), t))
        ↔ AllDone env (env.client.list_special_resources s.world) s t
  reconciler_iff s t = (
    λ h.
        subst (AllDone env (env.client.list_special_resources s.world) s) (ap (λ r. r.1) h)
          (reconciler-done env s (ap (λ r. r.0) h)),
    done-reconciler s t,
  )
