-- ===== src/Reconcile/Order.antt =====
-- The order in which `ReconcilerSpecialResources` of controllers/specialresource.go reconciles
-- resources and their dependencies, as a relation between states.
use mathlib.Core.Path.{subst}
use special_resource_operato.Prelude.{
  ◌≡◌, refl, sym, ◌∙◌, ap, false, String, List, [], ◌∷◌, Option, none, some,
}
use special_resource_operato.Exec.{
  Outcome, ok, err, exit, panic, out_of_fuel, continue, attempt_outcome, Attempt, returned, raised,
  pure, ◌>>=◌, not_found, forbidden, conflict, other, ◌>>◌,
}
use special_resource_operato.Exec.Returns.{bind-ok, Returns-pure, pure-state}
use special_resource_operato.Api.{SpecialResource, SpecialResourceDependency}
use special_resource_operato.State.{State}
use special_resource_operato.Env.{Env, Answer, answered, refused}
use special_resource_operato.Cluster.{ask}
use special_resource_operato.Hardware.{reconcile_hardware_configurations}
use special_resource_operato.Reconcile.{
  ReconcileResult, Step, get_dependency_from, set_resource, after_reconciliation, reconcile_current,
  reconcile_found, reconcile_dependency, reconcile_dependencies, unless_done, reconcile_parent,
  reconcile_parents, result_of, reconcile_listed, reconciler_special_resources,
}
use special_resource_operato.Reconcile.Requests.{create_missing-requeues}

module _ {W : Type 0} (env : Env W) (items : List SpecialResource) where
  -- One resource after another is set and its configuration reconciled with a nil error: first the
  -- dependencies of a resource, in their order, as found by their names among the items, then it.
  pub data DependenciesDone : List SpecialResourceDependency → State W → State W → Type 0 where
    no_dependency : {s : State W} → DependenciesDone [] s s
    dependency_done :
        {d : SpecialResourceDependency} {ds : List SpecialResourceDependency} {s t u : State W}
        (r : SpecialResource)
        → get_dependency_from items d.name ≡ returned r
        → reconcile_hardware_configurations env (record s { dependency = d; specialresource = r })
          ≡ (ok tt, t)
        → DependenciesDone ds t u
        → DependenciesDone (d ∷ ds) s u

  pub data ParentsDone : List SpecialResource → State W → State W → Type 0 where
    no_parent : {s : State W} → ParentsDone [] s s
    parent_done :
        {p : SpecialResource} {ps : List SpecialResource} {s t u v : State W}
        → DependenciesDone p.spec.depends_on (record s { parent = p }) t
        → reconcile_hardware_configurations env (record t { specialresource = p }) ≡ (ok tt, u)
        → ParentsDone ps u v
        → ParentsDone (p ∷ ps) s v

  -- The request is not queued again.
  abbrev IsQuiet : Option ReconcileResult → Type 0
  IsQuiet o = result_of env o ≡ record { requeue = false }

  settled :
      (r : Outcome (Unit {0}) × State W) (o : Option ReconcileResult)
      → (continue (attempt_outcome r.0) (after_reconciliation env) r.1).0 ≡ ok o
      → IsQuiet o
      → (o ≡ none)
        × (r ≡ (ok tt, (continue (attempt_outcome r.0) (after_reconciliation env) r.1).1))
  unfolding after_reconciliation ◌>>=◌
  settled (ok u, t) o h q = (cc, refl)
  settled (err e, t) o h q = cc
  settled (exit, t) o h q = cc
  settled (panic, t) o h q = cc
  settled (out_of_fuel, t) o h q = cc

  reconcile_current-done :
      (o : Option ReconcileResult) (s : State W)
      → (reconcile_current env s).0 ≡ ok o
      → IsQuiet o
      → (o ≡ none)
        × (reconcile_hardware_configurations env s ≡ (ok tt, (reconcile_current env s).1))
  unfolding reconcile_current ◌>>=◌
  reconcile_current-done o s h q = settled (reconcile_hardware_configurations env s) o h q

  -- What a dependency that was found, or was not, comes to.
  reconcile_found-done :
      (name : String) (found : Attempt SpecialResource) (o : Option ReconcileResult) (s : State W)
      → (reconcile_found env name found s).0 ≡ ok o
      → IsQuiet o
      → (o ≡ none)
        × (r : SpecialResource) × (found ≡ returned r)
        × (reconcile_hardware_configurations env (record s { specialresource = r })
            ≡ (ok tt, (reconcile_found env name found s).1))
  unfolding reconcile_found ◌>>=◌
  reconcile_found-done name (returned r) o s h q =
      let (e, run) = reconcile_current-done o (record s { specialresource = r }) h q in
      (e, r, refl, run)
  reconcile_found-done name (raised x) o s h q =
      let again = (create_missing-requeues env name).post s o h in cc

  went_on :
      (a o : Option ReconcileResult) (next : Step env) (s : State W)
      → (unless_done env a next s).0 ≡ ok o
      → IsQuiet o
      → (IsQuiet a → a ≡ none)
      → a ≡ none
  unfolding ◌>>=◌
  went_on none o next s h q k = refl
  went_on (some r) o next s h q k = k (cc)

  -- A step before others ends with nothing to return, and the others start where it ended.
  goes_on :
      (m next : Step env) (o : Option ReconcileResult) (s : State W)
      → ((m >>= λ done. unless_done env done next) s).0 ≡ ok o
      → IsQuiet o
      → ((a : Option ReconcileResult) → (m s).0 ≡ ok a → IsQuiet a → a ≡ none)
      → ((m s).0 ≡ ok none)
        × ((next (m s).1).0 ≡ ok o)
        × (((m >>= λ done. unless_done env done next) s).1 ≡ (next (m s).1).1)
  goes_on m next o s h q k =
      let (a, first, second, end) = bind-ok m (λ done. unless_done env done next) s o h in
      let none_left = went_on a o next (m s).1 second q (k a first) in
      let same = ap (λ b. unless_done env b next (m s).1) none_left in
      (first ∙ ap ok none_left, sym (ap (λ p. p.0) same) ∙ second, end ∙ ap (λ p. p.1) same)

  reconcile_dependency-done :
      (d : SpecialResourceDependency) (o : Option ReconcileResult) (s : State W)
      → (reconcile_dependency env items d s).0 ≡ ok o
      → IsQuiet o
      → (o ≡ none)
        × (r : SpecialResource) × (get_dependency_from items d.name ≡ returned r)
        × (reconcile_hardware_configurations env (record s { dependency = d; specialresource = r })
            ≡ (ok tt, (reconcile_dependency env items d s).1))
  unfolding reconcile_dependency ◌>>=◌
  reconcile_dependency-done d o s h q =
      reconcile_found-done d.name (get_dependency_from items d.name) o (record s { dependency = d })
        h q

  reconcile_dependencies-done :
      (ds : List SpecialResourceDependency) (o : Option ReconcileResult) (s : State W)
      → (reconcile_dependencies env items ds s).0 ≡ ok o
      → IsQuiet o
      → (o ≡ none) × DependenciesDone ds s (reconcile_dependencies env items ds s).1
  unfolding reconcile_dependencies
  reconcile_dependencies-done [] o s h q = (
    (Returns-pure {Q = λ a. a ≡ none} none refl).post s o h,
    subst (DependenciesDone [] s) (sym (pure-state none s)) no_dependency,
  )
  reconcile_dependencies-done (d ∷ ds) o s h q =
      let m = reconcile_dependency env items d in
      let (first, second, end) =
        goes_on m (reconcile_dependencies env items ds) o s h q
          (λ a e k. (reconcile_dependency-done d a s e k).0) in
      let (_, r, found, run) = reconcile_dependency-done d none s first refl in
      let (e, rest) = reconcile_dependencies-done ds o (m s).1 second q in
      (e, subst (DependenciesDone (d ∷ ds) s) (sym end) (dependency_done r found run rest))

  parent_current-done :
      (p : SpecialResource) (o : Option ReconcileResult) (s : State W)
      → ((set_resource env p >> reconcile_current env) s).0 ≡ ok o
      → IsQuiet o
      → (o ≡ none)
        × (reconcile_hardware_configurations env (record s { specialresource = p })
            ≡ (ok tt, ((set_resource env p >> reconcile_current env) s).1))
  unfolding ◌>>=◌
  parent_current-done p o s h q = reconcile_current-done o (record s { specialresource = p }) h q

  reconcile_parent-done :
      (p : SpecialResource) (o : Option ReconcileResult) (s : State W)
      → (reconcile_parent env items p s).0 ≡ ok o
      → IsQuiet o
      → (o ≡ none)
        × (t : State W) × DependenciesDone p.spec.depends_on (record s { parent = p }) t
        × (reconcile_hardware_configurations env (record t { specialresource = p })
            ≡ (ok tt, (reconcile_parent env items p s).1))
  unfolding reconcile_parent ◌>>=◌
  reconcile_parent-done p o s h q =
      let m = reconcile_dependencies env items p.spec.depends_on in
      let start = record s { parent = p } in
      let (first, second, end) =
        goes_on m (set_resource env p >> reconcile_current env) o start h q
          (λ a e k. (reconcile_dependencies-done p.spec.depends_on a start e k).0) in
      let (_, before) = reconcile_dependencies-done p.spec.depends_on none start first refl in
      let (e, run) = parent_current-done p o (m start).1 second q in
      (e, (m start).1, before, run ∙ ap (λ u. (ok tt, u)) (sym end))

  reconcile_parents-done :
      (ps : List SpecialResource) (o : Option ReconcileResult) (s : State W)
      → (reconcile_parents env items ps s).0 ≡ ok o
      → IsQuiet o
      → (o ≡ none) × ParentsDone ps s (reconcile_parents env items ps s).1
  unfolding reconcile_parents
  reconcile_parents-done [] o s h q = (
    (Returns-pure {Q = λ a. a ≡ none} none refl).post s o h,
    subst (ParentsDone [] s) (sym (pure-state none s)) no_parent,
  )
  reconcile_parents-done (p ∷ ps) o s h q =
      let m = reconcile_parent env items p in
      let (first, second, end) =
        goes_on m (reconcile_parents env items ps) o s h q
          (λ a e k. (reconcile_parent-done p a s e k).0) in
      let (_, t, before, run) = reconcile_parent-done p none s first refl in
      let (e, rest) = reconcile_parents-done ps o (m s).1 second q in
      (e, subst (ParentsDone (p ∷ ps) s) (sym end) (parent_done before run rest))

module _ {W : Type 0} (env : Env W) where
  -- The items that a listing answered have all been reconciled, from the state on that it left.
  abbrev pub AllDone : Answer (List SpecialResource) × W → State W → State W → Type 0
  AllDone (refused e, w) s t = (e ≡ not_found) × (t ≡ record s { world = w })
  AllDone (answered items, w) s t = ParentsDone env items items (record s { world = w }) t

  reconcile_listed-done :
      (answer : Answer (List SpecialResource) × W) (s : State W)
      → (reconcile_listed env answer.0 (record s { world = answer.1 })).0
        ≡ ok (record { requeue = false })
      → AllDone answer s (reconcile_listed env answer.0 (record s { world = answer.1 })).1
  unfolding reconcile_listed ◌>>=◌
  reconcile_listed-done (refused not_found, w) s h = (refl, refl)
  reconcile_listed-done (refused forbidden, w) s h = cc
  reconcile_listed-done (refused conflict, w) s h = cc
  reconcile_listed-done (refused (other m), w) s h = cc
  reconcile_listed-done (answered items, w) s h =
      let start = record s { world = w } in
      let (o, first, second, end) =
        bind-ok (reconcile_parents env items items) (λ done. pure (result_of env done)) start
          (record { requeue = false }) h in
      let quiet =
        (Returns-pure {S = State W} {Q = λ r. r ≡ result_of env o} (result_of env o) refl).post
          (reconcile_parents env items items start).1 (record { requeue = false }) second in
      let (_, done) = reconcile_parents-done env items items o start first (sym quiet) in
      subst (ParentsDone env items items start)
        (sym (
          end
          ∙ pure-state {S = State W} (result_of env o) (reconcile_parents env items items start).1))
        done

  pub reconciler-done :
      (s : State W)
      → (reconciler_special_resources env s).0 ≡ ok (record { requeue = false })
      → AllDone (env.client.list_special_resources s.world) s (reconciler_special_resources env s).1
  unfolding reconciler_special_resources ask ◌>>=◌
  reconciler-done s h = reconcile_listed-done (env.client.list_special_resources s.world) s h
