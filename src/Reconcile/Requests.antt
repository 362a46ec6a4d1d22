-- ===== src/Reconcile/Requests.antt =====
-- What a reconciliation returns to the controller: errors, and when the request is queued again.
use special_resource_operato.Prelude.{
  ◌≡◌, ◌≢◌, refl, true, String, List, [], ◌∷◌, Option, none, some,
}
use special_resource_operato.Exec.{
  Error, Outcome, ok, err, exit, panic, out_of_fuel, Exec, Attempt, returned, raised, pure,
  attempt_outcome, modify, attempt, continue, ◌>>=◌, api, ApiError, not_found,
}
use special_resource_operato.Exec.Returns.{
  Returns, Returns-bind, Returns-bind_any, Returns-os_exit, returns_rules,
}
use special_resource_operato.Api.{SpecialResource, SpecialResourceDependency}
use special_resource_operato.State.{State}
use special_resource_operato.Env.{Env, Answer, answered, refused}
use special_resource_operato.Cluster.{ask}
use special_resource_operato.Manifests.{AssetsFromFile}
use special_resource_operato.Reconcile.{
  ReconcileResult, create_first, create_special_resource_from, after_creation, create_missing,
  after_reconciliation, reconcile_current, reconcile_found, reconcile_dependency,
  reconcile_dependencies, unless_done, reconcile_parent, reconcile_parents, reconcile_listed,
  reconciler_special_resources, Step,
}

-- An action that returns no error to its caller.
record NoError {S A : Type 0} (m : Exec S A) : Type 0 where
  none_raised : (s : S) (e : Error) → (m s).0 ≢ err e

module _ {S A : Type 0} where
  NoError-pure : (a : A) → NoError {S = S} (pure a)
  unfolding ◌>>=◌
  NoError-pure a = record { none_raised = λ s e h. cc }

  NoError-attempt : (m : Exec S A) → NoError (attempt m)
  unfolding ◌>>=◌
  NoError-attempt m = record { none_raised = λ s e. attempt_outcome-err (m s).0 e }
    where
      attempt_outcome-err : (r : Outcome A) (e : Error) → attempt_outcome r ≢ err e
      attempt_outcome-err (ok a) e h = cc
      attempt_outcome-err (err x) e h = cc
      attempt_outcome-err exit e h = cc
      attempt_outcome-err panic e h = cc
      attempt_outcome-err out_of_fuel e h = cc

NoError-modify : {S : Type 0} (f : S → S) → NoError (modify f)
unfolding ◌>>=◌
NoError-modify f = record { none_raised = λ s e h. cc }

module _ {S A B : Type 0} where
  continue-err :
      (r : Outcome A) (f : A → Exec S B) (s : S) (e : Error)
      → ((x : Error) → r ≢ err x)
      → ((a : A) → NoError (f a))
      → (continue r f s).0 ≢ err e
  continue-err (ok a) f s e h k = (k a).none_raised s e
  continue-err (err x) f s e h k = absurd (h x refl)
  continue-err exit f s e h k = λ p. cc
  continue-err panic f s e h k = λ p. cc
  continue-err out_of_fuel f s e h k = λ p. cc

  NoError-bind :
      (m : Exec S A) (f : A → Exec S B) → NoError m → ((a : A) → NoError (f a)) → NoError (m >>= f)
  unfolding ◌>>=◌
  NoError-bind m f h k = record {
    none_raised = λ s e. continue-err (m s).0 f (m s).1 e (h.none_raised s) k;
  }

ruleset no_error_rules = (NoError-pure, NoError-attempt, NoError-modify, NoError-bind)

module _ {W : Type 0} (env : Env W) where
  NoError-after_creation : (r : Attempt SpecialResource) → NoError (after_creation env r)
  unfolding after_creation
  NoError-after_creation (raised e) = search no_error_rules
  NoError-after_creation (returned r) = search no_error_rules

  NoError-create_missing : (name : String) → NoError (create_missing env name)
  unfolding create_missing
  NoError-create_missing name = search (no_error_rules, NoError-after_creation)

  NoError-after_reconciliation : (r : Attempt (Unit {0})) → NoError (after_reconciliation env r)
  unfolding after_reconciliation
  NoError-after_reconciliation (raised e) = NoError-pure _
  NoError-after_reconciliation (returned r) = NoError-pure _

  NoError-reconcile_current : NoError (reconcile_current env)
  unfolding reconcile_current
  NoError-reconcile_current = search (no_error_rules, NoError-after_reconciliation)

  NoError-reconcile_found :
      (name : String) (r : Attempt SpecialResource) → NoError (reconcile_found env name r)
  unfolding reconcile_found
  NoError-reconcile_found name (returned r) = search (no_error_rules, NoError-reconcile_current)
  NoError-reconcile_found name (raised e) = NoError-create_missing name

  NoError-unless_done :
      (r : Option ReconcileResult) (next : Step env)
      → NoError next
      → NoError (unless_done env r next)
  NoError-unless_done (some r) next h = NoError-pure _
  NoError-unless_done none next h = h

  NoError-reconcile_dependency :
      (items : List SpecialResource) (d : SpecialResourceDependency)
      → NoError (reconcile_dependency env items d)
  unfolding reconcile_dependency
  NoError-reconcile_dependency items d = search (no_error_rules, NoError-reconcile_found)

  NoError-reconcile_dependencies :
      (items : List SpecialResource) (ds : List SpecialResourceDependency)
      → NoError (reconcile_dependencies env items ds)
  unfolding reconcile_dependencies
  NoError-reconcile_dependencies items [] = NoError-pure _
  NoError-reconcile_dependencies items (d ∷ ds) =
      NoError-bind _ _ (NoError-reconcile_dependency items d)
        (λ done. NoError-unless_done done _ (NoError-reconcile_dependencies items ds))

  NoError-reconcile_parent :
      (items : List SpecialResource) (parent : SpecialResource)
      → NoError (reconcile_parent env items parent)
  unfolding reconcile_parent
  NoError-reconcile_parent items parent =
      search
        (
          no_error_rules, NoError-reconcile_dependencies, NoError-unless_done,
          NoError-reconcile_current,
        )
        depth 12

  NoError-reconcile_parents :
      (items parents : List SpecialResource) → NoError (reconcile_parents env items parents)
  unfolding reconcile_parents
  NoError-reconcile_parents items [] = NoError-pure _
  NoError-reconcile_parents items (parent ∷ parents) =
      NoError-bind _ _ (NoError-reconcile_parent items parent)
        (λ done. NoError-unless_done done _ (NoError-reconcile_parents items parents))

  reconcile_listed-err :
      (answer : Answer (List SpecialResource)) (s : State W) (e : Error)
      → (reconcile_listed env answer s).0 ≡ err e
      → (x : ApiError) × (answer ≡ refused x) × (e ≡ api x) × (x ≢ not_found)
  unfolding reconcile_listed ◌>>=◌
  reconcile_listed-err (answered items) s e h = absurd (
      (NoError-bind _ _ (NoError-reconcile_parents items items)
          (λ done. NoError-pure _)).none_raised
        s e h)
  reconcile_listed-err (refused not_found) s e h = cc
  reconcile_listed-err (refused x) s e h = (x, refl, cc, λ p. cc)

  -- A reconciliation returns an error to the controller only where the list of special resources was
  -- refused, and not because it is missing; the error is then the API server's. Every other failure
  -- is a request to be queued again, or the end of the process.
  pub reconciler-err :
      (s : State W) (e : Error)
      → (reconciler_special_resources env s).0 ≡ err e
      → (x : ApiError) × ((env.client.list_special_resources s.world).0 ≡ refused x)
        × (e ≡ api x)
        × (x ≢ not_found)
  unfolding reconciler_special_resources ask ◌>>=◌
  reconciler-err s e h = reconcile_listed-err _ _ e h

  -- The creation of a missing resource from the image's recipes never returns a resource.
  create_first-fails :
      (manifests : List AssetsFromFile) → Returns (λ r. ⊥) (create_first env manifests)
  unfolding create_first
  create_first-fails [] = Returns-os_exit
  create_first-fails (manifest ∷ rest) = search returns_rules

  create_special_resource_from-fails :
      (name : String) → Returns (λ r. ⊥) (create_special_resource_from env name)
  unfolding create_special_resource_from
  create_special_resource_from-fails name = search (returns_rules, create_first-fails)

  abbrev pub requeued : Option ReconcileResult
  requeued = some (record { requeue = true })

  Returns-attempt :
      {S A : Type 0} {Q : A → Type 0} (m : Exec S A)
      → Returns Q m
      → Returns (λ r. (a : A) → r ≡ returned a → Q a) (attempt m)
  unfolding ◌>>=◌
  Returns-attempt m h = record {
    post = λ s r e a p. h.post s a (attempt_outcome-returned (m s).0 r a e p);
  }
    where
      attempt_outcome-returned :
          {A : Type 0} (o : Outcome A) (r : Attempt A) (a : A)
          → attempt_outcome o ≡ ok r
          → r ≡ returned a
          → o ≡ ok a
      attempt_outcome-returned (ok b) r a e p = cc
      attempt_outcome-returned (err x) r a e p = cc
      attempt_outcome-returned exit r a e p = cc
      attempt_outcome-returned panic r a e p = cc
      attempt_outcome-returned out_of_fuel r a e p = cc

  after_creation-requeues :
      (r : Attempt SpecialResource)
      → ((a : SpecialResource) → r ≡ returned a → ⊥)
      → Returns (λ t. t ≡ requeued) (after_creation env r)
  unfolding after_creation
  after_creation-requeues (raised e) h = search returns_rules
  after_creation-requeues (returned r) h = absurd (h r refl)

  pub create_missing-requeues :
      (name : String) → Returns (λ r. r ≡ requeued) (create_missing env name)
  unfolding create_missing
  create_missing-requeues name = Returns-bind_any _ _ (λ u.
      Returns-bind _ _ _ (Returns-attempt _ (create_special_resource_from-fails name))
        (λ r h. after_creation-requeues r h))
