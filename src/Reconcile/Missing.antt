-- ===== src/Reconcile/Missing.antt =====
-- A dependency that nobody has made yet, in `ReconcilerSpecialResources` and
-- `createSpecialResourceFrom` of controllers/specialresource.go.
use special_resource_operato.Prelude.{
  ◌≡◌, refl, ap, ◌∙◌, true, String, ◌<>◌, List, [], ◌∷◌, Option, none, some,
}
use special_resource_operato.Exec.{
  Error, Outcome, ok, err, exit, panic, out_of_fuel, Attempt, returned, raised, raise, new, attempt,
  exit_on_failure, ◌>>=◌, ◌>>◌,
}
use special_resource_operato.Api.{SpecialResource, SpecialResourceDependency, zero_resource}
use special_resource_operato.State.{State}
use special_resource_operato.Env.{Env, Entry}
use special_resource_operato.Manifests.{
  AssetsFromFile, assets_of, unless_panic, read_assets, get_assets_from,
}
use special_resource_operato.Create.{create_from_yaml}
use special_resource_operato.Reconcile.{
  ReconcileResult, get_dependency_from, create_first, create_special_resource_from, after_creation,
  create_missing, reconcile_found, reconcile_dependency,
}
use special_resource_operato.Reconcile.Requests.{requeued}

module _ {W : Type 0} (env : Env W) where
  -- The state with no resource set.
  abbrev pub cleared : State W → State W
  cleared s = record s { specialresource = zero_resource }

  -- From `s` to `t` the first manifest of the recipe of that name was created, with no error and in no
  -- namespace, since no resource is set.
  pub record CreatedFromRecipe (name : String) (s t : State W) : Type 0 where
    pub manifest : AssetsFromFile
    pub rest : List AssetsFromFile
    pub reached : State W
    pub found :
        get_assets_from env ("/opt/sro/recipes/" <> name) (cleared s)
        ≡ (ok (manifest ∷ rest), cleared s)
    pub created : create_from_yaml env manifest.content "" (cleared s) ≡ (ok tt, reached)
    pub left : t ≡ cleared reached

  finished :
      (o : Outcome (Unit {0})) (msg : String) (w c : State W) (r : Option ReconcileResult)
      → ((attempt (exit_on_failure (λ _. (o, w)) >> raise (new msg)) >>= after_creation env) c).0
        ≡ ok r
      → (o ≡ ok tt)
        × (r ≡ requeued env)
        × (((attempt (exit_on_failure (λ _. (o, w)) >> raise (new msg)) >>= after_creation env) c).1
            ≡ cleared w)
  unfolding after_creation ◌>>=◌
  finished (ok u) msg w c r h = (refl, cc, refl)
  finished (err x) msg w c r h = cc
  finished exit msg w c r h = cc
  finished panic msg w c r h = cc
  finished out_of_fuel msg w c r h = cc

  -- What a creation from these manifests does where the step goes on.
  FirstCreated : List AssetsFromFile → State W → State W → Option ReconcileResult → Type 0
  FirstCreated manifests c t r =
      (manifest : AssetsFromFile) × (rest : List AssetsFromFile) × (reached : State W) × (manifests
        ≡ manifest ∷ rest)
      × (create_from_yaml env manifest.content c.specialresource.spec.namespace c
          ≡ (ok tt, reached))
      × (t ≡ cleared reached)
      × (r ≡ requeued env)

  create_first-FirstCreated :
      (manifests : List AssetsFromFile) (c : State W) (r : Option ReconcileResult)
      → ((attempt (create_first env manifests) >>= after_creation env) c).0 ≡ ok r
      → FirstCreated manifests c
          ((attempt (create_first env manifests) >>= after_creation env) c).1
          r
  unfolding create_first FirstCreated ◌>>=◌
  create_first-FirstCreated [] c r h = cc
  create_first-FirstCreated (manifest ∷ rest) c r h =
      let done = create_from_yaml env manifest.content c.specialresource.spec.namespace c in
      let (fine, requeues, left) = finished done.0 _ done.1 c r h in
      (manifest, rest, done.1, refl, (λ i. (fine i, done.1)), left, requeues)

  -- The manifests of the recipe, read in a state that stays as it is, and the creation from them.
  Created : Option (List Entry) → State W → State W → Option ReconcileResult → Type 0
  Created directory c t r =
      (manifests : List AssetsFromFile) × (read_assets env directory c ≡ (ok manifests, c))
      × FirstCreated manifests c t r

  unless_panic-Created :
      (assets : Option (List AssetsFromFile)) (c : State W) (r : Option ReconcileResult)
      → ((attempt (unless_panic env assets >>= create_first env) >>= after_creation env) c).0 ≡ ok r
      → (manifests : List AssetsFromFile) × (unless_panic env assets c ≡ (ok manifests, c))
        × FirstCreated manifests c
            ((attempt (unless_panic env assets >>= create_first env) >>= after_creation env) c).1
            r
  unfolding ◌>>=◌
  unless_panic-Created none c r h = cc
  unless_panic-Created (some manifests) c r h =
      (manifests, refl, create_first-FirstCreated manifests c r h)

  read_assets-Created :
      (directory : Option (List Entry)) (c : State W) (r : Option ReconcileResult)
      → ((attempt (read_assets env directory >>= create_first env) >>= after_creation env) c).0
        ≡ ok r
      → Created directory c
          ((attempt (read_assets env directory >>= create_first env) >>= after_creation env) c).1
          r
  unfolding Created read_assets ◌>>=◌
  read_assets-Created none c r h = cc
  read_assets-Created (some entries) c r h = unless_panic-Created (assets_of entries) c r h

  create_missing-CreatedFromRecipe :
      (name : String) (s : State W) (r : Option ReconcileResult)
      → (create_missing env name s).0 ≡ ok r
      → (r ≡ requeued env) × CreatedFromRecipe name s (create_missing env name s).1
  unfolding create_missing create_special_resource_from get_assets_from Created FirstCreated ◌>>=◌
  create_missing-CreatedFromRecipe name s r h =
      let (manifests, read, done) =
        read_assets-Created (env.read_directory ("/opt/sro/recipes/" <> name)) (cleared s) r h in
      let (manifest, rest, reached, same, created, left, requeues) = done in
      (
        requeues,
        record {
          manifest = manifest;
          rest = rest;
          reached = reached;
          found = read ∙ ap (λ m. (ok m, cleared s)) same;
          created = created;
          left = left;
        },
      )

  reconcile_found-missing :
      (name : String) (found : Attempt SpecialResource) (e : Error) (s : State W)
      (r : Option ReconcileResult)
      → found ≡ raised e
      → (reconcile_found env name found s).0 ≡ ok r
      → (r ≡ requeued env) × CreatedFromRecipe name s (reconcile_found env name found s).1
  unfolding reconcile_found
  reconcile_found-missing name (raised x) e s r h p = create_missing-CreatedFromRecipe name s r p
  reconcile_found-missing name (returned a) e s r h p = cc

  -- A dependency that is not among the listed resources is created from the image's recipes: where the
  -- step for it returns, the directory of the recipe of its name was read, its first manifest, in the
  -- order of the directory, was created with no error and in no namespace, its other manifests were
  -- not, no resource is set any more, and the request is queued again.
  pub reconcile_dependency-missing :
      (items : List SpecialResource) (dependency : SpecialResourceDependency) (e : Error)
      (s : State W) (r : Option ReconcileResult)
      → get_dependency_from items dependency.name ≡ raised e
      → (reconcile_dependency env items dependency s).0 ≡ ok r
      → (r ≡ some (record { requeue = true }))
        × CreatedFromRecipe dependency.name
            (record s { dependency = dependency })
            (reconcile_dependency env items dependency s).1
  unfolding reconcile_dependency ◌>>=◌
  reconcile_dependency-missing items dependency e s r h p =
      reconcile_found-missing dependency.name _ e (record s { dependency = dependency }) r h p
