-- ===== src/Safety/Facts.antt =====
-- The guard on updates, for controllers/manifests.go, controllers/runtime.go and
-- `createImagePullerRoleBinding` of controllers/resources.go.
use special_resource_operato.Prelude.{
  ◌≡◌, not, ◌∙◌, ◌==◌, refl, true, String, List, [], ◌∷◌, Option, none, some,
}
use special_resource_operato.Exec.{Error, not_found, forbidden}
use special_resource_operato.Exec.Safe.{
  Safe-bind_post, Safe, Safe-gets, Safe-os_exit, Safe-pure, Safe-raise, Safe-panicking, Safe-bind,
  Safe-if, Safe-exit_on_error, safe_rules,
}
use special_resource_operato.Value.{Value, object, Fields}
use special_resource_operato.Env.{NamespacedName, Env, Entry, Answer, answered, refused}
use special_resource_operato.Manifests.{
  AssetsFromFile, unless_panic, assets_of, read_assets, get_assets_from,
}
use special_resource_operato.Runtime.{
  get_cluster_version, get_push_secret_name, unless_not_found, get_os_image_url,
  get_runtime_information,
}
use special_resource_operato.Proxy.{get_proxy_configuration}
use special_resource_operato.RoleBinding.{
  role_binding_template, must_set, create_role_binding, has_subject, update_object,
  update_role_binding, bind_image_puller, create_image_puller_role_binding,
}
use special_resource_operato.Safety.{
  IsPuller, puller, IsGuarded, rebound, On, Safe-ask, guarded_rules,
}
use special_resource_operato.Safety.Objects.{Safe-accept}
use special_resource_operato.Cluster.{ask-answer}

module _ {W : Type 0} (env : Env W) {P : W → Type 0} (g : IsGuarded env P) where
  Safe-unless_panic :
      (assets : Option (List AssetsFromFile)) → Safe (On env P) (unless_panic env assets)
  Safe-unless_panic none = Safe-panicking
  Safe-unless_panic (some assets) = Safe-pure assets

  Safe-read_assets : (entries : Option (List Entry)) → Safe (On env P) (read_assets env entries)
  unfolding read_assets
  Safe-read_assets none = Safe-os_exit
  Safe-read_assets (some entries) = Safe-unless_panic (assets_of entries)

  pub Safe-get_assets_from : (path : String) → Safe (On env P) (get_assets_from env path)
  unfolding get_assets_from
  Safe-get_assets_from path = Safe-read_assets _

  Safe-get_cluster_version : Safe (On env P) (get_cluster_version env)
  unfolding get_cluster_version
  Safe-get_cluster_version = search (guarded_rules, Safe-accept, g.cluster_version) depth 9

  Safe-get_push_secret_name : Safe (On env P) (get_push_secret_name env)
  unfolding get_push_secret_name
  Safe-get_push_secret_name = search (guarded_rules, Safe-accept, g.list) depth 9

  Safe-unless_not_found :
      (e : Error) (cm : Fields) (answer : Answer Fields)
      → Safe (On env P) (unless_not_found env e cm answer)
  unfolding unless_not_found
  Safe-unless_not_found e cm (answered found) = Safe-pure found
  Safe-unless_not_found e cm (refused not_found) = Safe-raise e
  Safe-unless_not_found e cm (refused _) = Safe-pure cm

  Safe-get_os_image_url : Safe (On env P) (get_os_image_url env)
  unfolding get_os_image_url
  Safe-get_os_image_url = search (guarded_rules, g.get, Safe-unless_not_found) depth 9

  Safe-get_proxy_configuration : Safe (On env P) (get_proxy_configuration env)
  unfolding get_proxy_configuration
  Safe-get_proxy_configuration = search (guarded_rules, Safe-accept, g.list) depth 9

  pub Safe-get_runtime_information : Safe (On env P) (get_runtime_information env)
  unfolding get_runtime_information
  Safe-get_runtime_information =
      search
        (
          guarded_rules, Safe-get_cluster_version, Safe-get_push_secret_name, Safe-get_os_image_url,
          Safe-get_proxy_configuration,
        )
        depth 40

  Safe-must_set :
      (value : Value) (path : List String) (obj : Fields)
      → Safe (On env P) (must_set env value path obj)
  unfolding must_set
  Safe-must_set value path obj = search safe_rules

  Safe-create_role_binding :
      (namespace parent : String) (rb : Fields)
      → Safe (On env P) (create_role_binding env namespace parent rb)
  unfolding create_role_binding
  Safe-create_role_binding namespace parent rb =
      search (guarded_rules, Safe-must_set, Safe-accept, g.create) depth 20

  Safe-has_subject :
      (namespace : String) (subjects : List Value)
      → Safe (On env P) (has_subject env namespace subjects)
  unfolding has_subject
  Safe-has_subject namespace [] = Safe-pure _
  Safe-has_subject namespace (object subject ∷ rest) =
      Safe-bind _ _ (Safe-exit_on_error _)
        (λ _. Safe-if _ _ _ (λ e. Safe-pure true) (λ e. Safe-has_subject namespace rest))
  Safe-has_subject namespace (_ ∷ rest) = Safe-has_subject namespace rest

  Safe-update_role_binding :
      (parent : String) (rb : Fields)
      → IsPuller env rb
      → Safe (On env P) (update_role_binding env parent rb)
  unfolding update_role_binding update_object
  Safe-update_role_binding parent rb found = Safe-bind _ _ (Safe-exit_on_error _) (λ _.
      Safe-bind _ _ (Safe-has_subject parent _) (λ present.
        Safe-if present _ _ (λ e. Safe-pure tt)
          (λ e.
            Safe-bind _ _ (Safe-ask _ (g.update _ (rebound parent rb found refl)))
              (λ answer. search (safe_rules, Safe-accept)))))

  Safe-bind_image_puller :
      (namespace parent : String) (rb : Fields) (answer : Answer Fields)
      → ((found : Fields) → answer ≡ answered found → IsPuller env found)
      → Safe (On env P) (bind_image_puller env namespace parent rb answer)
  unfolding bind_image_puller
  Safe-bind_image_puller namespace parent rb (answered found) provided =
      Safe-update_role_binding parent found (provided found refl)
  Safe-bind_image_puller namespace parent rb (refused not_found) provided =
      Safe-create_role_binding namespace parent rb
  Safe-bind_image_puller namespace parent rb (refused forbidden) provided = Safe-raise _
  Safe-bind_image_puller namespace parent rb (refused _) provided = Safe-raise _

  pub Safe-create_image_puller_role_binding : Safe (On env P) (create_image_puller_role_binding env)
  unfolding create_image_puller_role_binding
  Safe-create_image_puller_role_binding = Safe-bind _ _ (Safe-gets _) (λ s.
      Safe-if (not (s.dependency.image_reference == "true")) _ _ (λ e. Safe-pure tt)
        (λ e.
          let key : NamespacedName = record {
            namespace = s.specialresource.spec.namespace;
            name = "system:image-puller";
          } in
          let call = env.client.get (role_binding_template env) key in
          Safe-bind_post (λ answer. (w : W) × ((call w).0 ≡ answer)) _ _
            (λ t answer p h. (t.world, ask-answer call t answer h))
            (Safe-ask call (g.get (role_binding_template env) key))
            (λ answer (w, known).
              Safe-bind_image_puller _ _ _ answer
                (λ found h. puller s.specialresource.spec.namespace w (known ∙ h)))))
