-- ===== src/Callbacks/Before.antt =====
-- What `beforeCRUDhooks` of controllers/callbacks.go changes in an object.
use special_resource_operato.Prelude.{
  ◌≡◌, ◌≢◌, refl, ap, Bool-cases, inl, inr, String, Option, none, some, index, index_or, ◌==◌,
  eq_iff,
}
use special_resource_operato.Exec.{ok}
use special_resource_operato.Exec.Returns.{
  Returns, Returns-bind, Returns-pure, Returns-if, Returns-wrap,
}
use special_resource_operato.Value.{Fields}
use special_resource_operato.State.{State}
use special_resource_operato.Env.{Env}
use special_resource_operato.Proxy.Written.{setup_proxy-Returns}
use special_resource_operato.Callbacks.{
  custom_callback, run_prefix, run_callback, before_crud_hooks,
}

module _ {W : Type 0} (env : Env W) where
  custom_callback-none :
      (todo : String) → todo ≢ "specialresource-grafana-configmap" → custom_callback env todo ≡ none
  unfolding custom_callback
  custom_callback-none todo h = elim (Bool-cases (todo == "specialresource-grafana-configmap")) [
    | inl e ↦ absurd (h ((eq_iff _ _).0 e))
    | inr e ↦ rw e
  ]

  run_callback-Returns :
      (obj : Fields) (todo : Option String)
      → todo ≢ some "specialresource-grafana-configmap"
      → Returns {S = State W} (λ r. r ≡ obj) (run_callback env todo obj)
  unfolding run_callback run_prefix
  run_callback-Returns obj none h = Returns-pure obj refl
  run_callback-Returns obj (some todo) h =
      rw (custom_callback-none todo (λ e. h (ap some e)), run_prefix) (Returns-pure obj refl)

  -- An object whose annotations do not ask for the Grafana callback goes into the cluster as it is in
  -- the manifest, also where they ask for the proxy: when the hooks succeed, they return the object
  -- unchanged.
  pub before_crud_hooks-unchanged :
      (obj obj' : Fields) (s : State W)
      → index (env.annotations obj) "specialresource.openshift.io/callback"
        ≢ some "specialresource-grafana-configmap"
      → (before_crud_hooks env obj s).0 ≡ ok obj'
      → obj' ≡ obj
  unfolding before_crud_hooks
  before_crud_hooks-unchanged obj obj' s n h =
      (Returns-bind {S = State W} {R = λ r. r ≡ obj} (λ r. r ≡ obj) _ _
          (Returns-if
            (index_or (env.annotations obj) "specialresource.openshift.io/proxy" == "true") _ _
            (Returns-wrap _ _ (setup_proxy-Returns env obj)) (Returns-pure obj refl))
          (λ r e. rw e (run_callback-Returns obj _ n))).post
        s obj' h
