-- ===== src/Proxy/Written.antt =====
-- What becomes of an object that the proxy settings are written to: controllers/runtime.go.
use special_resource_operato.Prelude.{◌≡◌, refl, ◌==◌}
use special_resource_operato.Exec.Returns.{
  Returns, Returns-bind, Returns-pure, Returns-if, Returns-wrap, returns_rules,
}
use special_resource_operato.Value.{Fields}
use special_resource_operato.State.{State}
use special_resource_operato.Env.{Env}
use special_resource_operato.Proxy.{setup_pod_proxy, setup_daemon_set_proxy, setup_proxy}

module _ {W : Type 0} (env : Env W) where
  setup_pod_proxy-unchanged :
      (obj : Fields) → Returns {S = State W} (λ r. r ≡ obj) (setup_pod_proxy env obj)
  unfolding setup_pod_proxy
  setup_pod_proxy-unchanged obj = search returns_rules

  setup_daemon_set_proxy-unchanged :
      (obj : Fields) → Returns {S = State W} (λ r. r ≡ obj) (setup_daemon_set_proxy env obj)
  unfolding setup_daemon_set_proxy
  setup_daemon_set_proxy-unchanged obj = search returns_rules

  pub setup_proxy-Returns :
      (obj : Fields) → Returns {S = State W} (λ r. r ≡ obj) (setup_proxy env obj)
  unfolding setup_proxy
  setup_proxy-Returns obj =
      Returns-bind (λ r. r ≡ obj) _ _
        (Returns-if (env.kind obj == "Pod") _ _ (Returns-wrap _ _ (setup_pod_proxy-unchanged obj))
          (Returns-pure obj refl))
        (λ r e. rw e (
          Returns-if (env.kind obj == "DaemonSet") _ _
            (Returns-wrap _ _ (setup_daemon_set_proxy-unchanged obj)) (Returns-pure obj refl)))
