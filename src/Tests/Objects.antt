-- ===== src/Tests/Objects.antt =====
-- Objects of a manifest on their way into the cluster.
use special_resource_operato.Prelude.{◌≡◌, ◌≢◌, refl, inr, String, [], ◌∷◌, some, index, lookup}
use special_resource_operato.Exec.{Error, new, ok, err, ◌>>=◌}
use special_resource_operato.Value.{Value, Fields, nil, cons, field, empty, string, object, slice}
use special_resource_operato.State.{State, initial}
use special_resource_operato.Crud.{resource_namespaced}
use special_resource_operato.Callbacks.{
  before_crud_hooks, waiting_reason, judge_pods, run_callback, run_prefix,
}
use special_resource_operato.Callbacks.Before.{before_crud_hooks-unchanged}
use special_resource_operato.Proxy.{
  env_var, or_unchanged, setup_containers_proxy, setup_pod_proxy, setup_proxy,
}
use special_resource_operato.Create.{
  decode, template_runtime_information, rebuild_driver_container, check_vendor, create_from_yaml,
}
use special_resource_operato.Create.Vendor.{vendor_key, judge_pods-rebuild, create_from_yaml-skip}
use special_resource_operato.Tests.Cluster.{cluster}
use special_resource_operato.Tests.Server.{World, test_env, object_with}

abbrev start : State World
start = initial cluster

-- A pod that asks for the proxy.
abbrev proxied_pod : Fields
proxied_pod = field "kind" (string "Pod") (
    field "metadata"
      (object (
        field "annotations"
          (object (field "specialresource.openshift.io/proxy" (string "true") empty)) empty))
      (field "spec"
        (object
          (field "containers" (slice (cons (object (field "name" (string "c") empty)) nil)) empty))
        empty))

hooks_run : (before_crud_hooks test_env proxied_pod start).0 ≡ ok proxied_pod
unfolding before_crud_hooks run_callback run_prefix setup_proxy setup_pod_proxy
    setup_containers_proxy env_var or_unchanged lookup ◌>>=◌
hooks_run = refl

not_grafana :
    index (test_env.annotations proxied_pod) "specialresource.openshift.io/callback"
    ≢ some "specialresource-grafana-configmap"
unfolding lookup
not_grafana h = cc

before_crud_hooks-unchanged_example : proxied_pod ≡ proxied_pod
before_crud_hooks-unchanged_example =
    before_crud_hooks-unchanged test_env proxied_pod proxied_pod start not_grafana hooks_run

abbrev build_config : Fields
build_config = object_with "BuildConfig" [] ((vendor_key, "acme") ∷ [])

abbrev driver : Fields
driver = object_with "DaemonSet" [] ((vendor_key, "acme") ∷ [])

abbrev failing_status : Value
failing_status = object (
    field "state"
      (object (field "waiting" (object (field "reason" (string "ErrImagePull") empty)) empty))
      empty)

abbrev failing_pod : Fields
failing_pod =
    field "status" (object (field "containerStatuses" (slice (cons failing_status nil)) empty))
      empty

waits_for_image : waiting_reason test_env.unstructured (failing_status ∷ []) ≡ "ErrImagePull"
unfolding waiting_reason
waits_for_image = refl

vendor_of :
    (kind : String)
    → index (test_env.annotations (object_with kind [] ((vendor_key, "acme") ∷ []))) vendor_key
      ≡ some "acme"
unfolding lookup
vendor_of kind = refl

judge_pods-rebuild_example :
    let s = (judge_pods test_env driver (failing_pod ∷ []) start).1 in
    ((e : Error) × ((judge_pods test_env driver (failing_pod ∷ []) start).0 ≡ err e))
    × (rebuild_driver_container test_env build_config s ≡ (ok tt, s))
judge_pods-rebuild_example =
    judge_pods-rebuild test_env driver failing_pod build_config [] (failing_status ∷ []) "acme"
      start refl (inr waits_for_image) (vendor_of "DaemonSet") (vendor_of "BuildConfig")

abbrev decoded_build : Fields
decoded_build = test_env.set_namespace "ns" build_config

build_decoded : decode test_env "ns" "BuildConfig" start ≡ (ok decoded_build, start)
unfolding decode template_runtime_information resource_namespaced ◌>>=◌
build_decoded = refl

build_skipped :
    (rebuild_driver_container test_env decoded_build start).0 ≡ err (new "vendor != updateVendor")
unfolding rebuild_driver_container check_vendor lookup ◌>>=◌
build_skipped = refl

create_from_yaml-skip_example : create_from_yaml test_env "BuildConfig" "ns" start ≡ (ok tt, start)
create_from_yaml-skip_example =
    create_from_yaml-skip test_env "BuildConfig" "ns" "BuildConfig" [] decoded_build
      (new "vendor != updateVendor") start start refl build_decoded build_skipped
