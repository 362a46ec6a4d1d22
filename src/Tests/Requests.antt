-- ===== src/Tests/Requests.antt =====
-- The theorems on whole requests at concrete clusters.
use special_resource_operato.Prelude.{◌≡◌, ◌≢◌, refl, [], ◌∷◌, All}
use special_resource_operato.Exec.{err, api, forbidden, not_found, ApiError, ◌>>=◌}
use special_resource_operato.Exec.Safe.{Ends}
use special_resource_operato.State.{State, initial}
use special_resource_operato.Env.{Env, refused}
use special_resource_operato.Cluster.{ask}
use special_resource_operato.Reconcile.{
  get_dependency_from, reconcile_listed, reconciler_special_resources,
}
use special_resource_operato.Reconcile.Named.{IsNamed, get_dependency_from-IsNamed}
use special_resource_operato.Reconcile.Requests.{reconciler-err}
use special_resource_operato.Safety.{IsPermitted}
use special_resource_operato.Safety.Updates.{started, reconciled, Serves-IsPermitted, Serves-Ends}
use special_resource_operato.Tests.Accessors.{accessors-KeepsKind}
use special_resource_operato.Tests.Cluster.{plain, relying, cluster}
use special_resource_operato.Tests.Server.{
  World, client, test_env, test_env-PollsInRounds, test_env-LogsUpdates, updates_of,
}

abbrev after_request : State World
after_request = (reconciler_special_resources test_env (initial cluster)).1

Serves-IsPermitted_example : All (IsPermitted test_env) after_request.world.updates
Serves-IsPermitted_example =
    Serves-IsPermitted test_env updates_of test_env-LogsUpdates test_env-PollsInRounds
      accessors-KeepsKind cluster after_request refl (reconciled started)

Serves-Ends_example : Ends (reconciler_special_resources test_env after_request).0
Serves-Ends_example =
    Serves-Ends test_env updates_of test_env-LogsUpdates test_env-PollsInRounds accessors-KeepsKind
      cluster after_request refl (reconciled started)

get_dependency_from-IsNamed_example :
    IsNamed "simple-kmod"
      (relying ∷ plain ∷ [])
      (get_dependency_from (relying ∷ plain ∷ []) "simple-kmod")
get_dependency_from-IsNamed_example =
    get_dependency_from-IsNamed (relying ∷ plain ∷ []) "simple-kmod"

-- A server that does not let the operator list.
abbrev forbidding : Env World
forbidding = record test_env {
  client = record client { list_special_resources = λ w. (refused forbidden, w) };
}

refused_request :
    (reconciler_special_resources forbidding (initial cluster)).0 ≡ err (api forbidden)
unfolding reconciler_special_resources reconcile_listed ask ◌>>=◌
refused_request = refl

reconciler-err_example :
    (x : ApiError) × ((forbidding.client.list_special_resources cluster).0 ≡ refused x)
    × (api forbidden ≡ api x)
    × (x ≢ not_found)
reconciler-err_example = reconciler-err forbidding (initial cluster) (api forbidden) refused_request
