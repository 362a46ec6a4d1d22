-- ===== src/Tests/Facts.antt =====
-- What is read of the cluster, at concrete answers of it.
use special_resource_operato.Prelude.{
  ◌≡◌, ◌≢◌, refl, true, ◌<>◌, [], ◌∷◌, ◌==◌, if◌then◌else◌, arith, eq_iff, contains-IsPart,
  contains,
}
use special_resource_operato.Exec.{returned}
use special_resource_operato.Value.{Fields, field, empty, string, object}
use special_resource_operato.Env.{UpdateHistory}
use special_resource_operato.OperatingSystem.{render_operating_system}
use special_resource_operato.OperatingSystem.Names.{render_major_minor}
use special_resource_operato.Proxy.{read_proxy, select_proxy}
use special_resource_operato.Proxy.Selected.{select_proxy-last}
use special_resource_operato.RuntimeInfo.{no_proxy_configuration}
use special_resource_operato.Runtime.{completed_version, split_dots, major_minor, find_push_secret}
use special_resource_operato.Runtime.Secrets.{IsFirstMarked, find_push_secret-IsFirstMarked}
use special_resource_operato.Runtime.Versions.{
  HasNoDot, completed, completed_version-first, completed_version-major_minor,
}
use special_resource_operato.Tests.Cluster.{secret, node}
use special_resource_operato.Tests.Server.{test_env}

render_major_minor_example :
    (render_operating_system "rhcos" "4" "5").major_minor
    ≡ (if "rhcos" == "rhcos" then "rhel" else "rhcos")
      <> (render_operating_system "rhcos" "4" "5").decimal
render_major_minor_example = render_major_minor "rhcos" "4" "5"

abbrev partial_update : UpdateHistory
partial_update = record { state = "Partial"; version = "4.6.1" }

abbrev completed_update : UpdateHistory
completed_update = record { state = "Completed"; version = "4.5.16" }

partial_not_completed : partial_update.state ≢ "Completed"
partial_not_completed = ground (arith, eq_iff "Partial" "Completed")

four-HasNoDot : HasNoDot "4"
unfolding HasNoDot
four-HasNoDot = (refl, tt)

five-HasNoDot : HasNoDot "5"
unfolding HasNoDot
five-HasNoDot = (refl, tt)

completed_version-first_example :
    completed_version (partial_update ∷ completed_update ∷ [])
    ≡ returned ("4.5.16", major_minor (split_dots "4.5.16"))
completed_version-first_example =
    completed_version-first (partial_update ∷ []) [] completed_update (partial_not_completed, tt)
      refl

-- The only completed update is to 4.5.16, the versions 4.5 and 4 are those of shorter texts.
completed_version-major_minor_example :
    (completed_version (partial_update ∷ completed "4.5.16" ∷ []) ≡ returned ("4.5.16", "4.5"))
    × (completed_version (partial_update ∷ completed "4.5" ∷ []) ≡ returned ("4.5", "4.5"))
    × (completed_version (partial_update ∷ completed "4" ∷ []) ≡ returned ("4", "4"))
completed_version-major_minor_example =
    completed_version-major_minor (partial_update ∷ []) [] "4" "5" "16" (partial_not_completed, tt)
      four-HasNoDot five-HasNoDot

find_push_secret-IsFirstMarked_example :
    IsFirstMarked test_env (node ∷ secret ∷ []) (find_push_secret test_env (node ∷ secret ∷ []))
find_push_secret-IsFirstMarked_example =
    find_push_secret-IsFirstMarked test_env (node ∷ secret ∷ [])

abbrev proxy_object : Fields
proxy_object =
    field "metadata" (object (field "name" (string "cluster") empty))
      (field "spec" (object (field "httpProxy" (string "http://proxy") empty)) empty)

named_cluster : contains "cluster" "cluster" ≡ true
unfolding contains
named_cluster = refl

select_proxy-last_example :
    select_proxy test_env (node ∷ proxy_object ∷ []) no_proxy_configuration
    ≡ read_proxy test_env proxy_object
select_proxy-last_example =
    select_proxy-last test_env (node ∷ []) [] proxy_object no_proxy_configuration
      (contains-IsPart "cluster" "cluster" named_cluster) tt
