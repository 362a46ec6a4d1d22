-- ===== src/Tests/Waiting.antt =====
-- Waiting for objects, at a server that has them.
use special_resource_operato.Prelude.{
  ℕ, zero, suc, ◌≡◌, ◌↔◌, refl, lookup, true, false, List, [], ◌∷◌, ◌++◌, none, length, leb,
  if◌then◌else◌,
}
use special_resource_operato.Prelude.Int.{pos}
use special_resource_operato.Exec.{ok, returned, ◌>>=◌}
use special_resource_operato.Value.{Fields, field, empty, string, int64, object}
use special_resource_operato.State.{State, initial}
use special_resource_operato.Env.{Env, answered}
use special_resource_operato.Cluster.{ask, accept}
use special_resource_operato.Crud.{object_key}
use special_resource_operato.Safety.{poll_rounds}
use special_resource_operato.Wait.{
  last_bytes, daemon_set_callback, wait_for_pod, wait_for_resource_full_availability,
  wait_for_resource_availability, check_full_availability, check_availability, called_back,
  status_callback, check_logs, wait_for_daemon_set_logs,
}
use special_resource_operato.Wait.Logs.{FirstMatches, wait_for_daemon_set_logs_iff}
use special_resource_operato.Wait.Polling.{wait_for_pod-ok}
use special_resource_operato.Wait.Ready.{last_bytes_lem, daemon_set_callback_lem}
use special_resource_operato.Tests.Cluster.{cluster}
use special_resource_operato.Tests.Server.{World, client, test_env, test_env-PollsInRounds}

abbrev pod : Fields
pod = field "kind" (string "Pod") (
    field "metadata"
      (object (field "name" (string "probe") (field "namespace" (string "ns") empty)))
      (field "status" (object (field "phase" (string "Succeeded") empty)) empty))

abbrev with_pod : State World
with_pod = initial (record cluster { objects = pod ∷ [] })

pod_waited_for : (wait_for_pod test_env pod with_pod).0 ≡ ok tt
unfolding wait_for_pod wait_for_resource_full_availability wait_for_resource_availability
    check_full_availability called_back status_callback poll_rounds check_availability ask ◌>>=◌
pod_waited_for = refl

wait_for_pod-ok_example :
    (t : State World) × (found : Fields) × ((test_env.client.get pod
        (object_key test_env pod)
        t.world).0
      ≡ answered found)
    × (test_env.nested_string found ("status" ∷ "phase" ∷ []) ≡ ("Succeeded", true, none))
wait_for_pod-ok_example =
    wait_for_pod-ok test_env test_env-PollsInRounds pod with_pod pod_waited_for

abbrev zeros : ℕ → List ℕ
zeros zero = []
zeros (suc n) = 0 ∷ zeros n

last_bytes_lem_example :
    (length (last_bytes (zeros 120)) ≡ (if leb (length (zeros 120)) 100 then 0 else 100))
    × (before : List ℕ) × (before ++ last_bytes (zeros 120) ≡ zeros 120)
last_bytes_lem_example = last_bytes_lem (zeros 120)

abbrev daemon_set : Fields
daemon_set =
    field "status"
      (object (
        field "desiredNumberScheduled" (int64 (pos 3)) (
          field "numberAvailable" (int64 (pos 2))
            (field "numberUnavailable" (int64 (pos 1)) empty))))
      empty

daemon_set_callback_lem_example :
    daemon_set_callback test_env daemon_set with_pod
    ≡ (ok false, record with_pod { node = record with_pod.node { count = pos 3 } })
daemon_set_callback_lem_example =
    daemon_set_callback_lem test_env daemon_set with_pod (pos 3) (pos 2) (pos 1) true true refl refl
      refl

-- The first pod's log has 120 bytes, and the pattern matches 100 bytes of any kind.
abbrev log_env : Env World
log_env = record test_env {
  client = record client { open_logs = λ k w. (answered (returned (zeros 120)), w) };
  match_string = λ pattern logs. leb 100 (length logs);
}

abbrev with_logs : State World
with_logs = initial (record cluster { lists = ("pod", pod ∷ pod ∷ []) ∷ [] })

logs_waited_for : (wait_for_daemon_set_logs log_env daemon_set "done" with_logs).0 ≡ ok tt
unfolding wait_for_daemon_set_logs check_logs last_bytes lookup ask accept ◌>>=◌
logs_waited_for = refl

wait_for_daemon_set_logs_iff_example :
    ((wait_for_daemon_set_logs log_env daemon_set "done" with_logs).0 ≡ ok tt)
    ↔ FirstMatches log_env "done" daemon_set with_logs
wait_for_daemon_set_logs_iff_example =
    wait_for_daemon_set_logs_iff log_env "done" daemon_set with_logs
