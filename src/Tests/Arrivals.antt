-- ===== src/Tests/Arrivals.antt =====
-- Objects that appear and change while the operator waits, in the tests of Wait/Arrival.
use special_resource_operato.Prelude.{◌≡◌, ◌≢◌, refl, String, List, [], ◌∷◌, lookup, arith}
use special_resource_operato.Exec.{ok, not_found}
use special_resource_operato.Value.{Fields, field, empty, string, int64, object}
use special_resource_operato.State.{State, initial}
use special_resource_operato.Env.{Env, Answer, answered, refused}
use special_resource_operato.Wait.{wait_for_pod, wait_for_build, wait_for_daemon_set}
use special_resource_operato.Wait.Scaled.{ScalesIn, scaled, scaling, wait_for_daemon_set-scales}
use special_resource_operato.Prelude.Int.{ℤ, pos}
use special_resource_operato.Wait.Arrival.{
  PollsFor, AppearsIn, appears, missing, ReachesIn, reached, pending, phase, wait_for_pod-succeeds,
}
use special_resource_operato.Wait.Builds.{ReachInTurn, none_left, reach, wait_for_build-completes}
use special_resource_operato.Tests.Cluster.{cluster}
use special_resource_operato.Tests.Server.{World, test_env, client}

abbrev in_phase : String → Fields
in_phase text =
    field "kind" (string "Pod") (field "status" (object (field "phase" (string text) empty)) empty)

-- Pending when it is found, then running, then done.
abbrev script : String → List Fields
script done = in_phase "Pending" ∷ in_phase "Running" ∷ in_phase done ∷ []

-- The read of an object answers with what comes next, whatever was asked for.
abbrev next_read : List Fields → Answer Fields
next_read [] = refused not_found
next_read (x ∷ xs) = answered x

abbrev after_read : List Fields → List Fields
after_read [] = script "Succeeded"
after_read (x ∷ []) = x ∷ []
after_read (x ∷ y ∷ rest) = y ∷ rest

-- The reads answer with the world's objects in turn, and with the last one again and again; where
-- nothing is there, the first read misses it, and the script's objects come next.
abbrev slow_env : Env World
slow_env = record test_env {
  client = record client {
    get = λ o k w. (next_read w.objects, record w { objects = after_read w.objects });
  };
}

slow_env-PollsFor : PollsFor 3 slow_env
slow_env-PollsFor = record { rounds = λ condition s. (3, omega arith, refl) }

abbrev at_first : World
at_first = record cluster { objects = [] }

abbrev once_found : String → World
once_found done = record cluster { objects = in_phase "Running" ∷ in_phase done ∷ [] }

abbrev at_last : String → World
at_last done = record cluster { objects = in_phase done ∷ [] }

pod_appears : AppearsIn slow_env (in_phase "") 3 at_first (once_found "Succeeded")
pod_appears = missing refl (appears (in_phase "Pending") refl)

pod_succeeds :
    ReachesIn slow_env
      (in_phase "")
      "Succeeded"
      phase
      3
      (once_found "Succeeded")
      (at_last "Succeeded")
pod_succeeds =
    pending (in_phase "Running") "Running" refl refl (cc) (reached (in_phase "Succeeded") refl refl)

wait_for_pod-succeeds_example :
    wait_for_pod slow_env (in_phase "") (initial at_first) ≡ (ok tt, initial (at_last "Succeeded"))
wait_for_pod-succeeds_example =
    wait_for_pod-succeeds slow_env slow_env-PollsFor (in_phase "") (initial at_first)
      (once_found "Succeeded") (at_last "Succeeded") pod_appears pod_succeeds

-- Two builds are listed, of which the first read sees the first one running.
abbrev with_builds : List Fields → State World
with_builds objects = initial (record cluster {
  objects = objects;
  lists = ("build", in_phase "New" ∷ in_phase "New" ∷ []) ∷ [];
})

abbrev building : State World
building = with_builds (script "Complete")

abbrev running : State World
running = with_builds (in_phase "Running" ∷ in_phase "Complete" ∷ [])

abbrev built : State World
built = with_builds (in_phase "Complete" ∷ [])

builds_complete :
    ReachInTurn slow_env "Complete" phase 3
      (in_phase "New" ∷ in_phase "New" ∷ [])
      running.world
      built.world
builds_complete =
    reach
      (pending (in_phase "Running") "Running" refl refl (cc)
        (reached (in_phase "Complete") refl refl))
      (reach (reached (in_phase "Complete") refl refl) none_left)

wait_for_build-completes_example : wait_for_build slow_env (in_phase "") building ≡ (ok tt, built)
unfolding lookup
wait_for_build-completes_example =
    wait_for_build-completes slow_env slow_env-PollsFor (in_phase "")
      (in_phase "New" ∷ in_phase "New" ∷ []) building running.world running.world built.world
      (appears (in_phase "Pending") refl) refl builds_complete

-- A DaemonSet that wants three pods.
abbrev with_available : ℤ → Fields
with_available n =
    field "status"
      (object
        (field "desiredNumberScheduled" (int64 (pos 3)) (field "numberAvailable" (int64 n) empty)))
      empty

abbrev scaling_from : List Fields → State World
scaling_from objects = initial (record cluster { objects = objects })

abbrev scaled_up : State World
scaled_up = record (scaling_from (with_available (pos 3) ∷ [])) {
  node = record (scaling_from []).node { count = pos 3 };
}

one_not_three : pos 1 ≢ pos 3
one_not_three h = cc

daemon_set_scales :
    ScalesIn slow_env
      (in_phase "")
      3
      (scaling_from (with_available (pos 1) ∷ with_available (pos 3) ∷ []))
      scaled_up
daemon_set_scales =
    scaling (record { found = with_available (pos 1); answer = refl; wants = refl; has = refl })
      one_not_three
      (scaled (record { found = with_available (pos 3); answer = refl; wants = refl; has = refl }))

wait_for_daemon_set-scales_example :
    wait_for_daemon_set slow_env
      (in_phase "")
      (scaling_from (with_available (pos 0) ∷ with_available (pos 1) ∷ with_available (pos 3) ∷ []))
    ≡ (ok tt, scaled_up)
wait_for_daemon_set-scales_example =
    wait_for_daemon_set-scales slow_env slow_env-PollsFor (in_phase "")
      (scaling_from (with_available (pos 0) ∷ with_available (pos 1) ∷ with_available (pos 3) ∷ []))
      scaled_up (scaling_from (with_available (pos 1) ∷ with_available (pos 3) ∷ [])).world
      (appears (with_available (pos 0)) refl) daemon_set_scales
