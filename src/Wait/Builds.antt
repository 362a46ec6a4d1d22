-- ===== src/Wait/Builds.antt =====
-- When the wait for the builds of a BuildConfig of controllers/waitfor.go succeeds.
use special_resource_operato.Prelude.{ℕ, ◌≡◌, refl, String, List, [], ◌∷◌, some}
use special_resource_operato.Exec.{ok, ◌>>=◌}
use special_resource_operato.Value.{Fields}
use special_resource_operato.State.{State}
use special_resource_operato.Env.{Env, answered}
use special_resource_operato.Cluster.{ask, accept}
use special_resource_operato.Wait.{wait_for_build, wait_for_builds}
use special_resource_operato.Wait.Arrival.{
  PollsFor, AppearsIn, ReachesIn, phase, waited-AppearsIn, waited-ReachesIn,
}

-- The objects reach the expected text one after the other.
pub data ReachInTurn {W : Type 0} (env : Env W) (expected : String) (fields : List String) (n : ℕ)
    : List Fields → W → W → Type 0 where
  none_left : {w : W} → ReachInTurn env expected fields n [] w w
  reach :
      {obj : Fields} {rest : List Fields} {w w' w'' : W}
      → ReachesIn env obj expected fields n w w'
      → ReachInTurn env expected fields n rest w' w''
      → ReachInTurn env expected fields n (obj ∷ rest) w w''

module _ {W : Type 0} {n : ℕ} (env : Env W) (polls : PollsFor n env) where
  builds-ReachInTurn :
      (builds : List Fields) (s : State W) (w : W)
      → ReachInTurn env "Complete" phase n builds s.world w
      → wait_for_builds env builds s ≡ (ok tt, record s { world = w })
  unfolding wait_for_builds ◌>>=◌
  builds-ReachInTurn [] s _ none_left = refl
  builds-ReachInTurn (build ∷ rest) s w (reach {w' = w'} complete others) = rw (
    waited-ReachesIn env polls build "Complete" phase s w' complete,
    builds-ReachInTurn rest (record s { world = w' }) w others,
  )

  -- Let wait.Poll run its condition at least n times. A BuildConfig that appears in at most n reads is
  -- waited for with no error when the builds that are then listed in the resource's namespace become
  -- Complete in turn, each in at most n reads; the wait changes the world by these calls and nothing else.
  pub wait_for_build-completes :
      (obj : Fields) (builds : List Fields) (s : State W) (w w' w'' : W)
      → AppearsIn env obj n s.world w
      → env.client.list "build.openshift.io/v1" "build"
          (record { in_namespace = some s.specialresource.spec.namespace; matching_labels = [] })
          w
        ≡ (answered builds, w')
      → ReachInTurn env "Complete" phase n builds w' w''
      → wait_for_build env obj s ≡ (ok tt, record s { world = w'' })
  unfolding wait_for_build ask accept ◌>>=◌
  wait_for_build-completes obj builds s w w' w'' found listed complete = rw (
    waited-AppearsIn env polls obj s w found,
    listed,
    builds-ReachInTurn builds (record s { world = w' }) w'' complete,
  )
