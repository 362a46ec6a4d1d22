-- ===== src/Safety/Waiting.antt =====
-- The guard on updates, for controllers/waitfor.go.
use special_resource_operato.Prelude.{
  String, List, [], ◌∷◌, Option, some, Bool, true, false, if◌then◌else◌,
}
use special_resource_operato.Exec.{ApiError, not_found, api, Exec}
use special_resource_operato.Exec.Safe.{
  Safe, Safe-gets, Safe-pure, Safe-raise, Safe-bind, Safe-wrap, safe_rules,
}
use special_resource_operato.Value.{Fields}
use special_resource_operato.State.{State}
use special_resource_operato.Env.{Env, answered, refused}
use special_resource_operato.Crud.{object_key}
use special_resource_operato.Wait.{
  Status, number, text, StatusCallback, status_callback, refused_availability, check_availability,
  wait_for_resource_availability, check_full_availability, wait_for_resource_full_availability,
  wait_for_pod, daemon_set_callback, wait_for_daemon_set, wait_for_builds, wait_for_build, wait_for,
  waiting_for, wait_for_resource, check_logs, called_back, wait_for_daemon_set_logs,
}
use special_resource_operato.Safety.{
  PollsInRounds, IsGuarded, On, Safe-ask, Safe-poll, guarded_rules,
}
use special_resource_operato.Safety.Objects.{Safe-accept}

module _ {W : Type 0} (env : Env W) (polls : PollsInRounds env) {P : W → Type 0}
    (g : IsGuarded env P) where
  Safe-status_callback :
      (status : Status) (fields : List String) (obj : Fields)
      → Safe (On env P) (status_callback env status fields obj)
  unfolding status_callback
  Safe-status_callback (number n) fields obj = search safe_rules
  Safe-status_callback (text t) fields obj = search safe_rules

  Safe-refused_availability : (e : ApiError) → Safe (On env P) (refused_availability env e)
  unfolding refused_availability
  Safe-refused_availability not_found = search safe_rules
  Safe-refused_availability _ = search safe_rules

  Safe-wait_for_resource_availability :
      (obj : Fields) → Safe (On env P) (wait_for_resource_availability env obj)
  unfolding wait_for_resource_availability check_availability
  Safe-wait_for_resource_availability obj = Safe-poll env polls _ _ _ (
      Safe-bind _ _ (Safe-ask (env.client.get obj _) (g.get obj (object_key env obj)))
        (elim [ answered found ↦ Safe-pure _ | refused e ↦ Safe-refused_availability e ]))

  Safe-wait_for_resource_full_availability :
      (obj : Fields) (callback : StatusCallback env)
      → ((found : Fields) → Safe (On env P) (callback found))
      → Safe (On env P) (wait_for_resource_full_availability env obj callback)
  unfolding wait_for_resource_full_availability check_full_availability called_back
  Safe-wait_for_resource_full_availability obj callback h = Safe-poll env polls _ _ _ (
      Safe-bind _ _ (Safe-ask (env.client.get obj _) (g.get obj (object_key env obj)))
        (elim [ answered found ↦ h found | refused e ↦ Safe-raise (api e) ]))

  Safe-wait_for_pod : (obj : Fields) → Safe (On env P) (wait_for_pod env obj)
  unfolding wait_for_pod
  Safe-wait_for_pod obj =
      search
        (
          safe_rules, Safe-status_callback, Safe-wait_for_resource_availability,
          Safe-wait_for_resource_full_availability,
        )
        depth 9

  Safe-daemon_set_callback : (obj : Fields) → Safe (On env P) (daemon_set_callback env obj)
  unfolding daemon_set_callback
  Safe-daemon_set_callback obj = search (guarded_rules, Safe-status_callback) depth 9

  pub Safe-wait_for_daemon_set : (obj : Fields) → Safe (On env P) (wait_for_daemon_set env obj)
  unfolding wait_for_daemon_set
  Safe-wait_for_daemon_set obj =
      search
        (
          safe_rules, Safe-daemon_set_callback, Safe-wait_for_resource_availability,
          Safe-wait_for_resource_full_availability,
        )
        depth 9

  Safe-wait_for_builds : (builds : List Fields) → Safe (On env P) (wait_for_builds env builds)
  unfolding wait_for_builds
  Safe-wait_for_builds [] = Safe-pure tt
  Safe-wait_for_builds (build ∷ rest) =
      Safe-bind _ _ (Safe-wait_for_resource_full_availability build _ (Safe-status_callback _ _))
        (λ _. Safe-wait_for_builds rest)

  Safe-wait_for_build : (obj : Fields) → Safe (On env P) (wait_for_build env obj)
  unfolding wait_for_build
  Safe-wait_for_build obj =
      search
        (
          guarded_rules, Safe-accept, g.list, Safe-wait_for_builds,
          Safe-wait_for_resource_availability,
        )
        depth 9

  Safe-waiting_for :
      (b : Bool) (waiting : Fields → Exec (State W) (Unit {0}))
      (others : Option (Fields → Exec (State W) (Unit {0}))) (obj : Fields)
      → Safe (On env P) (waiting obj)
      → Safe (On env P) (waiting_for env others obj)
      → Safe (On env P) (waiting_for env (if b then some waiting else others) obj)
  unfolding waiting_for
  Safe-waiting_for true waiting others obj h k = Safe-wrap _ _ h
  Safe-waiting_for false waiting others obj h k = k

  pub Safe-wait_for_resource : (obj : Fields) → Safe (On env P) (wait_for_resource env obj)
  unfolding wait_for_resource wait_for waiting_for
  Safe-wait_for_resource obj =
      search
        (
          Safe-waiting_for, Safe-wait_for_pod, Safe-wait_for_daemon_set, Safe-wait_for_build,
          Safe-pure,
        )
        depth 7

  Safe-check_logs : (pattern : String) (pod : Fields) → Safe (On env P) (check_logs env pattern pod)
  unfolding check_logs
  Safe-check_logs pattern pod = search (guarded_rules, Safe-accept, g.open_logs) depth 9

  pub Safe-wait_for_daemon_set_logs :
      (obj : Fields) (pattern : String) → Safe (On env P) (wait_for_daemon_set_logs env obj pattern)
  unfolding wait_for_daemon_set_logs
  Safe-wait_for_daemon_set_logs obj pattern = Safe-bind _ _ (Safe-gets _) (λ namespace.
      Safe-bind _ _ (Safe-ask (env.client.list _ _ _) (g.list _ _ _)) (λ answer.
        Safe-bind _ _ (Safe-accept _ answer)
          (elim [ [] ↦ Safe-pure tt | pod ∷ rest ↦ Safe-check_logs pattern pod ])))
