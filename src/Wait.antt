-- ===== src/Wait.antt =====
-- controllers/waitfor.go: waiting until an object exists and is ready, by its kind.
pub mod Ready
pub mod Polling
pub mod Arrival
pub mod Builds
pub mod Scaled
pub mod Logs
use special_resource_operato.Prelude.{
  ℕ, ◌-◌, Bool, true, false, String, Option, none, some, List, [], ◌∷◌, length, drop, leb, index_or,
  ◌<>◌, ◌==◌, if◌then◌else◌,
}
use special_resource_operato.Prelude.Int.{ℤ, pos, int_eq}
use special_resource_operato.Exec.{
  ApiError, new, api, not_found, Exec, pure, raise, gets, modify, ◌>>=◌, ◌>>◌, wrap, lift,
  exit_on_error_or_not_found,
}
use special_resource_operato.Value.{Fields}
use special_resource_operato.State.{State}
use special_resource_operato.Env.{Env, Answer, answered, refused}
use special_resource_operato.Cluster.{ask, accept}
use special_resource_operato.Crud.{object_key}

-- In seconds.
abbrev pub retry_interval : ℕ
retry_interval = 5

abbrev pub timeout : ℕ
timeout = 15

-- The status that makeStatusCallback compares with: its cases for an integer and for a string.
pub data Status : Type 0 where
  number : ℤ → Status
  text : String → Status

-- The end of the log that the pattern is matched against.
unfoldable pub last_bytes : List ℕ → List ℕ
last_bytes logs =
    let cutoff : ℕ = if leb (length logs) 100 then 0 else 100 in drop (length logs - cutoff) logs

module _ {W : Type 0} (env : Env W) where
  abbrev pub StatusCallback : Type 0
  StatusCallback = Fields → Exec (State W) Bool

  unfoldable pub status_callback : Status → List String → StatusCallback
  status_callback (number expected) fields obj = do
    let (current, found, e) = env.nested_int64 obj fields
    exit_on_error_or_not_found found e
    pure (int_eq current expected)
  status_callback (text expected) fields obj = do
    let (current, found, e) = env.nested_string obj fields
    exit_on_error_or_not_found found e
    pure (current == expected)

  unfoldable pub refused_availability : ApiError → Exec (State W) Bool
  refused_availability not_found = pure false
  refused_availability e = raise (api e)

  -- One round of the poll: whether the object exists.
  unfoldable pub check_availability : Fields → Exec (State W) Bool
  check_availability obj = do
    answer ← ask (env.client.get obj (object_key env obj))
    elim answer [ answered found ↦ pure true | refused e ↦ refused_availability e ]

  unfoldable pub wait_for_resource_availability : Fields → Exec (State W) (Unit {0})
  wait_for_resource_availability obj = env.poll retry_interval timeout (check_availability obj)

  unfoldable pub called_back : StatusCallback → Answer Fields → Exec (State W) Bool
  called_back callback (answered found) = callback found
  called_back callback (refused e) = raise (api e)

  -- One round of the poll: whether the object, as it is now, satisfies the callback.
  unfoldable pub check_full_availability : Fields → StatusCallback → Exec (State W) Bool
  check_full_availability obj callback = do
    answer ← ask (env.client.get obj (object_key env obj))
    called_back callback answer

  unfoldable pub wait_for_resource_full_availability :
      Fields → StatusCallback → Exec (State W) (Unit {0})
  wait_for_resource_full_availability obj callback =
      env.poll retry_interval timeout (check_full_availability obj callback)

  unfoldable pub wait_for_pod : Fields → Exec (State W) (Unit {0})
  wait_for_pod obj = do
    wait_for_resource_availability obj
    wait_for_resource_full_availability obj
        (status_callback (text "Succeeded") ("status" ∷ "phase" ∷ []))

  -- The last of the two counters that is there decides; without either it is not ready.
  unfoldable pub daemon_set_callback : StatusCallback
  daemon_set_callback obj = do
    let (desired, fnd, e) = env.nested_int64 obj ("status" ∷ "desiredNumberScheduled" ∷ [])
    modify (λ s. record s { node = record s.node { count = desired } })
    exit_on_error_or_not_found fnd e
    (if (env.nested_int64 obj ("status" ∷ "numberAvailable" ∷ [])).1
        then status_callback (number desired) ("status" ∷ "numberAvailable" ∷ []) obj
        else if (env.nested_int64 obj ("status" ∷ "numberUnavailable" ∷ [])).1
        then status_callback (number (pos 0)) ("status" ∷ "numberUnavailable" ∷ []) obj
        else pure false)

  unfoldable pub wait_for_daemon_set : Fields → Exec (State W) (Unit {0})
  wait_for_daemon_set obj = do
    wait_for_resource_availability obj
    wait_for_resource_full_availability obj daemon_set_callback

  unfoldable pub wait_for_builds : List Fields → Exec (State W) (Unit {0})
  wait_for_builds [] = pure tt
  wait_for_builds (build ∷ rest) = do
    wait_for_resource_full_availability build
        (status_callback (text "Complete") ("status" ∷ "phase" ∷ []))
    wait_for_builds rest

  unfoldable pub wait_for_build : Fields → Exec (State W) (Unit {0})
  wait_for_build obj = do
    wait_for_resource_availability obj
    namespace ← gets (λ s. s.specialresource.spec.namespace)
    answer ← ask (
        env.client.list "build.openshift.io/v1" "build"
          (record { in_namespace = some namespace; matching_labels = [] }))
    builds ← accept "Could not get BuildList" answer
    wait_for_builds builds

  -- The map `waitFor`, and the call of what it holds.
  unfoldable pub wait_for : String → Option (Fields → Exec (State W) (Unit {0}))
  wait_for kind =
      if kind == "Pod"
      then some wait_for_pod
      else if kind == "DaemonSet"
      then some wait_for_daemon_set
      else if kind == "BuildConfig"
      then some wait_for_build
      else none

  unfoldable pub waiting_for :
      Option (Fields → Exec (State W) (Unit {0})) → Fields → Exec (State W) (Unit {0})
  waiting_for (some waiting) obj = wrap "Waiting too long for resource" (waiting obj)
  waiting_for none obj = pure tt

  unfoldable pub wait_for_resource : Fields → Exec (State W) (Unit {0})
  wait_for_resource obj = waiting_for (wait_for (env.kind obj)) obj

  -- The log of one pod, matched against the pattern.
  unfoldable pub check_logs : String → Fields → Exec (State W) (Unit {0})
  check_logs pattern pod = do
    stream ← ask (env.client.open_logs (object_key env pod))
    copied ← accept "Error in opening stream" stream
    logs ← wrap "Error in copy information from podLogs to buf" (lift copied)
    (if env.match_string pattern (last_bytes logs)
        then pure tt
        else raise (new ("Not yet done. Not matched against: " <> pattern)))

  -- A missing label `app` makes an error that nobody looks at: the selector stays empty. Only the
  -- first pod is looked at.
  unfoldable pub wait_for_daemon_set_logs : Fields → String → Exec (State W) (Unit {0})
  wait_for_daemon_set_logs obj pattern = do
    let selector = index_or (env.labels obj) "app"
    namespace ← gets (λ s. s.specialresource.spec.namespace)
    answer ← ask (
        env.client.list "v1" "pod"
          (record { in_namespace = some namespace; matching_labels = ("app", selector) ∷ [] }))
    pods ← accept "Could not get PodList" answer
    elim pods [ [] ↦ pure tt | pod ∷ rest ↦ check_logs pattern pod ]
