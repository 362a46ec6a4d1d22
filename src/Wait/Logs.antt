-- ===== src/Wait/Logs.antt =====
-- What waitForDaemonSetLogs of controllers/waitfor.go looks at.
use special_resource_operato.Prelude.{
  ℕ, ◌≡◌, ◌↔◌, refl, Bool, true, false, String, List, [], ◌∷◌, ◌<>◌, some, if◌then◌else◌,
}
use special_resource_operato.Exec.{
  ok, new, Exec, Attempt, returned, raised, pure, raise, wrap, lift, ◌>>=◌,
}
use special_resource_operato.Value.{Fields}
use special_resource_operato.State.{State}
use special_resource_operato.Env.{Env, Answer, answered, refused}
use special_resource_operato.Cluster.{ask, accept}
use special_resource_operato.Crud.{object_key}
use special_resource_operato.Prelude.{index_or}
use special_resource_operato.Wait.{last_bytes, check_logs, wait_for_daemon_set_logs}

module _ {W : Type 0} (env : Env W) (pattern : String) where
  -- The log of a pod can be read to its end, and the pattern matches its last bytes.
  pub record Matches (pod : Fields) (w : W) : Type 0 where
    pub logs : List ℕ
    pub read : (env.client.open_logs (object_key env pod) w).0 ≡ answered (returned logs)
    pub matched : env.match_string pattern (last_bytes logs) ≡ true

  check_logs-Matches :
      (pod : Fields) (s : State W) → (check_logs env pattern pod s).0 ≡ ok tt → Matches pod s.world
  unfolding check_logs ask accept ◌>>=◌
  check_logs-Matches pod s h =
      by_answer (env.client.open_logs (object_key env pod) s.world).0 refl h
    where
      t : State W
      t = record s { world = (env.client.open_logs (object_key env pod) s.world).1 }

      judge : List ℕ → Exec (State W) (Unit {0})
      judge logs =
          if env.match_string pattern (last_bytes logs)
          then pure tt
          else raise (new ("Not yet done. Not matched against: " <> pattern))

      by_match :
          (logs : List ℕ) (b : Bool)
          → env.match_string pattern (last_bytes logs) ≡ b
          → ((if b then pure tt else raise (new ("Not yet done. Not matched against: " <> pattern)))
              t).0
            ≡ ok tt
          → env.match_string pattern (last_bytes logs) ≡ true
      by_match logs true e h = e
      by_match logs false e h = cc

      by_answer :
          (a : Answer (Attempt (List ℕ)))
          → (env.client.open_logs (object_key env pod) s.world).0 ≡ a
          → ((accept "Error in opening stream" a >>= λ copied.
                wrap "Error in copy information from podLogs to buf" (lift copied) >>= judge)
              t).0
            ≡ ok tt
          → Matches pod s.world
      by_answer (answered (returned logs)) e h = record {
        logs = logs;
        read = e;
        matched = by_match logs _ refl h;
      }
      by_answer (answered (raised x)) e h = cc
      by_answer (refused x) e h = cc

  Matches-check_logs :
      (pod : Fields) (s : State W) → Matches pod s.world → (check_logs env pattern pod s).0 ≡ ok tt
  unfolding check_logs ask accept ◌>>=◌
  Matches-check_logs pod s m = rw (m.read, m.matched)

  -- The pods in the resource's namespace whose label `app` is the DaemonSet's, or the empty text where it
  -- has none.
  abbrev pub listing : Fields → State W → Answer (List Fields) × W
  listing obj s =
      env.client.list "v1" "pod"
        (record {
          in_namespace = some s.specialresource.spec.namespace;
          matching_labels = ("app", index_or (env.labels obj) "app") ∷ [];
        })
        s.world

  -- No pod is listed, or the log of the first one matches.
  pub data FirstMatches (obj : Fields) (s : State W) : Type 0 where
    no_pods : (listing obj s).0 ≡ answered [] → FirstMatches obj s
    first_pod :
        (pod : Fields) (rest : List Fields)
        → (listing obj s).0 ≡ answered (pod ∷ rest)
        → Matches pod (listing obj s).1
        → FirstMatches obj s

  wait-FirstMatches :
      (obj : Fields) (s : State W)
      → (wait_for_daemon_set_logs env obj pattern s).0 ≡ ok tt
      → FirstMatches obj s
  unfolding wait_for_daemon_set_logs ask accept ◌>>=◌
  wait-FirstMatches obj s h = by_answer (listing obj s).0 refl h
    where
      t : State W
      t = record s { world = (listing obj s).1 }

      by_answer :
          (a : Answer (List Fields))
          → (listing obj s).0 ≡ a
          → ((accept "Could not get PodList" a
                >>= elim [ [] ↦ pure tt | pod ∷ rest ↦ check_logs env pattern pod ])
              t).0
            ≡ ok tt
          → FirstMatches obj s
      by_answer (answered []) e h = no_pods e
      by_answer (answered (pod ∷ rest)) e h = first_pod pod rest e (check_logs-Matches pod t h)
      by_answer (refused x) e h = cc

  FirstMatches-wait :
      (obj : Fields) (s : State W)
      → FirstMatches obj s
      → (wait_for_daemon_set_logs env obj pattern s).0 ≡ ok tt
  unfolding wait_for_daemon_set_logs ask accept ◌>>=◌
  FirstMatches-wait obj s (no_pods e) = rw e refl
  FirstMatches-wait obj s (first_pod pod rest e m) =
      rw e (Matches-check_logs pod (record s { world = (listing obj s).1 }) m)

  -- The wait for the logs of a DaemonSet returns with no error exactly where the listing of its pods
  -- answers with no pod, or with pods of which the first has a log that can be read to its end and whose
  -- last bytes match the pattern. The other pods do not matter.
  pub wait_for_daemon_set_logs_iff :
      (obj : Fields) (s : State W)
      → ((wait_for_daemon_set_logs env obj pattern s).0 ≡ ok tt) ↔ FirstMatches obj s
  wait_for_daemon_set_logs_iff obj s = (wait-FirstMatches obj s, FirstMatches-wait obj s)
