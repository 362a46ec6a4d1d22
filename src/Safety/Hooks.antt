-- ===== src/Safety/Hooks.antt =====
-- The guard on updates, for the hooks of controllers/callbacks.go.
use special_resource_operato.Prelude.{
  Bool, true, false, String, List, [], ◌∷◌, Option, none, some, Dict, if◌then◌else◌,
}
use special_resource_operato.Exec.{Exec, returned, raised, api}
use special_resource_operato.Exec.Safe.{
  Safe, Safe-pure, Safe-raise, Safe-gets, Safe-bind, Safe-wrap, Safe-attempt, Safe-modify,
  safe_rules,
}
use special_resource_operato.Value.{Value, object, Fields}
use special_resource_operato.State.{State}
use special_resource_operato.Env.{Env, Nested, Answer, answered, refused}
use special_resource_operato.Proxy.{
  setup_containers_proxy, setup_pod_proxy, setup_daemon_set_proxy, setup_proxy,
}
use special_resource_operato.Grafana.{
  answered_secret, first_datasource, get_prom_url_pass, custom_grafana_config_map,
}
use special_resource_operato.Callbacks.{
  custom_callback, run_prefix, run_callback, before_crud_hooks, ask_rebuild, judge_reason,
  judge_pod, judge_pods, pods_of_daemon_set, check_pods, check_for_image_pull_back_off, check_state,
  wait_if_asked, wait_for_logs_if_asked, after_crud_hooks,
}
use special_resource_operato.Safety.{PollsInRounds, IsGuarded, On, Safe-ask, guarded_rules}
use special_resource_operato.Safety.Nodes.{Safe-label_nodes_according_to_state}
use special_resource_operato.Safety.Waiting.{
  Safe-wait_for_daemon_set, Safe-wait_for_resource, Safe-wait_for_daemon_set_logs,
}

module _ {W : Type 0} (env : Env W) {P : W → Type 0} (g : IsGuarded env P) where
  Safe-setup_containers_proxy :
      (containers : List Value) → Safe (On env P) (setup_containers_proxy env containers)
  unfolding setup_containers_proxy
  Safe-setup_containers_proxy (object container ∷ rest) = search safe_rules depth 7
  Safe-setup_containers_proxy [] = Safe-pure []
  Safe-setup_containers_proxy (_ ∷ rest) = Safe-pure _

  Safe-setup_pod_proxy : (obj : Fields) → Safe (On env P) (setup_pod_proxy env obj)
  unfolding setup_pod_proxy
  Safe-setup_pod_proxy obj = search (safe_rules, Safe-setup_containers_proxy)

  Safe-setup_daemon_set_proxy : (obj : Fields) → Safe (On env P) (setup_daemon_set_proxy env obj)
  unfolding setup_daemon_set_proxy
  Safe-setup_daemon_set_proxy obj = search (safe_rules, Safe-setup_containers_proxy)

  Safe-setup_proxy : (obj : Fields) → Safe (On env P) (setup_proxy env obj)
  unfolding setup_proxy
  Safe-setup_proxy obj = search (safe_rules, Safe-setup_pod_proxy, Safe-setup_daemon_set_proxy)

  Safe-answered_secret :
      (answer : Answer (Dict String)) → Safe (On env P) (answered_secret env answer)
  unfolding answered_secret
  Safe-answered_secret (answered m) = Safe-pure m
  Safe-answered_secret (refused e) = Safe-raise (api e)

  Safe-first_datasource : (sources : List Value) → Safe (On env P) (first_datasource env sources)
  unfolding first_datasource
  Safe-first_datasource (object source ∷ rest) = search safe_rules
  Safe-first_datasource _ = Safe-pure _

  Safe-get_prom_url_pass : Safe (On env P) (get_prom_url_pass env)
  unfolding get_prom_url_pass
  Safe-get_prom_url_pass =
      search (guarded_rules, g.secret, Safe-answered_secret, Safe-first_datasource) depth 9

  Safe-custom_grafana_config_map :
      (obj : Fields) → Safe (On env P) (custom_grafana_config_map env obj)
  unfolding custom_grafana_config_map
  Safe-custom_grafana_config_map obj = search (safe_rules, Safe-get_prom_url_pass) depth 9

  Safe-run_prefix :
      (b : Bool) (obj : Fields)
      → Safe
          (On env P)
          (run_prefix env (if b then some (custom_grafana_config_map env) else none) obj)
  unfolding run_prefix
  Safe-run_prefix true obj = Safe-wrap _ _ (Safe-custom_grafana_config_map obj)
  Safe-run_prefix false obj = Safe-pure obj

  Safe-run_callback :
      (todo : Option String) (obj : Fields) → Safe (On env P) (run_callback env todo obj)
  unfolding run_callback custom_callback
  Safe-run_callback none obj = Safe-pure obj
  Safe-run_callback (some todo) obj = Safe-run_prefix _ obj

  pub Safe-before_crud_hooks : (obj : Fields) → Safe (On env P) (before_crud_hooks env obj)
  unfolding before_crud_hooks
  Safe-before_crud_hooks obj = search (safe_rules, Safe-setup_proxy, Safe-run_callback) depth 9

  Safe-ask_rebuild : (vendor : Option String) → Safe (On env P) (ask_rebuild env vendor)
  unfolding ask_rebuild
  Safe-ask_rebuild (some vendor) = search guarded_rules
  Safe-ask_rebuild none = Safe-modify _ (λ s p. p)

  Safe-judge_pod :
      (obj pod : Fields) (statuses : Nested (List Value)) (next : Exec (State W) (Unit {0}))
      → Safe (On env P) next
      → Safe (On env P) (judge_pod env obj pod statuses next)
  unfolding judge_pod judge_reason
  Safe-judge_pod obj pod (statuses, true, none) next h = Safe-ask_rebuild _
  Safe-judge_pod obj pod (statuses, true, some e) next h = search safe_rules
  Safe-judge_pod obj pod (statuses, false, e) next h = search safe_rules

  Safe-judge_pods : (obj : Fields) (pods : List Fields) → Safe (On env P) (judge_pods env obj pods)
  unfolding judge_pods
  Safe-judge_pods obj [] = Safe-raise _
  Safe-judge_pods obj (pod ∷ rest) = Safe-judge_pod obj pod _ _ (Safe-judge_pods obj rest)

  Safe-check_pods : (obj : Fields) (pods : List Fields) → Safe (On env P) (check_pods env obj pods)
  unfolding check_pods
  Safe-check_pods obj [] = Safe-raise _
  Safe-check_pods obj (pod ∷ rest) = Safe-judge_pods obj (pod ∷ rest)

  Safe-pods_of_daemon_set : (obj : Fields) → Safe (On env P) (pods_of_daemon_set env obj)
  unfolding pods_of_daemon_set
  Safe-pods_of_daemon_set obj = Safe-bind _ _ (Safe-gets _) (λ namespace.
      Safe-bind _ _ (Safe-ask (env.client.list _ _ _) (g.list _ _ _))
        (elim [ answered pods ↦ Safe-pure pods | refused e ↦ Safe-raise (api e) ]))

module _ {W : Type 0} (env : Env W) (polls : PollsInRounds env) {P : W → Type 0}
    (g : IsGuarded env P) where
  Safe-check_for_image_pull_back_off :
      (obj : Fields) → Safe (On env P) (check_for_image_pull_back_off env obj)
  unfolding check_for_image_pull_back_off
  Safe-check_for_image_pull_back_off obj =
      Safe-bind _ _ (Safe-attempt _ (Safe-wait_for_daemon_set env polls g obj)) (elim [
        | returned up ↦ Safe-pure tt
        | raised e ↦
            Safe-bind _ _ (Safe-pods_of_daemon_set env g obj)
              (λ pods. Safe-check_pods env g obj pods)
      ])

  pub Safe-after_crud_hooks : (obj : Fields) → Safe (On env P) (after_crud_hooks env obj)
  unfolding after_crud_hooks check_state wait_if_asked wait_for_logs_if_asked
  Safe-after_crud_hooks obj =
      search
        (
          safe_rules,
          Safe-check_for_image_pull_back_off,
          Safe-wait_for_resource env polls g,
          Safe-wait_for_daemon_set_logs env polls g,
          Safe-label_nodes_according_to_state env g,
        )
        depth 9
