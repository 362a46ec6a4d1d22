-- ===== src/Tests/States.antt =====
-- The states of one configuration, carried out in order.
use special_resource_operato.Prelude.{◌≡◌, ◌↔◌, refl, String, List, [], ◌∷◌, Dict}
use special_resource_operato.Exec.{Error, new, ok, err, wrapped}
use special_resource_operato.Value.{Value}
use special_resource_operato.State.{State, initial}
use special_resource_operato.Env.{Env, bad_execution}
use special_resource_operato.Hardware.States.{CarriesOut, StopsAt}
use special_resource_operato.Hardware.Ascending.{
  Ascending, reconcile_hardware_states_iff, reconcile_hardware_states_err_iff,
}
use special_resource_operato.Callbacks.{
  waiting_reason, custom_callback, run_prefix, run_callback, before_crud_hooks, ask_rebuild,
  judge_reason, judge_pod, judge_pods, pods_of_daemon_set, check_pods,
  check_for_image_pull_back_off, check_state, wait_if_asked, wait_for_logs_if_asked,
  after_crud_hooks,
}
use special_resource_operato.Cluster.{ask, accept}
use special_resource_operato.Create.{
  template_runtime_information, check_vendor, rebuild_driver_container, decode, apply_object,
  unless_skipped, create_object, go_on, create_next, create_objects, create_from_yaml,
}
use special_resource_operato.Crud.{
  need_to_update_resource_version, resource_namespaced, never_updated, copy_field,
  update_resource_version, own, update_found, create_or_update, crud,
}
use special_resource_operato.Exec.{
  pure, raise, os_exit, panicking, gets, modify, attempt, wrap, exit_on_failure, lift,
  exit_on_error, exit_on_error_or_not_found, ◌>>=◌,
}
use special_resource_operato.Hardware.{
  create_special_resource_namespace, asset_entry, get_local_hardware_configuration,
  found_configuration, get_hardware_configuration, manifest_of, execute_state, execute_states,
  reconcile_hardware_states, reconcile_hardware_configurations,
}
use special_resource_operato.Hardware.Order.{string_leb, insert_string, sort_strings}
use special_resource_operato.Labels.{
  state_labels, after_node_update, set_label, label_unless_there, label_key, label_keys, label_node,
  label_nodes, label_nodes_according_to_state,
}
use special_resource_operato.Manifests.{
  last_dot, ext, is_numbered, file_path_walk_dir, read_files, assets_of, read_assets,
  get_assets_from,
}
use special_resource_operato.Nodes.{node_labels, fetch_nodes, cache_nodes, first_key, update_status}
use special_resource_operato.OperatingSystem.{
  digits, magnitude, minus, atoi, render_operating_system, get_operating_system,
}
use special_resource_operato.Prelude.{lookup, insert}
use special_resource_operato.Prelude.{contains, replace_from, replace_all}
use special_resource_operato.Proxy.{
  env_var, or_empty, or_unchanged, read_proxy, select_proxy, get_proxy_configuration,
  setup_containers_proxy, setup_daemon_set_proxy, setup_pod_proxy, setup_proxy,
}
use special_resource_operato.Reconcile.{
  get_dependency_from, after_reconciliation, reconcile_current, reconcile_found,
  reconcile_dependency, reconcile_dependencies, reconcile_parent, reconcile_parents,
  reconcile_listed, reconciler_special_resources,
}
use special_resource_operato.RoleBinding.{
  new_subject, must_set, set_subjects, role_binding_template, create_role_binding, has_subject,
  update_object, update_role_binding, bind_image_puller, create_image_puller_role_binding,
}
use special_resource_operato.Runtime.{
  get_kernel_version, split_dots, major_minor, completed_version, get_cluster_version,
  find_push_secret, get_push_secret_name, new_object, unless_not_found, get_os_image_url,
  get_runtime_information,
}
use special_resource_operato.Safety.{poll_rounds}
use special_resource_operato.Scanner.{new_yaml_scanner, scan_err, scan_loop, scan}
use special_resource_operato.Tests.Cluster.{cluster}
use special_resource_operato.Tests.Server.{World, test_env, object_with}
use special_resource_operato.Tests.Ranges.{config'}

abbrev start : State World
start = initial (record cluster { objects = object_with "Pod" [] [] ∷ [] })

-- Templates that cannot be executed.
abbrev failing : Env World
failing = record test_env { execute_template = λ s info. bad_execution (new "no field") }

abbrev template_error : Error
template_error =
    wrapped
      (wrapped (new "no field")
        "Cannot templatize spec for resource info injection, check manifest")
      "Cannot inject runtime information 1st pass"

abbrev carried : State World
carried = (reconcile_hardware_states test_env config' start).1

reconcile_hardware_states_iff_example :
    (reconcile_hardware_states test_env config' start ≡ (ok tt, carried)) ↔ (
      (data' : Dict Value) × (states : List String) × Ascending test_env config' data' states
      × CarriesOut test_env data' states start carried)
reconcile_hardware_states_iff_example = reconcile_hardware_states_iff test_env config' start carried

abbrev states_error : Error
states_error = wrapped template_error "Failed to create resources"

reconcile_hardware_states_err_iff_example :
    (reconcile_hardware_states failing config' start ≡ (err states_error, start)) ↔ (
      (data' : Dict Value) × (states : List String) × Ascending failing config' data' states
      × StopsAt failing data' states start start states_error)
reconcile_hardware_states_err_iff_example =
    reconcile_hardware_states_err_iff failing config' start start states_error

-- Each of the two is a run that there is: one ends with no error, the other stops at the first state.
states_carried :
    (data' : Dict Value) × (states : List String) × Ascending test_env config' data' states
    × CarriesOut test_env data' states start carried
unfolding waiting_reason custom_callback run_prefix run_callback before_crud_hooks ask_rebuild
    judge_reason judge_pod judge_pods pods_of_daemon_set check_pods check_for_image_pull_back_off
    check_state wait_if_asked wait_for_logs_if_asked after_crud_hooks ask accept
    template_runtime_information check_vendor rebuild_driver_container decode apply_object
    unless_skipped create_object go_on create_next create_objects create_from_yaml
    need_to_update_resource_version resource_namespaced never_updated copy_field
    update_resource_version own update_found create_or_update crud pure raise os_exit panicking gets
    modify attempt wrap exit_on_failure lift exit_on_error exit_on_error_or_not_found ◌>>=◌
    create_special_resource_namespace asset_entry get_local_hardware_configuration
    found_configuration get_hardware_configuration manifest_of execute_state execute_states
    reconcile_hardware_states reconcile_hardware_configurations string_leb insert_string
    sort_strings state_labels after_node_update set_label label_unless_there label_key label_keys
    label_node label_nodes label_nodes_according_to_state last_dot ext is_numbered
    file_path_walk_dir read_files assets_of read_assets get_assets_from node_labels fetch_nodes
    cache_nodes first_key update_status digits magnitude minus atoi render_operating_system
    get_operating_system lookup insert contains replace_from replace_all env_var or_empty
    or_unchanged read_proxy select_proxy get_proxy_configuration setup_containers_proxy
    setup_daemon_set_proxy setup_pod_proxy setup_proxy get_dependency_from after_reconciliation
    reconcile_current reconcile_found reconcile_dependency reconcile_dependencies reconcile_parent
    reconcile_parents reconcile_listed reconciler_special_resources new_subject must_set
    set_subjects role_binding_template create_role_binding has_subject update_object
    update_role_binding bind_image_puller create_image_puller_role_binding get_kernel_version
    split_dots major_minor completed_version get_cluster_version find_push_secret
    get_push_secret_name new_object unless_not_found get_os_image_url get_runtime_information
    poll_rounds new_yaml_scanner scan_err scan_loop scan
states_carried = (reconcile_hardware_states_iff test_env config' start carried).0 refl

states_stopped :
    (data' : Dict Value) × (states : List String) × Ascending failing config' data' states
    × StopsAt failing data' states start start states_error
unfolding waiting_reason custom_callback run_prefix run_callback before_crud_hooks ask_rebuild
    judge_reason judge_pod judge_pods pods_of_daemon_set check_pods check_for_image_pull_back_off
    check_state wait_if_asked wait_for_logs_if_asked after_crud_hooks ask accept
    template_runtime_information check_vendor rebuild_driver_container decode apply_object
    unless_skipped create_object go_on create_next create_objects create_from_yaml
    need_to_update_resource_version resource_namespaced never_updated copy_field
    update_resource_version own update_found create_or_update crud pure raise os_exit panicking gets
    modify attempt wrap exit_on_failure lift exit_on_error exit_on_error_or_not_found ◌>>=◌
    create_special_resource_namespace asset_entry get_local_hardware_configuration
    found_configuration get_hardware_configuration manifest_of execute_state execute_states
    reconcile_hardware_states reconcile_hardware_configurations string_leb insert_string
    sort_strings state_labels after_node_update set_label label_unless_there label_key label_keys
    label_node label_nodes label_nodes_according_to_state last_dot ext is_numbered
    file_path_walk_dir read_files assets_of read_assets get_assets_from node_labels fetch_nodes
    cache_nodes first_key update_status digits magnitude minus atoi render_operating_system
    get_operating_system lookup insert contains replace_from replace_all env_var or_empty
    or_unchanged read_proxy select_proxy get_proxy_configuration setup_containers_proxy
    setup_daemon_set_proxy setup_pod_proxy setup_proxy get_dependency_from after_reconciliation
    reconcile_current reconcile_found reconcile_dependency reconcile_dependencies reconcile_parent
    reconcile_parents reconcile_listed reconciler_special_resources new_subject must_set
    set_subjects role_binding_template create_role_binding has_subject update_object
    update_role_binding bind_image_puller create_image_puller_role_binding get_kernel_version
    split_dots major_minor completed_version get_cluster_version find_push_secret
    get_push_secret_name new_object unless_not_found get_os_image_url get_runtime_information
    poll_rounds new_yaml_scanner scan_err scan_loop scan
states_stopped = (reconcile_hardware_states_err_iff failing config' start start states_error).0 refl
