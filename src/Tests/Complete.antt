-- ===== src/Tests/Complete.antt =====
-- A request from its start to its end, computed: every function that it runs through is opened.
use special_resource_operato.Prelude.{◌↔◌, ◌≡◌, refl, false, true, some, [], ◌∷◌}
use special_resource_operato.Exec.{new, raised, returned}
use special_resource_operato.Api.{SpecialResourceDependency}
use special_resource_operato.Env.{Env, file}
use special_resource_operato.Reconcile.{
  create_first, create_special_resource_from, after_creation, create_missing,
}
use special_resource_operato.Reconcile.Requests.{requeued}
use special_resource_operato.Reconcile.Missing.{CreatedFromRecipe, reconcile_dependency-missing}
use special_resource_operato.Exec.{ok}
use special_resource_operato.State.{State, initial}
use special_resource_operato.Reconcile.Order.{ParentsDone}
use special_resource_operato.Reconcile.Done.{reconciler_iff}
use special_resource_operato.Callbacks.{
  waiting_reason, custom_callback, run_prefix, run_callback, before_crud_hooks, ask_rebuild,
  judge_reason, judge_pod, judge_pods, pods_of_daemon_set, check_pods,
  check_for_image_pull_back_off, check_state, wait_if_asked, wait_for_logs_if_asked,
  after_crud_hooks,
}
use special_resource_operato.Cluster.{ask, accept}
use special_resource_operato.Create.{
  template_runtime_information, check_vendor, rebuild_driver_container, decode, apply_object,
  unless_skipped, create_object, go_on, create_next, create_objects, create_from_yaml,
}
use special_resource_operato.Crud.{
  need_to_update_resource_version, resource_namespaced, never_updated, copy_field,
  update_resource_version, own, update_found, create_or_update, crud,
}
use special_resource_operato.Exec.{
  pure, raise, os_exit, panicking, gets, modify, attempt, wrap, exit_on_failure, lift,
  exit_on_error, exit_on_error_or_not_found, ◌>>=◌,
}
use special_resource_operato.Hardware.{
  create_special_resource_namespace, asset_entry, get_local_hardware_configuration,
  found_configuration, get_hardware_configuration, manifest_of, execute_state, execute_states,
  reconcile_hardware_states, reconcile_hardware_configurations,
}
use special_resource_operato.Hardware.Order.{string_leb, insert_string, sort_strings}
use special_resource_operato.Labels.{
  state_labels, after_node_update, set_label, label_unless_there, label_key, label_keys, label_node,
  label_nodes, label_nodes_according_to_state,
}
use special_resource_operato.Manifests.{
  last_dot, ext, is_numbered, file_path_walk_dir, read_files, assets_of, read_assets,
  get_assets_from,
}
use special_resource_operato.Nodes.{node_labels, fetch_nodes, cache_nodes, first_key, update_status}
use special_resource_operato.OperatingSystem.{
  digits, magnitude, minus, atoi, render_operating_system, get_operating_system,
}
use special_resource_operato.Prelude.{lookup, insert}
use special_resource_operato.Prelude.{contains, replace_from, replace_all}
use special_resource_operato.Proxy.{
  env_var, or_empty, or_unchanged, read_proxy, select_proxy, get_proxy_configuration,
  setup_containers_proxy, setup_daemon_set_proxy, setup_pod_proxy, setup_proxy,
}
use special_resource_operato.Reconcile.{
  get_dependency_from, after_reconciliation, reconcile_current, reconcile_found,
  reconcile_dependency, reconcile_dependencies, reconcile_parent, reconcile_parents,
  reconcile_listed, reconciler_special_resources,
}
use special_resource_operato.RoleBinding.{
  new_subject, must_set, set_subjects, role_binding_template, create_role_binding, has_subject,
  update_object, update_role_binding, bind_image_puller, create_image_puller_role_binding,
}
use special_resource_operato.Runtime.{
  get_kernel_version, split_dots, major_minor, completed_version, get_cluster_version,
  find_push_secret, get_push_secret_name, new_object, unless_not_found, get_os_image_url,
  get_runtime_information,
}
use special_resource_operato.Safety.{poll_rounds}
use special_resource_operato.Scanner.{new_yaml_scanner, scan_err, scan_loop, scan}
use special_resource_operato.Tests.Cluster.{cluster}
use special_resource_operato.Tests.Server.{World, test_env}

complete_request :
    (reconciler_special_resources test_env (initial cluster)).0 ≡ ok (record { requeue = false })
unfolding waiting_reason custom_callback run_prefix run_callback before_crud_hooks ask_rebuild
    judge_reason judge_pod judge_pods pods_of_daemon_set check_pods check_for_image_pull_back_off
    check_state wait_if_asked wait_for_logs_if_asked after_crud_hooks ask accept
    template_runtime_information check_vendor rebuild_driver_container decode apply_object
    unless_skipped create_object go_on create_next create_objects create_from_yaml
    need_to_update_resource_version resource_namespaced never_updated copy_field
    update_resource_version own update_found create_or_update crud pure raise os_exit panicking gets
    modify attempt wrap exit_on_failure lift exit_on_error exit_on_error_or_not_found ◌>>=◌
    create_special_resource_namespace asset_entry get_local_hardware_configuration
    found_configuration get_hardware_configuration manifest_of execute_state execute_states
    reconcile_hardware_states reconcile_hardware_configurations string_leb insert_string
    sort_strings state_labels after_node_update set_label label_unless_there label_key label_keys
    label_node label_nodes label_nodes_according_to_state last_dot ext is_numbered
    file_path_walk_dir read_files assets_of read_assets get_assets_from node_labels fetch_nodes
    cache_nodes first_key update_status digits magnitude minus atoi render_operating_system
    get_operating_system lookup insert contains replace_from replace_all env_var or_empty
    or_unchanged read_proxy select_proxy get_proxy_configuration setup_containers_proxy
    setup_daemon_set_proxy setup_pod_proxy setup_proxy get_dependency_from after_reconciliation
    reconcile_current reconcile_found reconcile_dependency reconcile_dependencies reconcile_parent
    reconcile_parents reconcile_listed reconciler_special_resources new_subject must_set
    set_subjects role_binding_template create_role_binding has_subject update_object
    update_role_binding bind_image_puller create_image_puller_role_binding get_kernel_version
    split_dots major_minor completed_version get_cluster_version find_push_secret
    get_push_secret_name new_object unless_not_found get_os_image_url get_runtime_information
    poll_rounds new_yaml_scanner scan_err scan_loop scan
complete_request = refl

abbrev afterwards : State World
afterwards = (reconciler_special_resources test_env (initial cluster)).1

reconciler_iff_example :
    (reconciler_special_resources test_env (initial cluster)
      ≡ (ok (record { requeue = false }), afterwards))
    ↔ ParentsDone test_env cluster.resources cluster.resources (initial cluster) afterwards
reconciler_iff_example = reconciler_iff test_env (initial cluster) afterwards

-- The two resources of the cluster, one after the dependency on the other, as they are reconciled.
complete_steps :
    ParentsDone test_env cluster.resources cluster.resources (initial cluster) afterwards
complete_steps =
    (reconciler_iff test_env (initial cluster) afterwards).0 (λ i. (complete_request i, afterwards))

-- The image has a recipe for the dependency that the cluster lacks.
abbrev recipes : Env World
recipes = record test_env {
  read_directory = λ path. some (file "0000-cr.yaml" (returned "SpecialResource") ∷ []);
}

abbrev dependency : SpecialResourceDependency
dependency = record { name = "simple-kmod"; image_reference = "false" }

nothing_listed : get_dependency_from [] "simple-kmod" ≡ raised (new "Not found")
unfolding get_dependency_from
nothing_listed = refl

recipe_created :
    (reconcile_dependency recipes [] dependency (initial cluster)).0
    ≡ ok (some (record { requeue = true }))
unfolding waiting_reason custom_callback run_prefix run_callback before_crud_hooks ask_rebuild
    judge_reason judge_pod judge_pods pods_of_daemon_set check_pods check_for_image_pull_back_off
    check_state wait_if_asked wait_for_logs_if_asked after_crud_hooks ask accept
    template_runtime_information check_vendor rebuild_driver_container decode apply_object
    unless_skipped create_object go_on create_next create_objects create_from_yaml
    need_to_update_resource_version resource_namespaced never_updated copy_field
    update_resource_version own update_found create_or_update crud pure raise os_exit panicking gets
    modify attempt wrap exit_on_failure lift exit_on_error exit_on_error_or_not_found ◌>>=◌
    create_special_resource_namespace asset_entry get_local_hardware_configuration
    found_configuration get_hardware_configuration manifest_of execute_state execute_states
    reconcile_hardware_states reconcile_hardware_configurations string_leb insert_string
    sort_strings state_labels after_node_update set_label label_unless_there label_key label_keys
    label_node label_nodes label_nodes_according_to_state last_dot ext is_numbered
    file_path_walk_dir read_files assets_of read_assets get_assets_from node_labels fetch_nodes
    cache_nodes first_key update_status digits magnitude minus atoi render_operating_system
    get_operating_system lookup insert contains replace_from replace_all env_var or_empty
    or_unchanged read_proxy select_proxy get_proxy_configuration setup_containers_proxy
    setup_daemon_set_proxy setup_pod_proxy setup_proxy get_dependency_from after_reconciliation
    reconcile_current reconcile_found reconcile_dependency reconcile_dependencies reconcile_parent
    reconcile_parents reconcile_listed reconciler_special_resources new_subject must_set
    set_subjects role_binding_template create_role_binding has_subject update_object
    update_role_binding bind_image_puller create_image_puller_role_binding get_kernel_version
    split_dots major_minor completed_version get_cluster_version find_push_secret
    get_push_secret_name new_object unless_not_found get_os_image_url get_runtime_information
    poll_rounds new_yaml_scanner scan_err scan_loop scan create_first create_special_resource_from
    after_creation create_missing
recipe_created = refl

abbrev missing_created : State World
missing_created = (reconcile_dependency recipes [] dependency (initial cluster)).1

reconcile_dependency-missing_example :
    (requeued recipes ≡ some (record { requeue = true }))
    × CreatedFromRecipe recipes "simple-kmod"
        (record (initial cluster) { dependency = dependency })
        missing_created
reconcile_dependency-missing_example =
    reconcile_dependency-missing recipes [] dependency (new "Not found") (initial cluster)
      (requeued recipes) nothing_listed recipe_created
