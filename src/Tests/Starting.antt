-- ===== src/Tests/Starting.antt =====
-- A process that starts: its scheme is the list of the groups, and it counts the calls to the outside.
use mathlib.Core.Path.{subst}
use special_resource_operato.Prelude.{
  ℕ, ◌+◌, ◌≡◌, ◌⊎◌, inl, inr, refl, String, true, List, [], ◌∷◌, none, some,
}
use special_resource_operato.Exec.{ok, new, returned, raised, ◌>>=◌, ◌>>◌}
use special_resource_operato.Start.{
  Group, Flags, Runtime, Process, or_exit, must, outside, add_to_scheme,
  add_3dparty_resources_to_scheme, add_kube_client, add_config_client, get_config_or_die, init,
  default_flags, setup_with_manager, prepare_manager, run_process,
}
use special_resource_operato.Start.Groups.{Registers}
use special_resource_operato.Start.Prepared.{Made, after_parse, start_manager, run_process_lem}
use special_resource_operato.Start.Clients.{init_without_clients, init-init_without_clients}
use special_resource_operato.Tests.Server.{World, test_env}

abbrev test_runtime : Runtime
test_runtime = record {
  Scheme = List Group;
  Config = String;
  KubeClient = String;
  ConfigClient = String;
  Manager = Flags;
  World = World;
  Outside = ℕ;
  add_to_scheme = λ g scheme. returned (g ∷ scheme);
  get_config = λ n. (some "in-cluster", n + 1);
  kubernetes_new_for_config = λ c. returned c;
  config_new_for_config = λ c. returned c;
  parse = λ flags args n. (some (record flags { enable_leader_election = true }), n);
  new_manager = λ c options n. (
    returned (record {
      metrics_addr = options.metrics_bind_address;
      enable_leader_election = options.leader_election;
    }),
    n + 1,
  );
  env_of = λ mgr. test_env;
  complete = λ c mgr n. (returned tt, n + 1);
  start = λ mgr n. (returned tt, n + 1);
}

abbrev Known : Group → List Group → Type 0
Known g [] = ⊥
Known g (x ∷ xs) = (g ≡ x) ⊎ Known g xs

test_runtime-Registers : Registers test_runtime
test_runtime-Registers = record {
  Knows = Known;
  adds = λ g scheme added e. subst (Known g) (same g scheme added e) (inl refl);
  keeps = λ g other scheme added e k. subst (Known other) (same g scheme added e) (inr k);
}
  where
    same :
        (g : Group) (scheme added : List Group)
        → returned (g ∷ scheme) ≡ returned added
        → g ∷ scheme ≡ added
    same g scheme added e = cc

abbrev at_start : Process test_runtime
at_start = record { scheme = []; kubeclient = none; configclient = none; outside = 0 }

abbrev elected : Flags
elected = record { metrics_addr = ":8080"; enable_leader_election = true }

prepares : ((init test_runtime >> prepare_manager test_runtime []) at_start).0 ≡ ok elected
unfolding init prepare_manager add_3dparty_resources_to_scheme add_to_scheme add_kube_client
    add_config_client get_config_or_die setup_with_manager outside or_exit must ◌>>=◌
prepares = refl

run_process_lem_example :
    let after = ((init test_runtime >> prepare_manager test_runtime []) at_start).1 in
    (run_process test_runtime [] at_start ≡ start_manager test_runtime elected after)
    × ((g : Group) → test_runtime-Registers.Knows g after.scheme)
    × (flags : Flags) × ((test_runtime.parse default_flags []
          (init test_runtime at_start).1.outside).0
        ≡ some flags)
    × Made test_runtime flags elected
        (after_parse test_runtime [] (init test_runtime at_start).1)
        after
run_process_lem_example =
    run_process_lem test_runtime test_runtime-Registers [] elected at_start prepares

-- No client can be made.
abbrev without_clients : Runtime
without_clients = record test_runtime {
  kubernetes_new_for_config = λ c. raised (new "no kube client");
  config_new_for_config = λ c. raised (new "no config client");
}

abbrev at_start_without : Process without_clients
at_start_without = record { scheme = []; kubeclient = none; configclient = none; outside = 0 }

init-init_without_clients_example :
    init without_clients at_start_without ≡ init_without_clients without_clients at_start_without
init-init_without_clients_example =
    init-init_without_clients without_clients (new "no config client") (new "no kube client")
      at_start_without (λ c. refl) (λ c. refl)
