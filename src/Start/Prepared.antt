-- ===== src/Start/Prepared.antt =====
-- What has happened when main.go calls Start on its manager.
use mathlib.Core.Path.{subst}
use special_resource_operato.Prelude.{
  ◌≡◌, refl, sym, ap, ◌∙◌, String, List, [], ◌∷◌, Option, none, some,
}
use special_resource_operato.Exec.{
  ok, Attempt, returned, raised, lift, pure, exit_on_failure, ◌>>=◌, ◌>>◌,
}
use special_resource_operato.Exec.Returns.{bind-ok}
use special_resource_operato.Exec.Laws.{bind_assoc, bind-returned}
use special_resource_operato.Start.{
  Group, Flags, Runtime, Process, Starting, or_exit, outside, get_config_or_die, init,
  default_flags, options, controller, reconcile, setup_with_manager, prepare_manager, main,
  run_process,
}
use special_resource_operato.Start.Groups.{Registers, init-Knows}

module _ (r : Runtime) where
  abbrev pub set_up : r.Manager → Starting r r.Manager
  set_up mgr = exit_on_failure (setup_with_manager r mgr) >> pure mgr

  abbrev pub completed : r.Manager → r.Outside → Attempt (Unit {0}) × r.Outside
  completed mgr o = r.complete (controller r mgr) mgr o

  set_up-ok :
      (made mgr : r.Manager) (p : Process r)
      → (set_up made p).0 ≡ ok mgr
      → (made ≡ mgr)
        × ((completed made p.outside).0 ≡ returned tt)
        × ((set_up made p).1 ≡ record p { outside = (completed made p.outside).1 })
  unfolding setup_with_manager outside ◌>>=◌
  set_up-ok made mgr p h = by_result (completed made p.outside).0 h
    where
      q : Process r
      q = record p { outside = (completed made p.outside).1 }

      by_result :
          (x : Attempt (Unit {0}))
          → ((exit_on_failure (lift x) >> pure made) q).0 ≡ ok mgr
          → (made ≡ mgr) × (x ≡ returned tt) × (((exit_on_failure (lift x) >> pure made) q).1 ≡ q)
      by_result (returned u) h = (cc, refl, refl)
      by_result (raised e) h = cc

  abbrev pub build : Flags → r.Config → Starting r r.Manager
  build flags config p =
      (do
        made ← outside r (r.new_manager config (options r flags p.scheme))
        mgr ← exit_on_failure (lift made)
        set_up mgr)
        p

  build-ok :
      (flags : Flags) (config : r.Config) (mgr : r.Manager) (p : Process r)
      → (build flags config p).0 ≡ ok mgr
      → let made = r.new_manager config (options r flags p.scheme) p.outside in
        (made.0 ≡ returned mgr)
        × ((completed mgr made.1).0 ≡ returned tt)
        × ((build flags config p).1 ≡ record p { outside = (completed mgr made.1).1 })
  unfolding outside ◌>>=◌
  build-ok flags config mgr p h = by_result made.0 h
    where
      made : Attempt r.Manager × r.Outside
      made = r.new_manager config (options r flags p.scheme) p.outside

      q : Process r
      q = record p { outside = made.1 }

      by_result :
          (x : Attempt r.Manager)
          → ((exit_on_failure (lift x) >>= set_up) q).0 ≡ ok mgr
          → (x ≡ returned mgr)
            × ((completed mgr made.1).0 ≡ returned tt)
            × (((exit_on_failure (lift x) >>= set_up) q).1
                ≡ record p { outside = (completed mgr made.1).1 })
      by_result (returned m) h =
          let (same, done, after) = set_up-ok m mgr q h in
          (
            ap returned same,
            subst (λ x. (completed x made.1).0 ≡ returned tt) same done,
            after ∙ ap (λ x. record p { outside = (completed x made.1).1 }) same,
          )
      by_result (raised e) h = cc

  abbrev pub after_config : Flags → Option r.Config → Starting r r.Manager
  after_config flags config = or_exit config >>= build flags

  -- Between `p` and `after`, the manager was made with the flags, the configuration that was read and the
  -- scheme, then its controller was completed, and nothing else happened.
  pub record Made (flags : Flags) (mgr : r.Manager) (p after : Process r) : Type 0 where
    pub config : r.Config
    pub read : (r.get_config p.outside).0 ≡ some config
    pub outside_then : r.Outside
    pub created :
        r.new_manager config
          (record {
            scheme = p.scheme;
            metrics_bind_address = flags.metrics_addr;
            port = 9443;
            leader_election = flags.enable_leader_election;
            leader_election_id = "b6ae617b.openshift.io";
          })
          (r.get_config p.outside).1
        ≡ (returned mgr, outside_then)
    pub ready :
        r.complete
          (record {
            for = "SpecialResource";
            owns = "Pod" ∷ "DaemonSet" ∷ [];
            max_concurrent_reconciles = 1;
            reconcile = reconcile (r.env_of mgr);
          })
          mgr
          outside_then
        ≡ (returned tt, after.outside)
    pub scheme : after.scheme ≡ p.scheme

  abbrev pub after_parse : List String → Process r → Process r
  after_parse args p = record p { outside = (r.parse default_flags args p.outside).1 }

  build-Made :
      (flags : Flags) (mgr : r.Manager) (p : Process r)
      → ((get_config_or_die r >>= build flags) p).0 ≡ ok mgr
      → Made flags mgr p ((get_config_or_die r >>= build flags) p).1
  unfolding get_config_or_die outside or_exit ◌>>=◌
  build-Made flags mgr p h = by_config (r.get_config p.outside).0 refl h
    where
      q : Process r
      q = record p { outside = (r.get_config p.outside).1 }

      creation : r.Config → Attempt r.Manager × r.Outside
      creation config = r.new_manager config (options r flags p.scheme) q.outside

      by_config :
          (config : Option r.Config)
          → (r.get_config p.outside).0 ≡ config
          → (after_config flags config q).0 ≡ ok mgr
          → Made flags mgr p (after_config flags config q).1
      by_config none e h = cc
      by_config (some config) e h =
          let (result, done, after) = build-ok flags config mgr q h in
          record {
            config = config;
            read = e;
            outside_then = (creation config).1;
            created = λ i. (result i, (creation config).1);
            ready = λ i. (done i, (sym (ap (λ (x : Process r). x.outside) after)) i);
            scheme = ap (λ (x : Process r). x.scheme) after;
          }

  prepare_manager-ok :
      (args : List String) (mgr : r.Manager) (p : Process r)
      → (prepare_manager r args p).0 ≡ ok mgr
      → (flags : Flags) × ((r.parse default_flags args p.outside).0 ≡ some flags)
        × Made flags mgr (after_parse args p) (prepare_manager r args p).1
  unfolding prepare_manager outside or_exit ◌>>=◌
  prepare_manager-ok args mgr p h = by_flags (r.parse default_flags args p.outside).0 refl h
    where
      q : Process r
      q = after_parse args p

      by_flags :
          (flags : Option Flags)
          → (r.parse default_flags args p.outside).0 ≡ flags
          → ((or_exit flags >>= λ f. get_config_or_die r >>= build f) q).0 ≡ ok mgr
          → (f : Flags) × ((r.parse default_flags args p.outside).0 ≡ some f)
            × Made f mgr q ((or_exit flags >>= λ f. get_config_or_die r >>= build f) q).1
      by_flags none e h = cc
      by_flags (some f) e h = (f, e, build-Made f mgr q h)

  abbrev pub start_manager : r.Manager → Starting r (Unit {0})
  start_manager mgr = do ended ← outside r (r.start mgr); exit_on_failure (lift ended)

  -- Where the initialisation and the part of main before Start end with a manager, the process calls
  -- Start on it. Then every group is known to the scheme, the flags were parsed from the arguments, and
  -- the manager was made with these flags, that scheme and the configuration read; the controller that
  -- watches SpecialResources, Pods and DaemonSets and handles one request at a time was completed on it.
  -- AddToScheme, where it succeeds, adds its group and keeps the others.
  pub run_process_lem :
      (registers : Registers r) (args : List String) (mgr : r.Manager) (p : Process r)
      → ((init r >> prepare_manager r args) p).0 ≡ ok mgr
      → let after = ((init r >> prepare_manager r args) p).1 in
        (run_process r args p ≡ start_manager mgr after)
        × ((g : Group) → registers.Knows g after.scheme)
        × (flags : Flags) × ((r.parse default_flags args (init r p).1.outside).0 ≡ some flags)
        × Made flags mgr (after_parse args (init r p).1) after
  unfolding run_process main
  run_process_lem registers args mgr p h =
      let (u, first, second, e) = bind-ok (init r) (λ u. prepare_manager r args) p mgr h in
      let (flags, parsed, how) = prepare_manager-ok args mgr (init r p).1 second in
      let after = ((init r >> prepare_manager r args) p).1 in
      let how' = subst (λ x. Made flags mgr (after_parse args (init r p).1) x) (sym e) how in
      (
        ap (λ m. m p) (sym (bind_assoc (init r) (λ u. prepare_manager r args) start_manager))
            ∙ bind-returned (init r >> prepare_manager r args) start_manager mgr p h,
        λ g. subst (λ s. registers.Knows g s) (sym how'.scheme) (init-Knows registers p u first g),
        flags,
        parsed,
        how',
      )
