-- ===== src/Safety/Manifests.antt =====
-- The guard on updates, and the fuel, for `createFromYAML` of controllers/resources.go.
use special_resource_operato.Prelude.{
  ◌≡◌, refl, ap, ◌∙◌, ℕ, zero, suc, ◌<◌, Bool, true, false, String, Option, none, some, length,
  arith,
}
use special_resource_operato.Exec.{
  Error, Outcome, ok, err, exit, panic, out_of_fuel, Exec, Attempt, returned, raised, ◌>>=◌,
}
use special_resource_operato.Exec.Safe.{
  Ends, Safe, Safe-pure, Safe-raise, Safe-panicking, Safe-bind, safe_rules,
}
use special_resource_operato.Value.{Fields}
use special_resource_operato.State.{State}
use special_resource_operato.Env.{Env, Rendered, bad_template, bad_execution, rendered}
use special_resource_operato.Scanner.{Scanner, new_yaml_scanner, scan}
use special_resource_operato.Scanner.Rounds.{scan-shorter, scan-Ends}
use special_resource_operato.Create.{
  after_template, template_runtime_information, check_vendor, rebuild_driver_container, decode,
  apply_object, unless_skipped, create_object, finish, scanned, go_on, create_next, create_objects,
  create_from_yaml,
}
use special_resource_operato.Safety.{PollsInRounds, KeepsKind, IsGuarded, On}
use special_resource_operato.Safety.Objects.{Safe-crud}
use special_resource_operato.Safety.Hooks.{Safe-before_crud_hooks, Safe-after_crud_hooks}

module _ {W : Type 0} (env : Env W) {P : State W → Type 0} where
  Safe-after_template : (r : Rendered) → Safe P (after_template env r)
  Safe-after_template bad_template = Safe-panicking
  Safe-after_template (bad_execution e) = Safe-raise _
  Safe-after_template (rendered spec) = Safe-pure spec

  Safe-template_runtime_information :
      (spec : String) → Safe P (template_runtime_information env spec)
  unfolding template_runtime_information
  Safe-template_runtime_information spec = search (safe_rules, Safe-after_template)

  Safe-check_vendor : (vendor : Option String) → Safe P (check_vendor env vendor)
  unfolding check_vendor
  Safe-check_vendor (some vendor) = search safe_rules
  Safe-check_vendor none = Safe-raise _

  pub Safe-rebuild_driver_container : (obj : Fields) → Safe P (rebuild_driver_container env obj)
  unfolding rebuild_driver_container
  Safe-rebuild_driver_container obj = search (safe_rules, Safe-check_vendor)

  Safe-decode : (namespace document : String) → Safe P (decode env namespace document)
  unfolding decode
  Safe-decode namespace document = search (safe_rules, Safe-template_runtime_information) depth 12

  Safe-finish : (e : Option Error) → Safe P (finish env e)
  Safe-finish none = Safe-pure tt
  Safe-finish (some e) = Safe-raise _

  Safe-go_on :
      (go : Bool) (rounds : Exec (State W) (Unit {0}))
      → Safe P rounds
      → Safe P (go_on env go rounds)
  unfolding go_on
  Safe-go_on true rounds h = h
  Safe-go_on false rounds h = Safe-pure tt

module _ {W : Type 0} (env : Env W) (polls : PollsInRounds env) (k : KeepsKind env.unstructured)
    {P : W → Type 0} (g : IsGuarded env P) where
  Safe-apply_object : (obj : Fields) → Safe (On env P) (apply_object env obj)
  unfolding apply_object
  Safe-apply_object obj =
      search
        (
          safe_rules,
          Safe-before_crud_hooks env g,
          Safe-crud env g k,
          Safe-after_crud_hooks env polls g,
        )
        depth 9

  Safe-unless_skipped :
      (r : Attempt (Unit {0})) (obj : Fields) → Safe (On env P) (unless_skipped env r obj)
  unfolding unless_skipped
  Safe-unless_skipped (raised e) obj = Safe-pure false
  Safe-unless_skipped (returned go) obj = search (safe_rules, Safe-apply_object)

  Safe-create_object :
      (namespace document : String) → Safe (On env P) (create_object env namespace document)
  unfolding create_object
  Safe-create_object namespace document =
      search (safe_rules, Safe-decode env, Safe-rebuild_driver_container env, Safe-unless_skipped)
        depth 9

  Safe-create_next :
      (rounds : Scanner → Exec (State W) (Unit {0})) (namespace : String) (more : Bool)
      (sc : Scanner)
      → (more ≡ true → Safe (On env P) (rounds sc))
      → Safe (On env P) (create_next env rounds namespace (more, sc))
  unfolding create_next
  Safe-create_next rounds namespace false sc h = Safe-finish env _
  Safe-create_next rounds namespace true sc h =
      Safe-bind _ _ (Safe-create_object namespace sc.token) (λ go. Safe-go_on env go _ (h refl))

  Safe-scanned :
      (f : Bool × Scanner → Exec (State W) (Unit {0})) (r : Outcome Bool) (sc : Scanner)
      → Ends r
      → ((more : Bool) → r ≡ ok more → Safe (On env P) (f (more, sc)))
      → Safe (On env P) (scanned env (r, sc) >>= f)
  unfolding ◌>>=◌
  Safe-scanned f (ok more) sc e h = h more refl
  Safe-scanned f (err x) sc e h = record { keeps = λ s p. p; ends = λ s p. tt }
  Safe-scanned f exit sc e h = record { keeps = λ s p. p; ends = λ s p. tt }
  Safe-scanned f panic sc e h = record { keeps = λ s p. p; ends = λ s p. tt }
  Safe-scanned f out_of_fuel sc e h = absurd e

  -- More fuel than the reader has answers: the loop is not cut off.
  pub Safe-create_objects :
      (fuel : ℕ) (namespace : String) (sc : Scanner)
      → length sc.reader < fuel
      → Safe (On env P) (create_objects env fuel namespace sc)
  unfolding create_objects
  Safe-create_objects zero namespace sc h = absurd (omega arith)
  Safe-create_objects (suc fuel) namespace sc h =
      Safe-scanned _ (scan sc).0 (scan sc).1 (scan-Ends sc) (λ more e.
        Safe-create_next _ namespace more (scan sc).1 (λ m.
          Safe-create_objects fuel namespace (scan sc).1
            (omega (arith, scan-shorter sc (e ∙ ap ok m)))))

  pub Safe-create_from_yaml :
      (yaml_file namespace : String) → Safe (On env P) (create_from_yaml env yaml_file namespace)
  unfolding create_from_yaml new_yaml_scanner
  Safe-create_from_yaml yaml_file namespace = Safe-create_objects _ namespace _ (omega arith)
