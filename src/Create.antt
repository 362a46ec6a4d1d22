-- ===== src/Create.antt =====
-- `createFromYAML` of controllers/resources.go: the objects of a manifest, one after the other, are
-- templated, decoded, passed to the hooks and to `CRUD`.
pub mod Loop
pub mod Vendor
use special_resource_operato.Prelude.{
  ℕ, zero, suc, Bool, true, false, String, ◌<>◌, Option, none, some, length, index, ◌==◌,
  if◌then◌else◌,
}
use special_resource_operato.Exec.{
  Attempt, Error, new, wrapped, Exec, Outcome, ok, err, exit, panic, out_of_fuel, returned, raised,
  pure, raise, panicking, gets, ◌>>=◌, ◌>>◌, attempt, wrap, lift, exit_on_failure,
}
use special_resource_operato.Value.{Fields}
use special_resource_operato.State.{State}
use special_resource_operato.Env.{Env, Rendered, bad_template, bad_execution, rendered}
use special_resource_operato.Scanner.{Scanner, new_yaml_scanner, scan_err, scan}
use special_resource_operato.Crud.{resource_namespaced, crud}
use special_resource_operato.Callbacks.{before_crud_hooks, after_crud_hooks}

module _ {W : Type 0} (env : Env W) where
  abbrev pub after_template : Rendered → Exec (State W) String
  after_template bad_template = panicking
  after_template (bad_execution e) =
      raise (wrapped e "Cannot templatize spec for resource info injection, check manifest")
  after_template (rendered spec) = pure spec

  -- The template is executed on the package variable `runInfo`.
  unfoldable pub template_runtime_information : String → Exec (State W) String
  template_runtime_information spec = do
    info ← gets (λ s. s.run_info)
    after_template (env.execute_template spec info)

  unfoldable pub check_vendor : Option String → Exec (State W) (Unit {0})
  check_vendor (some vendor) = do
    update_vendor ← gets (λ s. s.run_info.update_vendor)
    (if vendor == update_vendor then pure tt else raise (new "vendor != updateVendor"))
  check_vendor none = raise (new "No driver-container-vendor found, nor vendor == updateVendor")

  -- nil for an object to go on with. A BuildConfig is built only for the vendor in `runInfo`.
  unfoldable pub rebuild_driver_container : Fields → Exec (State W) (Unit {0})
  rebuild_driver_container obj =
      if env.kind obj == "BuildConfig"
      then check_vendor
          (index (env.annotations obj) "specialresource.openshift.io/driver-container-vendor")
      else pure tt

  -- A document as the object that it describes: two template passes, then YAML, then JSON.
  unfoldable pub decode : String → String → Exec (State W) Fields
  decode namespace document = do
    once ← wrap "Cannot inject runtime information 1st pass" (template_runtime_information document)
    twice ← wrap "Cannot inject runtime information 2nd pass" (template_runtime_information once)
    json ← wrap ("Could not convert yaml file to json" <> twice) (lift (env.yaml_to_json twice))
    obj ←
        exit_on_failure (
          wrap "Cannot unmarshall json spec, check your manifests" (lift (env.unmarshal_json json)))
    pure (if resource_namespaced (env.kind obj) then env.set_namespace namespace obj else obj)

  -- The hooks and `CRUD` for one object.
  unfoldable pub apply_object : Fields → Exec (State W) (Unit {0})
  apply_object obj = do
    prepared ← wrap "Before CRUD hooks failed" (before_crud_hooks env obj)
    applied ← exit_on_failure (wrap "CRUD exited non-zero" (crud env prepared))
    wrap "After CRUD hooks failed" (after_crud_hooks env applied)

  unfoldable pub unless_skipped : Attempt (Unit {0}) → Fields → Exec (State W) Bool
  unless_skipped (raised e) obj = pure false
  unless_skipped (returned go) obj = do apply_object obj; pure true

  -- The body of the loop. `false`: a driver container is not to be built, and the whole manifest
  -- ends there without an error.
  unfoldable pub create_object : String → String → Exec (State W) Bool
  create_object namespace document = do
    obj ← decode namespace document
    rebuild ← attempt (rebuild_driver_container obj)
    unless_skipped rebuild obj

  -- After the loop: the scanner's error, wrapped.
  abbrev pub finish : Option Error → Exec (State W) (Unit {0})
  finish none = pure tt
  finish (some e) = raise (wrapped e "Failed to scan manifest")

  -- A call of `Scan` among the actions on the operator's state.
  abbrev pub scanned : Outcome Bool × Scanner → Exec (State W) (Bool × Scanner)
  scanned (ok more, sc) s = (ok (more, sc), s)
  scanned (err e, sc) s = (err e, s)
  scanned (exit, sc) s = (exit, s)
  scanned (panic, sc) s = (panic, s)
  scanned (out_of_fuel, sc) s = (out_of_fuel, s)

  unfoldable pub go_on : Bool → Exec (State W) (Unit {0}) → Exec (State W) (Unit {0})
  go_on true rounds = rounds
  go_on false rounds = pure tt

  -- A round of the loop once `Scan` has answered, with the rounds that come after it.
  unfoldable pub create_next :
      (Scanner → Exec (State W) (Unit {0})) → String → Bool × Scanner → Exec (State W) (Unit {0})
  create_next rounds namespace (false, sc) = finish (scan_err sc)
  create_next rounds namespace (true, sc) = do
    go ← create_object namespace sc.token
    go_on go (rounds sc)

  -- `for scanner.Scan() { ... }`. The fuel bounds the rounds.
  unfoldable pub create_objects : ℕ → String → Scanner → Exec (State W) (Unit {0})
  create_objects zero namespace sc s = (out_of_fuel, s)
  create_objects (suc fuel) namespace sc s =
      (scanned (scan sc) >>= create_next (create_objects fuel namespace) namespace) s

  -- One round more than the reader has answers is enough.
  unfoldable pub create_from_yaml : String → String → Exec (State W) (Unit {0})
  create_from_yaml yaml_file namespace =
      let reads = env.yaml_reader yaml_file in
      create_objects (suc (length reads)) namespace (new_yaml_scanner reads)
