-- ===== src/Create/Vendor.antt =====
-- The feedback between a driver container whose image cannot be pulled and the build of that image:
-- controllers/callbacks.go and `rebuildDriverContainer` of controllers/resources.go.
use special_resource_operato.Prelude.{
  ◌≡◌, ap, sym, ◌∙◌, ◌<>◌, ◌↔◌, ◌⊎◌, inl, inr, Bool-cases, refl, true, String, List, [], ◌∷◌,
  Option, none, some, index, ◌==◌, eq_iff, arith,
}
use special_resource_operato.Exec.{Error, new, ok, err, ◌>>=◌}
use special_resource_operato.Value.{Value, Fields}
use special_resource_operato.State.{State}
use special_resource_operato.Env.{Env, Read, document}
use special_resource_operato.Scanner.{new_yaml_scanner, scan}
use special_resource_operato.Create.{
  decode, check_vendor, rebuild_driver_container, unless_skipped, create_object, go_on, create_next,
  create_objects, create_from_yaml,
}
use special_resource_operato.Callbacks.{
  waiting_reason, ask_rebuild, judge_reason, judge_pod, judge_pods,
}

abbrev pub vendor_key : String
vendor_key = "specialresource.openshift.io/driver-container-vendor"

module _ {W : Type 0} (env : Env W) where
  check_vendor_lem :
      (vendor : Option String) (s : State W)
      → ((check_vendor env vendor s).1 ≡ s)
        × (((check_vendor env vendor s).0 ≡ ok tt) ↔ (vendor ≡ some s.run_info.update_vendor))
  unfolding check_vendor ◌>>=◌
  check_vendor_lem none s = ground arith
  check_vendor_lem (some v) s = ground (arith, eq_iff v s.run_info.update_vendor)

  -- Nothing is changed by the test of an object, and it passes exactly for an object that is no
  -- BuildConfig and for a BuildConfig whose vendor is the one that asked for a build.
  rebuild_driver_container_lem :
      (obj : Fields) (s : State W)
      → ((rebuild_driver_container env obj s).1 ≡ s)
        × (((rebuild_driver_container env obj s).0 ≡ ok tt) ↔ (
            env.kind obj ≡ "BuildConfig"
            → index (env.annotations obj) vendor_key ≡ some s.run_info.update_vendor))
  unfolding rebuild_driver_container ◌>>=◌
  rebuild_driver_container_lem obj s =
      let named = eq_iff (env.kind obj) "BuildConfig" in
      let tested = check_vendor_lem (index (env.annotations obj) vendor_key) s in
      elim (Bool-cases (env.kind obj == "BuildConfig")) [
        | inl e ↦ rw e (tested.0, ((λ h k. tested.1.0 h), (λ h. tested.1.1 (h (named.0 e)))))
        | inr e ↦ rw e (refl, ((λ h k. cc (named.1 k)), (λ h. refl)))
      ]

  abbrev rebuild_error : String → Error
  rebuild_error vendor = new ("ImagePullBackOff need to rebuild" <> vendor <> "driver-container")

  abbrev IsPullFailure : String → Type 0
  IsPullFailure reason = (reason ≡ "ImagePullBackOff") ⊎ (reason ≡ "ErrImagePull")

  judge_reason-fails :
      (obj : Fields) (reason vendor : String) (s : State W)
      → IsPullFailure reason
      → index (env.annotations obj) vendor_key ≡ some vendor
      → judge_reason env obj reason s ≡ (
        err (rebuild_error vendor),
        record s { run_info = record s.run_info { update_vendor = vendor } },
      )
  unfolding judge_reason ask_rebuild ◌>>=◌
  judge_reason-fails obj reason vendor s (inl r) v = rw (r, v)
  judge_reason-fails obj reason vendor s (inr r) v = rw (r, v)

  -- The first pod has container statuses, and its first container waits because its image cannot be
  -- pulled: the DaemonSet with a vendor fails, and in the state that it leaves, a BuildConfig of that
  -- vendor passes the test for being built.
  pub judge_pods-rebuild :
      (obj pod build : Fields) (pods : List Fields) (statuses : List Value) (vendor : String)
      (s : State W)
      → env.nested_slice pod ("status" ∷ "containerStatuses" ∷ []) ≡ (statuses, true, none)
      → IsPullFailure (waiting_reason env.unstructured statuses)
      → index (env.annotations obj) vendor_key ≡ some vendor
      → index (env.annotations build) vendor_key ≡ some vendor
      → let s' = (judge_pods env obj (pod ∷ pods) s).1 in
        ((e : Error) × ((judge_pods env obj (pod ∷ pods) s).0 ≡ err e))
        × (rebuild_driver_container env build s' ≡ (ok tt, s'))
  unfolding judge_pods judge_pod
  judge_pods-rebuild obj pod build pods statuses vendor s h r v b =
      let judged = judge_reason-fails obj (waiting_reason env.unstructured statuses) vendor s r v in
      let tested =
        rebuild_driver_container_lem build
          (judge_reason env obj (waiting_reason env.unstructured statuses) s).1 in
      rw h (
        (rebuild_error vendor, ap (λ x. x.0) judged),
        (λ i. (
          tested.1.1 (λ k. b ∙ ap (λ x. some x.1.run_info.update_vendor) (sym judged)) i,
          tested.0 i,
        )),
      )

  -- The first document of a manifest describes an object that is not to be built now: the manifest
  -- ends there with no error, and none of its other documents is looked at.
  pub create_from_yaml-skip :
      (yaml_file namespace doc : String) (rest : List Read) (obj : Fields) (e : Error)
      (s s' : State W)
      → env.yaml_reader yaml_file ≡ document doc ∷ rest
      → decode env namespace doc s ≡ (ok obj, s')
      → (rebuild_driver_container env obj s').0 ≡ err e
      → create_from_yaml env yaml_file namespace s ≡ (ok tt, s')
  unfolding create_from_yaml create_objects create_next create_object unless_skipped go_on scan
      new_yaml_scanner ◌>>=◌
  create_from_yaml-skip yaml_file namespace doc rest obj e s s' y d r =
      rw (y, d, r, (rebuild_driver_container_lem obj s').0)
