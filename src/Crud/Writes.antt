-- ===== src/Crud/Writes.antt =====
-- What `updateResourceVersion` of controllers/resources.go carries over from the object in the
-- cluster.
use special_resource_operato.Prelude.{
  ◌≡◌, ◌≢◌, ap, ◌∙◌, sym, true, String, List, [], ◌∷◌, none, eq_iff, arith,
}
use special_resource_operato.Exec.{ok, Exec, returned, ◌>>=◌}
use special_resource_operato.Exec.Returns.{bind-ok}
use special_resource_operato.Value.{Value, string, Fields}
use special_resource_operato.State.{State}
use special_resource_operato.Env.{Env, Unstructured}
use special_resource_operato.Crud.{copy_field, update_resource_version}

-- The accessors, as documented: a field that was set is found again, and setting it leaves every
-- field below another first key alone.
pub record SetsFields (u : Unstructured) : Type 0 where
  pub found_again :
      (text : String) (path : List String) (obj obj' : Fields)
      → u.set_nested_field (string text) path obj ≡ returned obj'
      → u.nested_string obj' path ≡ (text, true, none)
  pub others_kept :
      (value : Value) (first other : String) (rest path : List String) (obj obj' : Fields)
      → first ≢ other
      → u.set_nested_field value (first ∷ rest) obj ≡ returned obj'
      → u.nested_string obj' (other ∷ path) ≡ u.nested_string obj (other ∷ path)

abbrev pub version_path : List String
version_path = "metadata" ∷ "resourceVersion" ∷ []

abbrev pub cluster_ip_path : List String
cluster_ip_path = "spec" ∷ "clusterIP" ∷ []

module _ {W : Type 0} (env : Env W) where
  pub copy_field_ok :
      (msg : String) (path : List String) (req found req' : Fields) (s : State W)
      → (copy_field env msg path req found s).0 ≡ ok req'
      → (env.set_nested_field (string (env.nested_string found path).0) path req ≡ returned req')
        × (env.nested_string found path ≡ ((env.nested_string found path).0, true, none))
        × ((copy_field env msg path req found s).1 ≡ s)
  unfolding copy_field ◌>>=◌
  copy_field_ok msg path req found req' s h = (ground arith, ground arith, ground arith)

  abbrev copy_version : Fields → Fields → Exec (State W) Fields
  copy_version req found = copy_field env "Couldn't update ResourceVersion" version_path req found

  abbrev copy_cluster_ip : Fields → Fields → Exec (State W) Fields
  copy_cluster_ip found req = copy_field env "Couldn't update clusterIP" cluster_ip_path req found

  update_resource_version-steps :
      (req found : Fields)
      → env.kind found ≡ "Service"
      → update_resource_version env req found ≡ (copy_version req found >>= copy_cluster_ip found)
  unfolding update_resource_version
  update_resource_version-steps req found k = rw k

  -- A Service that is to be updated: the object that is sent has the resource version and the cluster
  -- address of the object in the cluster, which has both; nothing is called and no state changes.
  pub update_resource_version-Service :
      (laws : SetsFields env.unstructured) (req found req' : Fields) (s : State W)
      → env.kind found ≡ "Service"
      → (update_resource_version env req found s).0 ≡ ok req'
      → (env.nested_string req' version_path ≡ env.nested_string found version_path)
        × (env.nested_string req' cluster_ip_path ≡ env.nested_string found cluster_ip_path)
        × ((update_resource_version env req found s).1 ≡ s)
  update_resource_version-Service laws req found req' s k h =
      let steps = update_resource_version-steps req found k in
      let (r, first, second, whole) =
        bind-ok (copy_version req found) (copy_cluster_ip found) s req'
          (ap (λ (m : Exec (State W) Fields). (m s).0) (sym steps) ∙ h) in
      let one = copy_field_ok "Couldn't update ResourceVersion" version_path req found r s first in
      let two =
        copy_field_ok "Couldn't update clusterIP" cluster_ip_path r found req'
          (copy_version req found s).1 second in
      (
        laws.others_kept _ "spec" "metadata" _ _ r req' (ground (arith, eq_iff "spec" "metadata"))
              two.0
            ∙ laws.found_again _ version_path req r one.0
            ∙ sym one.1,
        laws.found_again _ cluster_ip_path r req' two.0 ∙ sym two.1,
        ap (λ (m : Exec (State W) Fields). (m s).1) steps ∙ whole ∙ two.2 ∙ one.2,
      )
