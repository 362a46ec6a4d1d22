-- ===== src/Crud/Keys.antt =====
-- The kind, the namespace and the name of an object, which `CRUD` of controllers/resources.go keeps.
use special_resource_operato.Prelude.{
  ◌≡◌, ◌≢◌, ap, ◌∙◌, Bool, true, false, String, [], ◌∷◌, ◌==◌, eq_iff, arith, if◌then◌else◌,
}
use special_resource_operato.Exec.{
  ok, Exec, Attempt, returned, raised, pure, gets, wrap, lift, ◌>>=◌,
}
use special_resource_operato.Exec.Returns.{bind-ok}
use special_resource_operato.Value.{Value, Fields}
use special_resource_operato.Api.{SpecialResource}
use special_resource_operato.State.{State}
use special_resource_operato.Env.{Env}
use special_resource_operato.Crud.{
  need_to_update_resource_version, copy_field, update_resource_version, own,
}
use special_resource_operato.Crud.Writes.{copy_field_ok}

pub record Key : Type 0 where
  pub kind : String
  pub namespace : String
  pub name : String

-- A field of two names that is neither below `kind` nor a name or a namespace.
abbrev pub IsOther : String → String → Type 0
IsOther first second = (first ≢ "kind") × (second ≢ "name") × (second ≢ "namespace")

cluster_ip_others : IsOther "spec" "clusterIP"
cluster_ip_others = (
  ground (arith, eq_iff "spec" "kind"),
  ground (arith, eq_iff "clusterIP" "name"),
  ground (arith, eq_iff "clusterIP" "namespace"),
)

version_others : IsOther "metadata" "resourceVersion"
version_others = (
  ground (arith, eq_iff "metadata" "kind"),
  ground (arith, eq_iff "resourceVersion" "name"),
  ground (arith, eq_iff "resourceVersion" "namespace"),
)

module _ {W : Type 0} (env : Env W) where
  abbrev pub key_of : Fields → Key
  key_of o = record { kind = env.kind o; namespace = env.namespace o; name = env.name o }

  -- Setting a field that is none of the three, and setting the owner, leaves them alone.
  pub record KeepsKey : Type 0 where
    pub field_set :
        (value : Value) (first second : String) (obj obj' : Fields)
        → IsOther first second
        → env.set_nested_field value (first ∷ second ∷ []) obj ≡ returned obj'
        → key_of obj' ≡ key_of obj
    pub owned :
        (owner : SpecialResource) (obj obj' : Fields)
        → env.set_controller_reference owner obj ≡ returned obj'
        → key_of obj' ≡ key_of obj

  module _ (laws : KeepsKey) where
    copied :
        (msg first second : String) (req found req' : Fields) (s : State W)
        → IsOther first second
        → (copy_field env msg (first ∷ second ∷ []) req found s).0 ≡ ok req'
        → key_of req' ≡ key_of req
    copied msg first second req found req' s other h =
        laws.field_set _ first second req req' other
          (copy_field_ok env msg (first ∷ second ∷ []) req found req' s h).0

    if-key :
        (b : Bool) (m : Exec (State W) Fields) (x r : Fields) (s : State W)
        → ((m s).0 ≡ ok r → key_of r ≡ key_of x)
        → ((if b then m else pure x) s).0 ≡ ok r
        → key_of r ≡ key_of x
    unfolding ◌>>=◌
    if-key true m x r s k h = k h
    if-key false m x r s k h = ap key_of (cc)

    pub update_resource_version-key :
        (req found r : Fields) (s : State W)
        → (update_resource_version env req found s).0 ≡ ok r
        → key_of r ≡ key_of req
    unfolding update_resource_version
    update_resource_version-key req found r s h =
        let (r', first, second, e) = bind-ok _ _ s r h in
        if-key (env.kind found == "Service") _ r' r _
          (copied "Couldn't update clusterIP" "spec" "clusterIP" r' found r _ cluster_ip_others)
          second
        ∙ if-key (need_to_update_resource_version (env.kind found)) _ req r' s
            (copied "Couldn't update ResourceVersion" "metadata" "resourceVersion" req found r' s
              version_others)
            first

    lifted_returned :
        (msg : String) (x : Attempt Fields) (a : Fields) (s : State W)
        → (wrap msg (lift x) s).0 ≡ ok a
        → x ≡ returned a
    unfolding ◌>>=◌
    lifted_returned msg (returned b) a s h = cc
    lifted_returned msg (raised e) a s h = cc

    pub own-key :
        (obj owned : Fields) (s : State W)
        → (own env obj s).0 ≡ ok owned
        → key_of owned ≡ key_of obj
    unfolding own ◌>>=◌
    own-key obj owned s h = by_kind (env.kind obj == "SpecialResource") h
      where
        action : Exec (State W) Fields
        action = do
          owner ← gets (λ s. s.specialresource)
          wrap "Failed to set controller reference" (lift (env.set_controller_reference owner obj))

        by_kind :
            (b : Bool)
            → ((if b then pure obj else action) s).0 ≡ ok owned
            → key_of owned ≡ key_of obj
        by_kind true h = ap key_of (cc)
        by_kind false h = laws.owned s.specialresource obj owned (
            lifted_returned "Failed to set controller reference"
              (env.set_controller_reference s.specialresource obj) owned s h)
