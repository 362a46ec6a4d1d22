-- ===== src/Tests/Keys.antt =====
-- The accessors of the tests keep the key of an object.
use mathlib.Core.Path.{subst}
use special_resource_operato.Prelude.{
  ◌≡◌, ◌≢◌, inl, inr, ap, ◌∙◌, Bool-cases, String, [], ◌∷◌, Option, none, some, ◌==◌, eq_iff, arith,
}
use special_resource_operato.Exec.{returned}
use special_resource_operato.Value.{Value, string, object, Fields, empty, field}
use special_resource_operato.Crud.Keys.{KeepsKey, IsOther, key_of}
use special_resource_operato.Tests.Accessors.{
  find, put, text_of, get_path, set_path, below, find-put, find-put_self, set_nested,
  set_nested-inversion, get_path-set_other,
}
use special_resource_operato.Tests.Server.{test_env}

set_child :
    (v w : Value) (second other : String) (old : Option Value)
    → second ≢ other
    → set_path (second ∷ []) v (elim old [ none ↦ object empty | some x ↦ x ]) ≡ some w
    → get_path (other ∷ []) w ≡ below (other ∷ []) old
set_child v w second other none n h =
    let e : object (field second v empty) ≡ w = cc in rw (← e) (ground (arith, eq_iff second other))
set_child v w second other (some (object g)) n h =
    let e : object (put second v g) ≡ w = cc in
    rw (← e) (ap (below []) (find-put g other second v ∙ ground (arith, eq_iff second other)))
set_child v w second other (some _) n h = cc

get_path-set_child :
    (v : Value) (first second other : String) (f f' : Fields)
    → second ≢ other
    → set_nested v (first ∷ second ∷ []) f ≡ returned f'
    → get_path (first ∷ other ∷ []) (object f') ≡ get_path (first ∷ other ∷ []) (object f)
get_path-set_child v first second other f f' n h =
    let (w, inner, e) = set_nested-inversion v first (second ∷ []) f f' h in
    rw (← e) (
      ap (below (other ∷ [])) (find-put_self f first w)
      ∙ set_child v w second other (find first f) n inner)

-- A field of `metadata` is kept when another is set.
metadata_kept :
    (v : Value) (first second other : String) (f f' : Fields)
    → second ≢ other
    → set_nested v (first ∷ second ∷ []) f ≡ returned f'
    → get_path ("metadata" ∷ other ∷ []) (object f') ≡ get_path ("metadata" ∷ other ∷ []) (object f)
metadata_kept v first second other f f' n h = elim (Bool-cases (first == "metadata")) [
  | inl e ↦
      subst (λ k. get_path (k ∷ other ∷ []) (object f') ≡ get_path (k ∷ other ∷ []) (object f))
        ((eq_iff first "metadata").0 e) (get_path-set_child v first second other f f' n h)
  | inr e ↦
      get_path-set_other v first "metadata" (second ∷ []) (other ∷ []) f f'
        (ground (arith, eq_iff first "metadata")) h
]

owner_IsOther : IsOther "metadata" "owner"
owner_IsOther = (
  ground (arith, eq_iff "metadata" "kind"),
  ground (arith, eq_iff "owner" "name"),
  ground (arith, eq_iff "owner" "namespace"),
)

-- Any world's operator that has these accessors, and sets the owner as test_env does.
field_kept :
    (v : Value) (first second : String) (f f' : Fields)
    → IsOther first second
    → set_nested v (first ∷ second ∷ []) f ≡ returned f'
    → key_of test_env f' ≡ key_of test_env f
field_kept v first second f f' (k, n, m) h = λ i. record {
  kind = (text_of (get_path-set_other v first "kind" (second ∷ []) [] f f' k h i)).0;
  namespace = (text_of (metadata_kept v first second "namespace" f f' m h i)).0;
  name = (text_of (metadata_kept v first second "name" f f' n h i)).0;
}

pub test_env-KeepsKey : KeepsKey test_env
test_env-KeepsKey = record {
  field_set = λ v first second obj obj' other h. field_kept v first second obj obj' other h;
  owned = λ owner obj obj' h.
      field_kept (string owner.name) "metadata" "owner" obj obj' owner_IsOther h;
}
