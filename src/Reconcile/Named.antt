-- ===== src/Reconcile/Named.antt =====
-- The search for a dependency by its name among the listed special resources.
use special_resource_operato.Prelude.{
  ◌≡◌, ◌≢◌, inl, inr, refl, ap, Bool-cases, String, List, [], ◌∷◌, ◌++◌, All, ◌==◌, eq_iff,
}
use special_resource_operato.Exec.{Attempt, returned, raised}
use special_resource_operato.Api.{SpecialResource}
use special_resource_operato.Reconcile.{get_dependency_from}

-- The first resource of a name, or an error where there is none.
abbrev pub IsNamed : String → List SpecialResource → Attempt SpecialResource → Type 0
IsNamed name items (returned r) =
    (before : List SpecialResource) × (after : List SpecialResource) × (items ≡ before ++ r ∷ after)
    × (r.name ≡ name)
    × All (λ x. x.name ≢ name) before
IsNamed name items (raised e) = All (λ x. x.name ≢ name) items

behind :
    (name : String) (x : SpecialResource) (rest : List SpecialResource)
    (r : Attempt SpecialResource)
    → x.name ≢ name
    → IsNamed name rest r
    → IsNamed name (x ∷ rest) r
behind name x rest (returned r) n (before, after, e, same, others) =
    (x ∷ before, after, ap (λ l. x ∷ l) e, same, (n, others))
behind name x rest (raised e) n all = (n, all)

-- A dependency is the first of the listed resources with its name; there is an error exactly where
-- no listed resource has the name.
pub get_dependency_from-IsNamed :
    (items : List SpecialResource) (name : String)
    → IsNamed name items (get_dependency_from items name)
unfolding get_dependency_from
get_dependency_from-IsNamed [] name = tt
get_dependency_from-IsNamed (x ∷ rest) name = elim (Bool-cases (x.name == name)) [
  | inl e ↦ rw e ([], rest, refl, (eq_iff x.name name).0 e, tt)
  | inr e ↦ rw e (
      behind name x rest _ (λ same. cc ((eq_iff x.name name).1 same))
        (get_dependency_from-IsNamed rest name))
]
