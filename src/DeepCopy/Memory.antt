-- ===== src/DeepCopy/Memory.antt =====
-- Go's memory, as far as the types of api/v1beta1 reach into it: arrays at addresses, and actions that
-- allocate, read and write them.
use special_resource_operato.Prelude.{
  ℕ, ◌+◌, ◌≡◌, refl, String, List, [], ◌∷◌, nat_eq, if◌then◌else◌,
}
use special_resource_operato.Api.{
  SpecialResourcePaths, SpecialResourceClaims, SpecialResourceRunArgs, SpecialResourceBuildArgs,
  SpecialResourceDependency,
}
use special_resource_operato.DeepCopy.Types.{
  Slice, nil_slice, array, Images, Configuration, Resource,
}

-- An array of one of the element types.
pub data Cell (M : Type 0) : Type 0 where
  strings : List String → Cell M
  paths : List SpecialResourcePaths → Cell M
  images : List Images → Cell M
  claims : List SpecialResourceClaims → Cell M
  build_args : List SpecialResourceBuildArgs → Cell M
  run_args : List SpecialResourceRunArgs → Cell M
  configurations : List Configuration → Cell M
  dependencies : List SpecialResourceDependency → Cell M
  resources : List (Resource M) → Cell M

abbrev pub Cells : Type 0 → Type 0
Cells M = ℕ → Cell M

-- The addresses from `next` on are free.
pub record Heap (M : Type 0) : Type 0 where
  pub next : ℕ
  pub cell : Cells M

-- How arrays of `T` stand in a cell. Go's types let an array be read at its own type alone.
pub record Array (M T : Type 0) : Type 0 where
  pub enter : List T → Cell M
  pub elements : Cell M → List T
  pub elements-enter : (xs : List T) → elements (enter xs) ≡ xs

abbrev pub Copy : Type 0 → Type 0 → Type 0
Copy M A = Heap M → A × Heap M

module _ {M : Type 0} where
  abbrev pub string_array : Array M String
  string_array = record {
    enter = strings;
    elements = elim [ strings xs ↦ xs | _ ↦ [] ];
    elements-enter = λ xs. refl;
  }

  abbrev pub path_array : Array M SpecialResourcePaths
  path_array = record {
    enter = paths;
    elements = elim [ paths xs ↦ xs | _ ↦ [] ];
    elements-enter = λ xs. refl;
  }

  abbrev pub image_array : Array M Images
  image_array = record {
    enter = images;
    elements = elim [ images xs ↦ xs | _ ↦ [] ];
    elements-enter = λ xs. refl;
  }

  abbrev pub claim_array : Array M SpecialResourceClaims
  claim_array = record {
    enter = claims;
    elements = elim [ claims xs ↦ xs | _ ↦ [] ];
    elements-enter = λ xs. refl;
  }

  abbrev pub build_arg_array : Array M SpecialResourceBuildArgs
  build_arg_array = record {
    enter = build_args;
    elements = elim [ build_args xs ↦ xs | _ ↦ [] ];
    elements-enter = λ xs. refl;
  }

  abbrev pub run_arg_array : Array M SpecialResourceRunArgs
  run_arg_array = record {
    enter = run_args;
    elements = elim [ run_args xs ↦ xs | _ ↦ [] ];
    elements-enter = λ xs. refl;
  }

  abbrev pub configuration_array : Array M Configuration
  configuration_array = record {
    enter = configurations;
    elements = elim [ configurations xs ↦ xs | _ ↦ [] ];
    elements-enter = λ xs. refl;
  }

  abbrev pub dependency_array : Array M SpecialResourceDependency
  dependency_array = record {
    enter = dependencies;
    elements = elim [ dependencies xs ↦ xs | _ ↦ [] ];
    elements-enter = λ xs. refl;
  }

  abbrev pub resource_array : Array M (Resource M)
  resource_array = record {
    enter = resources;
    elements = elim [ resources xs ↦ xs | _ ↦ [] ];
    elements-enter = λ xs. refl;
  }

  abbrev pub pure : {A : Type 0} → A → Copy M A
  pure a h = (a, h)

  infixl 10 ◌>>=◌
  abbrev pub ◌>>=◌ : {A B : Type 0} → Copy M A → (A → Copy M B) → Copy M B
  ◌>>=◌ m f h = f (m h).0 (m h).1

  infixl 10 ◌>>◌
  abbrev pub ◌>>◌ : {B : Type 0} → Copy M (Unit {0}) → Copy M B → Copy M B
  m >> n = m >>= λ _. n

  abbrev pub update : Cells M → ℕ → Cell M → Cells M
  update cell b c a = if nat_eq b a then c else cell a

  -- The elements are copied one after the other.
  unfoldable pub copy_all : {T : Type 0} → (T → Copy M T) → List T → Copy M (List T)
  copy_all copy [] = pure []
  copy_all copy (x ∷ xs) = do y ← copy x; ys ← copy_all copy xs; pure (y ∷ ys)

  module _ {T : Type 0} (kind : Array M T) where
    -- `*in`, where `in` points to a slice that is not nil
    unfoldable pub read : ℕ → Copy M (List T)
    read a h = (kind.elements (h.cell a), h)

    -- make([]T, n): what the new array holds is overwritten before it is read
    unfoldable pub make : Copy M ℕ
    make h = (h.next, record h { next = h.next + 1; cell = update h.cell h.next (kind.enter []) })

    -- (*out)[i] = ..., for every i
    unfoldable pub fill : ℕ → List T → Copy M (Unit {0})
    fill b xs h = (tt, record h { cell = update h.cell b (kind.enter xs) })

    -- if in.F != nil { *out = make([]T, len(*in)); for i := range *in { ... } }
    unfoldable pub copy_each : (T → Copy M T) → Slice T → Copy M (Slice T)
    unfolding read make fill copy_all
    copy_each copy nil_slice = pure nil_slice
    copy_each copy (array a) = do
      xs ← read a
      b ← make
      ys ← copy_all copy xs
      fill b ys
      pure (array b)

    -- if in.F != nil { *out = make([]T, len(*in)); copy(*out, *in) }
    unfoldable pub copy_slice : Slice T → Copy M (Slice T)
    unfolding read make fill
    copy_slice nil_slice = pure nil_slice
    copy_slice (array a) = do xs ← read a; b ← make; fill b xs; pure (array b)
