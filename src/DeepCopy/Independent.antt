-- ===== src/DeepCopy/Independent.antt =====
-- An object and its deep copy, when the memory changes after the copy was made.
use mathlib.Core.Option
use special_resource_operato.Prelude.{ℕ, ◌≡◌, refl, ap, ◌∙◌, Option, none, some}
use special_resource_operato.DeepCopy.Types.{Resource, ResourceList}
use special_resource_operato.DeepCopy.Memory.{Cells, Heap}
use special_resource_operato.DeepCopy.Methods.{
  resource, resource_list, allocated, deep_copy_resource, deep_copy_object_resource,
  deep_copy_resource_list, deep_copy_object_resource_list,
}
use special_resource_operato.DeepCopy.Shapes.{Agree, Shape}
use special_resource_operato.DeepCopy.Copiers.{Copier}
use special_resource_operato.DeepCopy.Structs.{resource_copier, resource_list_copier}

-- A pointer that is not nil leads to what its struct leads to.
abbrev pub PointerReach : {M T : Type 0} → Shape M T → ℕ → ℕ → Cells M → Option T → Type 0
PointerReach s lo hi c none = Unit {0}
PointerReach s lo hi c (some x) = s.Reach lo hi c x

module _ {M T : Type 0} (a : Copier M T) where
  copy_kept :
      (p : Option T) (h : Heap M) (later : Cells M)
      → PointerReach a.shape 0 h.next h.cell p
      → Agree h.next (allocated a.copy p h).1.next (allocated a.copy p h).1.cell later
      → Option.map (a.shape.view later) (allocated a.copy p h).0
        ≡ Option.map (a.shape.view h.cell) p
  copy_kept none h later r agree = refl
  copy_kept (some x) h later r agree =
      ap some
        (a.shape.view_local (a.copy x h).0 agree (a.copies x h r).fresh ∙ (a.copies x h r).same)

  original_kept :
      (p : Option T) (h : Heap M) (later : Cells M)
      → PointerReach a.shape 0 h.next h.cell p
      → Agree 0 h.next (allocated a.copy p h).1.cell later
      → Option.map (a.shape.view later) p ≡ Option.map (a.shape.view h.cell) p
  original_kept none h later r agree = refl
  original_kept (some x) h later r agree =
      ap some (a.shape.view_local x (λ b l u. (a.copies x h r).grown.1 b l u ∙ agree b l u) r)

module _ {M L : Type 0} (metadata : Copier M M) (list_metadata : Copier M L) where
  -- `DeepCopyObject` of a pointer to a resource returns nil for nil, and otherwise the copy. After the
  -- call, let the memory change without regard to the original, so that only the arrays allocated by the
  -- call keep what they hold: the copy still denotes what the original denoted before the call. Or let
  -- it change without regard to the copy, so that only the arrays of before the call keep what they
  -- held after it: the original still denotes what it denoted before the call. The original leads to
  -- arrays of the memory, and the metadata's methods are copiers.
  deep_copy_resource_lem :
      (p : Option (Resource M)) (h : Heap M) (kept_new kept_old : Cells M)
      → PointerReach (resource_copier metadata list_metadata).shape 0 h.next h.cell p
      → Agree h.next
          (deep_copy_object_resource metadata.copy list_metadata.copy p h).1.next
          (deep_copy_object_resource metadata.copy list_metadata.copy p h).1.cell
          kept_new
      → Agree 0 h.next
          (deep_copy_object_resource metadata.copy list_metadata.copy p h).1.cell
          kept_old
      → ((q : Option (Resource M)) × ((deep_copy_object_resource metadata.copy list_metadata.copy p
              h).0
            ≡ Option.map (λ out. resource out) q)
          × (Option.map ((resource_copier metadata list_metadata).shape.view kept_new) q
              ≡ Option.map ((resource_copier metadata list_metadata).shape.view h.cell) p))
        × (Option.map ((resource_copier metadata list_metadata).shape.view kept_old) p
            ≡ Option.map ((resource_copier metadata list_metadata).shape.view h.cell) p)
  unfolding deep_copy_object_resource deep_copy_resource
  deep_copy_resource_lem none h kept_new kept_old r new old = ((none, refl, refl), refl)
  deep_copy_resource_lem (some x) h kept_new kept_old r new old = (
    ((allocated copier.copy (some x) h).0, refl, copy_kept copier (some x) h kept_new r new),
    original_kept copier (some x) h kept_old r old,
  )
    where
      copier : Copier M (Resource M)
      copier = resource_copier metadata list_metadata

  -- `DeepCopyObject` of a pointer to a list of resources returns nil for nil, and otherwise the copy. After the
  -- call, let the memory change without regard to the original, so that only the arrays allocated by the
  -- call keep what they hold: the copy still denotes what the original denoted before the call. Or let
  -- it change without regard to the copy, so that only the arrays of before the call keep what they
  -- held after it: the original still denotes what it denoted before the call. The original leads to
  -- arrays of the memory, and the metadata's methods are copiers.
  pub deep_copy_resource_list_lem :
      (p : Option (ResourceList M L)) (h : Heap M) (kept_new kept_old : Cells M)
      → PointerReach (resource_list_copier metadata list_metadata).shape 0 h.next h.cell p
      → Agree h.next
          (deep_copy_object_resource_list metadata.copy list_metadata.copy p h).1.next
          (deep_copy_object_resource_list metadata.copy list_metadata.copy p h).1.cell
          kept_new
      → Agree 0 h.next
          (deep_copy_object_resource_list metadata.copy list_metadata.copy p h).1.cell
          kept_old
      → ((q : Option (ResourceList M L)) × ((deep_copy_object_resource_list metadata.copy
              list_metadata.copy p h).0
            ≡ Option.map (resource_list) q)
          × (Option.map ((resource_list_copier metadata list_metadata).shape.view kept_new) q
              ≡ Option.map ((resource_list_copier metadata list_metadata).shape.view h.cell) p))
        × (Option.map ((resource_list_copier metadata list_metadata).shape.view kept_old) p
            ≡ Option.map ((resource_list_copier metadata list_metadata).shape.view h.cell) p)
  unfolding deep_copy_object_resource_list deep_copy_resource_list
  deep_copy_resource_list_lem none h kept_new kept_old r new old = ((none, refl, refl), refl)
  deep_copy_resource_list_lem (some x) h kept_new kept_old r new old = (
    ((allocated copier.copy (some x) h).0, refl, copy_kept copier (some x) h kept_new r new),
    original_kept copier (some x) h kept_old r old,
  )
    where
      copier : Copier M (ResourceList M L)
      copier = resource_list_copier metadata list_metadata
