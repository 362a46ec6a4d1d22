-- ===== src/DeepCopy/Copiers.antt =====
-- An action that copies the values of a type, with what they denote and the proof that it copies them;
-- how the copiers of the fields of a struct make the copier of the struct.
use mathlib.Core.Path.{subst}
use special_resource_operato.Prelude.{◌≡◌}
use special_resource_operato.DeepCopy.Types.{Slice}
use special_resource_operato.DeepCopy.Memory.{Heap, Array, Copy, pure, copy_each, copy_slice}
use special_resource_operato.DeepCopy.Shapes.{Shape, plain, pair, by, slice}
use special_resource_operato.DeepCopy.Copied.{Copied, Copies, copy_pair, plain-Copies, pair-Copies}
use special_resource_operato.DeepCopy.Arrays.{slice-Copies, array-Copies}

pub record Copier (M T : Type 0) : Type 1 where
  pub shape : Shape M T
  pub copy : T → Copy M T
  pub copies : Copies shape copy

module _ {M : Type 0} where
  abbrev pub same_value : {T : Type 0} → Copier M T
  same_value = record { shape = plain; copy = pure; copies = plain-Copies }

  infixr 5 ◌then◌
  abbrev pub ◌then◌ : {S T : Type 0} → Copier M S → Copier M T → Copier M (S × T)
  a then b = record {
    shape = pair a.shape b.shape;
    copy = copy_pair a.copy b.copy;
    copies = pair-Copies a.shape b.shape a.copy b.copy a.copies b.copies;
  }

  abbrev pub values : {T : Type 0} → Array M T → Copier M (Slice T)
  values kind = record {
    shape = slice kind plain;
    copy = copy_slice kind;
    copies = array-Copies kind;
  }

  abbrev pub each : {T : Type 0} → Array M T → Copier M T → Copier M (Slice T)
  each kind a = record {
    shape = slice kind a.shape;
    copy = copy_each kind a.copy;
    copies = slice-Copies kind a.shape a.copy a.copies;
  }

  pub struct-Copies :
      {S T : Type 0} (fields : S → T) (a : Copier M T) (copy : S → Copy M S)
      → ((x : S) (h : Heap M) → a.copy (fields x) h ≡ (fields (copy x h).0, (copy x h).1))
      → Copies (by fields a.shape) copy
  struct-Copies fields a copy e x h r = record { grown = c.grown; same = c.same; fresh = c.fresh }
    where
      c : Copied a.shape h (copy x h).1 (fields x) (fields (copy x h).0)
      c = subst (λ p. Copied a.shape h p.1 (fields x) p.0) (e x h) (a.copies (fields x) h r)

  -- A struct is copied by `copy` when it copies the fields.
  abbrev pub struct :
      {S T : Type 0} (fields : S → T) (a : Copier M T) (copy : S → Copy M S)
      → ((x : S) (h : Heap M) → a.copy (fields x) h ≡ (fields (copy x h).0, (copy x h).1))
      → Copier M S
  struct fields a copy e = record {
    shape = by fields a.shape;
    copy = copy;
    copies = struct-Copies fields a copy e;
  }
