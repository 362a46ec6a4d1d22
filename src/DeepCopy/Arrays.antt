-- ===== src/DeepCopy/Arrays.antt =====
-- The copies of slices by `copy_each` and `copy_slice` of Memory.
use mathlib.Core.Path.{subst}
use special_resource_operato.Prelude.{
  ℕ, ◌+◌, ◌≡◌, refl, sym, ap, ◌∙◌, List, [], ◌∷◌, map, some, ◌<◌, arith,
}
use special_resource_operato.DeepCopy.Types.{Slice, nil_slice, array}
use special_resource_operato.DeepCopy.Memory.{
  Cell, Cells, Heap, Array, Copy, pure, read, make, fill, update, copy_all, copy_each, copy_slice,
}
use special_resource_operato.DeepCopy.Shapes.{Agree, Grown, Shape, Each, plain, list, slice}
use special_resource_operato.DeepCopy.Copied.{
  Copied, Copies, Grown-trans, Grown-refl, reach_grown, list-Copies, plain-Copies,
}

module _ {M : Type 0} where
  update-same : (cells : Cells M) (b : ℕ) (c : Cell M) → update cells b c b ≡ c
  update-same cells b c = ground arith

  pub update-below : (cells : Cells M) (a b : ℕ) (c : Cell M) → a < b → update cells b c a ≡ cells a
  update-below cells a b c l = ground arith

  pub update-above : (cells : Cells M) (a b : ℕ) (c : Cell M) → b < a → update cells b c a ≡ cells a
  update-above cells a b c l = ground arith

  module _ {T : Type 0} (kind : Array M T) (s : Shape M T) where
    abbrev new_array : Heap M → Heap M
    new_array h = record h { next = h.next + 1; cell = update h.cell h.next (kind.enter []) }

    new_array-Grown : (h : Heap M) → Grown h (new_array h)
    new_array-Grown h = (omega arith, λ a l u. sym (update-below h.cell a h.next (kind.enter []) u))

    -- The copied elements are stored in the array that was made for them.
    stored :
        (h h1 : Heap M) (xs ys : List T)
        → Each (s.Reach 0 h.next h.cell) xs
        → Copied (list s) (new_array h) h1 xs ys
        → (a : ℕ) → a < h.next
        → kind.elements (h.cell a) ≡ xs
        → Copied
            (slice kind s)
            h
            (record h1 { cell = update h1.cell h.next (kind.enter ys) })
            (array a)
            (array h.next)
    stored h h1 xs ys r copied a below found = record {
      grown = (
        omega arith,
        λ a l u. old.1 a l u ∙ sym (update-below h1.cell a h.next (kind.enter ys) u),
      );
      same = ap some (
          ap (map (s.view after)) held
          ∙ (list s).view_local ys kept copied.fresh
          ∙ copied.same
          ∙ (list s).view_local xs (new_array-Grown h).1 r
          ∙ ap (map (s.view h.cell)) (sym found));
      fresh = (
        omega arith,
        omega arith,
        subst (Each (s.Reach h.next h1.next after)) (sym held) (
            (list s).wider ys (omega arith) (omega arith)
              ((list s).reach_local ys kept copied.fresh)),
      );
    }
      where
        after : Cells M
        after = update h1.cell h.next (kind.enter ys)

        old : Grown h h1
        old = Grown-trans h (new_array h) h1 (new_array-Grown h) copied.grown

        held : kind.elements (after h.next) ≡ ys
        held =
            ap kind.elements (update-same h1.cell h.next (kind.enter ys)) ∙ kind.elements-enter ys

        kept : Agree (h.next + 1) h1.next h1.cell after
        kept a l u = sym (update-above h1.cell a h.next (kind.enter ys) (omega arith))

    pub slice-Copies : (c : T → Copy M T) → Copies s c → Copies (slice kind s) (copy_each kind c)
    unfolding copy_each read make fill
    slice-Copies c copies nil_slice h r = record { grown = Grown-refl h; same = refl; fresh = tt }
    slice-Copies c copies (array a) h (l, u, r) =
        stored h (copy_all c xs (new_array h)).1 xs (copy_all c xs (new_array h)).0 r
          (list-Copies s c copies xs (new_array h)
            (reach_grown (list s) h (new_array h) xs (new_array-Grown h) r))
          a u refl
      where
        xs : List T
        xs = kind.elements (h.cell a)

  copy_all-pure : {T : Type 0} (xs : List T) (h : Heap M) → copy_all pure xs h ≡ (xs, h)
  unfolding copy_all
  copy_all-pure [] h = refl
  copy_all-pure (x ∷ xs) h = λ j. (x ∷ (copy_all-pure xs h j).0, (copy_all-pure xs h j).1)

  -- Elements without arrays are copied at once.
  copy_slice-copy_each :
      {T : Type 0} (kind : Array M T) (x : Slice T) (h : Heap M)
      → copy_each kind pure x h ≡ copy_slice kind x h
  unfolding copy_each copy_slice read make fill
  copy_slice-copy_each kind nil_slice h = refl
  copy_slice-copy_each {T = T} kind (array a) h =
      ap {A = List T × Heap M}
        (λ r. (array h.next, record r.1 { cell = update r.1.cell h.next (kind.enter r.0) }))
        (copy_all-pure (kind.elements (h.cell a)) (new_array kind plain h))

  pub array-Copies : {T : Type 0} (kind : Array M T) → Copies (slice kind plain) (copy_slice kind)
  array-Copies kind x h r =
      subst (λ p. Copied (slice kind plain) h p.1 x p.0) (copy_slice-copy_each kind x h)
        (slice-Copies kind plain pure plain-Copies x h r)
