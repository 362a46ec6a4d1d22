-- ===== src/DeepCopy/Shapes.antt =====
-- What a value of a type of api/v1beta1 denotes in a memory, and which arrays it leads to.
use mathlib.Core.Path.{subst}
use special_resource_operato.Prelude.{
  ℕ, ◌≡◌, refl, sym, ap, ◌∙◌, List, [], ◌∷◌, map, Option, none, some, ◌≤◌, ◌<◌, arith,
}
use special_resource_operato.DeepCopy.Types.{Slice, nil_slice, array}
use special_resource_operato.DeepCopy.Memory.{Cells, Heap, Array}

-- The same arrays stand at the addresses from `lo` to `hi`, `hi` not included.
abbrev pub Agree : {M : Type 0} → ℕ → ℕ → Cells M → Cells M → Type 0
Agree lo hi c d = (a : ℕ) → lo ≤ a → a < hi → c a ≡ d a

-- Arrays were allocated, and those of before are as they were.
abbrev pub Grown : {M : Type 0} → Heap M → Heap M → Type 0
Grown h h' = (h.next ≤ h'.next) × Agree 0 h.next h.cell h'.cell

-- `view c x` is what `x` denotes in `c`, without the addresses; `Reach lo hi c x`: every array that `x`
-- leads to in `c` has an address from `lo` to `hi`, `hi` not included.
pub record Shape (M T : Type 0) : Type 1 where
  pub View : Type 0
  pub view : Cells M → T → View
  pub Reach : ℕ → ℕ → Cells M → T → Type 0
  pub view_local :
      {lo hi : ℕ} {c d : Cells M} (x : T) → Agree lo hi c d → Reach lo hi c x → view d x ≡ view c x
  pub reach_local :
      {lo hi : ℕ} {c d : Cells M} (x : T) → Agree lo hi c d → Reach lo hi c x → Reach lo hi d x
  pub wider :
      {lo hi lo' hi' : ℕ} {c : Cells M} (x : T)
      → lo' ≤ lo
      → hi ≤ hi'
      → Reach lo hi c x
      → Reach lo' hi' c x

abbrev pub Each : {T : Type 0} → (T → Type 0) → List T → Type 0
Each P [] = Unit {0}
Each P (x ∷ xs) = P x × Each P xs

pub Each-map :
    {T : Type 0} {P Q : T → Type 0} → ((x : T) → P x → Q x) → (xs : List T) → Each P xs → Each Q xs
Each-map f [] r = tt
Each-map f (x ∷ xs) r = (f x r.0, Each-map f xs r.1)

pub map-Each :
    {T V : Type 0} {P : T → Type 0} (f g : T → V)
    → ((x : T) → P x → f x ≡ g x)
    → (xs : List T) → Each P xs
    → map f xs ≡ map g xs
map-Each f g same [] r = refl
map-Each f g same (x ∷ xs) r = λ j. same x r.0 j ∷ map-Each f g same xs r.1 j

module _ {M : Type 0} where
  -- A type without arrays.
  abbrev pub plain : {T : Type 0} → Shape M T
  plain {T} = record {
    View = T;
    view = λ c x. x;
    Reach = λ lo hi c x. Unit {0};
    view_local = λ x agree r. refl;
    reach_local = λ x agree r. tt;
    wider = λ x l u r. tt;
  }

  abbrev pub pair : {S T : Type 0} → Shape M S → Shape M T → Shape M (S × T)
  pair s t = record {
    View = s.View × t.View;
    view = λ c p. (s.view c p.0, t.view c p.1);
    Reach = λ lo hi c p. s.Reach lo hi c p.0 × t.Reach lo hi c p.1;
    view_local = λ p agree r. λ j. (s.view_local p.0 agree r.0 j, t.view_local p.1 agree r.1 j);
    reach_local = λ p agree r. (s.reach_local p.0 agree r.0, t.reach_local p.1 agree r.1);
    wider = λ p l u r. (s.wider p.0 l u r.0, t.wider p.1 l u r.1);
  }

  -- A struct, by its fields.
  abbrev pub by : {S T : Type 0} → (S → T) → Shape M T → Shape M S
  by f s = record {
    View = s.View;
    view = λ c x. s.view c (f x);
    Reach = λ lo hi c x. s.Reach lo hi c (f x);
    view_local = λ x. s.view_local (f x);
    reach_local = λ x. s.reach_local (f x);
    wider = λ x. s.wider (f x);
  }

  abbrev pub list : {T : Type 0} → Shape M T → Shape M (List T)
  list s = record {
    View = List s.View;
    view = λ c. map (s.view c);
    Reach = λ lo hi c. Each (s.Reach lo hi c);
    view_local =
        λ {c = c} {d = d} xs agree. map-Each (s.view d) (s.view c) (λ x. s.view_local x agree) xs;
    reach_local = λ xs agree. Each-map (λ x. s.reach_local x agree) xs;
    wider = λ xs l u. Each-map (λ x. s.wider x l u) xs;
  }

  -- A slice, by the array at its address.
  module _ {T : Type 0} (kind : Array M T) (s : Shape M T) where
    abbrev pub elements_in : Cells M → ℕ → List T
    elements_in c a = kind.elements (c a)

    abbrev pub slice_view : Cells M → Slice T → Option (List s.View)
    slice_view c nil_slice = none
    slice_view c (array a) = some (map (s.view c) (elements_in c a))

    abbrev pub SliceReach : ℕ → ℕ → Cells M → Slice T → Type 0
    SliceReach lo hi c nil_slice = Unit {0}
    SliceReach lo hi c (array a) = (lo ≤ a) × (a < hi) × Each (s.Reach lo hi c) (elements_in c a)

    pub elements-local :
        {lo hi : ℕ} {c d : Cells M} (a : ℕ)
        → Agree lo hi c d
        → SliceReach lo hi c (array a)
        → elements_in c a ≡ elements_in d a
    elements-local a agree r = ap kind.elements (agree a r.0 r.1)

    pub slice_view-local :
        {lo hi : ℕ} {c d : Cells M} (x : Slice T)
        → Agree lo hi c d
        → SliceReach lo hi c x
        → slice_view d x ≡ slice_view c x
    slice_view-local nil_slice agree r = refl
    slice_view-local {lo = lo} {hi = hi} {c = c} {d = d} (array a) agree r = ap some (
        ap (map (s.view d)) (sym (elements-local {lo = lo} {hi = hi} {c = c} {d = d} a agree r))
        ∙ (list s).view_local (elements_in c a) agree r.2)

    pub SliceReach-local :
        {lo hi : ℕ} {c d : Cells M} (x : Slice T)
        → Agree lo hi c d
        → SliceReach lo hi c x
        → SliceReach lo hi d x
    SliceReach-local nil_slice agree r = tt
    SliceReach-local {lo = lo} {hi = hi} {c = c} {d = d} (array a) agree r = (
      r.0,
      r.1,
      subst (Each (s.Reach lo hi d)) (elements-local {lo = lo} {hi = hi} {c = c} {d = d} a agree r)
          ((list s).reach_local (elements_in c a) agree r.2),
    )

    pub SliceReach-wider :
        {lo hi lo' hi' : ℕ} (c : Cells M) (x : Slice T)
        → lo' ≤ lo
        → hi ≤ hi'
        → SliceReach lo hi c x
        → SliceReach lo' hi' c x
    SliceReach-wider c nil_slice l u r = tt
    SliceReach-wider c (array a) l u (p, q, r) =
        (omega arith, omega arith, (list s).wider (elements_in c a) l u r)

    abbrev pub slice : Shape M (Slice T)
    slice = record {
      View = Option (List s.View);
      view = slice_view;
      Reach = SliceReach;
      view_local = slice_view-local;
      reach_local = SliceReach-local;
      wider = λ {c = c}. SliceReach-wider c;
    }
