-- ===== src/DeepCopy/Copied.antt =====
-- When a value is a copy of another: it denotes the same, and its arrays are new. How the actions of
-- Memory make such copies.
use special_resource_operato.Prelude.{◌≡◌, refl, ◌∙◌, List, [], ◌∷◌, arith}
use special_resource_operato.DeepCopy.Memory.{Heap, Copy, pure, ◌>>=◌, copy_all}
use special_resource_operato.DeepCopy.Shapes.{Agree, Grown, Shape, plain, pair, list}

-- Between `h` and `h'`, the value `x` was copied to `y`.
pub record Copied {M T : Type 0} (s : Shape M T) (h h' : Heap M) (x y : T) : Type 0 where
  pub grown : Grown h h'
  pub same : s.view h'.cell y ≡ s.view h.cell x
  pub fresh : s.Reach h.next h'.next h'.cell y

-- A value that leads to arrays of the memory alone is copied.
abbrev pub Copies : {M T : Type 0} → Shape M T → (T → Copy M T) → Type 0
Copies {M} {T} s copy =
    (x : T) (h : Heap M) → s.Reach 0 h.next h.cell x → Copied s h (copy x h).1 x (copy x h).0

module _ {M : Type 0} where
  pub Grown-trans : (h h1 h2 : Heap M) → Grown h h1 → Grown h1 h2 → Grown h h2
  Grown-trans h h1 h2 (n, old) (n', old') =
      (omega arith, λ a l u. old a l u ∙ old' a l (omega arith))

  module _ {T : Type 0} (s : Shape M T) where
    -- Arrays may be allocated after the copy, ...
    pub later : (h h1 h2 : Heap M) (x y : T) → Copied s h h1 x y → Grown h1 h2 → Copied s h h2 x y
    later h h1 h2 x y c (n, old) = record {
      grown = Grown-trans h h1 h2 c.grown (n, old);
      same = s.view_local y kept c.fresh ∙ c.same;
      fresh = s.wider y (omega arith) n (s.reach_local y kept c.fresh);
    }
      where
        kept : Agree h.next h1.next h1.cell h2.cell
        kept a l u = old a (omega arith) u

    -- ... and before it.
    pub earlier :
        (h h1 h2 : Heap M) (x y : T)
        → s.Reach 0 h.next h.cell x
        → Grown h h1
        → Copied s h1 h2 x y
        → Copied s h h2 x y
    earlier h h1 h2 x y r (n, old) c = record {
      grown = Grown-trans h h1 h2 (n, old) c.grown;
      same = c.same ∙ s.view_local x old r;
      fresh = s.wider y n (omega arith) c.fresh;
    }

    pub reach_grown :
        (h h1 : Heap M) (x : T)
        → Grown h h1
        → s.Reach 0 h.next h.cell x
        → s.Reach 0 h1.next h1.cell x
    reach_grown h h1 x (n, old) r = s.wider x (omega arith) n (s.reach_local x old r)

  pub Grown-refl : (h : Heap M) → Grown h h
  Grown-refl h = (omega arith, λ a l u. refl)

  pub plain-Copies : {T : Type 0} → Copies {M = M} (plain {T = T}) pure
  plain-Copies x h r = record { grown = Grown-refl h; same = refl; fresh = tt }

  abbrev pub copy_pair : {S T : Type 0} → (S → Copy M S) → (T → Copy M T) → S × T → Copy M (S × T)
  copy_pair c d p = do a ← c p.0; b ← d p.1; pure (a, b)

  -- What is copied in turn is copied together.
  in_turn :
      {S T : Type 0} (s : Shape M S) (t : Shape M T) (h h1 h2 : Heap M) (x x' : S) (y y' : T)
      → t.Reach 0 h.next h.cell y
      → Copied s h h1 x x'
      → Copied t h1 h2 y y'
      → Copied (pair s t) h h2 (x, y) (x', y')
  in_turn s t h h1 h2 x x' y y' q before after = record {
    grown = second.grown;
    same = λ j. (first.same j, second.same j);
    fresh = (first.fresh, second.fresh);
  }
    where
      first : Copied s h h2 x x'
      first = later s h h1 h2 x x' before after.grown

      second : Copied t h h2 y y'
      second = earlier t h h1 h2 y y' q before.grown after

  pub pair-Copies :
      {S T : Type 0} (s : Shape M S) (t : Shape M T) (c : S → Copy M S) (d : T → Copy M T)
      → Copies s c
      → Copies t d
      → Copies (pair s t) (copy_pair c d)
  pair-Copies s t c d copies_s copies_t (x, y) h (r, q) =
      in_turn s t h (c x h).1 (d y (c x h).1).1 x (c x h).0 y (d y (c x h).1).0 q before
        (copies_t y (c x h).1 (reach_grown t h (c x h).1 y before.grown q))
    where
      before : Copied s h (c x h).1 x (c x h).0
      before = copies_s x h r

  cons-Copied :
      {T : Type 0} (s : Shape M T) (h h' : Heap M) (x y : T) (xs ys : List T)
      → Copied (pair s (list s)) h h' (x, xs) (y, ys)
      → Copied (list s) h h' (x ∷ xs) (y ∷ ys)
  cons-Copied s h h' x y xs ys both = record {
    grown = both.grown;
    same = λ j. (both.same j).0 ∷ (both.same j).1;
    fresh = both.fresh;
  }

  pub list-Copies :
      {T : Type 0} (s : Shape M T) (c : T → Copy M T) → Copies s c → Copies (list s) (copy_all c)
  unfolding copy_all
  list-Copies s c copies [] h r = record { grown = Grown-refl h; same = refl; fresh = tt }
  list-Copies s c copies (x ∷ xs) h r = cons-Copied s h h2 x (c x h).0 xs (copy_all c xs h1).0 (
      in_turn s (list s) h h1 h2 x (c x h).0 xs (copy_all c xs h1).0 r.1 before
        (list-Copies s c copies xs h1 (reach_grown (list s) h h1 xs before.grown r.1)))
    where
      h1 : Heap M
      h1 = (c x h).1

      h2 : Heap M
      h2 = (copy_all c xs h1).1

      before : Copied s h h1 x (c x h).0
      before = copies x h r.0
