-- ===== src/Hardware/Sorted.antt =====
-- `sort.Strings` against what a sorted list is.
use Prim.Native.Char.{Char, code}
use Prim.Native.Nat.{Ordering, compare as compare_ℕ}
use Prim.Native.String.{compare, then as then_ordering}
use Prim.Native.String.compare.{nil-cons, cons-cons}
use mathlib.Core.List.Perm
use mathlib.Core.List.{Perm}
use special_resource_operato.Prelude.{
  ◌≡◌, refl, true, false, Bool-cases, inl, inr, String, List, [], ◌∷◌, arith,
}
use special_resource_operato.Hardware.Order.{string_leb, insert_string, sort_strings}

-- No text of a sorted list is above the one behind it.
unfoldable pub IsFirst : String → List String → Type 0
IsFirst s [] = Unit
IsFirst s (t ∷ ts) = string_leb s t ≡ true

unfoldable pub IsSorted : List String → Type 0
unfolding IsFirst
IsSorted [] = Unit
IsSorted (s ∷ ts) = IsFirst s ts × IsSorted ts

pub compare-nil-cons : (d : Char) (t : String) → compare String.[] (String.◌∷◌ d t) ≡ Ordering.lt
compare-nil-cons d t = nil-cons d t

pub compare-cons :
    (c d : Char) (s t : String)
    → compare (String.◌∷◌ c s) (String.◌∷◌ d t)
      ≡ then_ordering (compare_ℕ (code c) (code d)) (compare s t)
compare-cons c d s t = cons-cons c d s t

pub string_leb_total : (s t : String) → string_leb s t ≡ false → string_leb t s ≡ true
unfolding string_leb
string_leb_total String.[] String.[] h = refl
string_leb_total String.[] (String.◌∷◌ d t) h = ground (arith, compare-nil-cons d t)
string_leb_total (String.◌∷◌ c s) String.[] h = ground (arith, compare-nil-cons c s)
string_leb_total (String.◌∷◌ c s) (String.◌∷◌ d t) h =
    ground (arith, string_leb_total s t, compare-cons c d s t, compare-cons d c t s)

insert_string-Perm : (s : String) (ts : List String) → Perm (insert_string s ts) (s ∷ ts)
unfolding insert_string
insert_string-Perm s [] = Perm.refl _
insert_string-Perm s (t ∷ ts) = elim (Bool-cases (string_leb s t)) [
  | inl e ↦ rw e (Perm.refl _)
  | inr e ↦ rw e (Perm.trans (Perm.cons t (insert_string-Perm s ts)) (Perm.swap s t ts))
]

insert_string-IsFirst :
    (s t : String) (ts : List String)
    → string_leb t s ≡ true
    → IsFirst t ts
    → IsFirst t (insert_string s ts)
unfolding insert_string IsFirst
insert_string-IsFirst s t [] h k = h
insert_string-IsFirst s t (u ∷ ts) h k = elim (Bool-cases (string_leb s u)) [
  | inl e ↦ rw e h
  | inr e ↦ rw e k
]

insert_string-IsSorted :
    (s : String) (ts : List String) → IsSorted ts → IsSorted (insert_string s ts)
unfolding insert_string IsSorted IsFirst
insert_string-IsSorted s [] h = (tt, tt)
insert_string-IsSorted s (t ∷ ts) (first, h) = elim (Bool-cases (string_leb s t)) [
  | inl e ↦ rw e (e, (first, h))
  | inr e ↦
      rw e
        (insert_string-IsFirst s t ts (string_leb_total s t e) first, insert_string-IsSorted s ts h)
]

-- The sorted list is ascending and has the texts of the list, each as often.
pub sort_strings_lem : (xs : List String) → IsSorted (sort_strings xs) × Perm (sort_strings xs) xs
unfolding sort_strings IsSorted
sort_strings_lem [] = (tt, Perm.nil)
sort_strings_lem (x ∷ xs) =
    let (sorted, perm) = sort_strings_lem xs in
    (
      insert_string-IsSorted x (sort_strings xs) sorted,
      Perm.trans (insert_string-Perm x (sort_strings xs)) (Perm.cons x perm),
    )
