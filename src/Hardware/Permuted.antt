-- ===== src/Hardware/Permuted.antt =====
-- `sort.Strings` on texts that come in another order.
use Prim.Native.Char.{Char, code}
use Prim.Native.Nat.{Ordering}
use Prim.Native.String.{compare}
use Prim.Native.String.compare.{cons-nil}
use text.Mathlib.TextEquality.{Char-path}
use mathlib.Core.List.Perm
use mathlib.Core.List.{is_set}
use mathlib.Core.HLevel.{hedberg}
use mathlib.Core.List.{Perm, foldr}
use special_resource_operato.Prelude.{
  ◌≡◌, refl, sym, ap, ◌∙◌, true, false, Bool-cases, inl, inr, String, List, [], ◌∷◌, arith, ◌==◌,
  eq_iff,
}
use special_resource_operato.Hardware.Order.{string_leb, insert_string, sort_strings}
use special_resource_operato.Hardware.Sorted.{string_leb_total, compare-cons, compare-nil-cons}

compare-cons-nil : (c : Char) (s : String) → compare (String.◌∷◌ c s) String.[] ≡ Ordering.gt
compare-cons-nil c s = cons-nil c s

string_leb_trans :
    (s t u : String) → string_leb s t ≡ true → string_leb t u ≡ true → string_leb s u ≡ true
unfolding string_leb
string_leb_trans String.[] t String.[] h k = refl
string_leb_trans String.[] t (String.◌∷◌ e u) h k = ground (arith, compare-nil-cons e u)
string_leb_trans (String.◌∷◌ c s) String.[] u h k = ground (arith, compare-cons-nil c s)
string_leb_trans (String.◌∷◌ c s) (String.◌∷◌ d t) String.[] h k =
    ground (arith, compare-cons-nil d t)
string_leb_trans (String.◌∷◌ c s) (String.◌∷◌ d t) (String.◌∷◌ e u) h k = ground (
  arith,
  string_leb_trans s t u,
  compare-cons c d s t,
  compare-cons d e t u,
  compare-cons c e s u,
)

string_leb_antisym : (s t : String) → string_leb s t ≡ true → string_leb t s ≡ true → s ≡ t
unfolding string_leb
string_leb_antisym String.[] String.[] h k = refl
string_leb_antisym String.[] (String.◌∷◌ d t) h k = absurd (ground (arith, compare-cons-nil d t))
string_leb_antisym (String.◌∷◌ c s) String.[] h k = absurd (ground (arith, compare-cons-nil c s))
string_leb_antisym (String.◌∷◌ c s) (String.◌∷◌ d t) h k =
    let same : code c ≡ code d = ground (arith, compare-cons c d s t, compare-cons d c t s) in
    let below : string_leb s t ≡ true =
      ground (arith, compare-cons c d s t, compare-cons d c t s) in
    let above : string_leb t s ≡ true =
      ground (arith, compare-cons c d s t, compare-cons d c t s) in
    let rest = string_leb_antisym s t below above in
    let first = Char-path c d same in λ i. String.◌∷◌ (first i) (rest i)

-- Two insertions, the second of a text above the first and not below it.
insert_string-apart :
    (s t : String) (us : List String)
    → string_leb s t ≡ true
    → string_leb t s ≡ false
    → insert_string s (insert_string t us) ≡ insert_string t (insert_string s us)
unfolding insert_string
insert_string-apart s t [] h n = rw (h, n)
insert_string-apart s t (u ∷ us) h n = elim (Bool-cases (string_leb t u)) [
  | inl e ↦ let e' = string_leb_trans s t u h e in rw (e, h, e', n, e)
  | inr e ↦ elim (Bool-cases (string_leb s u)) [
    | inl e' ↦ rw (e, e', n, e)
    | inr e' ↦ rw (e, e', e) (ap (λ l. u ∷ l) (insert_string-apart s t us h n))
  ]
]

insert_string-ordered :
    (s t : String) (us : List String)
    → string_leb s t ≡ true
    → insert_string s (insert_string t us) ≡ insert_string t (insert_string s us)
insert_string-ordered s t us h = elim (Bool-cases (string_leb t s)) [
  | inl k ↦ rw (string_leb_antisym s t h k) refl
  | inr n ↦ insert_string-apart s t us h n
]

insert_string_comm :
    (s t : String) (us : List String)
    → insert_string s (insert_string t us) ≡ insert_string t (insert_string s us)
insert_string_comm s t us = elim (Bool-cases (string_leb s t)) [
  | inl h ↦ insert_string-ordered s t us h
  | inr n ↦ sym (insert_string-ordered t s us (string_leb_total s t n))
]

text_discrete : Discrete String
text_discrete s t = elim (Bool-cases (s == t)) [
  | inl e ↦ yes ((eq_iff s t).0 e)
  | inr e ↦ no (λ h. cc ((eq_iff s t).1 h))
]

texts_set : IsSet (List String)
texts_set = is_set (hedberg text_discrete)

sort_strings-foldr : (xs : List String) → foldr insert_string [] xs ≡ sort_strings xs
unfolding sort_strings
sort_strings-foldr [] = refl
sort_strings-foldr (x ∷ xs) = ap (insert_string x) (sort_strings-foldr xs)

-- However the texts are ordered before, sorting them gives one list.
pub sort_strings-Perm : (xs ys : List String) → Perm xs ys → sort_strings xs ≡ sort_strings ys
sort_strings-Perm xs ys p =
    sym (sort_strings-foldr xs)
    ∙ Perm.foldr-eq texts_set insert_string insert_string_comm p []
    ∙ sort_strings-foldr ys
