-- ===== src/Prelude/Text.antt =====
-- What the program uses of Go's package `strings`, over the native texts.
use Prim.Native.Nat.{ℕ, zero, suc, pred}
use Prim.Native.String.append
use Prim.Native.String.count
use mathlib.Core.Path.{◌≡◌, refl, sym, ap, ◌∙◌, subst}
use Prim.Native.String.{String, [], ◌∷◌, ◌++◌ as ◌<>◌, count}
use mathlib.Core.Bool.{Bool, true, false, ◌||◌}
use native.Mathlib.Omega.{arith}
use mathlib.Core.Logic.{inl, inr}
use Prim.Native.Char.{Char}
use text.Mathlib.TextEquality.{starts_with_iff}
use text.Mathlib.Text.{starts_with}
use special_resource_operato.Prelude.Tests.{Bool-cases}

-- strings.Contains(s, t)
unfoldable pub contains : String → String → Bool
contains [] t = starts_with [] t
contains (c ∷ s) t = starts_with (c ∷ s) t || contains s t

-- The characters that are left to skip come before the text that is left to search.
unfoldable pub replace_from : String → String → ℕ → String → String
replace_from old new skip [] = []
replace_from old new (suc n) (c ∷ s) = replace_from old new n s
replace_from old new zero (c ∷ s) = elim (starts_with (c ∷ s) old) [
  | true ↦ new <> replace_from old new (pred (count old)) s
  | false ↦ c ∷ replace_from old new zero s
]

-- strings.Replace(s, old, new, -1), for an `old` that is not empty
unfoldable pub replace_all : String → String → String → String
unfolding replace_from
replace_all s old new = replace_from old new zero s

-- Some part of the text is `t`.
abbrev pub IsPart : String → String → Type 0
IsPart t s = (before : String) × (after : String) × (before <> (t <> after) ≡ s)

starts-IsPart : (s t : String) → starts_with s t ≡ true → IsPart t s
starts-IsPart s t h =
    let (after, e) = (starts_with_iff s t).0 h in ([], after, append.nil (t <> after) ∙ e)

later-IsPart : (c : Char) (s t : String) → IsPart t s → IsPart t (c ∷ s)
later-IsPart c s t (before, after, e) =
    (c ∷ before, after, append.cons c before (t <> after) ∙ ap (λ u. c ∷ u) e)

pub contains-IsPart : (s t : String) → contains s t ≡ true → IsPart t s
unfolding contains
contains-IsPart [] t h = starts-IsPart [] t h
contains-IsPart (c ∷ s) t h = elim (Bool-cases (starts_with (c ∷ s) t)) [
  | inl e ↦ starts-IsPart (c ∷ s) t e
  | inr e ↦ later-IsPart c s t (contains-IsPart s t (rw e at h))
]

starts-contains : (s t : String) → starts_with s t ≡ true → contains s t ≡ true
unfolding contains
starts-contains [] t h = h
starts-contains (c ∷ s) t h = rw h

contains-cons : (c : Char) (s t : String) → contains s t ≡ true → contains (c ∷ s) t ≡ true
unfolding contains
contains-cons c s t h = ground arith

pub IsPart-contains : (before t after : String) → contains (before <> (t <> after)) t ≡ true
IsPart-contains [] t after =
    rw append.nil (starts-contains (t <> after) t ((starts_with_iff _ t).1 (after, refl)))
IsPart-contains (c ∷ before) t after =
    rw append.cons (contains-cons c (before <> (t <> after)) t (IsPart-contains before t after))

pub part_contains : (s t : String) → IsPart t s → contains s t ≡ true
part_contains s t (before, after, e) = rw (← e) (IsPart-contains before t after)

pub not-IsPart : (s t : String) → contains s t ≡ false → ¬ IsPart t s
not-IsPart s t h = λ part. cc (part_contains s t part)

-- `t` is `s` with the occurrences of `old` replaced by `new`, found from the left and without overlap.
pub data Substituted (old new : String) : String → String → Type 0 where
  at_end : Substituted old new [] []
  hit : {s t : String} → Substituted old new s t → Substituted old new (old <> s) (new <> t)
  miss :
      {c : Char} {s t : String}
      → starts_with (c ∷ s) old ≡ false
      → Substituted old new s t
      → Substituted old new (c ∷ s) (c ∷ t)

replace_from-skip :
    (old new p after : String)
    → replace_from old new (count p) (p <> after) ≡ replace_from old new zero after
unfolding replace_from
replace_from-skip old new [] after =
    ap (λ n. replace_from old new n ([] <> after)) count.nil
    ∙ ap (replace_from old new zero) (append.nil after)
replace_from-skip old new (c ∷ p) after =
    ap (λ n. replace_from old new n ((c ∷ p) <> after)) (count.cons c p)
    ∙ ap (replace_from old new (suc (count p))) (append.cons c p after)
    ∙ replace_from-skip old new p after

cons_tail : (c d : Char) (s t : String) → c ∷ s ≡ d ∷ t → s ≡ t
cons_tail c d s t h = cc

module _ (c : Char) (o new : String) where
  abbrev replaced : String → String
  replaced s = replace_from (c ∷ o) new zero s

  replaced-hit :
      (d : Char) (s : String)
      → starts_with (d ∷ s) (c ∷ o) ≡ true
      → replaced (d ∷ s) ≡ new <> replace_from (c ∷ o) new (count o) s
  unfolding replace_from
  replaced-hit d s h =
      rw (h, replaced, replace_from)
        (ap (λ n. new <> replace_from (c ∷ o) new (pred n) s) (count.cons c o))

  replaced-miss :
      (d : Char) (s : String)
      → starts_with (d ∷ s) (c ∷ o) ≡ false
      → replaced (d ∷ s) ≡ d ∷ replaced s
  unfolding replace_from
  replaced-miss d s h = rw (h, replaced, replace_from) refl

  replaced_step :
      (d : Char) (s : String)
      → ((p after : String) → p <> after ≡ s → Substituted (c ∷ o) new after (replaced after))
      → Substituted (c ∷ o) new (d ∷ s) (replaced (d ∷ s))
  replaced_step d s shorter = elim (Bool-cases (starts_with (d ∷ s) (c ∷ o))) [
    | inl e ↦
        let (after, p) = (starts_with_iff (d ∷ s) (c ∷ o)).0 e in
        let tail = cons_tail c d (o <> after) s (sym (append.cons c o after) ∙ p) in
        let same : replaced (d ∷ s) ≡ new <> replaced after =
          replaced-hit d s e
          ∙ ap (λ t. new <> replace_from (c ∷ o) new (count o) t) (sym tail)
          ∙ ap (λ t. new <> t) (replace_from-skip (c ∷ o) new o after) in
        subst (λ t. Substituted (c ∷ o) new (d ∷ s) t) (sym same)
          (subst (λ u. Substituted (c ∷ o) new u (new <> replaced after)) p
            (hit (shorter o after tail)))
    | inr e ↦
        subst (λ t. Substituted (c ∷ o) new (d ∷ s) t) (sym (replaced-miss d s e))
          (miss e (shorter [] s (append.nil s)))
  ]

  replaced_suffix :
      (s p after : String) → p <> after ≡ s → Substituted (c ∷ o) new after (replaced after)
  unfolding replace_from
  replaced_suffix [] [] after h =
      subst (λ a. Substituted (c ∷ o) new a (replaced a)) (sym h ∙ append.nil after) at_end
  replaced_suffix [] (x ∷ p) after h =
      absurd (cons_not_nil x (p <> after) (sym (append.cons x p after) ∙ h))
    where
      cons_not_nil : (y : Char) (t : String) → y ∷ t ≡ [] → ⊥
      cons_not_nil y t e = cc
  replaced_suffix (d ∷ s) [] after h =
      subst (λ a. Substituted (c ∷ o) new a (replaced a)) (sym h ∙ append.nil after)
        (replaced_step d s (replaced_suffix s))
  replaced_suffix (d ∷ s) (x ∷ p) after h =
      replaced_suffix s p after (cons_tail x d (p <> after) s (sym (append.cons x p after) ∙ h))

  pub replace_all-Substituted : (s : String) → Substituted (c ∷ o) new s (replace_all s (c ∷ o) new)
  unfolding replace_all
  replace_all-Substituted s = replaced_suffix s [] s (append.nil s)
