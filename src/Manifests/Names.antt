-- ===== src/Manifests/Names.antt =====
-- Which file names of a recipe the walk keeps, against the pattern that the source writes down.
use Prim.Native.Char.{Char, code}
use Prim.Native.String.append
use special_resource_operato.Prelude.{
  ◌≡◌, ◌↔◌, refl, ap, sym, ◌∙◌, true, inl, inr, String, ◌<>◌, Option, none, some, Option-cases,
  nat_eq, eq_iff, arith, if◌then◌else◌,
}
use special_resource_operato.Manifests.{last_dot, ext, is_digit, is_numbered}

step_dot : Char → String → Option String → Option String
step_dot c s (some e) = some e
step_dot c s none = if nat_eq (code c) b'.' then some (String.◌∷◌ c s) else none

last_dot-step : (c : Char) (s : String) → last_dot (String.◌∷◌ c s) ≡ step_dot c s (last_dot s)
unfolding last_dot step_dot
last_dot-step c s = ground arith

step_dot-suffix :
    (c : Char) (s e : String) (later : Option String)
    → ((d : String) → later ≡ some d → (before : String) × (before <> d ≡ s))
    → step_dot c s later ≡ some e
    → (before : String) × (before <> e ≡ String.◌∷◌ c s)
unfolding step_dot
step_dot-suffix c s e (some d) ih h =
    let (before, q) = ih e h in
    (String.◌∷◌ c before, append.cons c before e ∙ ap (λ t. String.◌∷◌ c t) q)
step_dot-suffix c s e none ih h = ("", append.nil e ∙ ground arith)

last_dot-suffix : (s e : String) → last_dot s ≡ some e → (before : String) × (before <> e ≡ s)
last_dot-suffix String.[] e h = absurd (no_dot h)
  where
    no_dot : last_dot String.[] ≡ some e → ⊥
    no_dot k = unfold last_dot in cc
last_dot-suffix (String.◌∷◌ c s) e h =
    step_dot-suffix c s e (last_dot s) (λ d k. last_dot-suffix s d k) (sym (last_dot-step c s) ∙ h)

last_dot-cons : (c : Char) (s e : String) → last_dot s ≡ some e → last_dot (String.◌∷◌ c s) ≡ some e
unfolding step_dot
last_dot-cons c s e h = last_dot-step c s ∙ ap (step_dot c s) h

last_dot-append : (p s e : String) → last_dot s ≡ some e → last_dot (p <> s) ≡ some e
last_dot-append String.[] s e h = rw append.nil h
last_dot-append (String.◌∷◌ c p) s e h =
    rw append.cons (last_dot-cons c (p <> s) e (last_dot-append p s e h))

yaml_dot : last_dot ".yaml" ≡ some ".yaml"
unfolding last_dot
yaml_dot = refl

ext-some : (s e : String) → last_dot s ≡ some e → ext s ≡ e
unfolding ext
ext-some s e h = rw (h, ext)

ext-last_dot : (s : String) → ext s ≡ ".yaml" → last_dot s ≡ some ".yaml"
unfolding ext
ext-last_dot s h = elim (Option-cases (last_dot s)) [
  | inl e ↦ absurd (ground (arith, eq_iff "" ".yaml"))
  | inr (e, k) ↦ k ∙ ap some (sym (ext-some s e k) ∙ h)
]

-- The pattern [0-9][0-9][0-9][0-9]-*.yaml, and a name that it describes.
pub record IsManifest (name : String) : Type 0 where
  pub thousands : Char
  pub hundreds : Char
  pub tens : Char
  pub ones : Char
  pub dash : Char
  pub body : String
  pub numbered :
      (is_digit (code thousands) ≡ true)
      × (is_digit (code hundreds) ≡ true)
      × (is_digit (code tens) ≡ true)
      × (is_digit (code ones) ≡ true)
  pub dashed : code dash ≡ b'-'
  pub shape :
      name
      ≡ String.◌∷◌ thousands (
          String.◌∷◌ hundreds
            (String.◌∷◌ tens (String.◌∷◌ ones (String.◌∷◌ dash (body <> ".yaml")))))

is_numbered-IsManifest : (name : String) → is_numbered name ≡ true → IsManifest name
unfolding is_numbered
is_numbered-IsManifest
      (String.◌∷◌ a (String.◌∷◌ b (String.◌∷◌ c (String.◌∷◌ d (String.◌∷◌ dash rest))))) h =
    let yaml : ext rest ≡ ".yaml" = ground (arith, eq_iff (ext rest) ".yaml") in
    let (body, whole) = last_dot-suffix rest ".yaml" (ext-last_dot rest yaml) in
    record {
      thousands = a;
      hundreds = b;
      tens = c;
      ones = d;
      dash = dash;
      body = body;
      numbered = (ground arith, ground arith, ground arith, ground arith);
      dashed = ground arith;
      shape =
          ap (λ t. String.◌∷◌ a (String.◌∷◌ b (String.◌∷◌ c (String.◌∷◌ d (String.◌∷◌ dash t)))))
            (sym whole);
    }
is_numbered-IsManifest _ h = cc

IsManifest-kept :
    (name : String) → IsManifest name → (ext name ≡ ".yaml") × (is_numbered name ≡ true)
unfolding is_numbered
IsManifest-kept name m =
    let rest = last_dot-append m.body ".yaml" ".yaml" yaml_dot in
    let yaml = ext-some (m.body <> ".yaml") ".yaml" rest in
    rw m.shape (
      ext-some _ ".yaml" (
          last_dot-cons _ _ _ (
            last_dot-cons _ _ _
              (last_dot-cons _ _ _ (last_dot-cons _ _ _ (last_dot-cons _ _ _ rest))))),
      ground (arith, eq_iff (ext (m.body <> ".yaml")) ".yaml"),
    )

-- The two tests of the walk, of the extension and of the pattern, pass together exactly for the
-- names of the form NNNN-*.yaml: four digits, a dash, any text, and the extension .yaml.
pub kept_iff :
    (name : String) → ((ext name ≡ ".yaml") × (is_numbered name ≡ true)) ↔ IsManifest name
kept_iff name = ((λ h. is_numbered-IsManifest name h.1), IsManifest-kept name)
