-- ===== src/Tests/Accessors.antt =====
-- Accessors of nested fields by plain recursion on the path, with the laws that the theorems take as
-- hypotheses about k8s.io/apimachinery/pkg/apis/meta/v1/unstructured.
use special_resource_operato.Prelude.{
  ◌≡◌, ◌≢◌, refl, ap, ◌∙◌, true, false, String, List, [], ◌∷◌, Dict, Option, none, some, ◌==◌,
  eq_iff, eq_refl, arith, if◌then◌else◌,
}
use special_resource_operato.Prelude.Int.{ℤ, pos}
use special_resource_operato.Exec.{new, Attempt, returned, raised}
use special_resource_operato.Value.{
  Value, string, int64, slice, object, Items, nil, cons, Fields, empty, field,
}
use special_resource_operato.Env.{Nested, Unstructured}
use special_resource_operato.Crud.Writes.{SetsFields}
use special_resource_operato.RoleBinding.{new_subject}
use special_resource_operato.RoleBinding.Idempotent.{ReadsSubjects}
use special_resource_operato.Safety.{KeepsKind}

abbrev pub find : String → Fields → Option Value
find k empty = none
find k (field j v f) = if j == k then some v else find k f

abbrev pub put : String → Value → Fields → Fields
put k v empty = field k v empty
put k v (field j w f) = if j == k then field j v f else field j w (put k v f)

-- Nothing there, a value of another kind on the way, or a value.
pub data Got : Type 0 where
  absent wrong : Got
  there : Value → Got

abbrev pub get_path : List String → Value → Got
get_path [] v = there v
get_path (k ∷ path) (object f) = elim (find k f) [ none ↦ absent | some v ↦ get_path path v ]
get_path (k ∷ path) _ = wrong

abbrev pub set_path : List String → Value → Value → Option Value
set_path [] v old = some v
set_path (k ∷ path) v (object f) =
    elim (set_path path v (elim (find k f) [ none ↦ object empty | some old ↦ old ])) [
      | none ↦ none
      | some w ↦ some (object (put k w f))
    ]
set_path (k ∷ path) v _ = none

pub find-put :
    (f : Fields) (wanted key : String) (v : Value)
    → find wanted (put key v f) ≡ (if key == wanted then some v else find wanted f)
find-put empty wanted key v = refl
find-put (field here old f) wanted key v =
    ground (arith, find-put f wanted key v, eq_iff here wanted, eq_iff here key, eq_iff key wanted)

abbrev pub text_of : Got → Nested String
text_of absent = ("", false, none)
text_of wrong = ("", false, some (new "not a map"))
text_of (there (string s)) = (s, true, none)
text_of (there _) = ("", false, some (new "not a string"))

abbrev pub number_of : Got → Nested ℤ
number_of absent = (pos 0, false, none)
number_of wrong = (pos 0, false, some (new "not a map"))
number_of (there (int64 n)) = (n, true, none)
number_of (there _) = (pos 0, false, some (new "not an int64"))

abbrev pub items_of : Items → List Value
items_of nil = []
items_of (cons v vs) = v ∷ items_of vs

abbrev pub of_items : List Value → Items
of_items [] = nil
of_items (v ∷ vs) = cons v (of_items vs)

abbrev pub slice_of : Got → Nested (List Value)
slice_of absent = ([], false, none)
slice_of wrong = ([], false, some (new "not a map"))
slice_of (there (slice vs)) = (items_of vs, true, none)
slice_of (there _) = ([], false, some (new "not a slice"))

abbrev pub entries : Fields → Dict Value
entries empty = []
entries (field k v f) = (k, v) ∷ entries f

abbrev pub of_entries : Dict Value → Fields
of_entries [] = empty
of_entries ((k, v) ∷ d) = field k v (of_entries d)

abbrev pub map_of : Got → Nested (Dict Value)
map_of absent = ([], false, none)
map_of wrong = ([], false, some (new "not a map"))
map_of (there (object f)) = (entries f, true, none)
map_of (there _) = ([], false, some (new "not a map"))

abbrev pub texts : Fields → Dict String
texts empty = []
texts (field k (string s) f) = (k, s) ∷ texts f
texts (field k _ f) = texts f

abbrev pub of_texts : Dict String → Fields
of_texts [] = empty
of_texts ((k, s) ∷ d) = field k (string s) (of_texts d)

abbrev pub texts_of : Got → Option (Dict String)
texts_of (there (object f)) = some (texts f)
texts_of _ = none

abbrev pub set_or_keep : List String → Value → Fields → Fields
set_or_keep path v f = elim (set_path path v (object f)) [ some (object f') ↦ f' | _ ↦ f ]

abbrev pub set_result : Option Value → Attempt Fields
set_result (some (object f)) = returned f
set_result _ = raised (new "cannot set")

abbrev pub set_nested : Value → List String → Fields → Attempt Fields
set_nested v [] f = raised (new "no field")
set_nested v (k ∷ path) f = set_result (set_path (k ∷ path) v (object f))

abbrev pub accessors : Unstructured
accessors = record {
  kind = λ f. (text_of (get_path ("kind" ∷ []) (object f))).0;
  namespace = λ f. (text_of (get_path ("metadata" ∷ "namespace" ∷ []) (object f))).0;
  name = λ f. (text_of (get_path ("metadata" ∷ "name" ∷ []) (object f))).0;
  annotations = λ f. texts_of (get_path ("metadata" ∷ "annotations" ∷ []) (object f));
  labels = λ f. texts_of (get_path ("metadata" ∷ "labels" ∷ []) (object f));
  set_api_version = λ s f. set_or_keep ("apiVersion" ∷ []) (string s) f;
  set_kind = λ s f. set_or_keep ("kind" ∷ []) (string s) f;
  set_name = λ s f. set_or_keep ("metadata" ∷ "name" ∷ []) (string s) f;
  set_namespace = λ s f. set_or_keep ("metadata" ∷ "namespace" ∷ []) (string s) f;
  set_labels = λ d f. set_or_keep ("metadata" ∷ "labels" ∷ []) (object (of_texts d)) f;
  nested_string = λ f path. text_of (get_path path (object f));
  nested_int64 = λ f path. number_of (get_path path (object f));
  nested_slice = λ f path. slice_of (get_path path (object f));
  nested_map = λ f path. map_of (get_path path (object f));
  set_nested_field = set_nested;
  set_nested_slice = λ vs path f. set_nested (slice (of_items vs)) path f;
  set_nested_string_map = λ d path f. set_nested (object (of_texts d)) path f;
}

-- What a path leads to below the value of its first key.
abbrev pub below : List String → Option Value → Got
below path o = elim o [ none ↦ absent | some v ↦ get_path path v ]

abbrev pub child : String → Fields → Value
child k f = elim (find k f) [ none ↦ object empty | some old ↦ old ]

set_path-object :
    (inner : Option Value) (k : String) (f : Fields) (new_ : Value)
    → (elim inner [ none ↦ none | some w ↦ some (object (put k w f)) ]) ≡ some new_
    → (w : Value) × (inner ≡ some w) × (object (put k w f) ≡ new_)
set_path-object none k f new_ h = cc
set_path-object (some w) k f new_ h = (w, refl, cc)

pub find-put_self : (f : Fields) (key : String) (v : Value) → find key (put key v f) ≡ some v
find-put_self f key v = simp (find-put, eq_refl)

-- What was set is there.
get_path-set_path :
    (path : List String) (v old new_ : Value)
    → set_path path v old ≡ some new_
    → get_path path new_ ≡ there v
get_path-set_path [] v old new_ h = cc
get_path-set_path (k ∷ path) v (object f) new_ h =
    let (w, inner, e) = set_path-object (set_path path v (child k f)) k f new_ h in
    rw (← e) (ap (below path) (find-put_self f k w) ∙ get_path-set_path path v (child k f) w inner)
get_path-set_path (k ∷ path) v _ new_ h = cc

set_result-inversion :
    (r : Option Value) (f' : Fields) → set_result r ≡ returned f' → r ≡ some (object f')
set_result-inversion (some (object f)) f' h = cc
set_result-inversion none f' h = cc
set_result-inversion (some _) f' h = cc

pub set_nested-inversion :
    (v : Value) (k : String) (path : List String) (f f' : Fields)
    → set_nested v (k ∷ path) f ≡ returned f'
    → (w : Value) × (set_path path v (child k f) ≡ some w) × (put k w f ≡ f')
set_nested-inversion v k path f f' h =
    let whole = set_result-inversion _ f' h in
    let (w, inner, e) = set_path-object (set_path path v (child k f)) k f (object f') whole in
    (w, inner, cc)

get_path-set_nested :
    (v : Value) (path : List String) (f f' : Fields)
    → set_nested v path f ≡ returned f'
    → get_path path (object f') ≡ there v
get_path-set_nested v [] f f' h = cc
get_path-set_nested v (k ∷ path) f f' h =
    get_path-set_path (k ∷ path) v (object f) (object f') (set_result-inversion _ f' h)

pub get_path-set_other :
    (v : Value) (first other : String) (rest path : List String) (f f' : Fields)
    → first ≢ other
    → set_nested v (first ∷ rest) f ≡ returned f'
    → get_path (other ∷ path) (object f') ≡ get_path (other ∷ path) (object f)
get_path-set_other v first other rest path f f' n h =
    let (w, inner, e) = set_nested-inversion v first rest f f' h in
    let kept : find other (put first w f) ≡ find other f =
      find-put f other first w ∙ ground (arith, eq_iff first other) in
    rw (← e) (ap (below path) kept)

items_of-of_items : (vs : List Value) → items_of (of_items vs) ≡ vs
items_of-of_items [] = refl
items_of-of_items (v ∷ vs) = ap (λ t. v ∷ t) (items_of-of_items vs)

pub accessors-SetsFields : SetsFields accessors
accessors-SetsFields = record {
  found_again = λ t path obj obj' h. ap text_of (get_path-set_nested (string t) path obj obj' h);
  others_kept = λ v first other rest path obj obj' n h.
      ap text_of (get_path-set_other v first other rest path obj obj' n h);
}

pub accessors-KeepsKind : KeepsKind accessors
accessors-KeepsKind = record {
  kind_kept = λ v first rest obj obj' n h.
      ap (λ g. (text_of g).0) (get_path-set_other v first "kind" rest [] obj obj' n h);
}

new_subject-namespace :
    (namespace : String) (subject : Fields)
    → new_subject namespace ≡ object subject
    → accessors.nested_string subject ("namespace" ∷ []) ≡ (namespace, true, none)
unfolding new_subject
new_subject-namespace namespace subject h =
    let e : field "kind" (string "ServiceAccount")
          (field "name" (string "builder") (field "namespace" (string namespace) empty))
        ≡ subject =
      cc in
    rw (← e) refl

pub accessors-ReadsSubjects : ReadsSubjects accessors
accessors-ReadsSubjects = record {
  subject_namespace = new_subject-namespace;
  subjects_again = λ subjects rb rb' h.
      ap slice_of (get_path-set_nested (slice (of_items subjects)) ("subjects" ∷ []) rb rb' h)
      ∙ ap (λ vs. (vs, true, none)) (items_of-of_items subjects);
}
