-- ===== src/Examples/Schemas.antt =====
-- Examples for the values of a chart: a document is a value, and `"changed"` the text of the changed one.
use Prim.Native.String as Text
use Prim.Native.String.{String}
use installer.Common.{
  ℕ, Bool, true, false, not, Option, none, some, List, [], ◌∷◌, ◌++◌, ◌≡◌, refl, sym, ap, ◌∙◌,
  arith, any, ◌==◌, if◌then◌else◌, eq_refl, eq_iff, Option-cases, Bool-cases, inl, inr, ◌⊎◌,
}
use installer.Common.Text.{
  split_parts, split_parts-append, split_parts-bare, has_char, head_of, single-append,
}
use installer.Types.{Json, null, num, str, obj, Props, end, prop}
use installer.Client.Http.{join, find_prop}
use installer.Views.Schema.{Yaml, split_path, set_value, get_value}
use installer.Views.Schema.Change.{IsYaml, get_value-set_value}
use installer.Views.Schema.Params.{
  SchemaFields, Schema, schema, Properties, end as no_more, property, ParamFields, param_fields,
  retrieve_basic_form_params,
}
use installer.Views.Schema.Params.Asked.{listed, asked, retrieve_basic_form_params-asked}
use installer.Views.Schema.Change.Paths.{is_plain, nest, find_in, AreObjects}

abbrev put : String → Json → Props → Props
put k v end = prop k v end
put k v (prop j w ps) = let rest = put k v ps in if j == k then prop j v ps else prop j w rest

find_prop-put : (k : String) (v : Json) (ps : Props) → find_prop k (put k v ps) ≡ some v
find_prop-put k v end = ground (arith, eq_refl k)
find_prop-put k v (prop j w ps) = ground (arith, eq_iff j k, find_prop-put k v ps)

abbrev child : String → Props → Json
child k ps = elim (find_prop k ps) [ none ↦ obj end | some w ↦ w ]

set_at : List String → Json → Json → Json
set_at [] v d = v
set_at (k ∷ ks) v (obj ps) = obj (put k (set_at ks v (child k ps)) ps)
set_at (k ∷ ks) v d = d

find_in-set_at :
    (d : Json) (p : List String) (k : String) (q : List String) (v : Json) (ps : Props)
    → find_in p d ≡ some (obj ps)
    → find_in ((p ++ k ∷ []) ++ q) (set_at (p ++ k ∷ []) v d) ≡ find_in q v
unfolding set_at
find_in-set_at (obj ps') [] k q v ps h = ground (arith, find_prop-put k v ps')
find_in-set_at d [] k q v ps h = absurd (ground (arith, h))
find_in-set_at (obj ps') (j ∷ p) k q v ps h = elim (Option-cases (find_prop j ps')) [
  | inl missing ↦ absurd (ground (arith, missing, h))
  | inr (w, found) ↦
      let below = find_in-set_at w p k q v ps (ground (arith, found, h)) in
      let changed = set_at (p ++ k ∷ []) v (child j ps') in
      let here : child j ps' ≡ w = ground (arith, found) in
      ground (
        arith,
        find_prop-put j changed ps',
        ap (λ (c : Json). find_in ((p ++ k ∷ []) ++ q) (set_at (p ++ k ∷ []) v c)) here,
        below,
      )
]
find_in-set_at d (j ∷ p) k q v ps h = absurd (ground (arith, h))

set_path : String → Json → Json
unfolding split_parts
set_path path v = let (first, rest) = split_parts b'.' path in nest (first ∷ rest) v

no_dot : (k : String) → is_plain k ≡ true → has_char b'.' k ≡ false
no_dot k h = ground (arith, h)

split_parts-join :
    (k : String) (ks : List String)
    → any (λ j. not (is_plain j)) (k ∷ ks) ≡ false
    → split_parts b'.' (join "." (k ∷ ks)) ≡ (k, ks)
unfolding join
split_parts-join k [] h = split_parts-bare b'.' k (no_dot k (ground (arith, h)))
split_parts-join k (j ∷ ks) h =
    let rest = join "." (j ∷ ks) in
    let plain : is_plain k ≡ true = ground (arith, h) in
    ap (λ (t : String). split_parts b'.' (Text.◌++◌ k t)) (single-append (head_of ".") rest)
    ∙ split_parts-append (head_of ".") k rest (no_dot k plain)
    ∙ ap (λ (r : String × List String). (k, r.0 ∷ r.1))
        (split_parts-join j ks (ground (arith, h, plain)))

set_path-join :
    (k : String) (ks : List String) (v : Json)
    → any (λ j. not (is_plain j)) (k ∷ ks) ≡ false
    → set_path (join "." (k ∷ ks)) v ≡ nest (k ∷ ks) v
unfolding set_path
set_path-join k ks v h =
    ap (λ (r : String × List String). nest (r.0 ∷ r.1) v) (split_parts-join k ks h)

-- The document `image: {}`, and the same with `image: { tag: { name: 7 } }`.
abbrev before : Json
before = obj (prop "image" (obj end) end)

abbrev after : Json
after = obj (prop "image" (obj (prop "tag" (obj (prop "name" (num 7) end)) end)) end)

abbrev packages : Yaml Json
packages = record {
  parse_document = λ t. if t == "changed" then after else before;
  to_string = λ d. "changed";
  is_empty = λ d. false;
  has_items = λ d. true;
  get_in = λ d p. find_in p d;
  set_in = λ d p v. set_at p v d;
  delete_in = λ d p. d;
  set_path = set_path;
  unescape = λ k. k;
}

documented : IsYaml packages
documented = record {
  to_json = λ d. d;
  to_json-set_in = find_in-set_at;
  set_path-join = set_path-join;
  not_escaped = λ k h. refl;
}

image-AreObjects : AreObjects packages before ("image" ∷ "tag" ∷ "name" ∷ [])
image-AreObjects [] k q e = inr (prop "image" (obj end) end, refl)
image-AreObjects (a ∷ []) k q e =
    let same : "image" ≡ a = ground (arith, e) in rw (← same) (inr (end, refl))
image-AreObjects (a ∷ b ∷ p) k q e =
    let same : "image" ≡ a = ground (arith, e) in rw (← same) (inl refl)

get_value-set_value_example :
    get_value packages
      (set_value packages "image: {}" "image/tag/name" (num 7))
      "image/tag/name"
      none
    ≡ some (num 7)
unfolding split_path installer.Common.Text.split_parts set_at
    installer.Views.Schema.parse_path_and_value set_path documented
get_value-set_value_example =
    get_value-set_value packages documented "image: {}" "image/tag/name" (num 7) none
      (prop "image" (obj end) end) refl refl refl image-AreObjects refl (λ p. refl)

abbrev object_fields : (form : Bool) → SchemaFields
object_fields form = record {
  type_of = some (str "object");
  form = form;
  default = none;
  enum_of = none;
  rest = null;
}

abbrev text_fields : SchemaFields
text_fields = record {
  type_of = some (str "string");
  form = true;
  default = some (str "web");
  enum_of = none;
  rest = null;
}

-- `image/tag` is a group, and `image/tag/name` a parameter in it.
abbrev image_properties : Properties
image_properties =
    property "image"
      (schema (object_fields false) (
        property "tag"
          (schema (object_fields true) (property "name" (schema text_fields no_more) no_more))
          no_more))
      no_more

retrieve_basic_form_params-asked_example :
    listed (
      retrieve_basic_form_params packages
        (λ v. "")
        "changed"
        (schema (object_fields false) image_properties)
        "")
    ≡ param_fields packages (λ v. "") "changed" "image/tag" (object_fields true)
      ∷ param_fields packages (λ v. "") "changed" "image/tag/name" text_fields
      ∷ []
unfolding asked installer.Views.Schema.Params.is_object
retrieve_basic_form_params-asked_example =
    retrieve_basic_form_params-asked packages (λ v. "") "changed" (object_fields false)
      image_properties
