-- ===== src/Views/Schema/Params/Asked.antt =====
-- dashboard/src/shared/schema.ts: which parameters are retrieved.
use Prim.Native.String as Text
use mathlib.Core.List.{append_assoc, append-nil}
use installer.Common.{
  String, List, [], ◌∷◌, ◌++◌, ◌≡◌, refl, sym, ap, ◌∙◌, arith, if◌then◌else◌, Bool-cases, inl, inr,
}
use installer.Types.{Json}
use installer.Views.Schema.{Yaml}
use installer.Views.Schema.Params.{
  SchemaFields, schema, Properties, missing, end, property, ParamFields, BasicFormParam, single,
  group, BasicFormParams, no_params, cons_param, concat_params, is_object, param_fields, add_param,
  retrieve_each, retrieve_basic_form_params,
}

-- The parameters and those in groups, each group before its children.
mutual
  pub listed : BasicFormParams → List ParamFields
  listed no_params = []
  listed (cons_param p ps) = listed_one p ++ listed ps

  listed_one : BasicFormParam → List ParamFields
  listed_one (single f) = f ∷ []
  listed_one (group f ps) = f ∷ listed ps

listed-concat_params :
    (ps qs : BasicFormParams) → listed (concat_params ps qs) ≡ listed ps ++ listed qs
unfolding concat_params listed
listed-concat_params no_params qs = refl
listed-concat_params (cons_param p ps) qs =
    ap (λ (l : List ParamFields). listed_one p ++ l) (listed-concat_params ps qs)
    ∙ sym (append_assoc (listed_one p) (listed ps) (listed qs))

module _ {Doc : Type 0} (y : Yaml Doc) (to_string : Json → String) (default_values : String) where
  -- The properties that ask to be shown, from the first to the last, with the paths that lead to them
  -- from the root through objects.
  unfoldable pub asked : Properties → (path : String) → List ParamFields
  asked missing path = []
  asked end path = []
  asked (property key (schema f below) ps) path =
      let here = Text.◌++◌ path key in
      let inside = asked below (Text.◌++◌ here "/") in
      let later = asked ps path in
      (if f.form then param_fields y to_string default_values here f ∷ [] else [])
      ++ ((if is_object f.type_of then inside else []) ++ later)

  listed-add_param :
      (path : String) (f : SchemaFields) (below : BasicFormParams)
      → listed (add_param y to_string default_values path f below)
        ≡ (if f.form then param_fields y to_string default_values path f ∷ [] else [])
          ++ (if is_object f.type_of then listed below else [])
  unfolding add_param listed
  listed-add_param path f below = elim (Bool-cases (is_object f.type_of)) [
    | inl object ↦ ground (arith, object, append-nil (listed below))
    | inr other ↦ ground (arith, other)
  ]

  listed-retrieve_each :
      (ps : Properties) (path : String)
      → listed (retrieve_each y to_string default_values ps path) ≡ asked ps path
  unfolding retrieve_each asked listed
  listed-retrieve_each missing path = refl
  listed-retrieve_each end path = refl
  listed-retrieve_each (property key (schema f below) ps) path =
      let here = Text.◌++◌ path key in
      let children = retrieve_each y to_string default_values below (Text.◌++◌ here "/") in
      let later = retrieve_each y to_string default_values ps path in
      let shown = if f.form then param_fields y to_string default_values here f ∷ [] else [] in
      listed-concat_params (add_param y to_string default_values here f children) later
      ∙ ap (λ (l : List ParamFields). l ++ listed later) (listed-add_param here f children)
      ∙ append_assoc shown (if is_object f.type_of then listed children else []) (listed later)
      ∙ ap
          (λ (l : List ParamFields).
            shown ++ ((if is_object f.type_of then l else []) ++ listed later))
          (listed-retrieve_each below (Text.◌++◌ here "/"))
      ∙ ap
          (λ (l : List ParamFields).
            shown ++ ((if is_object f.type_of then asked below (Text.◌++◌ here "/") else []) ++ l))
          (listed-retrieve_each ps path)

  -- The parameters of a schema, with those in groups, are the properties that ask to be shown and that
  -- are reached through objects: each once, in the order of the schema, with its path from the root
  -- and the value that the default values have at this path, or else its default.
  pub retrieve_basic_form_params-asked :
      (f : SchemaFields) (ps : Properties)
      → listed (retrieve_basic_form_params y to_string default_values (schema f ps) "")
        ≡ asked ps ""
  unfolding retrieve_basic_form_params
  retrieve_basic_form_params-asked f ps = listed-retrieve_each ps ""
