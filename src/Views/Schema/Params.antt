-- ===== src/Views/Schema/Params.antt =====
-- dashboard/src/shared/schema.ts: the parameters that the schema of a chart asks for in a form.
pub mod Asked
use Prim.Native.String.{◌++◌}
use installer.Common.{
  String, Bool, true, false, Option, none, some, List, [], ◌∷◌, map, if◌then◌else◌, ◌==◌,
}
use installer.Types.{Json, null, str}
use installer.Views.Schema.{Yaml, get_value}

-- What the code reads of a property of a schema: its type, whether `form` is truthy, its default and
-- its values; `rest` has the other fields.
pub record SchemaFields : Type 0 where
  pub type_of : Option Json
  pub form : Bool
  pub default : Option Json
  pub enum_of : Option (List Json)
  pub rest : Json

-- `JSONSchema4`: `missing` are properties that are not defined.
mutual
  pub data Schema : Type 0 where
    schema : SchemaFields → Properties → Schema

  pub data Properties : Type 0 where
    missing : Properties
    end : Properties
    property : (key : String) → Schema → Properties → Properties

pub record ParamFields : Type 0 where
  pub path : String
  pub type_of : Option Json
  pub value : Option Json
  pub enum_of : Option (List String)
  pub rest : Json

-- `IBasicFormParam`: a group has children.
mutual
  pub data BasicFormParam : Type 0 where
    single : ParamFields → BasicFormParam
    group : ParamFields → BasicFormParams → BasicFormParam

  pub data BasicFormParams : Type 0 where
    no_params : BasicFormParams
    cons_param : BasicFormParam → BasicFormParams → BasicFormParams

-- `concat`
unfoldable pub concat_params : BasicFormParams → BasicFormParams → BasicFormParams
concat_params no_params qs = qs
concat_params (cons_param p ps) qs = cons_param p (concat_params ps qs)

-- `type === "object"`
unfoldable pub is_object : Option Json → Bool
is_object none = false
is_object (some (str t)) = t == "object"
is_object (some v) = false

module _ {Doc : Type 0} (y : Yaml Doc) (to_string : Json → String) (default_values : String) where
  -- `item?.toString() ?? ""`
  abbrev enum_text : Json → String
  enum_text null = ""
  enum_text item = to_string item

  abbrev enum_texts : Option (List Json) → Option (List String)
  enum_texts none = none
  enum_texts (some items) = some (map enum_text items)

  abbrev pub param_fields : (item_path : String) → SchemaFields → ParamFields
  param_fields item_path f = record {
    path = item_path;
    type_of = f.type_of;
    value = get_value y default_values item_path f.default;
    enum_of = enum_texts f.enum_of;
    rest = f.rest;
  }

  -- What a property adds to the parameters, given those of its own properties.
  unfoldable pub add_param : (item_path : String) → SchemaFields → BasicFormParams → BasicFormParams
  unfolding is_object
  add_param item_path f below =
      if f.form
      then cons_param
          (if is_object f.type_of
            then group (param_fields item_path f) below
            else single (param_fields item_path f))
          no_params
      else (if is_object f.type_of then below else no_params)

  -- The loop over the properties.
  unfoldable pub retrieve_each : Properties → (parent_path : String) → BasicFormParams
  unfolding add_param concat_params
  retrieve_each missing parent_path = no_params
  retrieve_each end parent_path = no_params
  retrieve_each (property key (schema f below) properties) parent_path =
      let item_path = parent_path ++ key in
      let children = retrieve_each below (item_path ++ "/") in
      concat_params (add_param item_path f children) (retrieve_each properties parent_path)

  -- `retrieveBasicFormParams`
  unfoldable pub retrieve_basic_form_params : Schema → (parent_path : String) → BasicFormParams
  unfolding retrieve_each
  retrieve_basic_form_params (schema f properties) parent_path =
      retrieve_each properties parent_path
