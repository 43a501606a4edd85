-- ===== src/Views/Schema.antt =====
-- dashboard/src/shared/schema.ts: reading and changing the values of a chart, which are a text in YAML,
-- at a path with slashes.
pub mod Change
pub mod Params
use Prim.Native.Char.{code}
use Prim.Native.String as Text
use installer.Common.{
  ℕ, ◌+◌, ◌-◌, zero, suc, String, Bool, true, false, not, ◌||◌, ◌&&◌, Option, none, some, List, [],
  ◌∷◌, ◌++◌, map, if◌then◌else◌, nat_eq, length, take, drop,
}
use installer.Common.Text.{split_parts}
use installer.Client.Http.{join}
use installer.Types.{Json, null}

-- The packages that the code uses: `YAML.parseDocument` and `toString`, whether `doc.contents` and
-- `doc.contents.items` are empty, `getIn` (`none` for undefined), `setIn` and `deleteIn`, lodash's
-- `set({}, path, value)`, and `unescapePathComponent` of fast-json-patch.
pub record Yaml (Doc : Type 0) : Type 0 where
  pub parse_document : String → Doc
  pub to_string : Doc → String
  pub is_empty : Doc → Bool
  pub has_items : Doc → Bool
  pub get_in : Doc → List String → Option Json
  pub set_in : Doc → List String → Json → Doc
  pub delete_in : Doc → List String → Doc
  pub set_path : String → Json → Json
  pub unescape : String → String

-- `path.replace(/^\//, "")`
unfoldable pub drop_slash : String → String
drop_slash Text.[] = Text.[]
drop_slash (Text.◌∷◌ c s) = if nat_eq (code c) b'/' then s else Text.◌∷◌ c s

unfoldable pub split_path : String → List String
unfolding drop_slash split_parts
split_path path = let (first, rest) = split_parts b'/' (drop_slash path) in first ∷ rest

-- `elem === undefined || elem === null`
abbrev pub is_nullish : Option Json → Bool
is_nullish none = true
is_nullish (some null) = true
is_nullish (some v) = false

module _ {Doc : Type 0} (y : Yaml Doc) where
  -- The loop of `getDefinedPath`, with `currentPath` and `foundUndefined`.
  unfoldable pub defined_from : Doc → (current : List String) → Bool → List String → List String
  defined_from d current found [] = current
  defined_from d current found (p ∷ ps) =
      let next = current ++ p ∷ [] in
      let missing = not found && is_nullish (y.get_in d next) in
      defined_from d (if found || missing then current else next) (found || missing) ps

  unfoldable pub get_defined_path : List String → Doc → List String
  unfolding defined_from
  get_defined_path parents d = defined_from d [] false parents

  -- The path and the value for a document that is not empty: where the parent of the last key is not
  -- defined, the path ends at the first key that is not, and the value has the others.
  unfoldable pub place_value : Doc → (keys parents : List String) → Json → List String × Json
  unfolding get_defined_path join
  place_value d keys parents value = elim (y.get_in d parents) [
    | some node ↦ (map y.unescape keys, value)
    | none ↦
        let n = length (get_defined_path parents d) in
        (map y.unescape (take (n + 1) keys), y.set_path (join "." (drop (n + 1) keys)) value)
  ]

  -- `value` stands for `undefined` where a value is deleted, which does not use it.
  unfoldable pub parse_path_and_value : Doc → (path : String) → Json → List String × Json
  unfolding drop_slash split_path place_value
  parse_path_and_value d path value =
      let keys = split_path path in
      if y.is_empty d
      then ([], y.set_path (drop_slash path) value)
      else place_value d keys (take (length keys - 1) keys) value

  unfoldable pub set_value : (values path : String) → Json → String
  unfolding parse_path_and_value
  set_value values path new_value =
      let d = y.parse_document values in
      let (keys, value) = parse_path_and_value d path new_value in
      y.to_string (y.set_in d keys value)

  unfoldable pub parse_values : String → String
  parse_values values = y.to_string (y.parse_document values)

  unfoldable pub delete_value : (values path : String) → String
  unfolding parse_path_and_value
  delete_value values path =
      let d = y.parse_document values in
      let e = y.delete_in d (parse_path_and_value d path null).0 in
      if y.has_items e then y.to_string e else "\n"

  -- `none` stands for `undefined`.
  unfoldable pub get_value : (values path : String) (default : Option Json) → Option Json
  unfolding split_path
  get_value values path default =
      elim (y.get_in (y.parse_document values) (map y.unescape (split_path path))) [
        | none ↦ default
        | some null ↦ default
        | some v ↦ some v
      ]
