-- ===== src/Shared/Namespace.antt =====
-- dashboard/src/shared/Namespace.ts: the namespace last used in each cluster, and the choice of a
-- namespace.
use installer.Common.{
  String, ◌&&◌, Option, none, some, List, [], ◌∷◌, if◌then◌else◌, truthy, or_empty, includes,
}
use installer.Common.Dict.{Dict, insert}
use installer.Shared.Storage.{Storage, Externals, get_item, set_item, remove_item}
use installer.Shared.Auth.{get_auth_token, default_namespace_from_token}

abbrev pub namespace_key : String
namespace_key = "kubeapps_namespace"

-- `localStorage.getItem(namespaceKey) || "{}"`
abbrev stored_text : Option String → String
stored_text none = "{}"
stored_text (some s) = if truthy s then s else "{}"

-- The order of the choice: the current one, the one last used, the one of the token, the first.
unfoldable pub choose : (current_ns stored_ns token_ns : String) → List String → String
choose current_ns stored_ns token_ns available_ns =
    if truthy current_ns
    then current_ns
    else if truthy stored_ns && includes available_ns stored_ns
    then stored_ns
    else if truthy token_ns && includes available_ns token_ns
    then token_ns
    else elim available_ns [ [] ↦ "" | first ∷ rest ↦ first ]

module _ (x : Externals) where
  unfoldable pub parse_stored_ns : Storage → Dict String
  unfolding get_item
  parse_stored_ns storage = elim (x.parse (stored_text (get_item namespace_key storage))) [
    | none ↦ []
    | some parsed ↦ parsed
  ]

  unfoldable pub get_stored_namespace : (cluster : String) → Storage → String
  unfolding parse_stored_ns
  get_stored_namespace cluster storage = x.get (parse_stored_ns storage) cluster ""

  unfoldable pub set_stored_namespace : (cluster namespace : String) → Storage → Storage
  unfolding parse_stored_ns set_item insert
  set_stored_namespace cluster namespace storage =
      set_item namespace_key (x.stringify (insert cluster namespace (parse_stored_ns storage)))
        storage

  unfoldable pub get_current_namespace :
      Storage → (cluster current_ns : String) → (available_ns : List String) → String
  unfolding choose get_stored_namespace get_auth_token default_namespace_from_token
  get_current_namespace storage cluster current_ns available_ns =
      choose current_ns (get_stored_namespace cluster storage)
        (default_namespace_from_token x (or_empty (get_auth_token storage))) available_ns

unfoldable pub unset_stored_namespace : Storage → Storage
unfolding remove_item
unset_stored_namespace storage = remove_item namespace_key storage
