-- ===== src/Shared/Auth.antt =====
-- dashboard/src/shared/Auth.ts: the session that is kept in `localStorage`, and how a response is
-- told to come from the authentication proxy or from an anonymous request.
use Prim.Native.Char.{code}
use Prim.Native.String as Text
use text.Mathlib.Text.{find?}
use installer.Common.{
  not, List, [], ◌∷◌, ℕ, String, Bool, true, false, ◌&&◌, ◌||◌, Option, none, some, if◌then◌else◌,
  is_some, nat_eq, or_empty, or_else, truthy, ◌==◌,
}
use installer.Common.Dict.{lookup}
use installer.Types.{Json, str}
use installer.Shared.Json.{falsy, message_of}
use installer.Shared.Storage.{Storage, Externals, get_item, set_item, remove_item}

abbrev pub auth_token_key : String
auth_token_key = "kubeapps_auth_token"

abbrev pub auth_token_oidc_key : String
auth_token_oidc_key = "kubeapps_auth_token_oidc"

unfoldable pub get_auth_token : Storage → Option String
unfolding get_item
get_auth_token storage = get_item auth_token_key storage

-- `oidc.toString()`
abbrev pub bool_text : Bool → String
bool_text true = "true"
bool_text false = "false"

unfoldable pub set_auth_token : (token : String) (oidc : Bool) → Storage → Storage
unfolding set_item
set_auth_token token oidc storage =
    let marked = set_item auth_token_oidc_key (bool_text oidc) storage in
    if truthy token then set_item auth_token_key token marked else marked

unfoldable pub unset_auth_token : Storage → Storage
unfolding remove_item
unset_auth_token storage = remove_item auth_token_key storage

-- The new storage, and the address to which the browser is sent.
unfoldable pub unset_auth_cookie : (oauth_logout_uri : String) → Storage → Storage × String
unfolding remove_item
unset_auth_cookie uri storage =
    (remove_item auth_token_oidc_key storage, or_else uri "/oauth2/sign_out")

unfoldable pub using_oidc_token : Storage → Bool
unfolding get_item
using_oidc_token storage = elim (get_item auth_token_oidc_key storage) [
  | none ↦ false
  | some text ↦ text == "true"
]

-- `headers["Authorization"]` of a request, if it is set: the interceptor of `addAuthHeaders`.
unfoldable pub authorization : Storage → Option String
unfolding get_auth_token
authorization storage = elim (get_auth_token storage) [
  | none ↦ none
  | some token ↦ if truthy token then some (Prim.Native.String.◌++◌ "Bearer " token) else none
]

-- `replace(/=*$/g, "")`
unfoldable pub drop_padding : String → String
drop_padding Text.[] = Text.[]
drop_padding (Text.◌∷◌ c s) =
    let rest = drop_padding s in
    if nat_eq (code c) b'=' && not (truthy rest) then Text.[] else Text.◌∷◌ c rest

-- `wsProtocols`; the browser's `btoa` throws where a character has no byte.
unfoldable pub ws_protocols : (btoa : String → Option String) → Storage → Option (List String)
unfolding get_auth_token using_oidc_token drop_padding
ws_protocols btoa storage =
    let token = or_empty (get_auth_token storage) in
    if not (truthy token) || using_oidc_token storage then some [] else (elim (btoa token) [
      | none ↦ none
      | some encoded ↦ some (
          Text.◌++◌ "base64url.bearer.authorization.k8s.io." (drop_padding encoded)
          ∷ "binary.k8s.io"
          ∷ [])
    ])

-- The `Authorization` of `fetchOptions`: a missing token is printed as `null`.
unfoldable pub fetch_authorization : Storage → String
unfolding get_auth_token
fetch_authorization storage = elim (get_auth_token storage) [
  | none ↦ "Bearer null"
  | some token ↦ Text.◌++◌ "Bearer " token
]

-- A response: its status and its body (`null` where there is none).
pub record Response : Type 0 where
  pub status : ℕ
  pub body : Json

-- `typeof v === "string" && v.includes(text)`
abbrev pub is_text_with : String → Json → Bool
is_text_with text (str s) = is_some (find? s text)
is_text_with text v = false

unfoldable pub is_403_from_auth_proxy : Response → Bool
is_403_from_auth_proxy r =
    if is_text_with "system:serviceaccount" r.body
    then false
    else nat_eq r.status 403 && (falsy r.body || falsy (message_of r.body))

unfoldable pub is_anonymous : Externals → Response → Bool
is_anonymous x r =
    let message = x.get_message r.body in
    is_text_with "system:anonymous" (if falsy message then r.body else message)

abbrev pub namespace_claim : String
namespace_claim = "kubernetes.io/serviceaccount/namespace"

unfoldable pub default_namespace_from_token : Externals → (token : String) → String
default_namespace_from_token x token = elim (x.decode token) [
  | none ↦ ""
  | some payload ↦ or_empty (lookup namespace_claim payload)
]
