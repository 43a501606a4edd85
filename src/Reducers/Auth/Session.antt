-- ===== src/Reducers/Auth/Session.antt =====
-- dashboard/src/shared/Auth.ts with dashboard/src/reducers/auth.ts: the session that a page starts
-- with, after a login and after a logout.
use Prim.Native.String.{◌++◌}
use installer.Common.{
  String, Bool, true, false, none, some, ◌≡◌, refl, ◌∙◌, arith, eq_iff, ◌==◌, truthy, Bool-cases,
  inl, inr,
}
use installer.Common.Dict.{insert, lookup-insert, lookup-without}
use installer.Shared.Storage.{Storage, get_item}
use installer.Shared.Auth.{
  auth_token_key, auth_token_oidc_key, bool_text, get_auth_token, set_auth_token, unset_auth_token,
  using_oidc_token, authorization,
}
use installer.Reducers.Auth.{AuthState, initial_state}

-- The session of a page that starts with a token.
abbrev pub signed_in : (oidc : Bool) → AuthState
signed_in oidc = record {
  session_expired = false;
  authenticated = true;
  authenticating = false;
  oidc_authenticated = oidc;
  authentication_error = none;
}

get_auth_token-set_auth_token :
    (token : String) (oidc : Bool) (storage : Storage)
    → truthy token ≡ true
    → get_auth_token (set_auth_token token oidc storage) ≡ some token
unfolding get_auth_token set_auth_token
get_auth_token-set_auth_token token oidc storage h = ground (
  arith,
  h,
  lookup-insert auth_token_key auth_token_key token
      (insert auth_token_oidc_key (bool_text oidc) storage),
  eq_iff auth_token_key auth_token_key,
)

mark-set_auth_token :
    (token : String) (oidc : Bool) (storage : Storage)
    → get_item auth_token_oidc_key (set_auth_token token oidc storage) ≡ some (bool_text oidc)
unfolding set_auth_token get_item
mark-set_auth_token token oidc storage =
    let m = insert auth_token_oidc_key (bool_text oidc) storage in
    let here = lookup-insert auth_token_oidc_key auth_token_oidc_key (bool_text oidc) storage in
    let there = lookup-insert auth_token_key auth_token_oidc_key token m in
    elim (Bool-cases (truthy token)) [
      | inl given ↦ rw (given, set_auth_token) (there ∙ here)
      | inr empty ↦ rw (empty, set_auth_token) here
    ]

bool_text-eq : (b : Bool) → (bool_text b == "true") ≡ b
bool_text-eq true = refl
bool_text-eq false = refl

using_oidc_token-set_auth_token :
    (token : String) (oidc : Bool) (storage : Storage)
    → using_oidc_token (set_auth_token token oidc storage) ≡ oidc
unfolding using_oidc_token
using_oidc_token-set_auth_token token oidc storage =
    rw (mark-set_auth_token token oidc storage, using_oidc_token) (bool_text-eq oidc)

get_auth_token-unset_auth_token :
    (storage : Storage) → get_auth_token (unset_auth_token storage) ≡ none
unfolding get_auth_token unset_auth_token
get_auth_token-unset_auth_token storage = ground (
  arith,
  lookup-without auth_token_key auth_token_key storage,
  eq_iff auth_token_key auth_token_key,
)

initial_state-none :
    (storage : Storage)
    → get_auth_token storage ≡ none
    → ((initial_state storage).authenticated ≡ false) × (authorization storage ≡ none)
unfolding initial_state authorization
initial_state-none storage h = (rw (h, initial_state) refl, rw (h, authorization) refl)

-- After a token that is not empty was stored, a page that is loaded anew starts authenticated, in
-- the way that was stored with it, and its requests carry the token; once the token was removed, a
-- page starts without authentication, and requests carry no token.
pub initial_state-set_auth_token :
    (token : String) (oidc : Bool) (storage : Storage)
    → truthy token ≡ true
    → (initial_state (set_auth_token token oidc storage) ≡ signed_in oidc)
      × (authorization (set_auth_token token oidc storage) ≡ some ("Bearer " ++ token))
      × ((initial_state (unset_auth_token (set_auth_token token oidc storage))).authenticated
          ≡ false)
      × (authorization (unset_auth_token (set_auth_token token oidc storage)) ≡ none)
unfolding initial_state authorization
initial_state-set_auth_token token oidc storage h =
    let stored = set_auth_token token oidc storage in
    let held = get_auth_token-set_auth_token token oidc storage h in
    let gone =
      initial_state-none (unset_auth_token stored) (get_auth_token-unset_auth_token stored) in
    (
      ground (arith, h, held, using_oidc_token-set_auth_token token oidc storage),
      ground (arith, h, held),
      gone.0,
      gone.1,
    )
