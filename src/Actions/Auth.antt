-- ===== src/Actions/Auth.antt =====
-- dashboard/src/actions/auth.ts: its actions.
use installer.Common.{Bool, String}

pub data AuthAction : Type 0 where
  set_authenticated : (authenticated oidc : Bool) → AuthAction
  authenticating : AuthAction
  authentication_error : String → AuthAction
  set_session_expired : Bool → AuthAction
