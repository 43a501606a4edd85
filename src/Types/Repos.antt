-- ===== src/Types/Repos.antt =====
-- dashboard/src/shared/types.ts: application repositories.
use installer.Common.{String, Option}
use installer.Types.Values.{Json}
use installer.Types.Kube.{ResourceMetadata}

-- The names of the secrets that `spec.auth` refers to.
pub record RepoAuth : Type 0 where
  pub header : Option String
  pub custom_ca : Option String

pub record AppRepository : Type 0 where
  pub metadata : ResourceMetadata
  pub auth : Option RepoAuth
  pub spec : Json
