-- ===== src/Actions.antt =====
-- dashboard/src/actions: the actions that reach the reducers. The action creators that carry one
-- payload to one reducer are a constructor each.
mod Apps
mod Auth
mod Charts
mod Configuration
mod Kube
mod Namespace
mod Operators
mod Repos
use installer.Common.{String}
pub use Apps.*
pub use Auth.*
pub use Charts.*
pub use Configuration.*
pub use Kube.*
pub use Namespace.*
pub use Operators.*
pub use Repos.*

-- Every action goes to every reducer. `location_change` is the router's, with the new path.
pub data Action : Type 0 where
  apps : AppsAction → Action
  auth : AuthAction → Action
  charts : ChartsAction → Action
  config : ConfigAction → Action
  kube : KubeAction → Action
  namespace : NamespaceAction → Action
  operators : OperatorAction → Action
  repos : AppReposAction → Action
  location_change : (pathname : String) → Action
