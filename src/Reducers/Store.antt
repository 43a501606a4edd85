-- ===== src/Reducers/Store.antt =====
-- dashboard/src/reducers/index.ts and dashboard/src/store/index.ts: the store. Every action goes to
-- all reducers, and the next state is kept only if none of them throws.
pub mod Runs
pub mod Atomic
use installer.Common.{String, List}
use installer.Common.Result.{Result, ok, throw, TypeError}
use installer.Types.{Chart, ChartState, KubeState}
use installer.Actions.{Action}
use installer.Shared.Storage.{Storage, Externals}
use installer.Types.{AppState}
use installer.Actions.{SupportedThemes}
use installer.Reducers.Kube.{Browser, kube_reducer}
use installer.Reducers.Cluster.{ClustersState, cluster_reducer}
use installer.Reducers.Repos.{AppRepositoryState, repos_reducer}
use installer.Reducers.Operators.{OperatorsState, operators_initial_state, catalog_reducer}
use installer.Reducers.Apps.{apps_reducer}
use installer.Reducers.Charts.{charts_reducer}
use installer.Reducers.Auth.{AuthState, auth_reducer}
use installer.Reducers.Config.{ConfigState, config_reducer}
use installer.Reducers.Cluster as Cluster
use installer.Reducers.Kube as Kube
use installer.Reducers.Repos as Repos
use installer.Reducers.Apps as Apps
use installer.Reducers.Charts as Charts
use installer.Reducers.Auth as Auth
use installer.Reducers.Config as Config

-- `router` is the state of connected-react-router.
pub record StoreState (Router : Type 0) : Type 0 where
  pub router : Router
  pub apps : AppState
  pub auth : AuthState
  pub charts : ChartState
  pub config : ConfigState
  pub kube : KubeState
  pub clusters : ClustersState
  pub repos : AppRepositoryState
  pub operators : OperatorsState

-- The store, and what the reducers change beside it.
pub record World (Router : Type 0) : Type 0 where
  pub state : StoreState Router
  pub storage : Storage
  pub browser : Browser

-- What a page starts with: the functions of other packages, the address of the sockets, the theme
-- and the storage when the page was loaded.
pub record Setting (Router : Type 0) : Type 0 where
  pub connect_router : Router → Action → Router
  pub uniq_by_id : List Chart → List Chart
  pub externals : Externals
  pub ws_base : String
  pub theme : SupportedThemes
  pub stored : Storage

module _ {Router : Type 0} (x : Setting Router) where
  unfoldable pub initial_state : (router : Router) → StoreState Router
  initial_state router = record {
    router = router;
    apps = Apps.initial_state;
    auth = Auth.initial_state x.stored;
    charts = Charts.initial_state;
    config = Config.initial_state x.theme;
    kube = Kube.initial_state;
    clusters = Cluster.initial_state x.externals x.stored;
    repos = Repos.initial_state;
    operators = operators_initial_state;
  }

  -- `store.dispatch(a)` of an action. The reducers run in the order of `combineReducers`: that of the
  -- configuration writes to the storage, and that of the resources to the browser, before that of
  -- the clusters may throw.
  unfoldable pub dispatch :
      World Router → Action → Result TypeError (StoreState Router) × World Router
  dispatch w a =
      let (config, storage) = config_reducer x.theme w.state.config w.storage a in
      elim (kube_reducer x.ws_base w.state.kube w.browser a) [
        | throw e ↦ (throw e, record w { storage = storage })
        | ok (kube, browser) ↦
            elim (cluster_reducer x.externals x.stored storage w.state.clusters a) [
              | throw e ↦ (throw e, record w { storage = storage; browser = browser })
              | ok clusters ↦
                  let t : StoreState Router = record {
                    router = x.connect_router w.state.router a;
                    apps = apps_reducer w.state.apps a;
                    auth = auth_reducer w.state.auth a;
                    charts = charts_reducer x.uniq_by_id w.state.charts a;
                    config = config;
                    kube = kube;
                    clusters = clusters;
                    repos = repos_reducer w.state.repos a;
                    operators = catalog_reducer w.state.operators a;
                  } in
                  (ok t, record { state = t; storage = storage; browser = browser })
            ]
      ]
