-- ===== src/Reducers/Store/Atomic.antt =====
-- dashboard/src/reducers/index.ts: a dispatch that throws.
use installer.Common.{◌≡◌, arith}
use installer.Common.Result.{throw, TypeError}
use installer.Actions.{
  Action, config, kube, namespace, location_change, receive_theme, set_theme_state,
}
use installer.Reducers.Cluster.{cluster_reducer}
use installer.Reducers.Kube.{kube_reducer}
use installer.Reducers.Config.{config_reducer}
use installer.Reducers.Store.{World, Setting, dispatch}

module _ {Router : Type 0} (x : Setting Router) (w : World Router) where
  -- A dispatch that throws changes nothing: neither the state of a reducer, nor the storage, nor a
  -- socket or an interval, although two reducers with effects run before the one that may throw.
  pub dispatch-throw :
      (a : Action) (e : TypeError) → (dispatch x w a).0 ≡ throw e → (dispatch x w a).1 ≡ w
  unfolding dispatch config_reducer kube_reducer cluster_reducer
  dispatch-throw (config (receive_theme t)) e h = ground arith
  dispatch-throw (config (set_theme_state t)) e h = ground arith
  dispatch-throw (config a) e h = ground arith
  dispatch-throw (kube a) e h = ground arith
  dispatch-throw (namespace a) e h = ground arith
  dispatch-throw (location_change p) e h = ground arith
  dispatch-throw _ e h = cc
