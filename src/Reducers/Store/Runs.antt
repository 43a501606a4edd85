-- ===== src/Reducers/Store/Runs.antt =====
-- dashboard/src/reducers/index.ts: the states that the store reaches, from the start of a page.
use installer.Common.{ℕ, false, ◌≡◌, refl}
use installer.Common.Result.{ok}
use installer.Actions.{Action}
use installer.Reducers.Config.{config_reducer}
use installer.Reducers.Cluster.Safety.{IsSafe, Refers}
use installer.Reducers.Cluster.Progress.{cluster_reducer-Succeeds, initial_state-IsSafe}
use installer.Reducers.Kube.{Browser}
use installer.Reducers.Kube.Tracking.{open_in, running_in}
use installer.Reducers.Kube.Runs.{Reached, start, Expects, Reached-kube_reducer}
use installer.Reducers.Charts.Pages.{IsUnique, IsUniqBy, charts_reducer-IsUnique}
use installer.Reducers.Repos.Fetching as Repos
use installer.Reducers.Repos.Fetching.{repos_reducer-IsConsistent}
use installer.Reducers.Operators.Fetching as Operators
use installer.Reducers.Operators.Fetching.{catalog_reducer-IsConsistent}
use installer.Reducers.Charts as Charts
use installer.Reducers.Repos as ReposReducer
use installer.Reducers.Operators.{operators_initial_state}
use installer.Reducers.Store.{StoreState, World, Setting, initial_state, dispatch}

-- What the action refers to is there.
pub record Fits {Router : Type 0} (s : StoreState Router) (a : Action) : Type 0 where
  pub refers : Refers s.clusters a
  pub expects : Expects s.kube a

-- The invariants of the reducers, together.
pub record IsSound {Router : Type 0} (x : Setting Router) (w : World Router) : Type 0 where
  pub clusters : IsSafe w.state.clusters
  pub kube : Reached x.ws_base w.state.kube w.browser
  pub charts : IsUnique w.state.charts.items
  pub repos : Repos.IsConsistent w.state.repos
  pub operators : Operators.IsConsistent w.state.operators

-- The worlds of a page: the first one, in which nothing is open, and those after the dispatch of an
-- action that fits.
pub data Visited {Router : Type 0} (x : Setting Router) : World Router → Type 0 where
  loaded :
      (router : Router) (b : Browser)
      → ((i : ℕ) → open_in b i ≡ false)
      → ((i : ℕ) → running_in b i ≡ false)
      → Visited x (record { state = initial_state x router; storage = x.stored; browser = b })
  dispatched :
      {w : World Router} (a : Action) → Visited x w → Fits w.state a → Visited x (dispatch x w a).1

module _ {Router : Type 0} (x : Setting Router) (uniq : IsUniqBy x.uniq_by_id) where
  loaded-IsSound :
      (router : Router) (b : Browser)
      → ((i : ℕ) → open_in b i ≡ false)
      → ((i : ℕ) → running_in b i ≡ false)
      → IsSound x (record { state = initial_state x router; storage = x.stored; browser = b })
  unfolding initial_state Charts.initial_state ReposReducer.initial_state operators_initial_state
  loaded-IsSound router b quiet idle = record {
    clusters = initial_state-IsSafe x.externals x.stored;
    kube = start b quiet idle;
    charts = tt;
    repos = refl;
    operators = refl;
  }

  dispatch-IsSound :
      (w : World Router) (a : Action)
      → IsSound x w
      → Fits w.state a
      → (t : StoreState Router) × ((dispatch x w a).0 ≡ ok t)
        × ((dispatch x w a).1.state ≡ t)
        × IsSound x (dispatch x w a).1
  unfolding dispatch
  dispatch-IsSound w a sound fits =
      let storage = (config_reducer x.theme w.state.config w.storage a).1 in
      let (k, b, taken, now, tracked) =
        Reached-kube_reducer x.ws_base w.state.kube w.browser a sound.kube fits.expects in
      let (c, moved, safe) =
        cluster_reducer-Succeeds x.externals x.stored storage w.state.clusters a sound.clusters
          fits.refers in
      rw (taken, dispatch)
        (rw (moved, dispatch)
          (
            _,
            refl,
            refl,
            record {
              clusters = safe;
              kube = now;
              charts = charts_reducer-IsUnique x.uniq_by_id uniq w.state.charts a sound.charts;
              repos = repos_reducer-IsConsistent w.state.repos a sound.repos;
              operators = catalog_reducer-IsConsistent w.state.operators a sound.operators;
            },
          ))

  Visited-IsSound : {w : World Router} → Visited x w → IsSound x w
  Visited-IsSound (loaded router b quiet idle) = loaded-IsSound router b quiet idle
  Visited-IsSound (dispatched {w} a before fits) =
      (dispatch-IsSound w a (Visited-IsSound before) fits).3

  -- In every world that a page reaches by actions that fit (each refers to a known cluster, or to a
  -- list that is there), the invariants of the five reducers hold together, and a further action that
  -- fits is taken without an error, to the state that is returned, and keeps them. (lodash's
  -- `uniqBy` is assumed to do what is documented of it.)
  pub Visited-dispatch :
      {w : World Router} (a : Action)
      → Visited x w
      → Fits w.state a
      → IsSound x w
        × IsSound x (dispatch x w a).1
        × ((t : StoreState Router) × ((dispatch x w a).0 ≡ ok t) × ((dispatch x w a).1.state ≡ t))
  Visited-dispatch {w} a before fits =
      let sound = Visited-IsSound before in
      let (t, taken, kept, next) = dispatch-IsSound w a sound fits in
      (sound, next, (t, taken, kept))
