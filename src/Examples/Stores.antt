-- ===== src/Examples/Stores.antt =====
-- Examples for the store.
use installer.Common.{String, true, none, some, [], ◌∷◌, ◌≡◌, refl}
use installer.Common.Result.{ok, type_error}
use installer.Actions.{dark, Action, kube, namespace, set_allow_create, receive_resource_from_list}
use installer.Reducers.Kube.{kube_reducer}
use installer.Reducers.Store.{StoreState, World, Setting, initial_state, dispatch}
use installer.Reducers.Store.Runs.{Fits, IsSound, loaded, Visited-dispatch}
use installer.Reducers.Store.Atomic.{dispatch-throw}
use installer.Examples.Data.{quiet, resource}
use installer.Examples.Server.{externals}
use installer.Examples.Uniq.{uniq_by_id, uniq_by_id-IsUniqBy}

-- The router keeps no state.
abbrev setting : Setting String
setting = record {
  connect_router = λ r a. r;
  uniq_by_id = uniq_by_id;
  externals = externals;
  ws_base = "wss://host";
  theme = dark;
  stored = [];
}

abbrev first : World String
first = record { state = initial_state setting "/"; storage = []; browser = quiet }

abbrev allow : Action
allow = namespace (set_allow_create "default" true)

allow-Fits : Fits first.state allow
unfolding initial_state installer.Reducers.Cluster.initial_state
allow-Fits = record { refers = refl; expects = tt }

Visited-dispatch_example :
    IsSound setting first
    × IsSound setting (dispatch setting first allow).1
    × ((t : StoreState String) × ((dispatch setting first allow).0 ≡ ok t)
        × ((dispatch setting first allow).1.state ≡ t))
Visited-dispatch_example =
    Visited-dispatch setting uniq_by_id-IsUniqBy allow (loaded "/" quiet (λ i. refl) (λ i. refl))
      allow-Fits

late : Action
late = kube (receive_resource_from_list "pods" (resource "web"))

dispatch-throw_example : (dispatch setting first late).1 ≡ first
unfolding dispatch kube_reducer initial_state late installer.Common.Dict.lookup
    installer.Reducers.Kube.initial_state
dispatch-throw_example = dispatch-throw setting first late type_error refl
