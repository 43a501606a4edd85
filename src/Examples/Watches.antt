-- ===== src/Examples/Watches.antt =====
-- Examples for the reducer of the resources.
use installer.Common.{true, false, none, some, [], ◌∷◌, ◌≡◌, refl}
use installer.Common.Dict.{lookup}
use installer.Common.Result.{ok, throw, type_error}
use installer.Types.{KubeObject, KubeState, on_message, on_error, poll, null}
use installer.Actions.{
  receive_resource_from_list, open_watch_resource, add_timer, kube, location_change,
}
use installer.Shared.Kube.{ref_watch_url}
use installer.Reducers.Kube.{
  set_interval, Socket, Browser, initial_state, open_watch, close_watch, received, with_item,
  kube_reducer,
}
use installer.Reducers.Kube.Tracking.{IsTracked}
use installer.Reducers.Kube.Runs.{Reached, start, Reached-kube_reducer}
use installer.Reducers.Kube.Watching.{close-open_watch}
use installer.Reducers.Kube.Items.{receive_resource_from_list-throws}
use installer.Examples.Data.{resource, pods, quiet}

-- The state and the browser after the watch of `pods` was opened.
abbrev watching : KubeState × Browser
watching = open_watch "wss://host" initial_state quiet pods (on_message pods) (on_error pods)

Reached-kube_reducer_example :
    (t : KubeState) × (c : Browser) × (kube_reducer "wss://host" initial_state quiet
        (kube (open_watch_resource pods (on_message pods) (on_error pods)))
      ≡ ok (t, c))
    × Reached "wss://host" t c
    × IsTracked t c
Reached-kube_reducer_example =
    Reached-kube_reducer "wss://host" initial_state quiet
      (kube (open_watch_resource pods (on_message pods) (on_error pods)))
      (start quiet (λ i. refl) (λ i. refl)) tt

close-open_watch_example :
    (t : KubeState) × (c : Browser) × (open_watch "wss://host" initial_state quiet pods
        (on_message pods)
        (on_error pods)
      ≡ (t, c))
    × ((close_watch "wss://host" t c pods).0.sockets ≡ initial_state.sockets)
    × ((close_watch "wss://host" t c pods).1.sockets 1
        ≡ some (record {
          url = ref_watch_url "wss://host" pods;
          is_open = false;
          on_message = some (on_message pods);
          on_error = none;
        }))
unfolding lookup initial_state
close-open_watch_example =
    close-open_watch "wss://host" initial_state quiet pods (on_message pods) (on_error pods) refl

abbrev opened : Socket
opened = record {
  url = ref_watch_url "wss://host" pods;
  is_open = true;
  on_message = some (on_message pods);
  on_error = some (on_error pods);
}

abbrev list_of_web : KubeObject
list_of_web = record { rest = null; items = some (resource "web" ∷ []) }

abbrev listing : KubeState
listing = with_item initial_state "pods" (received list_of_web)

-- After the change of address a poll for another list starts.
abbrev timed : KubeState
timed = record listing { items = []; timers = ("other", some quiet.next) ∷ [] }

receive_resource_from_list-throws_example :
    ((u : KubeState) × (kube_reducer "wss://host" listing quiet (location_change "/login")
        ≡ ok (u, quiet))
      × (u.sockets ≡ listing.sockets))
    × (kube_reducer "wss://host" timed
          (set_interval (poll pods) quiet)
          (kube (receive_resource_from_list "pods" (resource "db")))
        ≡ throw type_error)
unfolding kube_reducer lookup initial_state installer.Common.Dict.insert
receive_resource_from_list-throws_example =
    receive_resource_from_list-throws "wss://host" listing timed quiet
      (set_interval (poll pods) quiet) "/login" "pods" (resource "db")
      (kube (add_timer "other" (poll pods)) ∷ []) refl refl
