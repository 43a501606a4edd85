-- ===== src/Reducers/Kube.antt =====
-- dashboard/src/reducers/kube.ts: the resources that pages ask for, and the sockets and timers that
-- keep them up to date. The reducer opens and closes these itself, so it also changes the browser.
pub mod Items
pub mod Kinds
pub mod Leaks
pub mod Registry
pub mod Runs
pub mod Tracking
pub mod Watching
use installer.Common.{
  ℕ, ◌+◌, String, Bool, true, false, Option, none, some, List, [], ◌∷◌, map, if◌then◌else◌, is_some,
  option_eq,
}
use installer.Common.Dict.{Dict, lookup, insert, without}
use installer.Common.Result.{Result, ok, throw, TypeError, type_error}
use installer.Types.{
  Json, obj, end, JsError, Resource, KubeObject, KubeItem, ResourceRef, Callback, Watch, KubeState,
}
use installer.Actions.{
  KubeAction, request_resource, receive_resource, receive_resource_kinds, receive_kinds_error,
  receive_resource_from_list, receive_resource_error, open_watch_resource, close_watch_resource,
  add_timer, remove_timer, Action, kube, location_change,
}
use installer.Shared.Kube.{ref_url, ref_watch_url}
use Kinds.{initial_kinds}
use Registry.{update}

-- A socket, with its listeners. A socket that was closed stays known to the browser, which may
-- still deliver an error to a listener that was not removed.
pub record Socket : Type 0 where
  pub url : String
  pub is_open : Bool
  pub on_message : Option Callback
  pub on_error : Option Callback

-- The sockets and the intervals, under the numbers that the browser gave them.
pub record Browser : Type 0 where
  pub next : ℕ
  pub sockets : ℕ → Option Socket
  pub intervals : ℕ → Option Callback

unfoldable pub initial_state : KubeState
unfolding initial_kinds
initial_state = record {
  items = [];
  kinds = initial_kinds;
  kinds_error = none;
  sockets = [];
  timers = [];
}

-- `new WebSocket(url)` and the two calls of `addEventListener`: the number of the new socket is
-- `b.next`.
unfoldable pub open_socket : (url : String) → (handler on_error : Callback) → Browser → Browser
open_socket url handler listener b = record b {
  next = b.next + 1;
  sockets = update b.sockets b.next (
      some (record {
        url = url;
        is_open = true;
        on_message = some handler;
        on_error = some listener;
      }));
}

abbrev silence : Option Socket → Option Socket
silence none = none
silence (some s) = some (record s { is_open = false; on_error = none })

-- `socket.removeEventListener("error", ...)` and `socket.close()`.
unfoldable pub close_socket : ℕ → Browser → Browser
close_socket i b = record b { sockets = update b.sockets i (silence (b.sockets i)) }

-- `setInterval(timer, 5000)`: the number of the new interval is `b.next`.
unfoldable pub set_interval : Callback → Browser → Browser
set_interval timer b = record b {
  next = b.next + 1;
  intervals = update b.intervals b.next (some timer);
}

unfoldable pub clear_interval : ℕ → Browser → Browser
clear_interval i b = record b { intervals = update b.intervals i none }

-- `state.timers[id]`: undefined if it is missing, or there with the value undefined.
abbrev pub timer_at : Dict (Option ℕ) → String → Option ℕ
timer_at timers id = elim (lookup id timers) [ none ↦ none | some timer ↦ timer ]

-- `state.items.map(...)` of `receiveResourceFromList`.
unfoldable pub update_items : Resource → List Resource → List Resource
update_items new items =
    map (λ it. if option_eq it.metadata.self_link new.metadata.self_link then new else it) items

-- `{ ...stateListItem, items: ... }`
unfoldable pub receive_into : Resource → Option KubeObject → KubeObject
unfolding update_items
receive_into new none = record { rest = obj end; items = some (new ∷ []) }
receive_into new (some o) = elim o.items [
  | none ↦ record o { items = some (new ∷ []) }
  | some items ↦ record o { items = some (update_items new items) }
]

abbrev pub received : KubeObject → KubeItem
received o = record { is_fetching = false; item = some o; error = none }

-- `{ ...state, items: { ...state.items, [key]: item } }`
abbrev pub with_item : KubeState → String → KubeItem → KubeState
with_item s key item = record s { items = insert key item s.items }

-- The socket and the timer that `closeWatchResource` found are closed, if it found them.
unfoldable pub stop_socket : Option Watch → Browser → Browser
unfolding close_socket
stop_socket none b = b
stop_socket (some found) b = close_socket found.socket b

unfoldable pub stop_timer : Option ℕ → Browser → Browser
unfolding clear_interval
stop_timer none b = b
stop_timer (some timer) b = clear_interval timer b

-- The branches on a reference. Each returns the new state and the new browser.
module _ (ws_base : String) where
  unfoldable pub open_watch :
      KubeState → Browser → ResourceRef → (handler on_error : Callback) → KubeState × Browser
  unfolding open_socket ref_watch_url
  open_watch s b ref handler listener =
      let key = ref_watch_url ws_base ref in
      if is_some (lookup key s.sockets) then (s, b) else (
        record s {
          sockets = insert key (record { socket = b.next; on_error = listener }) s.sockets;
        },
        open_socket key handler listener b,
      )

  unfoldable pub close_watch : KubeState → Browser → ResourceRef → KubeState × Browser
  unfolding stop_socket stop_timer ref_watch_url ref_url
  close_watch s b ref =
      let key = ref_watch_url ws_base ref in
      let timer_id = ref_url ref in
      (
        record s { sockets = without key s.sockets; timers = insert timer_id none s.timers },
        stop_timer (timer_at s.timers timer_id) (stop_socket (lookup key s.sockets) b),
      )

unfoldable pub add_timer_at : KubeState → Browser → (id : String) → Callback → KubeState × Browser
unfolding set_interval
add_timer_at s b id timer =
    if is_some (timer_at s.timers id)
    then (s, b)
    else (record s { timers = insert id (some b.next) s.timers }, set_interval timer b)

unfoldable pub remove_timer_at : KubeState → Browser → (id : String) → KubeState × Browser
unfolding clear_interval
remove_timer_at s b id = elim (timer_at s.timers id) [
  | none ↦ (s, b)
  | some timer ↦ (record s { timers = insert id none s.timers }, clear_interval timer b)
]

-- `kubeReducer`: the new state and the new browser, or a `TypeError`.
unfoldable pub kube_reducer :
    (ws_base : String) → KubeState → Browser → Action → Result TypeError (KubeState × Browser)
unfolding receive_into open_watch close_watch add_timer_at remove_timer_at
kube_reducer ws_base s b (kube (request_resource key)) = elim (lookup key s.items) [
  | none ↦ ok (with_item s key (record { is_fetching = true; item = none; error = none }), b)
  | some item ↦ ok (with_item s key item, b)
]
kube_reducer ws_base s b (kube (receive_resource key o)) = ok (with_item s key (received o), b)
kube_reducer ws_base s b (kube (receive_resource_kinds kinds)) = ok (record s { kinds = kinds }, b)
kube_reducer ws_base s b (kube (receive_kinds_error e)) =
    ok (record s { kinds = initial_kinds; kinds_error = some e }, b)
kube_reducer ws_base s b (kube (receive_resource_from_list key new)) = elim (lookup key s.items) [
  | none ↦ throw type_error
  | some item ↦ ok (with_item s key (received (receive_into new item.item)), b)
]
kube_reducer ws_base s b (kube (receive_resource_error key e)) =
    ok (with_item s key (record { is_fetching = false; item = none; error = some e }), b)
kube_reducer ws_base s b (kube (open_watch_resource ref handler listener)) =
    ok (open_watch ws_base s b ref handler listener)
kube_reducer ws_base s b (kube (close_watch_resource ref)) = ok (close_watch ws_base s b ref)
kube_reducer ws_base s b (kube (add_timer id timer)) = ok (add_timer_at s b id timer)
kube_reducer ws_base s b (kube (remove_timer id)) = ok (remove_timer_at s b id)
kube_reducer ws_base s b (location_change pathname) = ok (record s { items = [] }, b)
kube_reducer ws_base s b _ = ok (s, b)
