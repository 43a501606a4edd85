-- ===== src/Reducers/Kube/Watching.antt =====
-- dashboard/src/reducers/kube.ts: opening and closing the watch of a reference.
use installer.Common.{
  ℕ, String, true, false, Option, none, some, ◌≡◌, refl, arith, eq_iff, nat_eq_iff,
}
use installer.Common.Dict.{lookup, insert, lookup-insert_self, lookup-without, without-insert}
use installer.Types.{ResourceRef, Callback, Watch, KubeState}
use installer.Shared.Kube.{ref_url, ref_watch_url}
use installer.Reducers.Kube.{
  Socket, Browser, close_socket, clear_interval, stop_socket, stop_timer, timer_at, open_socket,
  open_watch, close_watch,
}

stop_timer-sockets : (o : Option ℕ) (b : Browser) → (stop_timer o b).sockets ≡ b.sockets
unfolding stop_timer clear_interval
stop_timer-sockets none b = refl
stop_timer-sockets (some i) b = refl

-- Closing the watch of a reference whose socket is kept and open: the socket is closed, and its
-- error listener is gone, so that a late error cannot set a timer; neither the socket nor a timer is
-- kept for the reference.
pub close_watch-silent :
    (ws_base : String) (s : KubeState) (b : Browser) (ref : ResourceRef) (w : Watch) (sock : Socket)
    → lookup (ref_watch_url ws_base ref) s.sockets ≡ some w
    → b.sockets w.socket ≡ some sock
    → ((close_watch ws_base s b ref).1.sockets w.socket
        ≡ some (record sock { is_open = false; on_error = none }))
      × (lookup (ref_watch_url ws_base ref) (close_watch ws_base s b ref).0.sockets ≡ none)
      × (timer_at (close_watch ws_base s b ref).0.timers (ref_url ref) ≡ none)
unfolding close_watch stop_socket close_socket
close_watch-silent ws_base s b ref w sock found there =
    let key = ref_watch_url ws_base ref in
    let id = ref_url ref in
    (
      rw (stop_timer-sockets (timer_at s.timers id) (stop_socket (lookup key s.sockets) b))
          (ground (arith, found, there, nat_eq_iff w.socket w.socket)),
      ground (arith, lookup-without key key s.sockets, eq_iff key key),
      ground (arith, lookup-insert_self id none s.timers),
    )

-- Opening the watch of a reference that is not watched, and closing it, leaves the sockets that the
-- state keeps as they were, and the socket that was opened closed and without its error listener.
pub close-open_watch :
    (ws_base : String) (s : KubeState) (b : Browser) (ref : ResourceRef)
    (handler listener : Callback)
    → lookup (ref_watch_url ws_base ref) s.sockets ≡ none
    → (t : KubeState) × (c : Browser) × (open_watch ws_base s b ref handler listener ≡ (t, c))
      × ((close_watch ws_base t c ref).0.sockets ≡ s.sockets)
      × ((close_watch ws_base t c ref).1.sockets b.next
          ≡ some (record {
            url = ref_watch_url ws_base ref;
            is_open = false;
            on_message = some handler;
            on_error = none;
          }))
unfolding close_watch open_watch open_socket
close-open_watch ws_base s b ref handler listener empty =
    let key = ref_watch_url ws_base ref in
    let w : Watch = record { socket = b.next; on_error = listener } in
    let t = record s { sockets = insert key w s.sockets } in
    let c = open_socket key handler listener b in
    (
      t,
      c,
      ground (arith, empty),
      without-insert key w s.sockets empty,
      (close_watch-silent ws_base t c ref w
          (record {
            url = key;
            is_open = true;
            on_message = some handler;
            on_error = some listener;
          })
          (lookup-insert_self key w s.sockets) (ground (arith, nat_eq_iff b.next b.next))).0,
    )
