-- ===== src/Reducers/Kube/Leaks.antt =====
-- dashboard/src/reducers/kube.ts: no socket and no timer is leaked or closed twice.
use mathlib.Core.Path.{subst}
use installer.Common.{
  ℕ, ◌+◌, String, none, some, ◌≡◌, refl, arith, eq_iff, is_some, nat_eq_iff, Option-cases, inl, inr,
}
use installer.Common.Dict.{lookup, insert, without, lookup-insert, lookup-without}
use installer.Common.Result.{Result, ok, throw, TypeError}
use installer.Types.{ResourceRef, Callback, Watch, KubeState}
use installer.Actions.{
  request_resource, receive_resource, receive_resource_kinds, receive_kinds_error,
  receive_resource_from_list, receive_resource_error, open_watch_resource, close_watch_resource,
  add_timer, remove_timer, Action, kube, location_change,
}
use installer.Shared.Kube.{ref_url, ref_watch_url}
use installer.Reducers.Kube.{
  stop_socket, stop_timer, Browser, open_socket, close_socket, set_interval, clear_interval,
  timer_at, open_watch, close_watch, add_timer_at, remove_timer_at, kube_reducer,
}
use installer.Reducers.Kube.Tracking.{socket_at, open_in, running_in, IsTracked}
use installer.Reducers.Kube.Registry.{
  update, Tracks, Tracks-ext, Tracks-later, Tracks-open, Tracks-close,
}

module _ (s : KubeState) (b : Browser) (tracked : IsTracked s b) where
  set_timer-Tracks :
      (id : String) (timer : Callback)
      → timer_at s.timers id ≡ none
      → Tracks
          (timer_at (insert id (some b.next) s.timers))
          (λ i. is_some (update b.intervals b.next (some timer) i))
          (b.next + 1)
  set_timer-Tracks id timer empty =
      Tracks-ext (λ k. ground (arith, lookup-insert id k (some b.next) s.timers))
        (λ i. ground arith)
        (Tracks-open (timer_at s.timers) (running_in b) b.next tracked.timers id empty)

  add_timer_at-IsTracked :
      (id : String) (timer : Callback)
      → IsTracked (add_timer_at s b id timer).0 (add_timer_at s b id timer).1
  unfolding add_timer_at set_interval
  add_timer_at-IsTracked id timer = elim (Option-cases (timer_at s.timers id)) [
    | inl empty ↦
        rw (empty, add_timer_at)
          (record {
            sockets = Tracks-later _ _ _ tracked.sockets (b.next + 1) (omega arith);
            timers = set_timer-Tracks id timer empty;
          })
    | inr (i, found) ↦ rw (found, add_timer_at) tracked
  ]

  clear_timer-Tracks :
      (id : String) (i : ℕ)
      → timer_at s.timers id ≡ some i
      → Tracks
          (timer_at (insert id none s.timers))
          (λ j. is_some (update b.intervals i none j))
          b.next
  clear_timer-Tracks id i found =
      Tracks-ext (λ k. ground (arith, lookup-insert id k none s.timers)) (λ j. ground arith)
        (Tracks-close (timer_at s.timers) (running_in b) b.next tracked.timers id i found)

  remove_timer_at-IsTracked :
      (id : String) → IsTracked (remove_timer_at s b id).0 (remove_timer_at s b id).1
  unfolding remove_timer_at clear_interval
  remove_timer_at-IsTracked id = elim (Option-cases (timer_at s.timers id)) [
    | inl empty ↦ rw (empty, remove_timer_at) tracked
    | inr (i, found) ↦
        rw (found, remove_timer_at)
          (record { sockets = tracked.sockets; timers = clear_timer-Tracks id i found })
  ]

  empty_timer-Tracks :
      (id : String)
      → timer_at s.timers id ≡ none
      → Tracks (timer_at (insert id none s.timers)) (running_in b) b.next
  empty_timer-Tracks id empty =
      Tracks-ext (λ k. ground (arith, empty, lookup-insert id k none s.timers, eq_iff id k))
        (λ j. refl) tracked.timers

module _ (ws_base : String) (s : KubeState) (b : Browser) (tracked : IsTracked s b) where
  open_watch-IsTracked :
      (ref : ResourceRef) (handler listener : Callback)
      → IsTracked
          (open_watch ws_base s b ref handler listener).0
          (open_watch ws_base s b ref handler listener).1
  unfolding open_watch open_socket
  open_watch-IsTracked ref handler listener =
      let key = ref_watch_url ws_base ref in
      elim (Option-cases (lookup key s.sockets)) [
        | inl empty ↦
            rw (empty, open_watch)
              (record {
                sockets =
                    Tracks-ext
                      (λ k. ground (
                        arith,
                        lookup-insert key k (record { socket = b.next; on_error = listener })
                            s.sockets,
                      ))
                      (λ i. ground arith)
                      (Tracks-open (socket_at s.sockets) (open_in b) b.next tracked.sockets key
                        (ground (arith, empty)));
                timers = Tracks-later _ _ _ tracked.timers (b.next + 1) (omega arith);
              })
        | inr (w, found) ↦ rw (found, open_watch) tracked
      ]

  close_socket-Tracks :
      (key : String) (w : Watch)
      → lookup key s.sockets ≡ some w
      → Tracks (socket_at (without key s.sockets)) (open_in (close_socket w.socket b)) b.next
  unfolding close_socket
  close_socket-Tracks key w found =
      Tracks-ext (λ k. ground (arith, lookup-without key k s.sockets))
        (λ i. ground (arith, nat_eq_iff w.socket i))
        (Tracks-close (socket_at s.sockets) (open_in b) b.next tracked.sockets key w.socket
          (ground (arith, found)))

  stop_socket-IsTracked :
      (key : String)
      → IsTracked
          (record s { sockets = without key s.sockets })
          (stop_socket (lookup key s.sockets) b)
  unfolding stop_socket
  stop_socket-IsTracked key = elim (Option-cases (lookup key s.sockets)) [
    | inl empty ↦
        rw (empty, stop_socket)
          (record {
            sockets =
                Tracks-ext
                  (λ k. ground (arith, empty, lookup-without key k s.sockets, eq_iff key k))
                  (λ i. refl) tracked.sockets;
            timers = tracked.timers;
          })
    | inr (w, found) ↦
        rw (found, stop_socket)
          (record { sockets = close_socket-Tracks key w found; timers = tracked.timers })
  ]

  stop_timer-IsTracked :
      (id : String)
      → IsTracked
          (record s { timers = insert id none s.timers })
          (stop_timer (timer_at s.timers id) b)
  unfolding stop_timer clear_interval
  stop_timer-IsTracked id = elim (Option-cases (timer_at s.timers id)) [
    | inl empty ↦
        rw (empty, stop_timer)
          (record { sockets = tracked.sockets; timers = empty_timer-Tracks s b tracked id empty })
    | inr (i, found) ↦
        rw (found, stop_timer)
          (record { sockets = tracked.sockets; timers = clear_timer-Tracks s b tracked id i found })
  ]

close_watch-IsTracked :
    (ws_base : String) (s : KubeState) (b : Browser) (ref : ResourceRef)
    → IsTracked s b
    → IsTracked (close_watch ws_base s b ref).0 (close_watch ws_base s b ref).1
unfolding close_watch
close_watch-IsTracked ws_base s b ref tracked =
    let key = ref_watch_url ws_base ref in
    stop_timer-IsTracked ws_base (record s { sockets = without key s.sockets })
      (stop_socket (lookup key s.sockets) b) (stop_socket-IsTracked ws_base s b tracked key)
      (ref_url ref)

abbrev TracksResult : Result TypeError (KubeState × Browser) → Type 0
TracksResult (ok r) = IsTracked r.0 r.1
TracksResult (throw e) = Unit

module _ (ws_base : String) (s : KubeState) (b : Browser) (tracked : IsTracked s b) where
  -- The sockets and timers of another state are those of `s`.
  same : (t : KubeState) → t.sockets ≡ s.sockets → t.timers ≡ s.timers → IsTracked t b
  same t e f = record { sockets = rw e tracked.sockets; timers = rw f tracked.timers }

  kube_reducer-TracksResult : (a : Action) → TracksResult (kube_reducer ws_base s b a)
  unfolding kube_reducer
  kube_reducer-TracksResult (kube (request_resource key)) =
      elim (Option-cases (lookup key s.items)) [
        | inl empty ↦ rw (empty, kube_reducer) (same _ refl refl)
        | inr (item, found) ↦ rw (found, kube_reducer) (same _ refl refl)
      ]
  kube_reducer-TracksResult (kube (receive_resource key o)) = same _ refl refl
  kube_reducer-TracksResult (kube (receive_resource_kinds kinds)) = same _ refl refl
  kube_reducer-TracksResult (kube (receive_kinds_error e)) = same _ refl refl
  kube_reducer-TracksResult (kube (receive_resource_from_list key new)) =
      elim (Option-cases (lookup key s.items)) [
        | inl empty ↦ rw (empty, kube_reducer) tt
        | inr (item, found) ↦ rw (found, kube_reducer) (same _ refl refl)
      ]
  kube_reducer-TracksResult (kube (receive_resource_error key e)) = same _ refl refl
  kube_reducer-TracksResult (kube (open_watch_resource ref handler listener)) =
      open_watch-IsTracked ws_base s b tracked ref handler listener
  kube_reducer-TracksResult (kube (close_watch_resource ref)) =
      close_watch-IsTracked ws_base s b ref tracked
  kube_reducer-TracksResult (kube (add_timer id timer)) =
      add_timer_at-IsTracked s b tracked id timer
  kube_reducer-TracksResult (kube (remove_timer id)) = remove_timer_at-IsTracked s b tracked id
  kube_reducer-TracksResult (location_change pathname) = same _ refl refl
  kube_reducer-TracksResult _ = tracked

-- Whatever the action, the sockets that are open and the intervals that run after it are exactly
-- those that the state keeps, each under one key, if that was so before: nothing is leaked, and
-- nothing that is kept was closed.
pub kube_reducer-IsTracked :
    (ws_base : String) (s t : KubeState) (b c : Browser) (a : Action)
    → IsTracked s b
    → kube_reducer ws_base s b a ≡ ok (t, c)
    → IsTracked t c
kube_reducer-IsTracked ws_base s t b c a tracked e =
    subst TracksResult e (kube_reducer-TracksResult ws_base s b tracked a)
