-- ===== src/Thunks/Resources/Fallback.antt =====
-- dashboard/src/actions/kube.tsx with dashboard/src/reducers/kube.ts: the poll that replaces a socket.
use installer.Common.{
  String, true, none, some, List, [], ◌∷◌, ◌≡◌, refl, ap, arith, truthy, nat_eq_iff, inl, inr,
  if◌then◌else◌,
}
use installer.Common.Dict.{insert, lookup-insert_self}
use installer.Common.Result.{Result, ok, throw, TypeError, Result-cases}
use installer.Types.{ResourceRef, Callback, poll, KubeState}
use installer.Actions.{Action, kube, receive_resource, receive_resource_from_list}
use installer.Shared.Kube.{ref_url}
use installer.Reducers.Kube.{
  Browser, with_item, received, kube_reducer, timer_at, set_interval, clear_interval, add_timer_at,
  remove_timer_at,
}
use installer.Client.Page.{Page, Run}
use installer.Client.Platform.{SocketMessage, Platform}
use installer.Thunks.Resources.{received_message, handle_message, handle_socket_error}

-- What a run dispatches.
abbrev pub actions_of : {A : Type 0} → Run A → Page → List Action
actions_of m p = (m (record p { sent = [] })).1.sent

-- The reducer on actions in their order.
abbrev pub kube_run :
    (ws_base : String) → List Action → KubeState → Browser → Result TypeError (KubeState × Browser)
kube_run ws_base [] s b = ok (s, b)
kube_run ws_base (a ∷ actions) s b = elim (kube_reducer ws_base s b a) [
  | throw e ↦ throw e
  | ok (t, c) ↦ kube_run ws_base actions t c
]

remove-set_interval :
    (s : KubeState) (b : Browser) (id : String) (callback : Callback)
    → timer_at s.timers id ≡ none
    → let t : KubeState = record s { timers = insert id (some b.next) s.timers } in
      let c = set_interval callback b in
      (add_timer_at s b id callback ≡ (t, c))
      × (timer_at t.timers id ≡ some b.next)
      × (c.intervals b.next ≡ some callback)
      × (remove_timer_at t c id
          ≡ (record t { timers = insert id none t.timers }, clear_interval b.next c))
      × (timer_at (insert id none t.timers) id ≡ none)
      × ((clear_interval b.next c).intervals b.next ≡ none)
unfolding add_timer_at remove_timer_at set_interval clear_interval
remove-set_interval s b id callback h =
    let set = lookup-insert_self id (some b.next) s.timers in
    let unset = lookup-insert_self id none (insert id (some b.next) s.timers) in
    let here = nat_eq_iff b.next b.next in
    (
      ground (arith, h),
      ground (arith, set),
      ground (arith, here),
      ground (arith, set),
      ground (arith, unset),
      ground (arith, here),
    )

received_message-single :
    (ref : ResourceRef) (m : SocketMessage)
    → truthy ref.name ≡ true
    → received_message ref m ≡ kube (receive_resource (ref_url ref) m.object)
unfolding received_message
received_message-single ref m h =
    ap
      (λ c.
        if c
        then kube (receive_resource (ref_url ref) m.object)
        else kube (receive_resource_from_list (ref_url ref) m.resource))
      h

-- A socket that fails, and works again. Where no poll runs for the address of a single resource: the error of its
-- socket starts one, which the state keeps under the address; the next message, be it readable or not,
-- stops it, and the state keeps none. The reducer takes all these actions.
pub handle_message-handle_socket_error :
    (x : Platform) (ws_base : String) (ref : ResourceRef) (text : String) (p : Page) (s : KubeState)
    (b : Browser)
    → timer_at s.timers (ref_url ref) ≡ none
    → truthy ref.name ≡ true
    → (t : KubeState) × (c : Browser) × (u : KubeState) × (d : Browser) × (kube_run ws_base
          (actions_of (handle_socket_error ref) p)
          s
          b
        ≡ ok (t, c))
      × (timer_at t.timers (ref_url ref) ≡ some b.next)
      × (c.intervals b.next ≡ some (poll ref))
      × (kube_run ws_base (actions_of (handle_message x ref text) p) t c ≡ ok (u, d))
      × (timer_at u.timers (ref_url ref) ≡ none)
      × (d.intervals b.next ≡ none)
unfolding handle_socket_error handle_message kube_reducer
handle_message-handle_socket_error x ws_base ref text p s b h single =
    let id = ref_url ref in
    let t : KubeState = record s { timers = insert id (some b.next) s.timers } in
    let c = set_interval (poll ref) b in
    let u : KubeState = record t { timers = insert id none t.timers } in
    let d = clear_interval b.next c in
    let (added, kept, runs, removed, none_kept, stopped) =
      remove-set_interval s b id (poll ref) h in
    elim (Result-cases (x.parse_message text)) [
      | inl (e, unread) ↦ (
        t,
        c,
        u,
        d,
        rw added refl,
        kept,
        runs,
        rw (unread, handle_message) (ap (λ (r : KubeState × Browser). ok r) removed),
        none_kept,
        stopped,
      )
      | inr (m, read) ↦ (
        t,
        c,
        with_item u id (received m.object),
        d,
        rw added refl,
        kept,
        runs,
        rw (read, handle_message)
            (rw (received_message-single ref m single) (
              ap (λ (r : KubeState × Browser). ok (with_item r.0 id (received m.object), r.1))
                removed)),
        none_kept,
        stopped,
      )
    ]
