-- ===== src/Reducers/Kube/Runs.antt =====
-- dashboard/src/reducers/kube.ts: the states that are reached by actions, from the start.
use installer.Common.{ℕ, String, true, false, ◌≡◌, refl, arith, is_some, Option-cases, inl, inr}
use installer.Common.Dict.{lookup}
use installer.Common.Result.{ok}
use installer.Types.{KubeState}
use installer.Actions.{
  request_resource, receive_resource, receive_resource_kinds, receive_kinds_error,
  receive_resource_from_list, receive_resource_error, open_watch_resource, close_watch_resource,
  add_timer, remove_timer, Action, kube, location_change,
}
use installer.Reducers.Kube.{Browser, initial_state, kube_reducer}
use installer.Reducers.Kube.Tracking.{open_in, running_in, IsTracked, initial_state-IsTracked}
use installer.Reducers.Kube.Leaks.{kube_reducer-IsTracked}

-- What is reached from the first state, in a browser in which nothing is open, by actions that the
-- reducer takes.
pub data Reached (ws_base : String) : KubeState → Browser → Type 0 where
  start :
      (b : Browser)
      → ((i : ℕ) → open_in b i ≡ false)
      → ((i : ℕ) → running_in b i ≡ false)
      → Reached ws_base initial_state b
  after :
      {s t : KubeState} {b c : Browser} (a : Action)
      → Reached ws_base s b
      → kube_reducer ws_base s b a ≡ ok (t, c)
      → Reached ws_base t c

Reached-IsTracked :
    (ws_base : String) {s : KubeState} {b : Browser} → Reached ws_base s b → IsTracked s b
Reached-IsTracked ws_base (start b quiet idle) = initial_state-IsTracked b quiet idle
Reached-IsTracked ws_base (after {s} {t} {b} {c} a before e) =
    kube_reducer-IsTracked ws_base s t b c a (Reached-IsTracked ws_base before) e

-- The message of a list is about a list that is there.
abbrev pub Expects : KubeState → Action → Type 0
Expects s (kube (receive_resource_from_list key new)) = is_some (lookup key s.items) ≡ true
Expects s _ = Unit

kube_reducer-ok :
    (ws_base : String) (s : KubeState) (b : Browser) (a : Action)
    → Expects s a
    → (t : KubeState) × (c : Browser) × (kube_reducer ws_base s b a ≡ ok (t, c))
unfolding kube_reducer
kube_reducer-ok ws_base s b (kube (request_resource key)) h =
    elim (Option-cases (lookup key s.items)) [
      | inl empty ↦ rw (empty, kube_reducer) (_, _, refl)
      | inr (item, found) ↦ rw (found, kube_reducer) (_, _, refl)
    ]
kube_reducer-ok ws_base s b (kube (receive_resource key o)) h = (_, _, refl)
kube_reducer-ok ws_base s b (kube (receive_resource_kinds kinds)) h = (_, _, refl)
kube_reducer-ok ws_base s b (kube (receive_kinds_error e)) h = (_, _, refl)
kube_reducer-ok ws_base s b (kube (receive_resource_from_list key new)) h =
    elim (Option-cases (lookup key s.items)) [
      | inl empty ↦ absurd (ground (arith, empty, h))
      | inr (item, found) ↦ rw (found, kube_reducer) (_, _, refl)
    ]
kube_reducer-ok ws_base s b (kube (receive_resource_error key e)) h = (_, _, refl)
kube_reducer-ok ws_base s b (kube (open_watch_resource ref handler listener)) h = (_, _, refl)
kube_reducer-ok ws_base s b (kube (close_watch_resource ref)) h = (_, _, refl)
kube_reducer-ok ws_base s b (kube (add_timer id timer)) h = (_, _, refl)
kube_reducer-ok ws_base s b (kube (remove_timer id)) h = (_, _, refl)
kube_reducer-ok ws_base s b (location_change pathname) h = (_, _, refl)
kube_reducer-ok ws_base s b _ h = (s, b, refl)

-- From every state and browser that are reached from the start, an action is taken without an error,
-- and afterwards the open sockets and the running intervals are exactly those that the state keeps,
-- each under one key: nothing is leaked, and nothing that is kept was closed. The message of a list
-- has to be about a list that is there; all other actions are free.
pub Reached-kube_reducer :
    (ws_base : String) (s : KubeState) (b : Browser) (a : Action)
    → Reached ws_base s b
    → Expects s a
    → (t : KubeState) × (c : Browser) × (kube_reducer ws_base s b a ≡ ok (t, c))
      × Reached ws_base t c
      × IsTracked t c
Reached-kube_reducer ws_base s b a before h =
    let (t, c, e) = kube_reducer-ok ws_base s b a h in
    let now : Reached ws_base t c = after a before e in
    (t, c, e, now, Reached-IsTracked ws_base now)
