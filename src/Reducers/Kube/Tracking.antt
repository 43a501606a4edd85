-- ===== src/Reducers/Kube/Tracking.antt =====
-- dashboard/src/reducers/kube.ts: the sockets and timers that the state keeps, and those of the
-- browser.
use installer.Common.{ℕ, String, Bool, false, Option, none, some, ◌≡◌, arith, is_some}
use installer.Common.Dict.{Dict, lookup}
use installer.Types.{Watch, KubeState}
use installer.Reducers.Kube.{initial_state, Socket, Browser, timer_at}
use installer.Reducers.Kube.Registry.{Tracks}

-- The socket that the state keeps for a watched address.
abbrev pub socket_at : Dict Watch → String → Option ℕ
socket_at sockets key = elim (lookup key sockets) [ none ↦ none | some w ↦ some w.socket ]

abbrev pub is_open_socket : Option Socket → Bool
is_open_socket none = false
is_open_socket (some s) = s.is_open

abbrev pub open_in : Browser → ℕ → Bool
open_in b i = is_open_socket (b.sockets i)

abbrev pub running_in : Browser → ℕ → Bool
running_in b i = is_some (b.intervals i)

-- The open sockets and the running intervals of the browser are exactly those that the state keeps,
-- each under one key.
pub record IsTracked (s : KubeState) (b : Browser) : Type 0 where
  pub sockets : Tracks (socket_at s.sockets) (open_in b) b.next
  pub timers : Tracks (timer_at s.timers) (running_in b) b.next

-- At the start nothing is open.
pub initial_state-IsTracked :
    (b : Browser)
    → ((i : ℕ) → open_in b i ≡ false)
    → ((i : ℕ) → running_in b i ≡ false)
    → IsTracked initial_state b
unfolding initial_state lookup
initial_state-IsTracked b quiet idle = record {
  sockets = record {
    held_live = λ k i h. absurd (ground (arith, h));
    live_held = λ i l. absurd (ground (arith, l, quiet i));
    one_key = λ k j i h g. absurd (ground (arith, h));
    fresh = λ i l. absurd (ground (arith, l, quiet i));
  };
  timers = record {
    held_live = λ k i h. absurd (ground (arith, h));
    live_held = λ i l. absurd (ground (arith, l, idle i));
    one_key = λ k j i h g. absurd (ground (arith, h));
    fresh = λ i l. absurd (ground (arith, l, idle i));
  };
}
