-- ===== src/Views/Application/Watches.antt =====
-- dashboard/src/components/AppView/AppView.tsx with dashboard/src/reducers/kube.ts: the watches of a
-- page that is left.
use mathlib.Core.Path.{subst}
use installer.Common.{
  ℕ, zero, suc, String, none, some, List, [], ◌∷◌, map, ◌≡◌, refl, ap, arith, get_elem?, eq_iff,
}
use installer.Common.Dict.{lookup, lookup-without, lookup-insert}
use installer.Common.Result.{ok}
use installer.Types.{ResourceRef, KubeState}
use installer.Actions.{kube, close_watch_resource}
use installer.Shared.Kube.{ref_url, ref_watch_url}
use installer.Reducers.Kube.{Browser, close_watch, timer_at, kube_reducer}
use installer.Thunks.Resources.Fallback.{kube_run}
use installer.Views.Application.{AppViewResourceRefs, all_refs, cleanup}

-- The state keeps no socket and no timer for a reference.
abbrev pub IsUnwatched : (ws_base : String) → ResourceRef → KubeState → Type 0
IsUnwatched ws_base ref s =
    (lookup (ref_watch_url ws_base ref) s.sockets ≡ none) × (timer_at s.timers (ref_url ref) ≡ none)

module _ (ws_base : String) where
  closed : List ResourceRef → KubeState → Browser → KubeState × Browser
  closed [] s b = (s, b)
  closed (ref ∷ refs) s b =
      closed refs (close_watch ws_base s b ref).0 (close_watch ws_base s b ref).1

  kube_run-closed :
      (refs : List ResourceRef) (s : KubeState) (b : Browser)
      → kube_run ws_base (map (λ ref. kube (close_watch_resource ref)) refs) s b
        ≡ ok (closed refs s b)
  unfolding kube_reducer closed
  kube_run-closed [] s b = refl
  kube_run-closed (ref ∷ refs) s b =
      kube_run-closed refs (close_watch ws_base s b ref).0 (close_watch ws_base s b ref).1

  close_watch-IsUnwatched :
      (s : KubeState) (b : Browser) (ref : ResourceRef)
      → IsUnwatched ws_base ref (close_watch ws_base s b ref).0
  unfolding close_watch
  close_watch-IsUnwatched s b ref =
      let key = ref_watch_url ws_base ref in
      let id = ref_url ref in
      (
        ground (arith, lookup-without key key s.sockets, eq_iff key key),
        ground (arith, lookup-insert id id none s.timers, eq_iff id id),
      )

  close_watch-keeps_IsUnwatched :
      (s : KubeState) (b : Browser) (ref other : ResourceRef)
      → IsUnwatched ws_base ref s
      → IsUnwatched ws_base ref (close_watch ws_base s b other).0
  unfolding close_watch
  close_watch-keeps_IsUnwatched s b ref other h =
      let key = ref_watch_url ws_base ref in
      let id = ref_url ref in
      (
        ground (arith, lookup-without (ref_watch_url ws_base other) key s.sockets, h),
        ground (arith, lookup-insert (ref_url other) id none s.timers, h),
      )

  closed-keeps_IsUnwatched :
      (refs : List ResourceRef) (s : KubeState) (b : Browser) (ref : ResourceRef)
      → IsUnwatched ws_base ref s
      → IsUnwatched ws_base ref (closed refs s b).0
  unfolding closed
  closed-keeps_IsUnwatched [] s b ref h = h
  closed-keeps_IsUnwatched (other ∷ refs) s b ref h =
      closed-keeps_IsUnwatched refs (close_watch ws_base s b other).0
        (close_watch ws_base s b other).1 ref (close_watch-keeps_IsUnwatched s b ref other h)

  closed-IsUnwatched :
      (refs : List ResourceRef) (i : ℕ) (ref : ResourceRef) (s : KubeState) (b : Browser)
      → get_elem? refs i ≡ some ref
      → IsUnwatched ws_base ref (closed refs s b).0
  unfolding closed
  closed-IsUnwatched [] i ref s b h = absurd (ground (arith, h))
  closed-IsUnwatched (other ∷ refs) zero ref s b h =
      let t = close_watch ws_base s b other in
      let same : other ≡ ref = ap (λ o. elim o [ none ↦ other | some r ↦ r ]) h in
      subst (λ r. IsUnwatched ws_base r (closed refs t.0 t.1).0) same
        (closed-keeps_IsUnwatched refs t.0 t.1 other (close_watch-IsUnwatched s b other))
  closed-IsUnwatched (other ∷ refs) (suc i) ref s b h =
      closed-IsUnwatched refs i ref (close_watch ws_base s b other).0
        (close_watch ws_base s b other).1 h

  -- When the page of a release is left, the reducer takes all the actions of its cleanup, and then the
  -- state keeps neither a socket nor a timer for any of the page's references, whatever was watched
  -- or polled before.
  pub cleanup-IsUnwatched :
      (rs : AppViewResourceRefs) (s : KubeState) (b : Browser) (i : ℕ) (ref : ResourceRef)
      → get_elem? (all_refs rs) i ≡ some ref
      → (t : KubeState) × (c : Browser) × (kube_run ws_base (cleanup rs) s b ≡ ok (t, c))
        × IsUnwatched ws_base ref t
  unfolding cleanup
  cleanup-IsUnwatched rs s b i ref h = (
    (closed (all_refs rs) s b).0,
    (closed (all_refs rs) s b).1,
    kube_run-closed (all_refs rs) s b,
    closed-IsUnwatched (all_refs rs) i ref s b h,
  )
