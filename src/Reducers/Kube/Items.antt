-- ===== src/Reducers/Kube/Items.antt =====
-- dashboard/src/reducers/kube.ts: what a message from the socket of a list does to the list.
use installer.Common.{
  String, Bool, true, false, none, some, ◌==◌, inl, inr, eq_iff, Option-cases, List, [], ◌∷◌, ◌≡◌,
  refl, arith, option_eq, any, length, ap, suc,
}
use mathlib.Core.Path.{subst}
use installer.Common.Dict.{lookup, lookup-insert}
use installer.Common.Result.{Result, TypeError, Result-cases, ok, throw, type_error, ◌>>=◌}
use installer.Types.{Resource, KubeObject, KubeItem, KubeState}
use installer.Actions.{
  request_resource, receive_resource, receive_resource_kinds, receive_kinds_error,
  receive_resource_from_list, receive_resource_error, open_watch_resource, close_watch_resource,
  add_timer, remove_timer, Action, kube, location_change,
}
use installer.Reducers.Kube.{
  Browser, update_items, receive_into, received, with_item, open_watch, close_watch, add_timer_at,
  remove_timer_at, kube_reducer,
}

abbrev pub same_link : Resource → Resource → Bool
same_link new it = option_eq it.metadata.self_link new.metadata.self_link

length-update_items :
    (new : Resource) (items : List Resource) → length (update_items new items) ≡ length items
unfolding update_items
length-update_items new [] = refl
length-update_items new (it ∷ items) = ap suc (length-update_items new items)

update_items-absent :
    (new : Resource) (items : List Resource)
    → any (same_link new) items ≡ false
    → update_items new items ≡ items
unfolding update_items
update_items-absent new [] h = refl
update_items-absent new (it ∷ items) h = ground (arith, h, update_items-absent new items)

-- A message about a resource that is not in a list that was received leaves the list as it was: a
-- resource that was created since is not shown. (A resource is recognised by its `selfLink`; two
-- resources without one count as the same.)
pub receive_resource_from_list-absent :
    (ws_base : String) (s : KubeState) (b : Browser) (key : String) (new : Resource)
    (item : KubeItem) (o : KubeObject) (items : List Resource)
    → lookup key s.items ≡ some item
    → item.item ≡ some o
    → o.items ≡ some items
    → any (same_link new) items ≡ false
    → kube_reducer ws_base s b (kube (receive_resource_from_list key new))
      ≡ ok (with_item s key (received o), b)
unfolding kube_reducer receive_into
receive_resource_from_list-absent ws_base s b key new item o items found h k absent =
    ground (arith, found, h, k, update_items-absent new items absent)

-- The actions in their order, each of which the reducer takes without an error.
abbrev pub taken :
    (ws_base : String) → KubeState → Browser → List Action → Result TypeError (KubeState × Browser)
taken ws_base s b [] = ok (s, b)
taken ws_base s b (a ∷ actions) = kube_reducer ws_base s b a >>= λ r. taken ws_base r.0 r.1 actions

-- An action that puts an item at a key: a request for it, its answer or its error.
abbrev pub asks_for : (key : String) → Action → Bool
asks_for key (kube (request_resource k)) = k == key
asks_for key (kube (receive_resource k o)) = k == key
asks_for key (kube (receive_resource_error k e)) = k == key
asks_for key _ = false

-- What is put at another key leaves a key missing.
with_item-missing :
    (s : KubeState) (k key : String) (item : KubeItem)
    → lookup key s.items ≡ none
    → (k == key) ≡ false
    → lookup key (with_item s k item).items ≡ none
with_item-missing s k key item missing other =
    ground (arith, lookup-insert k key item s.items, missing, other, eq_iff k key)

ok-missing :
    (key : String) (u t : KubeState) (d c : Browser)
    → ◌≡◌ {A = Result TypeError (KubeState × Browser)} (ok (u, d)) (ok (t, c))
    → lookup key u.items ≡ none
    → lookup key t.items ≡ none
ok-missing key u t d c e missing =
    let same : u ≡ t = ground (arith, e) in
    subst (λ (v : KubeState). lookup key v.items ≡ none) same missing

-- An action that does not ask for a key leaves it missing.
kube_reducer-missing :
    (ws_base : String) (s t : KubeState) (b c : Browser) (key : String) (a : Action)
    → lookup key s.items ≡ none
    → asks_for key a ≡ false
    → kube_reducer ws_base s b a ≡ ok (t, c)
    → lookup key t.items ≡ none
unfolding kube_reducer open_watch close_watch add_timer_at remove_timer_at lookup
kube_reducer-missing ws_base s t b c key (kube (request_resource k)) missing other e =
    let asked : KubeItem = record { is_fetching = true; item = none; error = none } in
    elim (Option-cases (lookup k s.items)) [
      | inl empty ↦
          ok-missing key (with_item s k asked) t b c (ground (arith, empty, e))
            (with_item-missing s k key asked missing other)
      | inr (item, found) ↦
          ok-missing key (with_item s k item) t b c (ground (arith, found, e))
            (with_item-missing s k key item missing other)
    ]
kube_reducer-missing ws_base s t b c key (kube (receive_resource k o)) missing other e =
    ok-missing key _ t b c e (with_item-missing s k key (received o) missing other)
kube_reducer-missing ws_base s t b c key (kube (receive_resource_kinds kinds)) missing other e =
    ok-missing key _ t b c e missing
kube_reducer-missing ws_base s t b c key (kube (receive_kinds_error err)) missing other e =
    ok-missing key _ t b c e missing
kube_reducer-missing ws_base s t b c key (kube (receive_resource_from_list k new)) missing other e =
    elim (Option-cases (lookup k s.items)) [
      | inl empty ↦ absurd (ground (arith, empty, e))
      | inr (item, found) ↦
          let elsewhere : (k == key) ≡ false = ground (arith, found, missing, eq_iff k key) in
          let put = with_item s k (received (receive_into new item.item)) in
          let now : ◌≡◌ {A = Result TypeError (KubeState × Browser)} (ok (put, b)) (ok (t, c)) =
            ground (arith, found, e) in
          ok-missing key put t b c now
            (with_item-missing s k key (received (receive_into new item.item)) missing elsewhere)
    ]
kube_reducer-missing ws_base s t b c key (kube (receive_resource_error k err)) missing other e =
    ok-missing key _ t b c e (
      with_item-missing s k key (record { is_fetching = false; item = none; error = some err })
        missing other)
kube_reducer-missing ws_base s t b c key (kube (open_watch_resource ref handler listener)) missing
      other e =
    ground (arith, e, missing)
kube_reducer-missing ws_base s t b c key (kube (close_watch_resource ref)) missing other e =
    ok-missing key _ t _ c e missing
kube_reducer-missing ws_base s t b c key (kube (add_timer id timer)) missing other e =
    ground (arith, e, missing)
kube_reducer-missing ws_base s t b c key (kube (remove_timer id)) missing other e =
    ground (arith, e, missing)
kube_reducer-missing ws_base s t b c key (location_change pathname) missing other e =
    ok-missing key _ t b c e refl
kube_reducer-missing ws_base s t b c key _ missing other e = ok-missing key s t b c e missing

taken-missing :
    (ws_base : String) (s t : KubeState) (b c : Browser) (key : String) (actions : List Action)
    → lookup key s.items ≡ none
    → any (asks_for key) actions ≡ false
    → taken ws_base s b actions ≡ ok (t, c)
    → lookup key t.items ≡ none
taken-missing ws_base s t b c key [] missing other e = ground (arith, missing, e)
taken-missing ws_base s t b c key (a ∷ actions) missing other e =
    elim (Result-cases (kube_reducer ws_base s b a)) [
      | inl (err, threw) ↦ absurd (ground (arith, threw, e))
      | inr ((u, d), now) ↦
          taken-missing ws_base u t d c key actions
            (kube_reducer-missing ws_base s u b d key a missing (ground (arith, other)) now)
            (ground (arith, other)) (ground (arith, now, e))
    ]

-- A change of address closes no socket, but drops the items: whatever actions the reducer takes after it,
-- as long as the list is not asked for again (by a request, an answer or an error), a message of
-- the list makes the reducer throw.
pub receive_resource_from_list-throws :
    (ws_base : String) (s t : KubeState) (b c : Browser) (pathname key : String) (new : Resource)
    (actions : List Action)
    → any (asks_for key) actions ≡ false
    → taken ws_base s b (location_change pathname ∷ actions) ≡ ok (t, c)
    → ((u : KubeState) × (kube_reducer ws_base s b (location_change pathname) ≡ ok (u, b))
        × (u.sockets ≡ s.sockets))
      × (kube_reducer ws_base t c (kube (receive_resource_from_list key new)) ≡ throw type_error)
unfolding kube_reducer lookup
receive_resource_from_list-throws ws_base s t b c pathname key new actions other e =
    let u : KubeState = record s { items = [] } in
    let missing = taken-missing ws_base u t b c key actions refl other e in
    ((u, refl, refl), rw (missing, kube_reducer) refl)
