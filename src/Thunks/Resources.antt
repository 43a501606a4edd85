-- ===== src/Thunks/Resources.antt =====
-- dashboard/src/actions/kube.tsx: its thunks, and the functions that they hand to sockets and timers.
pub mod Fallback
use installer.Common.{
  String, Bool, true, false, ◌&&◌, Option, none, some, List, [], ◌∷◌, if◌then◌else◌, truthy,
}
use installer.Types.{
  JsError, Resource, KubeObject, KubeItem, ResourceRef, Callback, on_message, on_error, poll,
}
use installer.Actions.{
  request_resource, receive_resource, request_resource_kinds, receive_resource_kinds,
  receive_kinds_error, receive_resource_from_list, receive_resource_error, open_watch_resource,
  add_timer, remove_timer, Action, kube,
}
use installer.Shared.Kube.{ref_url}
use installer.Client.Page.{Run, pure, catch, detach, lift, dispatch, ◌>>=◌, ◌>>◌}
use installer.Client.Platform.{SocketMessage, Platform}
use installer.Client.Endpoints.Cluster.{get_object, get_api_groups, get_resource_kinds}

unfoldable pub keep_matching : (Resource → Bool) → List Resource → List Resource
keep_matching test [] = []
keep_matching test (r ∷ rs) = let rest = keep_matching test rs in if test r then r ∷ rest else rest

-- A resource without a name is a list: a message adds to it.
unfoldable pub received_message : ResourceRef → SocketMessage → Action
received_message ref m =
    if truthy ref.name
    then kube (receive_resource (ref_url ref) m.object)
    else kube (receive_resource_from_list (ref_url ref) m.resource)

module _ (x : Platform) where
  -- The filter of `ResourceRef.getResource`.
  unfoldable pub filter_items : ResourceRef → KubeObject → KubeObject
  unfolding keep_matching
  filter_items ref o = elim o.items [
    | none ↦ o
    | some items ↦ record o { items = some (keep_matching (x.matches ref.filter) items) }
  ]

  -- What a socket does with a message, once it was opened.
  unfoldable pub handle_message : ResourceRef → (text : String) → Run (Unit {0})
  unfolding ref_url received_message
  handle_message ref text = do
    dispatch (kube (remove_timer (ref_url ref)))
    message ← lift (x.parse_message text)
    dispatch (received_message ref message)

-- What a socket does when it fails.
unfoldable pub handle_socket_error : ResourceRef → Run (Unit {0})
unfolding ref_url
handle_socket_error ref = dispatch (kube (add_timer (ref_url ref) (poll ref)))

module _ (x : Platform) (uri : String) where
  unfoldable pub get_kinds : (cluster : String) → Run (Unit {0})
  unfolding get_api_groups get_resource_kinds
  get_kinds cluster = do
    dispatch (kube request_resource_kinds)
    catch
        (do
          groups ← get_api_groups x uri cluster
          kinds ← get_resource_kinds x uri cluster groups
          dispatch (kube (receive_resource_kinds kinds)))
        (λ e. dispatch (kube (receive_kinds_error e)))

  -- `ref.getResource()`
  unfoldable pub ref_get : ResourceRef → Run KubeObject
  unfolding get_object filter_items
  ref_get ref = do
    o ←
        get_object x uri ref.cluster ref.api_version ref.plural ref.namespaced ref.namespace
          ref.name ""
    pure (filter_items x ref o)

  abbrev is_fetching : Option KubeItem → Bool
  is_fetching none = false
  is_fetching (some item) = item.is_fetching

  abbrev announce : ResourceRef → (polling : Bool) → Run (Unit {0})
  announce ref true = pure tt
  announce ref false = dispatch (kube (request_resource (ref_url ref)))

  -- `existing` is the item that the state has for the reference when the thunk starts.
  unfoldable pub get_resource :
      (existing : Option KubeItem) → ResourceRef → (polling : Bool) → Run (Unit {0})
  unfolding ref_url ref_get
  get_resource existing ref polling = if is_fetching existing then pure tt else do
    announce ref polling
    catch (do o ← ref_get ref; dispatch (kube (receive_resource (ref_url ref) o)))
        (λ e. dispatch (kube (receive_resource_error (ref_url ref) e)))

  unfoldable pub get_and_watch_resource :
      (existing : Option KubeItem) → ResourceRef → Run (Unit {0})
  unfolding get_resource
  get_and_watch_resource existing ref = do
    detach (get_resource existing ref false)
    dispatch (kube (open_watch_resource ref (on_message ref) (on_error ref)))
