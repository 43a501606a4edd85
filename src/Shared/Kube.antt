-- ===== src/Shared/Kube.antt =====
-- dashboard/src/shared/Kube.ts and dashboard/src/shared/ResourceRef.ts: references to resources of
-- the Kubernetes API, and their addresses. The namespace, the name and the query are optional in the
-- source, and an empty text is the same as none.
use Prim.Native.String.{◌++◌}
use installer.Common.{String, Bool, ◌&&◌, ◌||◌, ◌==◌, if◌then◌else◌, truthy, or_else, not}
use installer.Types.{Json, Resource, ResourceRef}
use installer.Shared.Url.Api.{k8s_base}

-- `Kube.getResourceURL`
unfoldable pub get_resource_url :
    (cluster api_version resource : String) (namespaced : Bool) (namespace name query : String)
    → String
unfolding k8s_base
get_resource_url cluster api_version resource namespaced namespace name query =
    let version : String =
      if api_version == "v1" || not (truthy api_version)
      then "api/v1"
      else "apis/" ++ api_version in
    let scope : String =
      if namespaced && truthy namespace then "/namespaces/" ++ namespace else "" in
    let item : String = if truthy name then "/" ++ name else "" in
    let search : String = if truthy query then "?" ++ query else "" in
    k8s_base cluster ++ ("/" ++ (version ++ (scope ++ (("/" ++ resource) ++ (item ++ search)))))

-- `Kube.watchResourceURL`, with the `WebSocketAPIBase` of the page.
unfoldable pub watch_resource_url :
    (ws_base cluster api_version resource : String) (namespaced : Bool)
    (namespace name query : String)
    → String
unfolding get_resource_url
watch_resource_url ws_base cluster api_version resource namespaced namespace name query =
    let selector : String = if truthy name then "&fieldSelector=metadata.name%3D" ++ name else "" in
    let search : String = if truthy query then "&" ++ query else "" in
    ws_base
    ++ (get_resource_url cluster api_version resource namespaced namespace "" ""
        ++ ("?watch=true" ++ (selector ++ search)))

-- The constructor of `ResourceRef`.
unfoldable pub resource_ref :
    Resource
    → (cluster plural : String) (namespaced : Bool) (default_namespace : String) → ResourceRef
resource_ref r cluster plural namespaced default_namespace = record {
  cluster = cluster;
  api_version = r.api_version;
  kind = r.kind;
  plural = plural;
  namespaced = namespaced;
  name = r.metadata.name;
  namespace = if namespaced then or_else r.metadata.namespace default_namespace else "";
  filter = Json.null;
}

unfoldable pub ref_url : ResourceRef → String
unfolding get_resource_url
ref_url r = get_resource_url r.cluster r.api_version r.plural r.namespaced r.namespace r.name ""

unfoldable pub ref_watch_url : (ws_base : String) → ResourceRef → String
unfolding watch_resource_url
ref_watch_url ws_base r =
    watch_resource_url ws_base r.cluster r.api_version r.plural r.namespaced r.namespace r.name ""
