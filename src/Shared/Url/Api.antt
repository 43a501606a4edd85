-- ===== src/Shared/Url/Api.antt =====
-- dashboard/src/shared/url.ts: the addresses of the back ends and of the Kubernetes API. `encode` is
-- the browser's `encodeURIComponent`, and `show` the decimal text of a number. A template is a
-- concatenation that associates to the right.
use Prim.Native.String.{◌++◌}
use installer.Common.{ℕ, String, if◌then◌else◌, truthy}

-- `withNS`
unfoldable pub with_ns : (namespace : String) → String
with_ns namespace = if truthy namespace then "namespaces/" ++ (namespace ++ "/") else ""

-- `backend.namespaces.list`
unfoldable pub backend_namespaces : (cluster : String) → String
backend_namespaces cluster = "api/v1/clusters/" ++ (cluster ++ "/namespaces")

-- `backend.apprepositories.base`, and its `create` and `list`.
unfoldable pub apprepositories_base : (cluster namespace : String) → String
unfolding with_ns
apprepositories_base cluster namespace =
    "api/v1/clusters/" ++ (cluster ++ ("/" ++ (with_ns namespace ++ "apprepositories")))

unfoldable pub apprepositories_validate : (cluster namespace : String) → String
unfolding apprepositories_base
apprepositories_validate cluster namespace = apprepositories_base cluster namespace ++ "/validate"

-- `backend.apprepositories.delete` and `update`.
unfoldable pub apprepositories_named : (cluster namespace name : String) → String
unfolding apprepositories_base
apprepositories_named cluster namespace name =
    apprepositories_base cluster namespace ++ ("/" ++ name)

unfoldable pub apprepositories_refresh : (cluster namespace name : String) → String
unfolding apprepositories_base
apprepositories_refresh cluster namespace name =
    apprepositories_base cluster namespace ++ ("/" ++ (name ++ "/refresh"))

-- `backend.canI`
unfoldable pub can_i_url : (cluster : String) → String
can_i_url cluster = "api/v1/clusters/" ++ (cluster ++ "/can-i")

-- `kubeops.releases`
unfoldable pub releases_list : (cluster namespace : String) → String
releases_list cluster namespace =
    "api/kubeops/v1/clusters/" ++ (cluster ++ ("/namespaces/" ++ (namespace ++ "/releases")))

unfoldable pub releases_list_all : (cluster : String) → String
releases_list_all cluster = "api/kubeops/v1/clusters/" ++ (cluster ++ "/releases")

unfoldable pub releases_get : (cluster namespace name : String) → String
unfolding releases_list
releases_get cluster namespace name = releases_list cluster namespace ++ ("/" ++ name)

-- `api.charts`
unfoldable pub charts_base : (cluster namespace : String) → String
charts_base cluster namespace =
    "api/assetsvc/v1/clusters/" ++ (cluster ++ ("/namespaces/" ++ namespace))

unfoldable pub charts_chart : (cluster namespace id : String) → String
unfolding charts_base
charts_chart cluster namespace id = charts_base cluster namespace ++ ("/charts/" ++ id)

unfoldable pub charts_versions : (cluster namespace id : String) → String
unfolding charts_chart
charts_versions cluster namespace id = charts_chart cluster namespace id ++ "/versions"

unfoldable pub charts_categories : (cluster namespace : String) → String
unfolding charts_base
charts_categories cluster namespace = charts_base cluster namespace ++ "/charts/categories"

-- `api.charts.list`: the query is optional, and an empty one is the same as none.
unfoldable pub charts_list :
    (show : ℕ → String) (cluster namespace repos : String) (page size : ℕ) (query : String) → String
unfolding charts_base
charts_list show cluster namespace repos page size query =
    let search : String = if truthy query then "&q=" ++ query else "" in
    let from : String = if truthy repos then "&repos=" ++ repos else "" in
    charts_base cluster namespace
    ++ ("/charts?page=" ++ (show page ++ ("&size=" ++ (show size ++ (search ++ from)))))

module _ (encode : String → String) where
  unfoldable pub charts_version : (cluster namespace id version : String) → String
  unfolding charts_chart
  charts_version cluster namespace id version =
      charts_chart cluster namespace id ++ ("/versions/" ++ encode version)

  -- `getReadme`, `getValues` and `getSchema`, which differ in the name of the file.
  unfoldable pub charts_asset : (file cluster namespace id version : String) → String
  unfolding charts_base
  charts_asset file cluster namespace id version =
      charts_base cluster namespace
      ++ ("/assets/" ++ (id ++ ("/versions/" ++ (encode version ++ ("/" ++ file)))))

  -- The address of `Chart.listWithFilters`.
  unfoldable pub charts_filtered : (cluster namespace name version app_version : String) → String
  unfolding charts_base
  charts_filtered cluster namespace name version app_version =
      charts_base cluster namespace
      ++ ("/charts?name="
          ++ (encode name ++ ("&version=" ++ (encode version ++ ("&appversion=" ++ app_version)))))

-- `api.k8s.base`
unfoldable pub k8s_base : (cluster : String) → String
k8s_base cluster = "api/clusters/" ++ cluster

unfoldable pub k8s_namespaces : (cluster : String) → String
unfolding k8s_base
k8s_namespaces cluster = k8s_base cluster ++ "/api/v1/namespaces"

unfoldable pub k8s_namespace : (cluster namespace : String) → String
unfolding k8s_namespaces
k8s_namespace cluster namespace =
    if truthy namespace
    then k8s_namespaces cluster ++ ("/" ++ namespace)
    else k8s_base cluster ++ "/api/v1"

-- `api.k8s.secrets`: an empty selector is the same as none.
unfoldable pub k8s_secrets :
    (encode : String → String) (cluster namespace field_selector : String) → String
unfolding k8s_namespace
k8s_secrets encode cluster namespace field_selector =
    let search : String =
      if truthy field_selector then "?fieldSelector=" ++ encode field_selector else "" in
    k8s_namespace cluster namespace ++ ("/secrets" ++ search)

unfoldable pub k8s_secret : (encode : String → String) (cluster namespace name : String) → String
unfolding k8s_secrets
k8s_secret encode cluster namespace name = k8s_secrets encode cluster namespace "" ++ ("/" ++ name)

-- `api.k8s.operators`: a list of a group's resources, in one namespace or in all.
unfoldable pub operators_resources : (cluster namespace api_version resource : String) → String
unfolding k8s_base with_ns
operators_resources cluster namespace api_version resource =
    k8s_base cluster ++ ("/apis/" ++ (api_version ++ ("/" ++ (with_ns namespace ++ resource))))

unfoldable pub operators_resource : (cluster namespace api_version resource name : String) → String
unfolding k8s_base
operators_resource cluster namespace api_version resource name =
    k8s_base cluster
    ++ ("/apis/"
        ++ (api_version ++ ("/namespaces/" ++ (namespace ++ ("/" ++ (resource ++ ("/" ++ name)))))))

-- `operators`, `operator`, `clusterServiceVersions` and `clusterServiceVersion`.
unfoldable pub package_manifests : (cluster namespace : String) → String
unfolding operators_resources
package_manifests cluster namespace =
    operators_resources cluster namespace "packages.operators.coreos.com/v1" "packagemanifests"

unfoldable pub package_manifest : (cluster namespace name : String) → String
unfolding operators_resource
package_manifest cluster namespace name =
    operators_resource cluster namespace "packages.operators.coreos.com/v1" "packagemanifests" name

unfoldable pub cluster_service_versions : (cluster namespace : String) → String
unfolding operators_resources
cluster_service_versions cluster namespace =
    operators_resources cluster namespace "operators.coreos.com/v1alpha1" "clusterserviceversions"

unfoldable pub cluster_service_version : (cluster namespace name : String) → String
unfolding operators_resource
cluster_service_version cluster namespace name =
    operators_resource cluster namespace "operators.coreos.com/v1alpha1" "clusterserviceversions"
      name

unfoldable pub operator_groups : (cluster namespace : String) → String
unfolding k8s_base
operator_groups cluster namespace =
    k8s_base cluster
    ++ ("/apis/operators.coreos.com/v1/namespaces/" ++ (namespace ++ "/operatorgroups"))

unfoldable pub subscriptions_url : (cluster namespace : String) → String
unfolding k8s_base
subscriptions_url cluster namespace =
    k8s_base cluster
    ++ ("/apis/operators.coreos.com/v1alpha1/namespaces/" ++ (namespace ++ "/subscriptions"))

unfoldable pub subscription_url : (cluster namespace name : String) → String
unfolding operators_resource
subscription_url cluster namespace name =
    operators_resource cluster namespace "operators.coreos.com/v1alpha1" "subscriptions" name

-- `api.k8s.clusterservicebrokers.sync`, of the broker's name, and `backend.operators.operatorIcon`.
unfoldable pub cluster_service_broker : (cluster broker : String) → String
unfolding k8s_base
cluster_service_broker cluster broker =
    k8s_base cluster ++ ("/apis/servicecatalog.k8s.io/v1beta1/clusterservicebrokers/" ++ broker)

unfoldable pub operator_icon : (cluster namespace name : String) → String
operator_icon cluster namespace name =
    "api/v1/clusters/"
    ++ (cluster ++ ("/namespaces/" ++ (namespace ++ ("/operator/" ++ (name ++ "/logo")))))
