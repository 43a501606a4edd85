-- ===== src/Shared/Url/App.antt =====
-- dashboard/src/shared/url.ts, `app`: the addresses of the pages. A template is a concatenation that
-- associates to the right. `encode` is the browser's `encodeURIComponent`.
use Prim.Native.String.{◌++◌}
use installer.Common.{String, ◌==◌, if◌then◌else◌}
use installer.Types.{ChartVersion, Repo}

-- `/c/${cluster}/ns/${namespace}` and the rest of the address.
abbrev pub in_context : (cluster namespace rest : String) → String
in_context cluster namespace rest = "/c/" ++ (cluster ++ ("/ns/" ++ (namespace ++ rest)))

unfoldable pub apps_list : (cluster namespace : String) → String
apps_list cluster namespace = in_context cluster namespace "/apps"

unfoldable pub apps_get : (cluster namespace release_name : String) → String
unfolding apps_list
apps_get cluster namespace release_name = apps_list cluster namespace ++ ("/" ++ release_name)

unfoldable pub apps_upgrade : (cluster namespace release_name : String) → String
unfolding apps_get
apps_upgrade cluster namespace release_name = apps_get cluster namespace release_name ++ "/upgrade"

unfoldable pub apps_new :
    (encode : String → String) (cluster namespace : String) (cv : ChartVersion)
    → (version global_namespace : String) → String
apps_new encode cluster namespace cv version global_namespace =
    let new_segment : String =
      if global_namespace == cv.chart.repo.namespace then "new-from-global" else "new" in
    in_context cluster namespace (
      "/apps/"
      ++ (new_segment
          ++ ("/"
              ++ (cv.chart.repo.name
                  ++ ("/" ++ (encode cv.chart.name ++ ("/versions/" ++ version)))))))

unfoldable pub catalog : (cluster namespace : String) → String
catalog cluster namespace = in_context cluster namespace "/catalog"

unfoldable pub repo : (cluster namespace repo_name : String) → String
unfolding catalog
repo cluster namespace repo_name = catalog cluster namespace ++ ("/" ++ repo_name)

unfoldable pub services_instances : (namespace : String) → String
services_instances namespace = "/ns/" ++ (namespace ++ "/services/instances")

unfoldable pub charts_get :
    (encode : String → String) (cluster namespace chart_name : String) (r : Repo)
    → (global_namespace : String) → String
charts_get encode cluster namespace chart_name r global_namespace =
    let charts_segment : String =
      if global_namespace == r.namespace then "global-charts" else "charts" in
    in_context cluster namespace
      ("/" ++ (charts_segment ++ ("/" ++ (r.name ++ ("/" ++ encode chart_name)))))

unfoldable pub operators_view : (cluster namespace name : String) → String
operators_view cluster namespace name = in_context cluster namespace ("/operators/" ++ name)

unfoldable pub operators_list : (cluster namespace : String) → String
operators_list cluster namespace = in_context cluster namespace "/operators"

unfoldable pub operators_new : (cluster namespace name : String) → String
operators_new cluster namespace name = in_context cluster namespace ("/operators/new/" ++ name)

unfoldable pub operator_instances_view :
    (cluster namespace csv_name crd_name resource_name : String) → String
operator_instances_view cluster namespace csv_name crd_name resource_name =
    in_context cluster namespace
      ("/operators-instances/" ++ (csv_name ++ ("/" ++ (crd_name ++ ("/" ++ resource_name)))))

unfoldable pub operator_instances_update :
    (cluster namespace csv_name crd_name instance_name : String) → String
operator_instances_update cluster namespace csv_name crd_name instance_name =
    in_context cluster namespace (
      "/operators-instances/"
      ++ (csv_name ++ ("/" ++ (crd_name ++ ("/" ++ (instance_name ++ "/update"))))))

unfoldable pub operator_instances_new : (cluster namespace csv_name crd_name : String) → String
operator_instances_new cluster namespace csv_name crd_name =
    in_context cluster namespace ("/operators-instances/new/" ++ (csv_name ++ ("/" ++ crd_name)))

unfoldable pub config_apprepositories : (cluster namespace : String) → String
config_apprepositories cluster namespace = in_context cluster namespace "/config/repos"

unfoldable pub config_brokers : (cluster : String) → String
config_brokers cluster = "/c/" ++ (cluster ++ "/config/brokers")
