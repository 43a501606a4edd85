-- ===== src/Client/Endpoints/Releases.antt =====
-- dashboard/src/shared/App.ts: the endpoints of releases.
use Prim.Native.String.{◌++◌}
use installer.Common.{ℕ, String, Bool, Option, List, if◌then◌else◌, truthy}
use installer.Types.{Json, num, str, obj, end, prop, ChartVersion, Release, AppOverview}
use installer.Shared.Url.Api.{releases_list, releases_list_all, releases_get}
use installer.Client.Page.{Run}
use installer.Client.Platform.{any_reply, release_reply, overviews_reply, Platform}
use installer.Client.Http.{request, get_at, post_at, put_at, delete_at}
use installer.Client.Body.{maybe, text}

module _ (x : Platform) where
  -- The body of `create` and `upgrade`.
  unfoldable pub release_body :
      (release_name chart_namespace : String) → ChartVersion → (values : Option String) → Json
  release_body release_name chart_namespace cv values = obj (
      prop "appRepositoryResourceName" (str cv.chart.repo.name) (
        prop "appRepositoryResourceNamespace" (str chart_namespace) (
          prop "chartName" (str (x.decode cv.chart.name)) (
            prop "releaseName" (str release_name)
              (maybe "values" (text values) (prop "version" (str cv.attributes.version) end))))))

module _ (x : Platform) (uri : String) where
  unfoldable pub create :
      (cluster namespace release_name chart_namespace : String)
      → ChartVersion
      → (values : Option String) → Run Json
  unfolding request releases_list release_body
  create cluster namespace release_name chart_namespace cv values =
      post_at x uri any_reply (releases_list cluster namespace)
        (release_body x release_name chart_namespace cv values)

  unfoldable pub upgrade :
      (cluster namespace release_name chart_namespace : String)
      → ChartVersion
      → (values : Option String) → Run Json
  unfolding request releases_get release_body
  upgrade cluster namespace release_name chart_namespace cv values =
      put_at x uri any_reply (releases_get cluster namespace release_name)
        (release_body x release_name chart_namespace cv values)

  -- The parameters `action` and `revision` are written to the address by axios.
  unfoldable pub rollback : (cluster namespace release_name : String) → (revision : ℕ) → Run Json
  unfolding request releases_get
  rollback cluster namespace release_name revision =
      put_at x uri any_reply
        (releases_get cluster namespace release_name
          ++ ("?action=rollback&revision=" ++ x.to_text (num revision)))
        (obj end)

  unfoldable pub remove : (cluster namespace release_name : String) → (purge : Bool) → Run Json
  unfolding request releases_get
  remove cluster namespace release_name purge =
      let endpoint = releases_get cluster namespace release_name in
      delete_at x uri any_reply (if purge then endpoint ++ "?purge=true" else endpoint)

  -- An empty namespace is the same as none.
  unfoldable pub list_apps : (cluster namespace : String) → Run (List AppOverview)
  unfolding request releases_list releases_list_all
  list_apps cluster namespace =
      let endpoint : String =
        if truthy namespace then releases_list cluster namespace else releases_list_all cluster in
      get_at x uri overviews_reply (endpoint ++ "?statuses=all")

  unfoldable pub get_release : (cluster namespace name : String) → Run Release
  unfolding request releases_get
  get_release cluster namespace name =
      get_at x uri release_reply (releases_get cluster namespace name)
