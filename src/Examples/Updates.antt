-- ===== src/Examples/Updates.antt =====
-- Examples for the thunks of the releases and of the charts.
use Prim.Native.String as Text
use mathlib.Core.List.{Memᴰ}
use installer.Types.{Json, obj, end}
use installer.Client.Page.{post, delete}
use installer.Client.Endpoints.Releases.{release_body}
use installer.Shared.Url.Api.{releases_list, releases_get}
use installer.Thunks.Releases.Delivery.{checked, delivered}
use installer.Thunks.Releases.Settles.{Settled}
use installer.Actions.{request_delete_app}
use installer.Common.{String, true, false, none, some, List, [], ◌∷◌, ◌≡◌, refl}
use installer.Common.Result.{ok}
use installer.Common.Sort.{Precedes}
use installer.Types.{Chart, ChartVersion, null, create_error, delete_error, upgrade_error}
use installer.Actions.{request_deploy_app, request_upgrade_app, error_app, apps}
use installer.Reducers.Apps as Apps
use installer.Client.Page.{send}
use installer.Thunks.Releases.{
  latest, format_text, update_info_of, deploy_chart, upgrade_app, delete_app,
}
use installer.Thunks.Releases.Settles.{Settled, releases-Settled, invalid-not_sent}
use installer.Thunks.Releases.Latest.{chart_le, update_info_of-least}
use installer.Examples.Data.{chart_at, version_at}
use installer.Examples.Server.{offline, visitor, version_le-total, version_le-IsTransitive}

abbrev old : ChartVersion
old = version_at "1.0.0"

abbrev new : ChartVersion
new = version_at "2.0.0"

-- The schema `{}` of the values.
abbrev schema : Json
schema = obj end

releases-Settled_example :
    Settled Apps.initial_state create_error
      (checked offline
        (some "replicas: a")
        (some schema)
        (delivered offline "" post
          (releases_list "default" "team")
          (release_body offline "web" "global" new (some "replicas: a"))
          (send (apps request_deploy_app) visitor))
        (send (apps request_deploy_app) visitor))
      (deploy_chart offline "" "default" "team" new "global" "web"
        (some "replicas: a")
        (some schema)
        visitor)
    × Settled Apps.initial_state delete_error
        (delivered offline "" delete
          (Text.◌++◌ (releases_get "default" "team" "web") "?purge=true")
          null
          (send (apps request_delete_app) visitor))
        (delete_app offline "" "default" "team" "web" true visitor)
releases-Settled_example =
    releases-Settled offline "" Apps.initial_state visitor "default" "team" "global" "web" new
      (some "replicas: a") (some schema) true

abbrev wrong : String
wrong = format_text (("/replicas", "must be number") ∷ [])

invalid-not_sent_example :
    (deploy_chart offline "" "default" "team" new "global" "web"
        (some "replicas: a")
        (some schema)
        visitor
      ≡ (
        ok false,
        send
            (apps (error_app (record { constructor = create_error; message = wrong })))
            (send (apps request_deploy_app) visitor),
      ))
    × (upgrade_app offline "" "default" "team" new "global" "web"
          (some "replicas: a")
          (some schema)
          visitor
        ≡ (
          ok false,
          send
              (apps (error_app (record { constructor = upgrade_error; message = wrong })))
              (send (apps request_upgrade_app) visitor),
        ))
invalid-not_sent_example =
    invalid-not_sent offline "" visitor "default" "team" "global" "web" "replicas: a" new schema
      ("/replicas", "must be number") [] refl refl refl

-- The newer chart is found first.
abbrev found : List Chart
found = chart_at "b" "2.0.0" ∷ chart_at "a" "1.0.0" ∷ []

update_info_of-least_example :
    (least : Chart) × Memᴰ least found
    × Precedes (chart_le offline) least found
    × (update_info_of offline (some "1.0.0") found
        ≡ ok (record {
          up_to_date = offline.version_le (latest offline least) "1.0.0";
          chart_latest_version = latest offline least;
          app_latest_version = least.latest_chart_version.app_version;
          repository = least.attributes.repo;
          error = none;
        }))
update_info_of-least_example =
    update_info_of-least offline version_le-total version_le-IsTransitive "1.0.0"
      (chart_at "b" "2.0.0") (chart_at "a" "1.0.0" ∷ []) refl refl
