-- ===== src/Thunks/Releases/Settles.antt =====
-- dashboard/src/actions/apps.ts with dashboard/src/reducers/apps.ts: a thunk that changes a release
-- does not reject, and leaves nothing marked as loading.
use installer.Thunks.Releases.Delivery.{delivered, delivered_lem, checked, checked_lem}
use Prim.Native.String as Text
use mathlib.Core.Path.{subst}
use installer.Common.{
  String, Bool, true, false, Option, some, List, [], ◌∷◌, ◌++◌, ◌≡◌, refl, ap, ◌∙◌, if◌then◌else◌,
  ◌⊎◌, inl, inr, truthy,
}
use installer.Common.Result.{Result, ok, throw}
use installer.Types.{
  Json, null, JsError, ErrorClass, unprocessable_entity, create_error, upgrade_error, delete_error,
  ChartVersion, AppState,
}
use installer.Actions.{
  AppsAction, request_delete_app, receive_delete_app, request_deploy_app, receive_deploy_app,
  request_upgrade_app, receive_upgrade_app, error_app, Action, apps,
}
use installer.Reducers.Apps.{apps_action, apps_reducer}
use installer.Client.Page.{
  post, delete, Page, Run, send, run, run-append, catch, pure, dispatch, ◌>>◌,
}
use installer.Shared.Json.{falsy}
use installer.Shared.Url.Api.{releases_list, releases_get}
use installer.Client.Platform.{Platform}
use installer.Client.Http.{request}
use installer.Client.Endpoints.Releases.{release_body}
use installer.Client.Endpoints.Releases as Endpoint
use installer.Thunks.Releases.{
  attempt, report, delete_steps, deploy_steps, upgrade_steps, format_text, check_values, delete_app,
  deploy_chart, upgrade_app,
}

-- The end of an attempt whose steps come to `came`: it returns whether they succeeded, and the last
-- action that it dispatched is the one of a success, or an error of the class `c` with their message.
abbrev Ends :
    (success : AppsAction)
    → ErrorClass
    → (came : Result JsError (Unit {0})) → Result JsError Bool × Page
    → Type 0
Ends success c came r =
    (first : List Action) × ((came ≡ ok tt)
        × (r.0 ≡ ok true)
        × (r.1.sent ≡ first ++ apps success ∷ [])
      ⊎ (e : JsError) × (came ≡ throw e)
        × (r.0 ≡ ok false)
        × (r.1.sent
            ≡ first ++ apps (error_app (record { constructor = c; message = e.message })) ∷ []))

-- The end of an attempt whose steps had the result `r`.
steps-Ends :
    (success : AppsAction) (c : ErrorClass) (p : Page) (r : Result JsError (Unit {0}) × Page)
    → Ends success c r.0 (
        catch
          ((λ q. r) >> (dispatch (apps success) >> pure true))
          (λ e. report c e >> pure false)
          p)
steps-Ends success c p (ok done, q) = (q.sent, inl (refl, refl, refl))
steps-Ends success c p (throw e, q) = (q.sent, inr (e, refl, refl, refl))

attempt-Ends :
    (request success : AppsAction) (c : ErrorClass) (m : Run (Unit {0})) (p : Page)
    → Ends success c (m (send (apps request) p)).0 (attempt request success c m p)
attempt-Ends request success c m p =
    steps-Ends success c (send (apps request) p) (m (send (apps request) p))

-- The state after an attempt that comes to `came`: nothing is loading; the thunk returns true if it
-- succeeded, or else false, and the failure shows as an error of the class `c` with its message.
abbrev pub Settled :
    AppState → ErrorClass → (came : Result JsError (Unit {0})) → Result JsError Bool × Page → Type 0
Settled s c came r =
    ((run apps_reducer s r.1.sent).is_fetching ≡ false)
    × ((came ≡ ok tt) × (r.0 ≡ ok true)
        ⊎ (e : JsError) × (came ≡ throw e)
          × (r.0 ≡ ok false)
          × ((run apps_reducer s r.1.sent).error
              ≡ some (record { constructor = c; message = e.message })))

Ends-Settled :
    (s : AppState) (success : AppsAction) (c : ErrorClass) (came : Result JsError (Unit {0}))
    (r : Result JsError Bool × Page)
    → ((t : AppState) → (apps_reducer t (apps success)).is_fetching ≡ false)
    → Ends success c came r
    → Settled s c came r
unfolding apps_reducer apps_action
Ends-Settled s success c came r stops (first, inl (well, yes', e)) =
    rw (e, run)
      (rw (run-append apps_reducer s first (apps success ∷ [])) (stops _, inl (well, yes')))
Ends-Settled s success c came r stops (first, inr (err, ill, no', e)) = rw e (
    rw
      (run-append apps_reducer s first
        (apps (error_app (record { constructor = c; message = err.message })) ∷ []))
      (refl, inr (err, ill, no', refl)))

-- Whatever the server answers to an installation or a deletion, the thunk does not reject, and nothing
-- is marked as loading afterwards. It returns true just if the server accepts the request, and an
-- installation also passes the validation of its values; a refusal of either makes it return false,
-- and shows as a `CreateError` or a `DeleteError` with the message of the refusal.
pub releases-Settled :
    (x : Platform) (uri : String) (s : AppState) (p : Page)
    (cluster namespace chart_namespace release_name : String) (cv : ChartVersion)
    (values : Option String) (schema : Option Json) (purge : Bool)
    → let endpoint = releases_get cluster namespace release_name in
      Settled s create_error
        (checked x values schema
          (delivered x uri post
            (releases_list cluster namespace)
            (release_body x release_name chart_namespace cv values)
            (send (apps request_deploy_app) p))
          (send (apps request_deploy_app) p))
        (deploy_chart x uri cluster namespace cv chart_namespace release_name values schema p)
      × Settled s delete_error
          (delivered x uri delete
            (if purge then Text.◌++◌ endpoint "?purge=true" else endpoint)
            null
            (send (apps request_delete_app) p))
          (delete_app x uri cluster namespace release_name purge p)
unfolding deploy_chart delete_app deploy_steps delete_steps apps_reducer apps_action Endpoint.create
    Endpoint.remove
releases-Settled x uri s p cluster namespace chart_namespace release_name cv values schema purge =
    let deploy : Run (Unit {0}) =
      deploy_steps x uri cluster namespace cv chart_namespace release_name values schema in
    let remove : Run (Unit {0}) = delete_steps x uri cluster namespace release_name purge in
    let create : Run (Unit {0}) =
      Endpoint.create x uri cluster namespace release_name chart_namespace cv values >> pure tt in
    let q = send (apps request_deploy_app) p in
    let body = release_body x release_name chart_namespace cv values in
    let endpoint = releases_get cluster namespace release_name in
    let url = if purge then Text.◌++◌ endpoint "?purge=true" else endpoint in
    (
      subst
          (λ (came : Result JsError (Unit {0})).
            Settled s create_error came (
              deploy_chart x uri cluster namespace cv chart_namespace release_name values schema p))
          (checked_lem x values schema create q
            ∙ ap (λ (came : Result JsError (Unit {0})). checked x values schema came q)
                (delivered_lem x uri post (releases_list cluster namespace) body q))
          (Ends-Settled s receive_deploy_app create_error (deploy q).0
            (attempt request_deploy_app receive_deploy_app create_error deploy p) (λ t. refl)
            (attempt-Ends request_deploy_app receive_deploy_app create_error deploy p)),
      subst
          (λ (came : Result JsError (Unit {0})).
            Settled s delete_error came (delete_app x uri cluster namespace release_name purge p))
          (delivered_lem x uri delete url null (send (apps request_delete_app) p))
          (Ends-Settled s receive_delete_app delete_error
            (remove (send (apps request_delete_app) p)).0
            (attempt request_delete_app receive_delete_app delete_error remove p) (λ t. refl)
            (attempt-Ends request_delete_app receive_delete_app delete_error remove p)),
    )

check_values-invalid :
    (x : Platform) (p : Page) (values : String) (schema : Json) (e : String × String)
    (es : List (String × String))
    → truthy values ≡ true
    → falsy schema ≡ false
    → x.validation_errors values schema ≡ ok (e ∷ es)
    → check_values x (some values) (some schema) p
      ≡ (throw (record { constructor = unprocessable_entity; message = format_text (e ∷ es) }), p)
unfolding check_values
check_values-invalid x p values schema e es h given k =
    rw (h, check_values) (rw (given, check_values) (rw (k, check_values) refl))

-- The result of an attempt, by that of the check that is its first step.
abbrev attempt_after :
    (success : AppsAction)
    → ErrorClass
    → (rest : Run (Unit {0})) → Result JsError (Unit {0}) × Page
    → Result JsError Bool × Page
attempt_after success c rest r =
    catch (((λ q. r) >> rest) >> (dispatch (apps success) >> pure true))
      (λ e. report c e >> pure false) r.1

-- Values that the chart's schema refuses are not sent: an installation and an upgrade make no
-- request, return false, and report each error of the schema, with its place. (The values are not
-- empty, the schema is not falsy, and ajv found the errors.)
pub invalid-not_sent :
    (x : Platform) (uri : String) (p : Page)
    (cluster namespace chart_namespace release_name values : String) (cv : ChartVersion)
    (schema : Json) (e : String × String) (es : List (String × String))
    → truthy values ≡ true
    → falsy schema ≡ false
    → x.validation_errors values schema ≡ ok (e ∷ es)
    → (deploy_chart x uri cluster namespace cv chart_namespace release_name
          (some values)
          (some schema)
          p
        ≡ (
          ok false,
          send
              (apps
                (error_app (record { constructor = create_error; message = format_text (e ∷ es) })))
              (send (apps request_deploy_app) p),
        ))
      × (upgrade_app x uri cluster namespace cv chart_namespace release_name
            (some values)
            (some schema)
            p
          ≡ (
            ok false,
            send
                (apps (
                  error_app
                    (record { constructor = upgrade_error; message = format_text (e ∷ es) })))
                (send (apps request_upgrade_app) p),
          ))
unfolding deploy_chart upgrade_app deploy_steps upgrade_steps
invalid-not_sent x uri p cluster namespace chart_namespace release_name values cv schema e es h
      given k =
    let create : Run (Unit {0}) =
      Endpoint.create x uri cluster namespace release_name chart_namespace cv (some values)
      >> pure tt in
    let upgrade : Run (Unit {0}) =
      Endpoint.upgrade x uri cluster namespace release_name chart_namespace cv (some values)
      >> pure tt in
    (
      ap (attempt_after receive_deploy_app create_error create)
          (check_values-invalid x (send (apps request_deploy_app) p) values schema e es h given k),
      ap (attempt_after receive_upgrade_app upgrade_error upgrade)
          (check_values-invalid x (send (apps request_upgrade_app) p) values schema e es h given k),
    )
