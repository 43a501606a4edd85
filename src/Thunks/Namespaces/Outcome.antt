-- ===== src/Thunks/Namespaces/Outcome.antt =====
-- dashboard/src/actions/namespace.ts: how the list of the namespaces ends.
use installer.Common.{String, Option, List, [], ◌∷◌, ◌++◌, ◌≡◌, refl, ◌⊎◌, inl, inr}
use installer.Common.Result.{Result, ok, throw}
use installer.Types.{JsError, Resource}
use installer.Actions.{Action, namespace, receive_namespaces, error_namespaces}
use installer.Client.Page.{Page, catch, ◌>>=◌}
use installer.Client.Platform.{Platform}
use installer.Client.Endpoints.Cluster.{list_namespaces}
use installer.Thunks.Namespaces.{names_of, report_names, fail_with, no_access, fetch_namespaces}

-- How a list of the namespaces of a cluster ends: with names, which are not empty and are dispatched and returned,
-- or with none, and then the last action is an error of `list`.
abbrev pub Listed : (cluster : String) → Result JsError (List String) × Page → Type 0
Listed cluster r =
    (first : List Action) × (((n : String) × (ns : List String) × (r.0 ≡ ok (n ∷ ns))
        × (r.1.sent ≡ first ++ namespace (receive_namespaces cluster (n ∷ ns)) ∷ []))
      ⊎ (e : JsError) × (r.0 ≡ ok [])
        × (r.1.sent ≡ first ++ namespace (error_namespaces cluster e "list") ∷ []))

report_names-Listed :
    (cluster : String) (names : List String) (p : Page)
    → Listed cluster (catch (λ q. report_names cluster names p) (fail_with cluster) p)
report_names-Listed cluster [] p = (p.sent, inr (no_access, refl, refl))
report_names-Listed cluster (n ∷ ns) p = (p.sent, inl (n, ns, refl, refl))

fetched :
    (cluster : String) (r : Result JsError (Option (List Resource)) × Page)
    → Listed cluster (
        catch
          ((λ q. r) >>= λ listed. report_names cluster (names_of listed))
          (fail_with cluster)
          r.1)
fetched cluster (ok listed, q) = report_names-Listed cluster (names_of listed) q
fetched cluster (throw e, q) = (q.sent, inr (e, refl, refl))

-- Whatever the server answers, a list without names and an error included: the list of namespaces does not
-- reject, and it returns no names just when it reports an error (see `Listed`).
pub fetch_namespaces-Listed :
    (x : Platform) (uri cluster : String) (p : Page)
    → Listed cluster (fetch_namespaces x uri cluster p)
unfolding fetch_namespaces
fetch_namespaces-Listed x uri cluster p = fetched cluster (list_namespaces x uri cluster p)
