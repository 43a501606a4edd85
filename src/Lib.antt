-- ===== src/Lib.antt =====
-- The state of the Kubeapps dashboard (dashboard/src): its Redux reducers, the actions and the thunks
-- that dispatch them, the requests that thunks make and the errors of these, and what they use of the
-- session, the storage of the browser and the addresses of pages.
--
-- The dashboard keeps one store. A page or a request dispatches an action; each reducer maps the state
-- of its part and the action to the next state. A change of address reaches the reducers as the action
-- LOCATION_CHANGE, with the path. The reducer of the clusters reads the storage of the browser, and the
-- reducer of the resources opens and closes sockets and intervals: these are arguments and results of
-- the model. Where the code reads a property of a missing value, the model returns `throw type_error`.
--
-- The files:
-- - Common: what the components share. Common/Tests has the Boolean tests, Common/Lists the lists over
--   the native numbers, Common/Dict objects as association lists, Common/Result results that may be
--   thrown, Common/Sort a sorted list, Common/Text prefixes and segments of a path, and
--   texts that are split.
-- - Types: dashboard/src/shared/types.ts. Fields that no modelled code reads are kept as one value of
--   type `Json`.
-- - Actions: dashboard/src/actions/*.ts, the actions of each component with their payloads (apps, auth,
--   charts, config, kube, namespace, operators, repos), and the action LOCATION_CHANGE of the router.
-- - Shared/Storage: `localStorage`, and the functions of other packages (JSON, lodash's `get`,
--   `jwt.decode`) as fields of a record that definitions take. Shared/Auth: dashboard/src/shared/Auth.ts.
--   Shared/Namespace: dashboard/src/shared/Namespace.ts. Shared/Url: dashboard/src/shared/url.ts.
--   Shared/Kube: dashboard/src/shared/Kube.ts and dashboard/src/shared/ResourceRef.ts.
-- - Reducers/Cluster: dashboard/src/reducers/cluster.ts. `cluster_reducer` is `clusterReducer`,
--   `namespace_reducer` its branches on the actions of namespaces, `change_location` its branch on
--   LOCATION_CHANGE; `ClustersState` is `IClustersState`. Its children prove what they are named for.
-- - Reducers/Kube: dashboard/src/reducers/kube.ts. `kube_reducer` is `kubeReducer`, with the state of the
--   browser (`Browser`) beside `KubeState`; `open_watch`, `close_watch`, `add_timer_at` and
--   `remove_timer_at` are its branches on watches and timers.
-- - Reducers/Repos, Reducers/Operators, Reducers/Apps, Reducers/Charts, Reducers/Auth, Reducers/Config:
--   the reducers of the same names (`repos_reducer`, `catalog_reducer`, `apps_reducer`,
--   `charts_reducer`, `auth_reducer`, `config_reducer`).
--   Reducers/Store is dashboard/src/reducers/index.ts: `dispatch` hands an action to all reducers.
--   Reducers/Auth/Session joins it to dashboard/src/shared/Auth.ts and to the request header of
--   dashboard/src/shared/AxiosInstance.ts.
-- - Client/Page: what a function with effects changes (the storage, the actions that it dispatched, the
--   requests that it made, the address of the browser), and its results. Client/Platform: the server
--   behind axios, the codecs of the browser, and semver, js-yaml, ajv and lodash, as the fields of a
--   record that definitions take. Client/Http: dashboard/src/shared/AxiosInstance.ts; `request` is a call
--   of `axiosWithAuth`, and `handle_error` the interceptor of `addErrorHandling`.
-- - Client/Endpoints: the classes that send requests. Releases is dashboard/src/shared/App.ts, Catalog
--   Chart.ts, AppRepositories AppRepository.ts, Secrets Secret.ts, Olm Operators.ts, all of
--   dashboard/src/shared; Cluster has the requests of Kube.ts, Namespace.ts and Auth.ts there.
-- - Thunks: the functions of dashboard/src/actions that dispatch. Session and Login are auth.ts,
--   Namespaces namespace.ts, Releases apps.ts, Catalog charts.ts, Repositories repos.ts, Olm operators.ts,
--   Resources kube.tsx with `getResource` of dashboard/src/shared/ResourceRef.ts. A thunk has the name of
--   its function; its children prove what they are named for.
-- - Views: what pages compute. Views/Application is `parseResources` and the cleanup of
--   dashboard/src/components/AppView/AppView.tsx, Views/RepoFilter dashboard/src/shared/jq.ts, and
--   Views/Descriptions `trimDescription` of dashboard/src/shared/utils.ts. Views/Catalog has the filters
--   of dashboard/src/components/Catalog/Catalog.tsx, Views/Status what
--   dashboard/src/components/ApplicationStatus/ApplicationStatus.tsx counts, with `flattenResources`.
--   Views/Catalog/Paging has the pages of charts that the catalog requests while scrolling, joined to the
--   reducer of the charts. Views/RepoForm is dashboard/src/components/Config/AppRepoList/AppRepoForm.tsx:
--   its fields and handlers, in Submit the button, in Effects the effects that fill it from a repository
--   and its secret. Views/OperatorForm is dashboard/src/components/OperatorNew/OperatorNew.tsx,
--   Views/OperatorInstance `parseResource` of
--   dashboard/src/components/OperatorInstance/OperatorInstance.tsx with `fromCRD`, Views/ContextSelector
--   `changeContext` of dashboard/src/components/Header/ContextSelector.tsx, and Views/Schema
--   dashboard/src/shared/schema.ts, with the packages for YAML as a record of functions.
-- - Examples: the theorems at concrete inputs.
--
-- All functions are total: every loop is structural recursion on a list or a text, but that the renders
-- of the form of a repository are counted by fuel (`settle`), of which three are enough unless an effect
-- throws (Views/RepoForm/Effects/Settling).
-- Strings are compared by their characters in order. The number of a socket or an interval is a count
-- that the browser increases, which stands for the identity of the object.
--
-- A request is answered by a function of the platform that may depend on all requests before it, so
-- that a theorem about a thunk holds for every server. A function with effects takes a page to a result,
-- thrown or returned, and the next page. Its dispatches are taken to return: that the reducers of the
-- clusters and of the resources do not throw is a theorem about them (Reducers/Cluster/Progress,
-- Reducers/Kube/Runs), and what a dispatch that throws leaves is one about the store
-- (Reducers/Store/Atomic). What the code starts without awaiting it, and the requests of a
-- `Promise.all`, run to their end where they are started, one after the other; other interleavings are
-- not modelled. An array that the code sorts in place is sorted as a value.
--
-- Not modelled: what else the React components compute and show, `validate` of
-- dashboard/src/shared/schema.ts, which calls ajv, the service catalog, which nothing of the dashboard
-- calls, and the back ends in Go.
pub mod Common
pub mod Types
pub mod Actions
pub mod Shared
pub mod Reducers
pub mod Client
pub mod Thunks
pub mod Views
pub mod Examples
