-- ===== src/Client/Platform.antt =====
-- What the dashboard uses and does not implement: the server behind axios, the browser's codecs, and
-- the packages semver, js-yaml, ajv and lodash.
use installer.Common.{ℕ, String, Bool, Option, List}
use installer.Common.Result.{Result}
use installer.Types.{
  Json, JsError, Chart, ChartCategory, ChartVersion, Release, AppOverview, Resource, Secret,
  AppRepository, KubeObject, ClusterServiceVersion, ApiResource,
}
use installer.Actions.{Config}
use installer.Shared.Storage.{Externals}
use installer.Shared.Auth.{Response}
use installer.Client.Page.{Request}

-- The types at which the code reads the body of a response (`axios.get<T>`). What may be missing in
-- the code's own tests is an `Option`; a list of groups is the list of their preferred versions, and a
-- list of the API its `items`, `data` or `resources`.
pub data Reply : Type 0 where
  any_reply release_reply overviews_reply charts_page_reply charts_reply : Reply
  categories_reply versions_reply version_reply text_reply : Reply
  resource_reply resources_reply object_reply namespaces_reply allowed_reply : Reply
  secret_reply secrets_reply repo_reply repos_reply status_reply config_reply : Reply
  csv_reply csvs_reply groups_reply kinds_reply : Reply

-- `{ data: IChart[]; meta: IChartListMeta }`
pub record ChartsPage : Type 0 where
  pub charts : List Chart
  pub total_pages : ℕ

abbrev pub ReplyOf : Reply → Type 0
ReplyOf any_reply = Json
ReplyOf release_reply = Release
ReplyOf overviews_reply = List AppOverview
ReplyOf charts_page_reply = ChartsPage
ReplyOf charts_reply = List Chart
ReplyOf categories_reply = Option (List ChartCategory)
ReplyOf versions_reply = List ChartVersion
ReplyOf version_reply = Option ChartVersion
ReplyOf text_reply = String
ReplyOf resource_reply = Resource
ReplyOf resources_reply = List Resource
ReplyOf object_reply = KubeObject
ReplyOf namespaces_reply = Option (List Resource)
ReplyOf allowed_reply = Bool
ReplyOf secret_reply = Secret
ReplyOf secrets_reply = List Secret
ReplyOf repo_reply = AppRepository
ReplyOf repos_reply = List AppRepository
ReplyOf status_reply = ℕ
ReplyOf config_reply = Config
ReplyOf csv_reply = ClusterServiceVersion
ReplyOf csvs_reply = List ClusterServiceVersion
ReplyOf groups_reply = List String
ReplyOf kinds_reply = Option (List ApiResource)

-- An `AxiosError`: there is no response if the network failed.
pub record Failure : Type 0 where
  pub code : Option String
  pub message : String
  pub response : Option Response

-- The object of a message of a socket, read as a resource and as an object of any kind.
pub record SocketMessage : Type 0 where
  pub resource : Resource
  pub object : KubeObject

pub record Platform : Type 0 where
  pub externals : Externals
  -- The answer of the server, which may depend on all requests before.
  pub answer : List Request → (k : Reply) → Request → Result Failure (ReplyOf k)
  -- `encodeURIComponent`, `decodeURIComponent`, `btoa`.
  pub encode : String → String
  pub decode : String → String
  pub btoa : String → String
  -- `JSON.parse` (`none`: it throws), `JSON.stringify`, and the conversion to a text.
  pub parse_json : String → Option Json
  pub stringify : Json → String
  pub to_text : Json → String
  -- `e.toString()`
  pub error_text : JsError → String
  -- semver: which texts are versions, and `a <= b` by precedence.
  pub is_version : String → Bool
  pub version_le : String → String → Bool
  -- js-yaml's `load`, which may throw.
  pub load_yaml : String → Result JsError Json
  -- `validate` of dashboard/src/shared/schema.ts by ajv: the errors, none if the values are valid.
  pub validation_errors :
      (values : String) (schema : Json) → Result JsError (List (String × String))
  -- lodash's `uniqBy(repos, "metadata.uid")`.
  pub uniq_by_uid : List AppRepository → List AppRepository
  -- lodash's `matches(filter)`, and `JSON.parse(e.data).object` of a message of a socket.
  pub matches : (filter : Json) → Resource → Bool
  pub parse_message : String → Result JsError SocketMessage
  -- The `TypeError` of reading a property of null or undefined, and semver's on what is no version.
  pub null_error : JsError
  pub version_error : JsError
