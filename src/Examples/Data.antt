-- ===== src/Examples/Data.antt =====
-- Values that the examples share.
use installer.Common.{String, true, false, none, some, []}
use installer.Types.{
  null, JsError, error, Repo, Chart, ChartUpdateInfo, AppOverview, ResourceMetadata, Resource,
  Secret, AppRepository, ResourceRef, KubeObject, ChartVersion,
}
use installer.Reducers.Kube.{Browser}

abbrev pub meta : (name namespace : String) → ResourceMetadata
meta name namespace = record {
  name = name;
  namespace = namespace;
  uid = name;
  self_link = some name;
  rest = null;
}

abbrev pub resource : (name : String) → Resource
resource name = record { api_version = "v1"; kind = "Pod"; metadata = meta name "ns"; rest = null }

abbrev pub secret : (name namespace : String) → Secret
secret name namespace = record { metadata = meta name namespace; rest = null }

abbrev pub app_repo : (name namespace : String) → AppRepository
app_repo name namespace = record { metadata = meta name namespace; auth = none; spec = null }

abbrev pub pods : ResourceRef
pods = record {
  cluster = "default";
  api_version = "v1";
  kind = "Pod";
  plural = "pods";
  namespaced = true;
  name = "web";
  namespace = "ns";
  filter = null;
}

abbrev pub no_repo : Repo
no_repo = record { namespace = ""; name = ""; url = "" }

abbrev pub info : (latest : String) → ChartUpdateInfo
info latest = record {
  up_to_date = false;
  chart_latest_version = latest;
  app_latest_version = latest;
  repository = no_repo;
  error = none;
}

abbrev pub release : (name namespace : String) → AppOverview
release name namespace = record {
  release_name = name;
  namespace = namespace;
  version = "1.0.0";
  icon = none;
  status = "deployed";
  chart = name;
  chart_metadata = record { name = some name; version = some "1.0.0"; app_version = some "1" };
  update_info = none;
}

abbrev pub chart : (id : String) → Chart
chart id = record {
  id = id;
  attributes = record {
    name = id;
    description = "";
    home = none;
    icon = none;
    keywords = [];
    maintainers = [];
    repo = no_repo;
    sources = [];
    category = "";
  };
  latest_chart_version = record { version = "1.0.0"; app_version = "1"; created = "" };
}

abbrev pub boom : JsError
boom = record { constructor = error; message = "boom" }

abbrev pub pod_object : KubeObject
pod_object = record { rest = null; items = none }

abbrev pub chart_at : (id version : String) → Chart
chart_at id version = record (chart id) {
  latest_chart_version = record { version = version; app_version = "1"; created = "" };
}

abbrev pub version_at : (version : String) → ChartVersion
version_at version = record {
  id = "bitnami/web";
  attributes = record { version = version; app_version = "1"; created = "" };
  chart = (chart "bitnami/web").attributes;
}

abbrev pub quiet : Browser
quiet = record { next = 1; sockets = λ i. none; intervals = λ i. none }
