-- ===== src/Examples/Server.antt =====
-- A platform for the examples: the server, versions and codecs as concrete functions.
use installer.Common.{
  ℕ, String, true, false, ◌||◌, none, some, List, [], ◌∷◌, ◌==◌, if◌then◌else◌, leb, ◌≡◌, arith,
}
use installer.Common.Dict.{Dict, lookup}
use installer.Common.Sort.{IsTransitive}
use installer.Common.Result.{Result, ok, throw}
use installer.Types.{str}
use installer.Shared.Json.{message_of}
use installer.Shared.Auth.{Response}
use installer.Shared.Storage.{Externals}
use installer.Client.Page.{Request, Page}
use installer.Client.Platform.{Reply, ReplyOf, resources_reply, Failure, Platform}
use installer.Examples.Data.{boom, pod_object, resource}

abbrev own : Dict String → String → String → String
own m k d = elim (lookup k m) [ none ↦ d | some v ↦ v ]

abbrev pub externals : Externals
externals = record {
  parse = λ t. none;
  stringify = λ m. "{}";
  get = own;
  get_message = message_of;
  decode = λ t. none;
}

-- Two versions, "1.0.0" and "2.0.0", by their rank; every other text has the rank 0.
abbrev rank : String → ℕ
rank v = if v == "1.0.0" then 1 else if v == "2.0.0" then 2 else 0

abbrev Answers : Type 0
Answers = List Request → (k : Reply) → Request → Result Failure (ReplyOf k)

abbrev pub platform : Answers → Platform
platform answer = record {
  externals = externals;
  answer = answer;
  encode = λ t. t;
  decode = λ t. t;
  btoa = λ t. t;
  parse_json = λ t. none;
  stringify = λ v. "{}";
  to_text = λ v. "[object Object]";
  error_text = λ e. e.message;
  is_version = λ v. v == "1.0.0" || v == "2.0.0";
  version_le = λ v w. leb (rank v) (rank w);
  load_yaml = λ t. throw boom;
  validation_errors = λ values schema. ok (("/replicas", "must be number") ∷ []);
  uniq_by_uid = λ rs. rs;
  matches = λ filter r. true;
  parse_message = λ t. ok (record { resource = resource "web"; object = pod_object });
  null_error = boom;
  version_error = boom;
}

-- The network is down.
abbrev pub unreachable : Failure
unreachable = record { code = none; message = "Network Error"; response = none }

-- The token is refused.
abbrev pub refused : Response
refused = record { status = 401; body = str "Unauthorized" }

abbrev pub refusal : Failure
refusal = record { code = none; message = "failed"; response = some refused }

abbrev fails : Failure → Answers
fails e asked k r = throw e

-- Every list of resources is empty; all else fails.
abbrev only_lists : Answers
only_lists asked resources_reply r = ok []
only_lists asked k r = throw unreachable

abbrev pub offline : Platform
offline = platform (fails unreachable)

abbrev pub refusing : Platform
refusing = platform (fails refusal)

abbrev pub empty_cluster : Platform
empty_cluster = platform only_lists

abbrev pub visitor : Page
visitor = record { storage = []; sent = []; requests = []; address = none }

le_total : (a b : ℕ) → leb a b ≡ false → leb b a ≡ true
le_total a b h = ground (arith, h)

le_trans : (a b c : ℕ) → leb a b ≡ true → leb b c ≡ true → leb a c ≡ true
le_trans a b c h k = ground (arith, h, k)

pub version_le-total : (v w : String) → leb (rank v) (rank w) ≡ false → leb (rank w) (rank v) ≡ true
version_le-total v w h = le_total (rank v) (rank w) h

pub version_le-IsTransitive : IsTransitive offline.version_le
version_le-IsTransitive u v w h k = le_trans (rank u) (rank v) (rank w) h k
