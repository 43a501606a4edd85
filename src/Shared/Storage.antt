-- ===== src/Shared/Storage.antt =====
-- `localStorage`, and the functions of other packages through which the dashboard reads and writes
-- what it keeps there.
use installer.Common.{String, Option, ◌≡◌, true, some, truthy}
use installer.Types.{Json}
use installer.Shared.Json.{message_of}
use installer.Common.Dict.{Dict, lookup, insert, without}

abbrev pub Storage : Type 0
Storage = Dict String

unfoldable pub get_item : String → Storage → Option String
unfolding lookup
get_item key storage = lookup key storage

unfoldable pub set_item : String → String → Storage → Storage
unfolding insert
set_item key value storage = insert key value storage

unfoldable pub remove_item : String → Storage → Storage
unfolding without
remove_item key storage = without key storage

-- `JSON.parse` and `JSON.stringify` on a map from clusters to namespaces (`none`: it throws),
-- lodash's `get(object, key, default)` and
-- `get(response, "data.message")`, given the response's data, and the claims of a token by `jwt.decode` (`none`: it is no
-- token).
pub record Externals : Type 0 where
  pub parse : String → Option (Dict String)
  pub stringify : Dict String → String
  pub get : Dict String → String → String → String
  pub get_message : Json → Json
  pub decode : String → Option (Dict String)

-- What is documented of them: parsing undoes printing, and `get` reads what is there.
pub record IsFaithful (x : Externals) : Type 0 where
  pub parse-stringify : (m : Dict String) → x.parse (x.stringify m) ≡ some m
  pub stringify_not_empty : (m : Dict String) → truthy (x.stringify m) ≡ true
  pub get_own : (m : Dict String) (k d v : String) → lookup k m ≡ some v → x.get m k d ≡ v
  pub get_message_own : (v : Json) → x.get_message v ≡ message_of v
