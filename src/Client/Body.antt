-- ===== src/Client/Body.antt =====
-- The bodies of requests, as JSON: a property that is undefined is not written.
use installer.Common.{String, Option, none, some, List, [], ◌∷◌}
use installer.Types.{Json, str, arr, Elems, nil, cons, Props, prop}

abbrev pub maybe : String → Option Json → Props → Props
maybe k none ps = ps
maybe k (some v) ps = prop k v ps

abbrev pub text : Option String → Option Json
text none = none
text (some s) = some (str s)

abbrev pub elems : List String → Elems
elems [] = nil
elems (s ∷ ss) = cons (str s) (elems ss)

abbrev pub texts : List String → Json
texts ss = arr (elems ss)
