-- ===== src/Shared/Json.antt =====
-- Tests on values of type `any`, and access to their properties.
use installer.Common.{String, Bool, true, false, not, if◌then◌else◌, nat_eq, ◌==◌}
use installer.Types.{Json, null, bool, num, str, arr, obj, Props, end, prop}

-- `!v`
abbrev pub falsy : Json → Bool
falsy null = true
falsy (bool b) = not b
falsy (num n) = nat_eq n 0
falsy (str s) = s == ""
falsy (arr vs) = false
falsy (obj ps) = false

abbrev pub prop_of : String → Props → Json
prop_of k end = null
prop_of k (prop j v ps) = if j == k then v else prop_of k ps

-- `v.message` of a value that is not null.
abbrev pub message_of : Json → Json
message_of (obj ps) = prop_of "message" ps
message_of v = null
