-- ===== src/Views/Catalog.antt =====
-- dashboard/src/components/Catalog/Catalog.tsx: the filters of the catalog, as they stand in an address
-- and as they select charts. `trim_left` is the method of texts, `encode` the browser's
-- `encodeURIComponent`.
pub mod Query
pub mod Paging
use Prim.Native.Char.{code}
use Prim.Native.String.{String, [], ◌∷◌, ◌++◌}
use mathlib.Core.List.{List}
use installer.Common.{
  ℕ, Bool, true, false, ◌&&◌, none, some, map, if◌then◌else◌, leb, nat_eq, ◌==◌, includes,
}
use installer.Common.Dict.{Dict, lookup}
use installer.Common.Text.{split_parts}
use installer.Types.{Chart}
use installer.Client.Http.{join}

-- `category.replace(/([a-z])([A-Z][a-z])/g, "$1 $2")`
abbrev is_lower : ℕ → Bool
is_lower n = leb b'a' n && leb n b'z'

abbrev is_upper : ℕ → Bool
is_upper n = leb b'A' n && leb n b'Z'

unfoldable pub spaced : String → String
spaced [] = []
spaced (a ∷ []) = a ∷ []
spaced (a ∷ b ∷ []) = a ∷ b ∷ []
spaced (a ∷ b ∷ c ∷ s) =
    let matched = a ∷ (" " ++ (b ∷ c ∷ spaced s)) in
    let other = a ∷ spaced (b ∷ c ∷ s) in
    if is_lower (code a) && (is_upper (code b) && is_lower (code c)) then matched else other

unfoldable pub category_to_readable : (trim_left : String → String) → (category : String) → String
unfolding spaced
category_to_readable trim_left category =
    if category == "" then "Unknown" else trim_left (spaced category)

-- `f.replace(/,/g, "__")` and `a.replace(/__/g, ",")`
unfoldable pub hide_commas : String → String
hide_commas [] = []
hide_commas (c ∷ s) =
    let rest = hide_commas s in if nat_eq (code c) b',' then "__" ++ rest else c ∷ rest

unfoldable pub show_commas : String → String
show_commas [] = []
show_commas (c ∷ []) = c ∷ []
show_commas (c ∷ d ∷ s) =
    let matched = "," ++ show_commas s in
    let other = c ∷ show_commas (d ∷ s) in
    if nat_eq (code c) b'_' && nat_eq (code d) b'_' then matched else other

-- The value of one filter in the address, and what is read from it.
unfoldable pub values_text : (encode : String → String) → List String → String
unfolding hide_commas join
values_text encode values = join "," (map (λ f. encode (hide_commas f)) values)

unfoldable pub read_values : (text : String) → List String
unfolding split_parts show_commas
read_values text =
    let (first, rest) = split_parts b',' text in map show_commas (List.◌∷◌ first rest)

unfoldable pub active_queries : (encode : String → String) → Dict (List String) → List String
unfolding values_text
active_queries encode List.[] = List.[]
active_queries encode (List.◌∷◌ (k, List.[]) filters) = active_queries encode filters
active_queries encode (List.◌∷◌ (k, List.◌∷◌ v vs) filters) =
    List.◌∷◌ (k ++ ("=" ++ values_text encode (List.◌∷◌ v vs))) (active_queries encode filters)

unfoldable pub filters_to_query : (encode : String → String) → Dict (List String) → String
unfolding active_queries join
filters_to_query encode filters = elim (active_queries encode filters) [
  | List.[] ↦ []
  | List.◌∷◌ q qs ↦ "?" ++ join "&" (List.◌∷◌ q qs)
]

-- `filters[name]`, which every filter has.
abbrev values_of : Dict (List String) → (name : String) → List String
values_of filters name = elim (lookup name filters) [ none ↦ List.[] | some vs ↦ vs ]

abbrev allows : List String → (value : String) → Bool
allows List.[] value = true
allows (List.◌∷◌ v vs) value = includes (List.◌∷◌ v vs) value

abbrev is_empty : List String → Bool
is_empty List.[] = true
is_empty (List.◌∷◌ v vs) = false

unfoldable pub shows_chart : (trim_left : String → String) → Dict (List String) → Chart → Bool
unfolding lookup category_to_readable
shows_chart trim_left filters c =
    allows (values_of filters "Type") "Charts"
    && (is_empty (values_of filters "Provider")
        && (allows (values_of filters "Repository") c.attributes.repo.name
            && allows (values_of filters "Category")
                (category_to_readable trim_left c.attributes.category)))

unfoldable pub filtered_charts :
    (trim_left : String → String) → Dict (List String) → List Chart → List Chart
unfolding shows_chart
filtered_charts trim_left filters List.[] = List.[]
filtered_charts trim_left filters (List.◌∷◌ c cs) =
    let rest = filtered_charts trim_left filters cs in
    if shows_chart trim_left filters c then List.◌∷◌ c rest else rest
