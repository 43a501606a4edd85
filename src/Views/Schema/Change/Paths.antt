-- ===== src/Views/Schema/Change/Paths.antt =====
-- dashboard/src/shared/schema.ts: where a path leaves the part of a document that is defined.
use Prim.Native.Char.{code}
use Prim.Native.String as Text
use mathlib.Core.Path.{subst}
use mathlib.Core.List.{append_assoc, append-nil}
use installer.Common.{
  ◌+◌, ◌-◌, String, Bool, true, false, not, ◌&&◌, Option, none, some, List, [], ◌∷◌, ◌++◌, ◌≡◌,
  refl, sym, ap, ◌∙◌, ◌⊎◌, inl, inr, arith, length, take, drop, Bool-cases, leb, eq_refl,
}
use installer.Common.Text.{has_char}
use installer.Types.{Json, obj, Props, end, prop}
use installer.Client.Http.{find_prop}
use installer.Views.Schema.{Yaml, is_nullish, defined_from}

abbrev starts_plain : String → Bool
starts_plain Text.[] = false
starts_plain (Text.◌∷◌ c s) = not (leb b'0' (code c) && leb (code c) b'9')

-- A key that neither lodash nor JSON Patch reads as more than a name.
abbrev pub is_plain : String → Bool
is_plain k =
    starts_plain k
    && (not (has_char b'.' k)
        && (not (has_char b'[' k) && (not (has_char b']' k) && not (has_char b'~' k))))

-- An object for each key, around a value; and what stands in a value at a path.
abbrev pub nest : List String → Json → Json
nest [] v = v
nest (k ∷ ks) v = obj (prop k (nest ks v) end)

abbrev pub find_in : List String → Json → Option Json
find_in [] v = some v
find_in (k ∷ ks) (obj ps) = elim (find_prop k ps) [ none ↦ none | some w ↦ find_in ks w ]
find_in (k ∷ ks) v = none

pub find_in-nest : (ks : List String) (v : Json) → find_in ks (nest ks v) ≡ some v
find_in-nest [] v = refl
find_in-nest (k ∷ ks) v = ground (arith, eq_refl k, find_in-nest ks v)

pub last_of :
    (x : String) (xs : List String)
    → (parents : List String) × (last : String) × (x ∷ xs ≡ parents ++ last ∷ [])
last_of x [] = ([], x, refl)
last_of x (z ∷ xs) = let (parents, last, e) = last_of z xs in (x ∷ parents, last, ap (λ l. x ∷ l) e)

pub take-length :
    (p : List String) (k : String) (q : List String)
    → take (length p + 1) (p ++ k ∷ q) ≡ p ++ k ∷ []
take-length [] k q = ground arith
take-length (x ∷ p) k q = ground (arith, take-length p k q)

pub drop-length :
    (p : List String) (k : String) (q : List String) → drop (length p + 1) (p ++ k ∷ q) ≡ q
drop-length [] k q = ground arith
drop-length (x ∷ p) k q = ground (arith, drop-length p k q)

length-snoc : (p : List String) (k : String) → length (p ++ k ∷ []) ≡ length p + 1
length-snoc [] k = omega arith
length-snoc (x ∷ p) k = omega (arith, length-snoc p k)

take-append : (p q : List String) → take (length p) (p ++ q) ≡ p
take-append [] q = refl
take-append (x ∷ p) q = ap (λ l. x ∷ l) (take-append p q)

pub take-init : (p : List String) (k : String) → take (length (p ++ k ∷ []) - 1) (p ++ k ∷ []) ≡ p
take-init p k =
    let e : length (p ++ k ∷ []) - 1 ≡ length p = omega (arith, length-snoc p k) in
    rw e (take-append p (k ∷ []))

module _ {Doc : Type 0} (y : Yaml Doc) (d : Doc) where
  -- On the way to the last key, what is defined is an object.
  abbrev pub AreObjects : List String → Type 0
  AreObjects keys =
      (p : List String) (k : String) (q : List String)
      → keys ≡ p ++ k ∷ q
      → (y.get_in d p ≡ none) ⊎ ((ps : Props) × (y.get_in d p ≡ some (obj ps)))

  found_lem : (current rest : List String) → defined_from y d current true rest ≡ current
  unfolding defined_from
  found_lem current [] = refl
  found_lem current (p ∷ rest) = found_lem current rest

  -- The path is defined up to `before`, and not at the next key, which is not the last.
  pub record Broken (keys found : List String) : Type 0 where
    pub before : List String
    pub key : String
    pub next : String
    pub rest : List String
    pub ps : Props
    pub whole : keys ≡ before ++ key ∷ next ∷ rest
    pub at_before : found ≡ before
    pub defined : y.get_in d before ≡ some (obj ps)

  cons_snoc :
      (ps : List String) (last : String)
      → (next : String) × (rest : List String) × (ps ++ last ∷ [] ≡ next ∷ rest)
  cons_snoc [] last = (last, [], refl)
  cons_snoc (p ∷ ps) last = (p, ps ++ last ∷ [], refl)

  -- The loop of `getDefinedPath` finds where a path breaks off, if its parents are not all defined.
  pub defined_from-Broken :
      (current parents : List String) (last : String) (ps : Props)
      → y.get_in d current ≡ some (obj ps)
      → y.get_in d (current ++ parents) ≡ none
      → AreObjects (current ++ (parents ++ last ∷ []))
      → Broken (current ++ (parents ++ last ∷ [])) (defined_from y d current false parents)
  unfolding defined_from
  defined_from-Broken current [] last ps here missing objects =
      absurd (ground (arith, here, missing, append-nil current))
  defined_from-Broken current (p ∷ parents) last ps here missing objects =
      let (next, rest, shape) = cons_snoc parents last in
      let here' = current ++ p ∷ [] in
      let regroup : current ++ (p ∷ (parents ++ last ∷ [])) ≡ here' ++ (parents ++ last ∷ []) =
        sym (append_assoc current (p ∷ []) (parents ++ last ∷ [])) in
      elim (Bool-cases (is_nullish (y.get_in d here'))) [
        | inl nullish ↦ record {
          before = current;
          key = p;
          next = next;
          rest = rest;
          ps = ps;
          whole = ap (λ (l : List String). current ++ (p ∷ l)) shape;
          at_before = rw nullish (found_lem current parents);
          defined = here;
        }
        | inr present ↦
            elim (objects here' next rest (regroup ∙ ap (λ (l : List String). here' ++ l) shape)) [
              | inl none_there ↦ absurd (ground (arith, none_there, present))
              | inr (ps', there) ↦
                  let deeper =
                    defined_from-Broken here' parents last ps' there
                      (ap (y.get_in d) (append_assoc current (p ∷ []) parents) ∙ missing)
                      (subst AreObjects regroup objects) in
                  record {
                    before = deeper.before;
                    key = deeper.key;
                    next = deeper.next;
                    rest = deeper.rest;
                    ps = deeper.ps;
                    whole = regroup ∙ deeper.whole;
                    at_before = rw present deeper.at_before;
                    defined = deeper.defined;
                  }
            ]
      ]
