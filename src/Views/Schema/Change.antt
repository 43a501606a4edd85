-- ===== src/Views/Schema/Change.antt =====
-- dashboard/src/shared/schema.ts: a value that was set is read again.
pub mod Paths
use mathlib.Core.Path.{subst}
use mathlib.Core.List.{append_assoc, append-nil}
use installer.Common.{
  ℕ, ◌+◌, ◌-◌, zero, suc, String, Bool, true, false, not, ◌||◌, ◌&&◌, Option, none, some, List, [],
  ◌∷◌, ◌++◌, map, ◌≡◌, refl, sym, ap, ◌∙◌, ◌⊎◌, inl, inr, arith, any, any-append, length, take,
  drop, Option-cases, Bool-cases, if◌then◌else◌, leb,
}
use installer.Types.{Json, null, obj, Props, end, prop}
use installer.Client.Http.{join}
use installer.Views.Schema.{
  Yaml, split_path, is_nullish, defined_from, get_defined_path, place_value, parse_path_and_value,
  set_value, get_value,
}
use installer.Views.Schema.Change.Paths.{
  is_plain, nest, find_in, find_in-nest, AreObjects, last_of, take-length, drop-length, take-init,
  Broken, defined_from-Broken,
}

-- What is documented of the packages, where `to_json` is the value of a document: in a document where
-- a value was set under an object, the value is there, and what it holds below; `set({}, path, value)`
-- makes an object for each key between dots, where the keys are plain; a key without `~` is not escaped.
pub record IsYaml {Doc : Type 0} (y : Yaml Doc) : Type 0 where
  pub to_json : Doc → Json
  pub to_json-set_in :
      (d : Doc) (p : List String) (k : String) (q : List String) (v : Json) (ps : Props)
      → y.get_in d p ≡ some (obj ps)
      → find_in ((p ++ k ∷ []) ++ q) (to_json (y.set_in d (p ++ k ∷ []) v)) ≡ find_in q v
  pub set_path-join :
      (k : String) (ks : List String) (v : Json)
      → any (λ j. not (is_plain j)) (k ∷ ks) ≡ false
      → y.set_path (join "." (k ∷ ks)) v ≡ nest (k ∷ ks) v
  pub not_escaped : (k : String) → is_plain k ≡ true → y.unescape k ≡ k

-- A document that is printed so that its value is read from the text.
abbrev pub IsPrinted : {Doc : Type 0} (y : Yaml Doc) → IsYaml y → Doc → Type 0
IsPrinted y laws d =
    (p : List String) → y.get_in (y.parse_document (y.to_string d)) p ≡ find_in p (laws.to_json d)

module _ {Doc : Type 0} (y : Yaml Doc) (laws : IsYaml y) where
  unescape_lem :
      (ks : List String) → any (λ j. not (is_plain j)) ks ≡ false → map y.unescape ks ≡ ks
  unescape_lem [] h = refl
  unescape_lem (k ∷ ks) h =
      let plain : is_plain k ≡ true = ground (arith, h) in
      ap (λ (j : String). j ∷ map y.unescape ks) (laws.not_escaped k plain)
      ∙ ap (λ (l : List String). k ∷ l) (unescape_lem ks (ground (arith, h, plain)))

  module _ (d : Doc) (path : String) (v : Json) (parents : List String) (last : String) where
    parse_lem :
        y.is_empty d ≡ false
        → split_path path ≡ parents ++ last ∷ []
        → parse_path_and_value y d path v ≡ place_value y d (parents ++ last ∷ []) parents v
    unfolding parse_path_and_value
    parse_lem filled whole =
        rw (filled, parse_path_and_value)
          (ap (λ (ks : List String). place_value y d ks (take (length ks - 1) ks) v) whole
            ∙ ap (λ (ps : List String). place_value y d (parents ++ last ∷ []) ps v)
                (take-init parents last))

    -- The path to which a value is set, and the value: together they lead to what was to be set.
    record Placed : Type 0 where
      before : List String
      key : String
      below : List String
      ps : Props
      whole : parents ++ last ∷ [] ≡ before ++ key ∷ below
      placed : place_value y d (parents ++ last ∷ []) parents v ≡ (before ++ key ∷ [], nest below v)
      defined : y.get_in d before ≡ some (obj ps)

    rests :
        any (λ j. not (is_plain j)) (parents ++ last ∷ []) ≡ false
        → y.get_in d parents ≡ none
        → Broken y d (parents ++ last ∷ []) (get_defined_path y parents d)
        → Placed
    unfolding place_value
    rests plain missing b =
        let keys = parents ++ last ∷ [] in
        let found = get_defined_path y parents d in
        let p = b.before ++ b.key ∷ [] in
        let q = b.next ∷ b.rest in
        let bad = λ (j : String). not (is_plain j) in
        let all_plain : any bad (b.before ++ b.key ∷ q) ≡ false =
          ap (any bad) (sym b.whole) ∙ plain in
        let split = any-append bad b.before (b.key ∷ q) in
        let path_plain : any bad p ≡ false =
          ground (arith, all_plain, split, any-append bad b.before (b.key ∷ [])) in
        let rest_plain : any bad q ≡ false = ground (arith, all_plain, split) in
        let at_path : map y.unescape (take (length found + 1) keys) ≡ p =
          ap (λ (g : List String). map y.unescape (take (length g + 1) keys)) b.at_before
          ∙ ap (λ (ks : List String). map y.unescape (take (length b.before + 1) ks)) b.whole
          ∙ ap (map y.unescape) (take-length b.before b.key q)
          ∙ unescape_lem p path_plain in
        let at_value : y.set_path (join "." (drop (length found + 1) keys)) v ≡ nest q v =
          ap (λ (g : List String). y.set_path (join "." (drop (length g + 1) keys)) v) b.at_before
          ∙ ap (λ (ks : List String). y.set_path (join "." (drop (length b.before + 1) ks)) v)
              b.whole
          ∙ ap (λ (ks : List String). y.set_path (join "." ks) v) (drop-length b.before b.key q)
          ∙ laws.set_path-join b.next b.rest v rest_plain in
        record {
          before = b.before;
          key = b.key;
          below = q;
          ps = b.ps;
          whole = b.whole;
          placed =
              rw (missing, place_value)
                (ap
                    (λ (l : List String).
                      (l, y.set_path (join "." (drop (length found + 1) keys)) v))
                    at_path
                  ∙ ap (λ (w : Json). (p, w)) at_value);
          defined = b.defined;
        }

    place_value-Placed :
        (ps : Props)
        → any (λ j. not (is_plain j)) (parents ++ last ∷ []) ≡ false
        → y.get_in d [] ≡ some (obj ps)
        → AreObjects y d (parents ++ last ∷ [])
        → Placed
    unfolding place_value get_defined_path
    place_value-Placed ps plain root objects = elim (Option-cases (y.get_in d parents)) [
      | inl missing ↦
          rests plain missing (defined_from-Broken y d [] parents last ps root missing objects)
      | inr (node, there) ↦ elim (objects parents last [] refl) [
        | inl missing ↦ absurd (ground (arith, missing, there))
        | inr (ps', here) ↦ record {
          before = parents;
          key = last;
          below = [];
          ps = ps';
          whole = refl;
          placed =
              rw (there, place_value)
                (ap (λ (l : List String). (l, v)) (unescape_lem (parents ++ last ∷ []) plain));
          defined = here;
        }
      ]
    ]

  get_value_lem :
      (text path : String) (v : Json) (default : Option Json)
      → y.get_in (y.parse_document text) (map y.unescape (split_path path)) ≡ some v
      → is_nullish (some v) ≡ false
      → get_value y text path default ≡ some v
  unfolding get_value
  get_value_lem text path v default there present = ground (arith, there, present)

  -- A value that is set is the value that is read, wherever the path leaves the part of the document
  -- that is defined: for a document with an object at its root and an object at every defined parent of
  -- the path, a path of plain keys (with no dot, bracket or `~`, and no leading digit), and a value
  -- that is not null. (The packages are assumed to do what is documented of them, and to print the
  -- changed document so that its value is read from the text.)
  pub get_value-set_value :
      (text path : String) (v : Json) (default : Option Json) (ps : Props)
      → y.is_empty (y.parse_document text) ≡ false
      → any (λ j. not (is_plain j)) (split_path path) ≡ false
      → y.get_in (y.parse_document text) [] ≡ some (obj ps)
      → AreObjects y (y.parse_document text) (split_path path)
      → is_nullish (some v) ≡ false
      → IsPrinted y laws (
          y.set_in
            (y.parse_document text)
            (parse_path_and_value y (y.parse_document text) path v).0
            (parse_path_and_value y (y.parse_document text) path v).1)
      → get_value y (set_value y text path v) path default ≡ some v
  unfolding set_value split_path
  get_value-set_value text path v default ps filled plain root objects present printed =
      let d = y.parse_document text in
      let keys = split_path path in
      let bad = λ (j : String). not (is_plain j) in
      let (parents, last, shape) = last_of _ _ in
      let at =
        place_value-Placed d path v parents last ps (sym (ap (any bad) shape) ∙ plain) root
          (subst (AreObjects y d) shape objects) in
      let placed : parse_path_and_value y d path v ≡ (at.before ++ at.key ∷ [], nest at.below v) =
        parse_lem d path v parents last filled shape ∙ at.placed in
      let e = y.set_in d (at.before ++ at.key ∷ []) (nest at.below v) in
      let reads : IsPrinted y laws e =
        subst (λ (r : List String × Json). IsPrinted y laws (y.set_in d r.0 r.1)) placed printed in
      let saved : set_value y text path v ≡ y.to_string e =
        ap (λ (r : List String × Json). y.to_string (y.set_in d r.0 r.1)) placed in
      let whole : keys ≡ (at.before ++ at.key ∷ []) ++ at.below =
        shape ∙ at.whole ∙ sym (append_assoc at.before (at.key ∷ []) at.below) in
      let there : y.get_in (y.parse_document (y.to_string e)) (map y.unescape keys) ≡ some v =
        reads (map y.unescape keys)
        ∙ ap (λ (ks : List String). find_in ks (laws.to_json e)) (unescape_lem keys plain ∙ whole)
        ∙ laws.to_json-set_in d at.before at.key at.below (nest at.below v) at.ps at.defined
        ∙ find_in-nest at.below v in
      subst (λ (t : String). get_value y t path default ≡ some v) (sym saved)
        (get_value_lem (y.to_string e) path v default there present)
