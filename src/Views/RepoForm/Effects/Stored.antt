-- ===== src/Views/RepoForm/Effects/Stored.antt =====
-- dashboard/src/components/Config/AppRepoList/AppRepoForm.tsx: what the form makes of the secrets that
-- the repository has.
use Prim.Native.Char.{code}
use text.Mathlib.TextLemmas.{cons-append, append_assoc}
use Prim.Native.String.{String, [], ◌++◌, ◌∷◌}
use mathlib.Core.List as List
use installer.Common.{
  true, false, Option, none, some, ◌≡◌, refl, ap, ◌∙◌, inl, inr, arith, eq_iff, nat_eq_iff,
  Option-cases, ◌==◌, truthy,
}
use installer.Common.Text.{
  split_parts, split_parts-append, split_parts-bare, has_char, head_of, single-append,
}
use installer.Views.RepoFilter.{starts_with}
use installer.Views.RepoForm.{AppRepoForm, basic, custom, final_header}
use installer.Views.RepoForm.Effects.Settling.{
  settle-same, settle-some, receive_secret-some, run_effects-header, same_deps-eq,
}
use installer.Views.RepoForm.Effects.{
  FormProps, second_part, read_basic, read_stored, read_header, read_ca, secret_effect, rendered,
  receive_secret,
}

-- What is documented of `btoa` and `atob`: what was encoded is decoded again, and a code has no blank.
pub record IsCodec (btoa atob : String → Option String) : Type 0 where
  pub undone : (t e : String) → btoa t ≡ some e → atob e ≡ some t
  pub no_blank : (t e : String) → btoa t ≡ some e → has_char b' ' e ≡ false

-- A text begins with what it was put together from.
pub starts_with-append : (p s : String) → starts_with p (p ++ s) ≡ true
starts_with-append [] s = refl
starts_with-append (c ∷ p) s =
    rw (cons-append c p s) (ground (arith, nat_eq_iff (code c) (code c), starts_with-append p s))

basic-append : (e : String) → "Basic " ++ e ≡ "Basic" ++ (head_of " " ∷ e)
basic-append e = append_assoc "Basic" " " e ∙ ap (λ t. "Basic" ++ t) (single-append (head_of " ") e)

basic_lem : (e : String) → starts_with "Basic" ("Basic " ++ e) ≡ true
basic_lem e = rw (basic-append e) (starts_with-append "Basic" (head_of " " ∷ e))

second_lem : (e : String) → has_char b' ' e ≡ false → second_part b' ' ("Basic " ++ e) ≡ some e
second_lem e plain =
    let parts : split_parts b' ' ("Basic " ++ e) ≡ ("Basic", List.◌∷◌ e List.[]) =
      rw (basic-append e) (
        split_parts-append (head_of " ") "Basic" e refl
        ∙ ap (λ (r : String × List.List String). ("Basic", List.◌∷◌ r.0 r.1))
            (split_parts-bare b' ' e plain)) in
    ap
      (λ (r : String × List.List String). elim r.1 as (λ x. Option String) [
        | List.[] ↦ none
        | List.◌∷◌ part rest ↦ some part
      ])
      parts

pair_lem :
    (user pw : String)
    → has_char b':' user ≡ false
    → split_parts b':' (user ++ (":" ++ pw))
      ≡ (user, List.◌∷◌ (split_parts b':' pw).0 (split_parts b':' pw).1)
pair_lem user pw plain =
    rw (single-append (head_of ":") pw) (split_parts-append (head_of ":") user pw plain)

-- The props of a repository whose secret has only a header.
abbrev pub only_header : FormProps → (raw : String) → FormProps
only_header props raw = record props {
  secret =
      some (record { ca_crt = none; authorization_header = some raw; dockerconfigjson = none });
}

-- The header is shown as a custom one first.
pub first_lem :
    (atob : String → Option String) (props : FormProps) (g : AppRepoForm) (raw header : String)
    → truthy raw ≡ true
    → atob raw ≡ some header
    → starts_with "Basic" g.auth_header ≡ false
    → starts_with "Bearer" g.auth_header ≡ false
    → secret_effect atob (only_header props raw).secret g
      ≡ some (record g { auth_method = custom; auth_header = header })
unfolding secret_effect read_ca read_header read_stored
first_lem atob props g raw header there decoded not_basic not_bearer =
    ground (arith, there, decoded, not_basic, not_bearer)

module _ (btoa atob : String → Option String) (codec : IsCodec btoa atob) where
  header-cases :
      (f : AppRepoForm) (header pw : String)
      → f.auth_method ≡ basic
      → f.password ≡ some pw
      → final_header btoa f ≡ some header
      → (e : String) × (btoa (f.user ++ (":" ++ pw)) ≡ some e) × (header ≡ "Basic " ++ e)
  unfolding final_header
  header-cases f header pw method pass built = elim (Option-cases (btoa (f.user ++ (":" ++ pw)))) [
    | inl thrown ↦ absurd (ground (arith, method, pass, built, thrown))
    | inr (e, encoded) ↦ (e, encoded, ground (arith, method, pass, built, encoded))
  ]

  -- Then its parts are read.
  second_run_lem :
      (props : FormProps) (g : AppRepoForm) (raw e user pw : String)
      → truthy raw ≡ true
      → g.auth_header ≡ "Basic " ++ e
      → has_char b' ' e ≡ false
      → atob e ≡ some (user ++ (":" ++ pw))
      → has_char b':' user ≡ false
      → secret_effect atob (only_header props raw).secret g
        ≡ some
            (record g { user = user; password = some (split_parts b':' pw).0; auth_method = basic })
  unfolding secret_effect read_ca read_header read_basic
  second_run_lem props g raw e user pw there shows plain decoded user_plain =
      let is_basic : starts_with "Basic" g.auth_header ≡ true =
        ap (starts_with "Basic") shows ∙ basic_lem e in
      let part : second_part b' ' g.auth_header ≡ some e =
        ap (second_part b' ') shows ∙ second_lem e plain in
      let parts = pair_lem user pw user_plain in
      ground (arith, there, is_basic, part, decoded, parts)

  -- A header of basic authentication that the form built, and that was saved, is taken apart again
  -- when the secret of the repository arrives, if it has only this header: the form shows the user, and
  -- the password as far as its first colon (`split(":")[1]`). The user must have no colon, and the form must not show a
  -- header of one of the two kinds yet. (`btoa` and `atob` are assumed to do what is documented.)
  pub receive_secret-final_header :
      (f g : AppRepoForm) (props : FormProps) (header raw pw : String)
      → f.auth_method ≡ basic
      → f.password ≡ some pw
      → has_char b':' f.user ≡ false
      → final_header btoa f ≡ some header
      → truthy raw ≡ true
      → btoa header ≡ some raw
      → starts_with "Basic" g.auth_header ≡ false
      → starts_with "Bearer" g.auth_header ≡ false
      → receive_secret atob 3 (only_header props raw) g
        ≡ rendered (record g {
          auth_method = basic;
          auth_header = header;
          user = f.user;
          password = some (split_parts b':' pw).0;
        })
  unfolding receive_secret
  receive_secret-final_header f g props header raw pw method pass plain built there saved nb nr =
      let (e, encoded, shape) = header-cases f header pw method pass built in
      let given = only_header props raw in
      let one : AppRepoForm = record g { auth_method = custom; auth_header = header } in
      let two : AppRepoForm = record one {
        user = f.user;
        password = some (split_parts b':' pw).0;
        auth_method = basic;
      } in
      let first = first_lem atob props g raw header there (codec.undone header raw saved) nb nr in
      let second =
        second_run_lem props one raw e f.user pw there shape (codec.no_blank _ e encoded)
          (codec.undone _ e encoded) plain in
      let is_basic : starts_with "Basic" header ≡ true =
        ap (starts_with "Basic") shape ∙ basic_lem e in
      let changed : (header == g.auth_header) ≡ false =
        ground (arith, is_basic, nb, eq_iff header g.auth_header) in
      let (ran, other) = run_effects-header atob given g one refl changed in
      receive_secret-some atob 3 given g one first
      ∙ settle-some atob 2 given g one two other (ran ∙ second)
      ∙ settle-same atob 1 given one two (same_deps-eq atob one two refl refl)
