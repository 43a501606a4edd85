-- ===== src/Thunks/Releases/Latest.antt =====
-- dashboard/src/actions/apps.ts and dashboard/src/actions/charts.ts: which chart or version a sort by
-- semver puts first.
use mathlib.Core.Path.{subst}
use mathlib.Core.List.{Memᴰ}
use mathlib.Core.List.Memᴰ.{head}
use installer.Common.{
  sym, String, Bool, true, false, none, some, List, ◌∷◌, any, not, ◌≡◌, refl, arith,
}
use installer.Common.Result.{ok}
use installer.Common.Sort.{sort, any-sort, Mem-sort, IsTransitive, Precedes, sort-first}
use installer.Types.{Chart, ChartVersion}
use installer.Client.Platform.{Platform}
use installer.Thunks.Releases.{latest, sort_charts, is_up_to_date, update_info_of}
use installer.Thunks.Catalog.{version_of, sort_versions, choose_version}

-- A test of the first of a sorted list that no element fails.
first-passes {ℓ} :
    {A : Type ℓ} (le : A → A → Bool) (fails : A → Bool) (a : A) (xs rest : List A)
    → sort le xs ≡ a ∷ rest
    → any fails xs ≡ false
    → fails a ≡ false
first-passes le fails a xs rest e h = ground (arith, h, any-sort le fails xs, e)

first-found {ℓ} :
    {A : Type ℓ} (le : A → A → Bool) (a : A) (xs rest : List A) → sort le xs ≡ a ∷ rest → Memᴰ a xs
first-found le a xs rest e = Mem-sort le a xs (subst (Memᴰ a) (sym e) (head refl))

module _ (x : Platform) where
  abbrev pub chart_le : Chart → Chart → Bool
  chart_le a b = x.version_le (latest x a) (latest x b)

  abbrev pub newer_first : ChartVersion → ChartVersion → Bool
  newer_first a b = x.version_le (version_of x b) (version_of x a)

  abbrev pub IsTotal : Type 0
  IsTotal = (v w : String) → x.version_le v w ≡ false → x.version_le w v ≡ true

  sort_charts-valid :
      (cs : List Chart)
      → any (λ d. not (x.is_version (latest x d))) cs ≡ false
      → sort_charts x cs ≡ ok (sort chart_le cs)
  unfolding sort_charts
  sort_charts-valid cs h = ground (arith, h)

  sort_versions-valid :
      (vs : List ChartVersion)
      → any (λ d. not (x.is_version (version_of x d))) vs ≡ false
      → sort_versions x vs ≡ ok (sort newer_first vs)
  unfolding sort_versions
  sort_versions-valid vs h = ground (arith, h)

  is_up_to_date-valid :
      (current l : String)
      → x.is_version current ≡ true
      → not (x.is_version l) ≡ false
      → is_up_to_date x (some current) l ≡ ok (x.version_le l current)
  unfolding is_up_to_date
  is_up_to_date-valid current l h k = ground (arith, h, k)

  -- If charts were found, and their latest versions and the version that is installed are versions of
  -- semver: the update information is made of one of the found charts, the one whose latest version is the least (and
  -- not, as the code's comment says, about the latest). It is up to date if that least version is
  -- not above the one that is installed. (The order of semver is total and transitive.)
  pub update_info_of-least :
      (total : IsTotal) (trans : IsTransitive x.version_le) (current : String) (c : Chart)
      (cs : List Chart)
      → x.is_version current ≡ true
      → any (λ d. not (x.is_version (latest x d))) (c ∷ cs) ≡ false
      → (least : Chart) × Memᴰ least (c ∷ cs)
        × Precedes chart_le least (c ∷ cs)
        × (update_info_of x (some current) (c ∷ cs)
            ≡ ok (record {
              up_to_date = x.version_le (latest x least) current;
              chart_latest_version = latest x least;
              app_latest_version = least.latest_chart_version.app_version;
              repository = least.attributes.repo;
              error = none;
            }))
  unfolding update_info_of
  update_info_of-least total trans current c cs h valid =
      let (least, rest, e, first) =
        sort-first chart_le (λ a b d. trans (latest x a) (latest x b) (latest x d))
          (λ a b. total (latest x a) (latest x b)) c cs in
      (
        least,
        first-found chart_le least (c ∷ cs) rest e,
        first,
        rw (sort_charts-valid (c ∷ cs) valid, update_info_of)
            (rw e (
              rw
                (is_up_to_date-valid current (latest x least) h (
                  first-passes chart_le (λ d. not (x.is_version (latest x d))) least (c ∷ cs) rest e
                    valid))
                refl)),
      )

  -- If there are versions of a chart, all of them versions of semver, and none is asked for: the newest
  -- is selected. (The order of semver is total and transitive.)
  pub choose_version-newest :
      (total : IsTotal) (trans : IsTransitive x.version_le) (v : ChartVersion)
      (vs : List ChartVersion)
      → any (λ d. not (x.is_version (version_of x d))) (v ∷ vs) ≡ false
      → (newest : ChartVersion) × Memᴰ newest (v ∷ vs)
        × Precedes newer_first newest (v ∷ vs)
        × (choose_version x none (v ∷ vs) ≡ ok (some newest))
  unfolding choose_version
  choose_version-newest total trans v vs valid =
      let (newest, rest, e, first) =
        sort-first newer_first
          (λ a b d h k. trans (version_of x d) (version_of x b) (version_of x a) k h)
          (λ a b. total (version_of x b) (version_of x a)) v vs in
      (
        newest,
        first-found newer_first newest (v ∷ vs) rest e,
        first,
        rw (sort_versions-valid (v ∷ vs) valid, choose_version) (rw e refl),
      )
