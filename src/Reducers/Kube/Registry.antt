-- ===== src/Reducers/Kube/Registry.antt =====
-- Handles that the browser gave out, and the keys under which they are kept: every handle that is
-- live is kept under one key, and every handle that is kept is live.
use mathlib.Core.Path.{fun_ext}
use installer.Common.{
  ℕ, ◌+◌, ◌≤◌, ◌<◌, String, Bool, true, false, Option, none, some, ◌≡◌, arith, eq_iff, ◌==◌, nat_eq,
  if◌then◌else◌, Bool-cases, inl, inr,
}

abbrev pub update {ℓ} : {A : Type ℓ} → (ℕ → A) → ℕ → A → ℕ → A
update f i v j = if nat_eq i j then v else f j

abbrev pub keep : (String → Option ℕ) → String → Option ℕ → String → Option ℕ
keep held k o j = if k == j then o else held j

pub record Tracks (held : String → Option ℕ) (live : ℕ → Bool) (next : ℕ) : Type 0 where
  pub held_live : (k : String) (i : ℕ) → held k ≡ some i → live i ≡ true
  pub live_held : (i : ℕ) → live i ≡ true → (k : String) × (held k ≡ some i)
  pub one_key : (k j : String) (i : ℕ) → held k ≡ some i → held j ≡ some i → k ≡ j
  pub fresh : (i : ℕ) → live i ≡ true → i < next

pub Tracks-ext :
    {held held' : String → Option ℕ} {live live' : ℕ → Bool} {next : ℕ}
    → ((k : String) → held' k ≡ held k)
    → ((i : ℕ) → live' i ≡ live i)
    → Tracks held live next
    → Tracks held' live' next
Tracks-ext h l t = rw (fun_ext h) (rw (fun_ext l) t)

module _ (held : String → Option ℕ) (live : ℕ → Bool) (next : ℕ)
    (tracks : Tracks held live next) where
  pub Tracks-later : (next' : ℕ) → next ≤ next' → Tracks held live next'
  Tracks-later next' h = record {
    held_live = tracks.held_live;
    live_held = tracks.live_held;
    one_key = tracks.one_key;
    fresh = λ i l. let p = tracks.fresh i l in omega arith;
  }

  -- A new handle, kept under a key that had none.
  pub Tracks-open :
      (k : String)
      → held k ≡ none
      → Tracks (keep held k (some next)) (update live next true) (next + 1)
  Tracks-open k empty = record {
    held_live = λ j i h. ground (arith, h, empty, tracks.held_live j i, eq_iff k j);
    live_held = λ i l. elim (Bool-cases (nat_eq next i)) [
      | inl same ↦ (k, ground (arith, same, eq_iff k k))
      | inr other ↦
          let (j, h) = tracks.live_held i (ground (arith, l, other)) in
          (j, ground (arith, h, empty, eq_iff k j))
    ];
    one_key = λ j m i h g. ground (
      arith,
      h,
      g,
      tracks.one_key j m i,
      tracks.held_live j i,
      tracks.held_live m i,
      tracks.fresh i,
      eq_iff k j,
      eq_iff k m,
    );
    fresh = λ i l. ground (arith, tracks.fresh i);
  }

  -- The handle of a key, given up.
  pub Tracks-close :
      (k : String) (i : ℕ) → held k ≡ some i → Tracks (keep held k none) (update live i false) next
  Tracks-close k i found = record {
    held_live =
        λ j m h. ground (arith, h, found, tracks.held_live j m, tracks.one_key j k m, eq_iff k j);
    live_held = λ m l. elim (Bool-cases (nat_eq i m)) [
      | inl same ↦ absurd (ground (arith, l, same))
      | inr other ↦
          let (j, h) = tracks.live_held m (ground (arith, l, other)) in
          (j, ground (arith, h, other, found, eq_iff k j))
    ];
    one_key = λ j m n h g. ground (arith, h, g, tracks.one_key j m n, eq_iff k j, eq_iff k m);
    fresh = λ m l. ground (arith, tracks.fresh m);
  }
