-- ===== src/Llm/Cache/Evict.antt =====
-- The entry that internal/llm/cache.go evicts.
use mathlib.Core.Path.{subst}
use qtest.Prelude.{
  String, ◌||◌, ◌≡◌, ◌≢◌, refl, sym, inl, inr, some, List, [], ◌∷◌, arith, if◌then◌else◌,
  Bool-cases, str_eq, str_eq_iff, All,
}
use qtest.Prelude.Assoc.{lookup, erase, UniqueKeys, entries-lookup}
use qtest.Prelude.Int.{ltb_ℤ, ◌≤ℤ◌}
use qtest.Jobs.Types.{Time}
use qtest.Llm.Cache.{string_eq, CacheEntry, oldest, evict_oldest}

module _ {ℓ} {R : Type ℓ} where
  -- No key is the empty string, which the loop takes for "none so far".
  abbrev pub Named : List (String × CacheEntry R) → Type 0
  Named [] = Unit
  Named ((k, e) ∷ m) = (k ≢ "") × Named m

  -- The time that belongs to the key of the loop.
  oldest_time : String → Time → List (String × CacheEntry R) → Time
  oldest_time key time [] = time
  oldest_time key time ((k, e) ∷ rest) =
      let earlier = str_eq key "" || ltb_ℤ e.expires_at time in
      oldest_time (if earlier then k else key) (if earlier then e.expires_at else time) rest

  -- What holds of the first key and of each entry holds of the key that the loop ends with.
  oldest_among {κ} :
      (P : String → Time → Type κ) (key : String) (time : Time) (m : List (String × CacheEntry R))
      → P key time
      → All (λ (x : String × CacheEntry R). P x.0 x.1.expires_at) m
      → P (oldest key time m) (oldest_time key time m)
  unfolding oldest oldest_time
  oldest_among P key time [] h a = h
  oldest_among P key time ((k, e) ∷ rest) h a =
      elim (Bool-cases (str_eq key "" || ltb_ℤ e.expires_at time)) [
        | inl earlier ↦ rw earlier (oldest_among P k e.expires_at rest a.0 a.1)
        | inr later ↦ rw later (oldest_among P key time rest h a.1)
      ]

  abbrev Least : Time → Time → List (String × CacheEntry R) → Type 0
  Least t time m = (t ≤ℤ time) × All (λ (x : String × CacheEntry R). t ≤ℤ x.1.expires_at) m

  -- From a key that is one, no entry expires before the time that the loop ends with.
  oldest-Least :
      (key : String) (time : Time) (m : List (String × CacheEntry R))
      → key ≢ ""
      → Named m
      → Least (oldest_time key time m) time m
  oldest-Least key time [] n a = (unfold oldest_time in omega arith, tt)
  oldest-Least key time ((k, e) ∷ rest) n a =
      elim (Bool-cases (str_eq key "" || ltb_ℤ e.expires_at time)) [
        | inl earlier ↦
            let step : oldest_time k e.expires_at rest ≡ oldest_time key time ((k, e) ∷ rest) =
              unfold oldest_time in rw earlier in
            let (below, least) = oldest-Least k e.expires_at rest a.0 a.1 in
            subst (λ t. Least t time ((k, e) ∷ rest)) step
              (ground (arith, str_eq_iff key ""), (below, least))
        | inr later ↦
            let step : oldest_time key time rest ≡ oldest_time key time ((k, e) ∷ rest) =
              unfold oldest_time in rw later in
            let (below, least) = oldest-Least key time rest n a.1 in
            subst (λ t. Least t time ((k, e) ∷ rest)) step (below, (ground arith, least))
      ]

  -- The time of a stored entry under its key.
  abbrev Stored : List (String × CacheEntry R) → String → Time → Type ℓ
  Stored m k t = (k ≢ "") × (e : CacheEntry R) × (lookup k m ≡ some e) × (e.expires_at ≡ t)

  All-Stored :
      (m rest : List (String × CacheEntry R))
      → Named rest
      → All (λ (x : String × CacheEntry R). lookup x.0 m ≡ some x.1) rest
      → All (λ (x : String × CacheEntry R). Stored m x.0 x.1.expires_at) rest
  All-Stored m [] n h = tt
  All-Stored m ((k, e) ∷ rest) n h = ((n.0, e, h.0, refl), All-Stored m rest n.1 h.1)

  -- A cache that is not empty, with unique keys of which none is empty, loses one entry: one that
  -- no other expires before.
  pub evict_oldest_lem :
      (m : List (String × CacheEntry R))
      → m ≢ []
      → UniqueKeys m
      → Named m
      → (k : String) × (e : CacheEntry R) × (lookup k m ≡ some e)
        × (evict_oldest m ≡ erase k m)
        × All (λ (x : String × CacheEntry R). e.expires_at ≤ℤ x.1.expires_at) m
  evict_oldest_lem [] ne u n = absurd (ne refl)
  evict_oldest_lem ((k', e') ∷ rest) ne u n =
      let m = (k', e') ∷ rest in
      let stored = All-Stored m m n (entries-lookup m u) in
      let (named, e, here, same) =
        oldest_among (Stored m) k' e'.expires_at rest stored.0 stored.1 in
      let (below, least) = oldest-Least k' e'.expires_at rest n.0 n.1 in
      (
        oldest k' e'.expires_at rest,
        e,
        here,
        unfold evict_oldest oldest in ground (arith, str_eq_iff (oldest k' e'.expires_at rest) ""),
        subst (λ t. All (λ (x : String × CacheEntry R). t ≤ℤ x.1.expires_at) m) (sym same)
            (below, least),
      )
