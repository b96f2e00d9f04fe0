-- ===== src/Llm/Cache/Tests.antt =====
-- Runs of the cache of internal/llm/cache.go.
use qtest.Prelude.{
  ℕ, ap, length, String, ◌≡◌, ◌≢◌, refl, str_eq, false, none, some, List, [], ◌∷◌, All, arith,
  if◌then◌else◌,
}
use qtest.Prelude.Assoc.{lookup, erase}
use qtest.Prelude.Int.{ℤ, ◌+ℤ◌, ◌≤ℤ◌, leb_ℤ}
use qtest.Llm.Cache
use qtest.Llm.Cache.{string_eq, CacheEntry, MemoryCache, evict_oldest}
use qtest.Llm.Cache.Evict.{Named, evict_oldest_lem}
use qtest.Llm.Cache.Bounds.{IsBounded, set-IsBounded}
use qtest.Llm.Cache.Reads.{lifetime, set-get}

abbrev two_entries : List (String × CacheEntry ℕ)
two_entries =
    ("a", record { response = 1; expires_at = ℤ.pos 50 })
    ∷ ("b", record { response = 2; expires_at = ℤ.pos 40 })
    ∷ []

abbrev full_cache : MemoryCache ℕ
full_cache = record {
  entries = two_entries;
  max_size = ℤ.pos 2;
  ttl = ℤ.pos 30;
  stats = record { hits = ℤ.pos 0; misses = ℤ.pos 0; size = ℤ.pos 2 };
}

named : (s : String) → str_eq s "" ≡ false → s ≢ ""
named s h e = let f : str_eq s "" ≡ str_eq "" "" = ap (λ t. str_eq t "") e in cc

two_entries-Named : Named two_entries
two_entries-Named = (named "a" refl, (named "b" refl, tt))

full_cache-IsBounded : IsBounded full_cache
unfolding lookup
full_cache-IsBounded = record {
  keyed = (refl, (refl, tt));
  named = two_entries-Named;
  room = omega arith;
  bounded = omega arith;
}

set-IsBounded_example : IsBounded (Cache.set full_cache "c" 3 (ℤ.pos 0) (ℤ.pos 20))
set-IsBounded_example =
    set-IsBounded full_cache "c" 3 (ℤ.pos 0) (ℤ.pos 20) (named "c" refl) full_cache-IsBounded

set-get_example :
    (Cache.get (Cache.set full_cache "c" 3 (ℤ.pos 0) (ℤ.pos 20)) "c" (ℤ.pos 60)).0
    ≡ (if leb_ℤ (ℤ.pos 60) (ℤ.pos 20 +ℤ lifetime full_cache (ℤ.pos 0)) then some 3 else none)
set-get_example = set-get full_cache "c" 3 (ℤ.pos 0) (ℤ.pos 20) (ℤ.pos 60)

evict_oldest_lem_example :
    (k : String) × (e : CacheEntry ℕ) × (lookup k two_entries ≡ some e)
    × (evict_oldest two_entries ≡ erase k two_entries)
    × All (λ (x : String × CacheEntry ℕ). e.expires_at ≤ℤ x.1.expires_at) two_entries
unfolding lookup
evict_oldest_lem_example =
    evict_oldest_lem two_entries (λ e. let f : 2 ≡ 0 = ap length e in cc) (refl, (refl, tt))
      two_entries-Named
