-- ===== src/Llm/Cache.antt =====
-- internal/llm/cache.go: the in-memory cache. A cached value is of any type, as the cache never
-- looks into it; a value of `time.Now` is an argument; the entries stand in one order of iteration.
pub mod Evict
pub mod Bounds
pub mod Reads
mod Tests
use qtest.Prelude.{
  ℕ, String, Bool, true, false, ◌||◌, not, Option, none, some, List, [], ◌∷◌, if◌then◌else◌, length,
  str_eq, str_eq_iff,
}
use qtest.Prelude.Assoc.{Eq, lookup, insert, erase}
use qtest.Prelude.Int.{ℤ, ◌+ℤ◌, ltb_ℤ, leb_ℤ, eqb_ℤ}
use qtest.Jobs.Types.{Time, Duration}

instance abbrev pub string_eq : Eq String
string_eq = record { beq = str_eq; beq_iff = str_eq_iff }

-- `x++` on an int64, which wraps.
abbrev pub incr64 : ℤ → ℤ
incr64 x =
    if eqb_ℤ x (ℤ.pos 9223372036854775807) then ℤ.negsuc 9223372036854775807 else x +ℤ ℤ.pos 1

pub record CacheStats : Type 0 where
  pub hits : ℤ
  pub misses : ℤ
  pub size : ℤ

pub record CacheEntry {ℓ} (R : Type ℓ) : Type ℓ where
  pub response : R
  pub expires_at : Time

pub record MemoryCache {ℓ} (R : Type ℓ) : Type ℓ where
  pub entries : List (String × CacheEntry R)
  pub max_size : ℤ
  pub ttl : Duration
  pub stats : CacheStats

-- 24 hours in nanoseconds.
abbrev pub day : Duration
day = ℤ.pos 86400000000000

unfoldable pub new_memory_cache {ℓ} : {R : Type ℓ} → ℤ → Duration → MemoryCache R
new_memory_cache max_size ttl = record {
  entries = [];
  max_size = if leb_ℤ max_size (ℤ.pos 0) then ℤ.pos 1000 else max_size;
  ttl = if leb_ℤ ttl (ℤ.pos 0) then day else ttl;
  stats = record { hits = ℤ.pos 0; misses = ℤ.pos 0; size = ℤ.pos 0 };
}

abbrev pub miss : CacheStats → CacheStats
miss s = record s { misses = incr64 s.misses }

abbrev pub hit : CacheStats → CacheStats
hit s = record s { hits = incr64 s.hits }

module _ {ℓ} {R : Type ℓ} where
  -- `now.After(entry.expiresAt)`
  abbrev pub is_expired : Time → CacheEntry R → Bool
  is_expired now e = ltb_ℤ e.expires_at now

  unfoldable pub found :
      MemoryCache R → String → Time → Option (CacheEntry R) → Option R × MemoryCache R
  found c key now none = (none, record c { stats = miss c.stats })
  found c key now (some e) =
      if is_expired now e
      then (none, record c { entries = erase key c.entries; stats = miss c.stats })
      else (some e.response, record c { stats = hit c.stats })

  unfoldable pub get : MemoryCache R → String → Time → Option R × MemoryCache R
  unfolding found
  get c key now = found c key now (lookup key c.entries)

  -- The loop of `evictOldest`, from the key and the time that it has so far.
  unfoldable pub oldest : String → Time → List (String × CacheEntry R) → String
  oldest key time [] = key
  oldest key time ((k, e) ∷ rest) =
      let earlier = str_eq key "" || ltb_ℤ e.expires_at time in
      oldest (if earlier then k else key) (if earlier then e.expires_at else time) rest

  -- The zero `time.Time` is never compared: no key has been found then.
  unfoldable pub evict_oldest : List (String × CacheEntry R) → List (String × CacheEntry R)
  unfolding oldest
  evict_oldest entries =
      let key = oldest "" (ℤ.pos 0) entries in
      if not (str_eq key "") then erase key entries else entries

  unfoldable pub set : MemoryCache R → String → R → Duration → Time → MemoryCache R
  set c key response ttl now =
      let lifetime = if leb_ℤ ttl (ℤ.pos 0) then c.ttl else ttl in
      let kept =
        if leb_ℤ c.max_size (ℤ.pos (length c.entries)) then evict_oldest c.entries else c.entries in
      let entries =
        insert key (record { response = response; expires_at = now +ℤ lifetime }) kept in
      record c { entries = entries; stats = record c.stats { size = ℤ.pos (length entries) } }

  unfoldable pub sweep :
      Time
      → List (String × CacheEntry R)
      → List (String × CacheEntry R)
      → List (String × CacheEntry R)
  sweep now [] m = m
  sweep now ((key, e) ∷ rest) m = sweep now rest (if is_expired now e then erase key m else m)

  -- One tick of `cleanup`.
  unfoldable pub cleanup : Time → MemoryCache R → MemoryCache R
  unfolding sweep
  cleanup now c =
      let entries = sweep now c.entries c.entries in
      record c { entries = entries; stats = record c.stats { size = ℤ.pos (length entries) } }
