-- ===== src/Llm/Cache/Bounds.antt =====
-- The size of the cache of internal/llm/cache.go.
use qtest.Prelude.{
  ◌+◌, ◌≤◌, String, ◌≡◌, ◌≢◌, ap, inl, inr, Option, none, some, List, [], ◌∷◌, arith, if◌then◌else◌,
  Bool-cases, length, str_eq,
}
use qtest.Prelude.Assoc.{lookup, erase, insert, UniqueKeys, erase-UniqueKeys, insert-UniqueKeys}
use qtest.Prelude.Int.{ℤ, leb_ℤ, ◌≤ℤ◌, ◌+ℤ◌}
use qtest.Jobs.Types.{Time, Duration}
use qtest.Llm.Cache
use qtest.Llm.Cache.{string_eq, CacheStats, CacheEntry, MemoryCache, evict_oldest, is_expired}
use qtest.Llm.Cache.Evict.{Named, evict_oldest_lem}

module _ {ℓ} {R : Type ℓ} where
  -- Keys are unique and none is empty, and there are no more entries than the cache may have.
  pub record IsBounded (c : MemoryCache R) : Type ℓ where
    pub keyed : UniqueKeys c.entries
    pub named : Named c.entries
    pub room : ℤ.pos 1 ≤ℤ c.max_size
    pub bounded : ℤ.pos (length c.entries) ≤ℤ c.max_size

  length-erase-le : (k : String) (m : List (String × CacheEntry R)) → length (erase k m) ≤ length m
  unfolding erase
  length-erase-le k [] = omega arith
  length-erase-le k ((j, e) ∷ m) = ground (arith, length-erase-le k m)

  length-erase :
      (k : String) (m : List (String × CacheEntry R)) (e : CacheEntry R)
      → lookup k m ≡ some e
      → length (erase k m) + 1 ≤ length m
  unfolding erase lookup
  length-erase k [] e h = cc
  length-erase k ((j, x) ∷ m) e h = ground (arith, length-erase k m e, length-erase-le k m)

  erase-Named : (k : String) (m : List (String × CacheEntry R)) → Named m → Named (erase k m)
  unfolding erase
  erase-Named k [] n = tt
  erase-Named k ((j, e) ∷ m) n = elim (Bool-cases (str_eq j k)) [
    | inl same ↦ rw same (erase-Named k m n.1)
    | inr other ↦ rw other (n.0, erase-Named k m n.1)
  ]

  -- What `Set` keeps of the entries before it adds its own.
  make_room :
      (c : MemoryCache R)
      → IsBounded c
      → let kept =
          if leb_ℤ c.max_size (ℤ.pos (length c.entries))
          then evict_oldest c.entries
          else c.entries in
        UniqueKeys kept × Named kept × (ℤ.pos (length kept + 1) ≤ℤ c.max_size)
  make_room c b = elim (Bool-cases (leb_ℤ c.max_size (ℤ.pos (length c.entries)))) [
    | inr free ↦ rw free (b.keyed, b.named, ground arith)
    | inl full ↦
        let (k, e, here, evicted, _) =
          evict_oldest_lem c.entries
            (λ q. let z : length c.entries ≡ 0 = ap length q in ground (arith, b.room)) b.keyed
            b.named in
        rw (full, evicted)
          (
            erase-UniqueKeys k c.entries b.keyed,
            erase-Named k c.entries b.named,
            omega (arith, length-erase k c.entries e here, b.bounded),
          )
  ]

  insert-Named :
      (k : String) (e : CacheEntry R) (m : List (String × CacheEntry R))
      → k ≢ ""
      → Named m
      → Named (insert k e m)
  unfolding insert
  insert-Named k e m ne n = (ne, erase-Named k m n)

  length-insert-le :
      (k : String) (e : CacheEntry R) (m : List (String × CacheEntry R))
      → length (insert k e m) ≤ length m + 1
  unfolding insert
  length-insert-le k e m = omega (arith, length-erase-le k m)

  -- A cache that has at most `max_size` entries, with place for one at least, under unique keys of
  -- which none is empty, stays one when `Set` stores a response under a key that is not empty.
  pub set-IsBounded :
      (c : MemoryCache R) (key : String) (response : R) (ttl : Duration) (now : Time)
      → key ≢ ""
      → IsBounded c
      → IsBounded (Cache.set c key response ttl now)
  unfolding Cache.set
  set-IsBounded c key response ttl now ne b =
      let kept =
        if leb_ℤ c.max_size (ℤ.pos (length c.entries)) then evict_oldest c.entries else c.entries in
      let (keyed, named, room) = make_room c b in
      record {
        keyed = insert-UniqueKeys key _ kept keyed;
        named = insert-Named key _ kept ne named;
        room = b.room;
        bounded = omega (
          arith,
          length-insert-le key
              (record {
                response = response;
                expires_at = now +ℤ (if leb_ℤ ttl (ℤ.pos 0) then c.ttl else ttl);
              })
              kept,
          room,
        );
      }

  erase-IsBounded :
      (c : MemoryCache R) (key : String) (s : CacheStats)
      → IsBounded c
      → IsBounded (record c { entries = erase key c.entries; stats = s })
  erase-IsBounded c key s b = record {
    keyed = erase-UniqueKeys key c.entries b.keyed;
    named = erase-Named key c.entries b.named;
    room = b.room;
    bounded = omega (arith, length-erase-le key c.entries, b.bounded);
  }

  restat : (c : MemoryCache R) (s : CacheStats) → IsBounded c → IsBounded (record c { stats = s })
  restat c s b = record { keyed = b.keyed; named = b.named; room = b.room; bounded = b.bounded }

  found-IsBounded :
      (c : MemoryCache R) (key : String) (now : Time) (r : Option (CacheEntry R))
      → IsBounded c
      → IsBounded (Cache.found c key now r).1
  unfolding Cache.found
  found-IsBounded c key now none b = restat c _ b
  found-IsBounded c key now (some e) b = elim (Bool-cases (is_expired now e)) [
    | inl yes' ↦ rw yes' (erase-IsBounded c key _ b)
    | inr no' ↦ rw no' (restat c _ b)
  ]

  -- A lookup, which may drop the entry that it finds, keeps the cache within its bounds.
  pub get-IsBounded :
      (c : MemoryCache R) (key : String) (now : Time)
      → IsBounded c
      → IsBounded (Cache.get c key now).1
  unfolding Cache.get
  get-IsBounded c key now b = found-IsBounded c key now (lookup key c.entries) b

  -- A new cache is within its bounds, whatever size it is asked for.
  pub new_memory_cache-IsBounded :
      (max_size : ℤ) (ttl : Duration) → IsBounded (Cache.new_memory_cache {R = R} max_size ttl)
  unfolding Cache.new_memory_cache
  new_memory_cache-IsBounded max_size ttl = record {
    keyed = tt;
    named = tt;
    room = ground arith;
    bounded = ground arith;
  }
