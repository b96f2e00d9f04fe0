-- ===== src/Llm/Cache/Reads.antt =====
-- What a lookup of internal/llm/cache.go answers.
use qtest.Prelude.{String, ◌≡◌, refl, Option, none, some, arith, if◌then◌else◌, length}
use qtest.Prelude.Assoc.{lookup, lookup-insert_self}
use qtest.Prelude.Int.{ℤ, leb_ℤ, ◌≤ℤ◌, ◌+ℤ◌}
use qtest.Jobs.Types.{Time, Duration}
use qtest.Llm.Cache
use qtest.Llm.Cache.{string_eq, CacheEntry, MemoryCache, evict_oldest, is_expired}

module _ {ℓ} {R : Type ℓ} where
  -- The lifetime that `Set` gives an entry: its own, or that of the cache when it names none.
  abbrev pub lifetime : MemoryCache R → Duration → Duration
  lifetime c ttl = if leb_ℤ ttl (ℤ.pos 0) then c.ttl else ttl

  -- Until the lifetime of an entry ends, a lookup with its key answers the response that `Set`
  -- stored, whatever was evicted for it; afterwards a lookup answers nothing.
  pub set-get :
      (c : MemoryCache R) (key : String) (response : R) (ttl : Duration) (now later : Time)
      → (Cache.get (Cache.set c key response ttl now) key later).0
        ≡ (if leb_ℤ later (now +ℤ lifetime c ttl) then some response else none)
  unfolding Cache.get Cache.found Cache.set
  set-get c key response ttl now later =
      let kept =
        if leb_ℤ c.max_size (ℤ.pos (length c.entries)) then evict_oldest c.entries else c.entries in
      rw
        (lookup-insert_self key (record { response = response; expires_at = now +ℤ lifetime c ttl })
          kept)
        (ground arith)

  found-live :
      (c : MemoryCache R) (key : String) (now : Time) (r : Option (CacheEntry R)) (response : R)
      → (Cache.found c key now r).0 ≡ some response
      → (e : CacheEntry R) × (r ≡ some e) × (e.response ≡ response) × (now ≤ℤ e.expires_at)
  unfolding Cache.found
  found-live c key now none response h = cc
  found-live c key now (some e) response h = (e, refl, ground arith, ground arith)

  -- A response that a lookup answers is stored under its key and has not expired.
  pub get-live :
      (c : MemoryCache R) (key : String) (now : Time) (response : R)
      → (Cache.get c key now).0 ≡ some response
      → (e : CacheEntry R) × (lookup key c.entries ≡ some e)
        × (e.response ≡ response)
        × (now ≤ℤ e.expires_at)
  unfolding Cache.get
  get-live c key now response h = found-live c key now (lookup key c.entries) response h
