-- ===== src/Llm/Usage/Ring.antt =====
-- The ring of records of internal/llm/usage.go, as the list of the latest records.
use native.Mathlib.Nat.{mod-lt, mod-eq_of_lt, add-mod_left, mod_self}
use qtest.Prelude.{
  ℕ, zero, suc, ◌+◌, ◌-◌, ◌%◌, ◌<◌, ◌≡◌, ◌≢◌, refl, sym, ap, ◌∙◌, ◌⊎◌, inl, inr, some, List, [],
  ◌∷◌, arith, ltb, Bool-cases, length, ==_iff,
}
use qtest.Jobs.Types.{Uuid, Time}
use qtest.Llm.Usage.{
  Float64, UsageRecord, UsageTracker, set_at, get_elem?, previous, recent_from, recent_records,
  keep, rounds, record_usage, stamped,
}

module _ {ℓ} {A : Type ℓ} where
  length-set_at : (i : ℕ) (a : A) (xs : List A) → length (set_at i a xs) ≡ length xs
  unfolding set_at
  length-set_at i a [] = refl
  length-set_at zero a (x ∷ xs) = refl
  length-set_at (suc i) a (x ∷ xs) = ap suc (length-set_at i a xs)

  get_elem?-set_at :
      (i : ℕ) (a : A) (xs : List A) → i < length xs → get_elem? (set_at i a xs) i ≡ some a
  unfolding set_at get_elem?
  get_elem?-set_at i a [] h = absurd (omega arith)
  get_elem?-set_at zero a (x ∷ xs) h = refl
  get_elem?-set_at (suc i) a (x ∷ xs) h = get_elem?-set_at i a xs (omega arith)

  get_elem?-set_at_ne :
      (i j : ℕ) (a : A) (xs : List A) → i ≢ j → get_elem? (set_at i a xs) j ≡ get_elem? xs j
  unfolding set_at get_elem?
  get_elem?-set_at_ne i j a [] n = refl
  get_elem?-set_at_ne zero zero a (x ∷ xs) n = absurd (n refl)
  get_elem?-set_at_ne zero (suc j) a (x ∷ xs) n = refl
  get_elem?-set_at_ne (suc i) zero a (x ∷ xs) n = refl
  get_elem?-set_at_ne (suc i) (suc j) a (x ∷ xs) n =
      get_elem?-set_at_ne i j a xs (λ e. n (ap suc e))

previous-zero : (max : ℕ) → 0 < max → previous max 0 + 1 ≡ max
previous-zero max h =
    let e : (0 + max - 1) % max ≡ 0 + max - 1 = mod-eq_of_lt (omega arith) in omega (arith, e)

previous-suc : (max i : ℕ) → i < max → previous max (suc i) ≡ i
previous-suc max i h =
    let e : suc i + max - 1 ≡ max + i = omega arith in
    ap (λ n. n % max) e ∙ add-mod_left max i ∙ mod-eq_of_lt h

-- The place before the next one is the place itself.
previous-next : (max i : ℕ) → i < max → previous max ((i + 1) % max) ≡ i
previous-next max i h = elim (Bool-cases (ltb (suc i) max)) [
  | inl inside ↦
      let e : (i + 1) % max ≡ suc i = mod-eq_of_lt (ground arith) ∙ omega arith in
      ap (previous max) e ∙ previous-suc max i h
  | inr last ↦
      let full : i + 1 ≡ max = ground arith in
      let e : (i + 1) % max ≡ 0 = ap (λ n. n % max) full ∙ mod_self max in
      let z = previous-zero max (omega arith) in ap (previous max) e ∙ omega (arith, z)
]

-- The j-th place lies k + 1 steps behind the place `index`, around a ring of `max` places.
abbrev Behind : ℕ → ℕ → ℕ → ℕ → Type 0
Behind max index j k = (j < max) × ((j + k + 1 ≡ index) ⊎ (j + k + 1 ≡ index + max))

step_back :
    (max index j k : ℕ)
    → index < max
    → suc k < max
    → Behind max index j k
    → Behind max index (previous max j) (suc k)
step_back max index zero k i h b =
    let z = previous-zero max (omega arith) in (omega (arith, z), ground (arith, z, b.1))
step_back max index (suc j) k i h b =
    let e = previous-suc max j (omega (arith, b.0)) in
    rw e (omega (arith, b.0), ground (arith, b.1))

module _ {ℓ} {F : Type ℓ} (float : Float64 F) where
  -- The places of the ring are as many as they are said to be, and the next one is among them.
  pub record IsRing (t : UsageTracker F) : Type ℓ where
    pub whole : length t.records ≡ t.max_records
    pub inside : t.record_index < t.max_records

  -- A walk that does not come round to the place `index` does not see what is written there.
  recent_from-set_at :
      (max index : ℕ) (r : UsageRecord F) (records : List (UsageRecord F)) (n j k : ℕ)
      → index < max
      → n + k < max
      → Behind max index j k
      → recent_from float max (set_at index r records) n j ≡ recent_from float max records n j
  unfolding recent_from
  recent_from-set_at max index r records zero j k i h b = refl
  recent_from-set_at max index r records (suc n) j k i h b =
      let rest =
        recent_from-set_at max index r records n (previous max j) (suc k) i (omega arith)
          (step_back max index j k i (omega arith) b) in
      let away : index ≢ j = λ e. ground (arith, e, b.1) in
      let same = get_elem?-set_at_ne index j r records away in
      ap (λ x. keep float x (recent_from float max (set_at index r records) n (previous max j)))
        same
      ∙ ap (keep float (get_elem? records j)) rest

  previous-Behind : (max index : ℕ) → index < max → Behind max index (previous max index) 0
  previous-Behind max zero h = let z = previous-zero max h in (omega (arith, z), ground (arith, z))
  previous-Behind max (suc i) h =
      let e = previous-suc max i (omega arith) in rw e (omega arith, ground arith)

  -- Recording keeps the ring whole.
  pub record_usage-IsRing :
      (id : Uuid) (now : Time) (r : UsageRecord F) (t : UsageTracker F)
      → IsRing t
      → IsRing (record_usage float id now r t)
  unfolding record_usage
  record_usage-IsRing id now r t w = record {
    whole = length-set_at t.record_index (stamped float t id now r) t.records ∙ w.whole;
    inside = mod-lt (t.record_index + 1) (omega (arith, w.inside));
  }

  -- If the ring has as many places as it says and the next one is among them, then after a record
  -- with an id that is not nil the latest records are that record and then those that were the
  -- latest before, for every limit below the number of places.
  pub record_usage-recent :
      (id : Uuid) (now : Time) (r : UsageRecord F) (t : UsageTracker F) (limit : ℕ)
      → IsRing t
      → id ≢ 0
      → limit < t.max_records
      → recent_records float (limit + 1) (record_usage float id now r t)
        ≡ stamped float t id now r ∷ recent_records float limit t
  unfolding record_usage recent_records recent_from
  record_usage-recent id now r t limit w n h =
      let max = t.max_records in
      let index = t.record_index in
      let r' = stamped float t id now r in
      let full = set_at index r' t.records in
      let behind = previous-Behind max index w.inside in
      let round : rounds max (limit + 1) ≡ suc limit = ground arith in
      let few : rounds max limit ≡ limit = ground arith in
      let older : recent_from float max full limit (previous max index)
          ≡ recent_from float max t.records limit (previous max index) =
        recent_from-set_at max index r' t.records limit (previous max index) 0 w.inside
          (omega arith) behind in
      let written : get_elem? full index ≡ some r' =
        get_elem?-set_at index r' t.records (omega (arith, w.inside, w.whole)) in
      let fresh : keep float (some r') (recent_from float max t.records limit (previous max index))
          ≡ r' ∷ recent_from float max t.records limit (previous max index) =
        ground (arith, ==_iff id 0) in
      ap (λ m. recent_from float max full m (previous max ((index + 1) % max))) round
      ∙ ap (recent_from float max full (suc limit)) (previous-next max index w.inside)
      ∙ ap (λ x. keep float x (recent_from float max full limit (previous max index))) written
      ∙ ap (keep float (some r')) older
      ∙ fresh
      ∙ ap (λ m. r' ∷ recent_from float max t.records m (previous max index)) (sym few)
