-- ===== src/Prelude/Texts.antt =====
-- Go's `strings.HasSuffix` and `strings.TrimSuffix`, with `strings.HasPrefix` and `TrimPrefix`.
use Prim.Native.Nat.{◌-◌}
use Prim.Native.String.{String, len, slice, ◌++◌}
use text.Mathlib.Text.{starts_with, ◌==◌ as str_eq}
use text.Mathlib.TextEquality.{eq_iff}
use text.Mathlib.TextPositions.{len-append, slice-append_left, slice-append_right, eq_refl}
use text.Mathlib.TextLemmas.{append_assoc}
use mathlib.Core.Path.{◌≡◌, refl, sym, ap, ◌∙◌}
use mathlib.Core.Bool.{Bool, true, false, true≢false, ◌&&◌}
use mathlib.Core.Logic.{inl, inr}
use native.Mathlib.Omega.{arith}
use qtest.Prelude.Tests.{leb, if◌then◌else◌, Bool-cases, &&-right}

-- The text without as many bytes at its end as the suffix has.
abbrev pub stem : String → String → String
stem s t = slice s 0 (len s - len t)

unfoldable pub has_suffix : String → String → Bool
has_suffix s t = leb (len t) (len s) && str_eq (stem s t ++ t) s

unfoldable pub trim_suffix : String → String → String
trim_suffix s t = if has_suffix s t then stem s t else s

unfoldable pub trim_prefix : String → String → String
trim_prefix s t = if starts_with s t then slice s (len t) (len s) else s

pub stem-append : (s t : String) → stem (s ++ t) t ≡ s
stem-append s t = ap (slice (s ++ t) 0) (rw len-append (omega arith)) ∙ slice-append_left s t

pub has_suffix-append : (s t : String) → has_suffix (s ++ t) t ≡ true
unfolding has_suffix
has_suffix-append s t = rw (stem-append, eq_refl) (ground (arith, len-append s t))

-- Texts with the same last bytes, as many as the endings have, end alike.
endings_agree : (a s b t : String) → a ++ s ≡ b ++ t → len s ≡ len t → s ≡ t
endings_agree a s b t e n =
    sym (slice-append_right a s) ∙ rw (same_start, e, n) refl ∙ slice-append_right b t
  where
    same_start : len a ≡ len b
    same_start = omega (arith, n, len-append a s, len-append b t, ap len e)

-- A text does not end on what differs from its end in its last bytes.
pub has_suffix-other :
    (s t u v : String) → len v ≡ len t → str_eq v t ≡ false → has_suffix (s ++ t) (u ++ v) ≡ false
unfolding has_suffix
has_suffix-other s t u v n other = elim (Bool-cases (has_suffix (s ++ t) (u ++ v))) [
  | inr no_suffix ↦ no_suffix
  | inl suffix ↦ absurd (true≢false (sym (same suffix) ∙ other))
]
  where
    same : has_suffix (s ++ t) (u ++ v) ≡ true → str_eq v t ≡ true
    same h = (eq_iff v t).1 (
        endings_agree (stem (s ++ t) (u ++ v) ++ u) v s t
          (append_assoc (stem (s ++ t) (u ++ v)) u v
            ∙ (eq_iff (stem (s ++ t) (u ++ v) ++ (u ++ v)) (s ++ t)).0 (
                &&-right (leb (len (u ++ v)) (len (s ++ t)))
                  (str_eq (stem (s ++ t) (u ++ v) ++ (u ++ v)) (s ++ t)) h))
          n)
