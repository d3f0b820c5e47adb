-- ===== src/Size/Printed.antt =====
-- How `formatBytes` (pkg/driver/utils.go) prints a size.
use truenas_scale_csi.Base.{
  ℕ, ◌*◌, ◌^◌, ◌<◌, ◌≡◌, refl, ◌<>◌, pos, negsuc, arith, decimal, ◌%◌, ◌/◌, ◌≤◌, leb, true, false,
  ap,
}
use truenas_scale_csi.Size.{
  gi_b, ti_b, scaled_text, format_bytes, to_float64, tenths_text, div_nearest,
}

tests :
    (format_bytes (pos 1610612736) ≡ "1.5Gi")
    × (format_bytes (pos 0) ≡ "0")
    × (format_bytes (negsuc 4) ≡ "-5")
    × (format_bytes (pos 1023) ≡ "1023")
    × (format_bytes (pos 9223372036854775807) ≡ "8388608Ti")
unfolding format_bytes decimal
tests = (refl, refl, refl, refl, refl)

-- Below 2^53 a `float64` holds the number itself.
to_float64_exact : (n : ℕ) → n < 2 ^ 53 → to_float64 n ≡ n
unfolding to_float64
to_float64_exact n h = ground arith

tenths_text-whole : (k : ℕ) → tenths_text (k * 10) ≡ decimal k
unfolding tenths_text
tenths_text-whole k = rw (last, whole)
  where
    last : k * 10 % 10 ≡ 0
    last = omega arith

    whole : k * 10 / 10 ≡ k
    whole = omega arith

scaled_text-gibibytes : (k : ℕ) → k < 1024 → scaled_text (k * gi_b) gi_b ≡ decimal k
unfolding scaled_text
scaled_text-gibibytes k below =
    rw (to_float64_exact (k * gi_b) (omega arith), nearest) (tenths_text-whole k)
  where
    nearest : div_nearest (k * gi_b * 10) gi_b ≡ k * 10
    nearest = ground arith

-- A whole number of gibibytes, one or more and below 1 TiB, is printed as that number and "Gi".
pub format_bytes-gibibytes :
    (k : ℕ) → 0 < k → k < 1024 → format_bytes (pos (k * gi_b)) ≡ decimal k <> "Gi"
unfolding format_bytes
format_bytes-gibibytes k positive below =
    rw (leb-eq-false ti_b (k * gi_b) (omega arith), leb-eq-true gi_b (k * gi_b) (omega arith))
      (ap (λ s. s <> "Gi") (scaled_text-gibibytes k below))
  where
    leb-eq-false : (a b : ℕ) → b < a → leb a b ≡ false
    leb-eq-false a b h = ground arith

    leb-eq-true : (a b : ℕ) → a ≤ b → leb a b ≡ true
    leb-eq-true a b h = ground arith
