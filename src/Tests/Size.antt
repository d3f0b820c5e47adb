-- ===== src/Tests/Size.antt =====
-- Sizes at concrete requests.
use truenas_scale_csi.Base.{
  ◌%◌, ◌≤◌, ◌≡◌, refl, ◌↔◌, ◌⊎◌, some, ℕ, ℤ, pos, negsuc, ok, err, decimal,
}
use truenas_scale_csi.Size.{gi_b, format_bytes, extract_storage}
use truenas_scale_csi.Size.Admissible.{
  amount, IsAcceptable, preferred, extract_storage_iff, extract_storage_bounds,
}

refused_text :
    extract_storage (some (record { required_bytes = pos 536870912; limit_bytes = negsuc 0 }))
    ≡ err "required (512Mi) can not be less than minimum supported volume size (1Gi)"
unfolding extract_storage format_bytes decimal
refused_text = refl

extract_storage_iff_example :
    (extract_storage
        (some (record { required_bytes = pos 1073741824; limit_bytes = pos 2147483648 }))
      ≡ ok (pos 1073741824))
    ↔ (IsAcceptable (pos 1073741824) (pos 2147483648)
        × (◌≡◌ {A = ℤ} (pos 1073741824) (pos (preferred (pos 1073741824) (pos 2147483648)))))
extract_storage_iff_example = extract_storage_iff (pos 1073741824) (pos 2147483648) (pos 1073741824)

extract_storage_bounds_example :
    (n : ℕ) × (◌≡◌ {A = ℤ} (pos 3221225472) (pos n))
    × (gi_b ≤ n)
    × (n % gi_b ≡ 0)
    × (amount (negsuc 4) ≤ n)
    × ((amount (pos 3221225472) ≡ 0) ⊎ (n ≤ amount (pos 3221225472)))
unfolding extract_storage
extract_storage_bounds_example =
    extract_storage_bounds (negsuc 4) (pos 3221225472) (pos 3221225472) refl
