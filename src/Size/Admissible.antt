-- ===== src/Size/Admissible.antt =====
-- Which size `extractStorage` (pkg/driver/utils.go) chooses, and when it refuses.
use truenas_scale_csi.Base.{
  ℕ, ◌*◌, ◌%◌, ◌≤◌, ◌≡◌, ◌≢◌, refl, ◌↔◌, ◌⊎◌, some, ℤ, pos, negsuc, Result, ok, err, arith, String,
  nat_eq, if◌then◌else◌,
}
use truenas_scale_csi.Size.{gi_b, extract_storage}

-- The bytes that a field of a range asks for: 0 where it is not set, which a negative number counts as.
abbrev pub amount : ℤ → ℕ
amount (pos n) = n
amount (negsuc n) = 0

-- Both fields are whole gibibytes, and a limit that is set is not below the required size.
abbrev pub IsAcceptable : ℤ → ℤ → Type 0
IsAcceptable r l =
    (amount r % gi_b ≡ 0) × (amount l % gi_b ≡ 0) × ((amount l ≡ 0) ⊎ (amount r ≤ amount l))

-- The required size if it is set, else the limit if that is set, else 16 GiB.
abbrev pub preferred : ℤ → ℤ → ℕ
preferred r l =
    if nat_eq (amount r) 0 then (if nat_eq (amount l) 0 then 16 * gi_b else amount l) else amount r

-- `extractStorage` accepts a range exactly if its fields are whole gibibytes and in order, and
-- then answers with the required size, or the limit, or 16 GiB, whichever is set first.
pub extract_storage_iff :
    (r l size : ℤ)
    → (extract_storage (some (record { required_bytes = r; limit_bytes = l })) ≡ ok size)
      ↔ (IsAcceptable r l × (size ≡ pos (preferred r l)))
unfolding extract_storage
extract_storage_iff (pos r) (pos l) size = (λ h. ground arith, λ h. ground arith)
extract_storage_iff (pos r) (negsuc l) size = (λ h. ground arith, λ h. ground arith)
extract_storage_iff (negsuc r) (pos l) size = (λ h. ground arith, λ h. ground arith)
extract_storage_iff (negsuc r) (negsuc l) size = (λ h. ground arith, λ h. ground arith)

-- An accepted size is a positive number of whole gibibytes, no smaller than the required size and,
-- if a limit is set, no larger than it.
pub extract_storage_bounds :
    (r l size : ℤ)
    → extract_storage (some (record { required_bytes = r; limit_bytes = l })) ≡ ok size
    → (n : ℕ) × (size ≡ pos n)
      × (gi_b ≤ n)
      × (n % gi_b ≡ 0)
      × (amount r ≤ n)
      × ((amount l ≡ 0) ⊎ (n ≤ amount l))
extract_storage_bounds r l size h =
    let (fits, chosen) = (extract_storage_iff r l size).0 h in
    (preferred r l, chosen, ground arith, ground arith, ground arith, ground arith)

not-ok {ℓ} : {E A : Type ℓ} (x : Result E A) → ((a : A) → x ≢ ok a) → (e : E) × (x ≡ err e)
not-ok (ok a) h = absurd (h a refl)
not-ok (err e) h = (e, refl)

-- A range that is not acceptable is refused with an error; the default size does not replace it.
pub extract_storage_refuses :
    (r l : ℤ)
    → ¬ IsAcceptable r l
    → (message : String) × (extract_storage (some (record { required_bytes = r; limit_bytes = l }))
        ≡ err message)
extract_storage_refuses r l bad = not-ok _ (λ size h. bad ((extract_storage_iff r l size).0 h).0)
