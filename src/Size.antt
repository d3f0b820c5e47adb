-- ===== src/Size.antt =====
-- Volume sizes: pkg/driver/utils.go and the size constants of pkg/driver/controller.go.
pub mod Admissible
pub mod Printed
use truenas_scale_csi.Base.{
  ℕ, zero, suc, ◌+◌, ◌*◌, ◌/◌, ◌%◌, ◌^◌, String, ◌<>◌, Bool, true, false, not, ◌&&◌, Option, none,
  some, ℤ, pos, negsuc, ltb_ℤ, eq_ℤ, rem_ℤ, ltb, leb, nat_eq, if◌then◌else◌, Result, ok, err,
  decimal, decimal_ℤ,
}
use truenas_scale_csi.Csi.{CapacityRange}

abbrev pub ki_b : ℕ
ki_b = 2 ^ 10

abbrev pub mi_b : ℕ
mi_b = 2 ^ 20

abbrev pub gi_b : ℕ
gi_b = 2 ^ 30

abbrev pub ti_b : ℕ
ti_b = 2 ^ 40

abbrev pub minimum_volume_size_in_bytes : ℤ
minimum_volume_size_in_bytes = pos gi_b

abbrev pub default_volume_size_in_bytes : ℤ
default_volume_size_in_bytes = pos (16 * gi_b)

-- `n / m`, rounded to the nearest number, ties to even.
abbrev pub div_nearest : ℕ → ℕ → ℕ
div_nearest n m =
    let q = n / m in
    let r = n % m in if ltb (2 * r) m then q else if ltb m (2 * r) then q + 1 else q + q % 2

-- `float64(n)` for a magnitude up to 2^63: 53 bits of precision. `e` counts the bits that are
-- rounded away; ten are enough.
to_float64_from : ℕ → ℕ → ℕ → ℕ
to_float64_from zero e n = div_nearest n (2 ^ e) * 2 ^ e
to_float64_from (suc f) e n =
    let more = to_float64_from f (e + 1) n in
    if ltb n (2 ^ (53 + e)) then div_nearest n (2 ^ e) * 2 ^ e else more

pub to_float64 : ℕ → ℕ
unfolding to_float64_from
to_float64 n = to_float64_from 10 0 n

-- `strconv.FormatFloat(x, 'f', 1, 64)` of x = n / unit, for a power of two, with a trailing ".0" taken off.
pub tenths_text : ℕ → String
tenths_text t =
    if nat_eq (t % 10) 0 then decimal (t / 10) else decimal (t / 10) <> "." <> decimal (t % 10)

pub scaled_text : ℕ → ℕ → String
unfolding to_float64 tenths_text
scaled_text n unit = tenths_text (div_nearest (to_float64 n * 10) unit)

unfoldable pub format_bytes : ℤ → String
unfolding scaled_text
format_bytes (pos n) =
    if leb ti_b n
    then scaled_text n ti_b <> "Ti"
    else if leb gi_b n
    then scaled_text n gi_b <> "Gi"
    else if leb mi_b n
    then scaled_text n mi_b <> "Mi"
    else if leb ki_b n
    then scaled_text n ki_b <> "Ki"
    else if nat_eq n 0
    then "0"
    else scaled_text n 1
format_bytes (negsuc n) = "-" <> scaled_text (n + 1) 1

-- The checks of `extractStorage` on a range that is there.
unfoldable pub extract_storage_in : CapacityRange → Result String ℤ
extract_storage_in range =
    let required_bytes = range.required_bytes in
    let limit_bytes = range.limit_bytes in
    let required_set = ltb_ℤ (pos 0) required_bytes in
    let limit_set = ltb_ℤ (pos 0) limit_bytes in
    if not required_set && not limit_set
    then ok default_volume_size_in_bytes
    else if required_set && limit_set && ltb_ℤ limit_bytes required_bytes
    then err (
        "limit ("
        <> format_bytes limit_bytes
        <> ") can not be less than required ("
        <> format_bytes required_bytes
        <> ") size")
    else if required_set && not limit_set && ltb_ℤ required_bytes minimum_volume_size_in_bytes
    then err (
        "required ("
        <> format_bytes required_bytes
        <> ") can not be less than minimum supported volume size ("
        <> format_bytes minimum_volume_size_in_bytes
        <> ")")
    else if limit_set && ltb_ℤ limit_bytes minimum_volume_size_in_bytes
    then err (
        "limit ("
        <> format_bytes limit_bytes
        <> ") can not be less than minimum supported volume size ("
        <> format_bytes minimum_volume_size_in_bytes
        <> ")")
    else if limit_set && not (eq_ℤ (rem_ℤ limit_bytes gi_b) (pos 0))
    then err ("limit (" <> decimal_ℤ limit_bytes <> ") must be a multiple of 1GB")
    else if required_set && not (eq_ℤ (rem_ℤ required_bytes gi_b) (pos 0))
    then err ("required (" <> decimal_ℤ required_bytes <> ") must be a multiple of 1GB")
    else if required_set && limit_set && eq_ℤ required_bytes limit_bytes
    then ok required_bytes
    else if required_set
    then ok required_bytes
    else if limit_set
    then ok limit_bytes
    else ok default_volume_size_in_bytes

-- `extractStorage`; `none` is a nil range.
unfoldable pub extract_storage : Option CapacityRange → Result String ℤ
unfolding extract_storage_in
extract_storage none = ok default_volume_size_in_bytes
extract_storage (some range) = extract_storage_in range

-- `getServerFromSource`, over `IsIPv6String`.
unfoldable pub get_server_from_source : (String → Bool) → String → String
get_server_from_source is_ipv6_string server =
    if is_ipv6_string server then "[" <> server <> "]" else server
