-- ===== src/Base/Text.antt =====
-- What the driver uses of `strings`, `strconv` and `fmt`.
pub mod Decimal
use Prim.Native.Nat.{ℕ, zero, suc, ◌+◌, ◌-◌, ◌*◌, ◌/◌, ◌%◌, ◌^◌}
use Prim.Native.Char.{Char, code}
use Prim.Native.String
use Prim.Native.String.{String, ◌++◌ as ◌<>◌, len, slice}
use mathlib.Core.Bool.{Bool, true, false, ◌&&◌}
use mathlib.Core.Option.{Option, none, some}
use mathlib.Core.List.{List, [], ◌∷◌}
use mathlib.Core.Path.{◌≡◌, refl}
use text.Mathlib.TextPositions.{len-append, slice-append_right, starts_with-append}
use text.Mathlib.Text.{◌==◌ as str_eq, starts_with, find?}
use truenas_scale_csi.Base.Tests.{ltb, leb, if◌then◌else◌}
use truenas_scale_csi.Base.Int.{ℤ, pos, negsuc, neg}

-- `strings.Join(parts, sep)`
unfoldable pub join : String → List String → String
join sep [] = ""
join sep (s ∷ []) = s
join sep (s ∷ rest) = s <> sep <> join sep rest

-- `strings.Contains(s, part)`
unfoldable pub contains : String → String → Bool
contains s part = elim (find? s part) [ none ↦ false | some at ↦ true ]

-- `strings.TrimPrefix(s, prefix)`
unfoldable pub trim_prefix : String → String → String
trim_prefix s prefix = if starts_with s prefix then slice s (len prefix) (len s) else s

-- `strings.HasSuffix(s, suffix)`
unfoldable pub has_suffix : String → String → Bool
has_suffix s suffix =
    leb (len suffix) (len s) && str_eq (slice s (len s - len suffix) (len s)) suffix

has_suffix_test :
    (has_suffix "/api/v2.0" "api/v2.0" ≡ true)
    × (has_suffix "/api/v2.0/" "api/v2.0" ≡ false)
    × (has_suffix "v2.0" "api/v2.0" ≡ false)
unfolding has_suffix
has_suffix_test = (refl, refl, refl)

-- What is put in front comes off again.
pub trim_prefix-append : (prefix s : String) → trim_prefix (prefix <> s) prefix ≡ s
unfolding trim_prefix
trim_prefix-append prefix s = rw (starts_with-append, len-append, slice-append_right)

push_digit : ℕ → String → String
push_digit zero s = String.◌∷◌ "0" s
push_digit (suc zero) s = String.◌∷◌ "1" s
push_digit (suc (suc zero)) s = String.◌∷◌ "2" s
push_digit (suc (suc (suc zero))) s = String.◌∷◌ "3" s
push_digit (suc (suc (suc (suc zero)))) s = String.◌∷◌ "4" s
push_digit (suc (suc (suc (suc (suc zero))))) s = String.◌∷◌ "5" s
push_digit (suc (suc (suc (suc (suc (suc zero)))))) s = String.◌∷◌ "6" s
push_digit (suc (suc (suc (suc (suc (suc (suc zero))))))) s = String.◌∷◌ "7" s
push_digit (suc (suc (suc (suc (suc (suc (suc (suc zero)))))))) s = String.◌∷◌ "8" s
push_digit _ s = String.◌∷◌ "9" s

-- The decimal digits of a number in front of a text; a number has no more digits than its value.
digits : ℕ → ℕ → String → String
digits zero n s = s
digits (suc f) n s =
    let more = digits f (n / 10) (push_digit (n % 10) s) in
    if ltb n 10 then push_digit n s else more

-- `%d`
unfoldable pub decimal : ℕ → String
unfolding digits push_digit
decimal n = digits (n + 1) n ""

unfoldable pub decimal_ℤ : ℤ → String
unfolding decimal
decimal_ℤ (pos n) = decimal n
decimal_ℤ (negsuc n) = "-" <> decimal (n + 1)

scan : String → ℕ → Option ℕ
scan String.[] n = some n
scan (String.◌∷◌ c s) n =
    let d = code c in
    let rest = scan s (n * 10 + (d - 48)) in if leb 48 d && leb d 57 then rest else none

-- At least one digit.
unsigned : String → Option ℕ
unsigned String.[] = none
unsigned (String.◌∷◌ c s) = scan (String.◌∷◌ c s) 0

bounded : (ℕ → ℤ) → ℕ → Option ℕ → Option ℤ
bounded sign limit none = none
bounded sign limit (some n) = if leb n limit then some (sign n) else none

-- `strconv.ParseInt(s, 10, 64)`, `none` for its error.
unfoldable pub parse_int : String → Option ℤ
unfolding unsigned scan bounded
parse_int String.[] = none
parse_int (String.◌∷◌ c s) =
    if leb 43 (code c) && leb (code c) 43
    then bounded pos (2 ^ 63 - 1) (unsigned s)
    else if leb 45 (code c) && leb (code c) 45
    then bounded neg (2 ^ 63) (unsigned s)
    else bounded pos (2 ^ 63 - 1) (unsigned (String.◌∷◌ c s))
