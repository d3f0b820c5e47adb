-- ===== src/Base/Text/Decimal.antt =====
-- A decimal text reads back as the number that was printed.
use Prim.Native.Nat.{ℕ, zero, suc, ◌+◌, ◌-◌, ◌*◌, ◌/◌, ◌%◌, ◌^◌, ◌≤◌, ◌<◌}
use Prim.Native.Char.{code}
use Prim.Native.String.{String}
use mathlib.Core.Path.{◌≡◌, refl, ◌∙◌}
use mathlib.Core.Logic.{inl, inr}
use mathlib.Core.Option.{some}
use native.Mathlib.Omega.{arith}
use truenas_scale_csi.Base.Tests.{ltb, Bool-cases}
use truenas_scale_csi.Base.Text.{decimal, parse_int, push_digit, digits, scan, bounded}
use truenas_scale_csi.Base.Int.{pos, negsuc}

decimal_test : decimal 1073741824 ≡ "1073741824"
unfolding decimal
decimal_test = refl

parse_int_test : parse_int "-9223372036854775808" ≡ some (negsuc 9223372036854775807)
unfolding parse_int
parse_int_test = refl

scan-push_digit :
    (d : ℕ) (s : String) (n : ℕ) → d < 10 → scan (push_digit d s) n ≡ scan s (n * 10 + d)
unfolding scan push_digit
scan-push_digit zero s n h = refl
scan-push_digit (suc zero) s n h = refl
scan-push_digit (suc (suc zero)) s n h = refl
scan-push_digit (suc (suc (suc zero))) s n h = refl
scan-push_digit (suc (suc (suc (suc zero)))) s n h = refl
scan-push_digit (suc (suc (suc (suc (suc zero))))) s n h = refl
scan-push_digit (suc (suc (suc (suc (suc (suc zero)))))) s n h = refl
scan-push_digit (suc (suc (suc (suc (suc (suc (suc zero))))))) s n h = refl
scan-push_digit (suc (suc (suc (suc (suc (suc (suc (suc zero)))))))) s n h = refl
scan-push_digit (suc (suc (suc (suc (suc (suc (suc (suc (suc zero))))))))) s n h = refl
scan-push_digit (suc (suc (suc (suc (suc (suc (suc (suc (suc (suc d)))))))))) s n h =
    absurd (omega arith)

scan-digits : (f n : ℕ) (s : String) → n < f → scan (digits f n s) 0 ≡ scan s n
unfolding digits
scan-digits zero n s h = elim h [ ]
scan-digits (suc f) n s h = elim (Bool-cases (ltb n 10)) [
  | inl small ↦ rw small (scan-push_digit n s 0 (ground arith) ∙ rw (zero_times n))
  | inr big ↦ rw big (
      scan-digits f (n / 10) (push_digit (n % 10) s) (ground arith)
      ∙ scan-push_digit (n % 10) s (n / 10) (omega arith)
      ∙ rw (div_mod n))
]
  where
    zero_times : (n : ℕ) → 0 * 10 + n ≡ n
    zero_times n = omega arith

    div_mod : (n : ℕ) → n / 10 * 10 + n % 10 ≡ n
    div_mod n = omega arith

-- The text begins with a digit.
abbrev StartsDigit : String → Type 0
StartsDigit String.[] = ⊥
StartsDigit (String.◌∷◌ c s) = (48 ≤ code c) × (code c ≤ 57)

push_digit-StartsDigit : (d : ℕ) (s : String) → StartsDigit (push_digit d s)
unfolding push_digit
push_digit-StartsDigit zero s = omega arith
push_digit-StartsDigit (suc zero) s = omega arith
push_digit-StartsDigit (suc (suc zero)) s = omega arith
push_digit-StartsDigit (suc (suc (suc zero))) s = omega arith
push_digit-StartsDigit (suc (suc (suc (suc zero)))) s = omega arith
push_digit-StartsDigit (suc (suc (suc (suc (suc zero))))) s = omega arith
push_digit-StartsDigit (suc (suc (suc (suc (suc (suc zero)))))) s = omega arith
push_digit-StartsDigit (suc (suc (suc (suc (suc (suc (suc zero))))))) s = omega arith
push_digit-StartsDigit (suc (suc (suc (suc (suc (suc (suc (suc zero)))))))) s = omega arith
push_digit-StartsDigit _ s = omega arith

digits-StartsDigit : (f n : ℕ) (s : String) → n < f → StartsDigit (digits f n s)
unfolding digits
digits-StartsDigit zero n s h = elim h [ ]
digits-StartsDigit (suc f) n s h = elim (Bool-cases (ltb n 10)) [
  | inl small ↦ rw small (push_digit-StartsDigit n s)
  | inr big ↦ rw big (digits-StartsDigit f (n / 10) (push_digit (n % 10) s) (ground arith))
]

parse_int_of_StartsDigit :
    (s : String) → StartsDigit s → parse_int s ≡ bounded pos (2 ^ 63 - 1) (scan s 0)
unfolding parse_int
parse_int_of_StartsDigit String.[] h = absurd h
parse_int_of_StartsDigit (String.◌∷◌ c s) h = ground arith

-- `ParseInt` of what `%d` prints is the number, over the range of an `int64`.
pub parse_int-decimal : (n : ℕ) → n < 2 ^ 63 → parse_int (decimal n) ≡ some (pos n)
unfolding decimal
parse_int-decimal n h =
    parse_int_of_StartsDigit _ (digits-StartsDigit (n + 1) n "" (omega arith))
    ∙ rw (scan-digits (n + 1) n "" (omega arith)) (unfold scan bounded in ground arith)
