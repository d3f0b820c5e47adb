-- ===== src/Base/Results.antt =====
-- Go's `(value, error)` results, and code that talks to a server: a state goes in, and comes back
-- beside the result whether the code fails or not.
use mathlib.Core.Path.{◌≡◌, refl}
use mathlib.Core.Logic.{◌⊎◌, inl, inr}
use mathlib.Core.Option.{Option, none, some}

pub data Result {ℓ} (E A : Type ℓ) : Type ℓ where
  ok : A → Result E A
  err : E → Result E A

abbrev pub Exec {ℓ} : Type ℓ → Type ℓ → Type ℓ → Type ℓ
Exec S E A = S → Result E A × S

module _ {ℓ} {S E A : Type ℓ} where
  abbrev pub pure : A → Exec S E A
  pure a s = (ok a, s)

  abbrev pub raise : E → Exec S E A
  raise e s = (err e, s)

  abbrev pub lift : Result E A → Exec S E A
  lift r s = (r, s)

module _ {ℓ} {S E A B : Type ℓ} where
  abbrev pub continue : Result E A → (A → Exec S E B) → Exec S E B
  continue (ok a) f s = f a s
  continue (err e) f s = (err e, s)

  infixl 10 ◌>>=◌ ◌>>◌
  abbrev pub ◌>>=◌ : Exec S E A → (A → Exec S E B) → Exec S E B
  ◌>>=◌ m f s = let (r, s') = m s in continue r f s'

  abbrev pub ◌>>◌ : Exec S E A → Exec S E B → Exec S E B
  m >> n = m >>= λ _. n

-- The `err` of a result: `none` is `nil`.
abbrev pub error_of {ℓ} : {E A : Type ℓ} → Result E A → Option E
error_of (ok a) = none
error_of (err e) = some e

module _ {ℓ} {S E F A : Type ℓ} where
  abbrev pub handle : Result E A → (E → Exec S F A) → Exec S F A
  handle (ok a) h s = (ok a, s)
  handle (err e) h s = h e s

  -- `v, err := m; if err != nil { … }`
  infixl 12 ◌on_error◌
  abbrev pub ◌on_error◌ : Exec S E A → (E → Exec S F A) → Exec S F A
  ◌on_error◌ m h s = let (r, s') = m s in handle r h s'

  -- `_, err = m`, where the code goes on whatever `err` is.
  abbrev pub attempt : Exec S E A → Exec S F (Option E)
  attempt m s = let (r, s') = m s in (ok (error_of r), s')

-- A result that is known, with the state beside it.
pub with_state {ℓ κ} : {A : Type ℓ} {S : Type κ} (x : A × S) (a : A) → x.0 ≡ a → x ≡ (a, x.1)
with_state x a h = λ i. (h i, x.1)

pub Result-cases {ℓ} :
    {E A : Type ℓ} (r : Result E A) → ((e : E) × (r ≡ err e)) ⊎ ((a : A) × (r ≡ ok a))
Result-cases (err e) = inl (e, refl)
Result-cases (ok a) = inr (a, refl)
