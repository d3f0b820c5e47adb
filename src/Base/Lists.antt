-- ===== src/Base/Lists.antt =====
-- Lists as the driver walks them: membership by recursion, the first match, and all matches.
use Prim.Native.Nat.{ℕ, suc}
use mathlib.Core.Path.{◌≡◌}
use mathlib.Core.Logic.{◌⊎◌, inl, inr, ◌↔◌}
use mathlib.Core.Bool.{Bool, true, false, ◌&&◌}
use mathlib.Core.Option.{Option, none, some}
use mathlib.Core.List.{List, [], ◌∷◌}
use native.Mathlib.Omega.{arith}
use truenas_scale_csi.Base.Tests.{if◌then◌else◌, Bool-cases}

module _ {ℓ} {A : Type ℓ} where
  abbrev pub length : List A → ℕ
  length [] = 0
  length (x ∷ xs) = suc (length xs)

  -- `for _, x := range xs { if fn(x) { return x } }`
  abbrev pub first : (A → Bool) → List A → Option A
  first p [] = none
  first p (x ∷ xs) = if p x then some x else first p xs

  -- `for _, x := range xs { if fn(x) { result = append(result, x) } }`
  abbrev pub select : (A → Bool) → List A → List A
  select p [] = []
  select p (x ∷ xs) = let rest = select p xs in if p x then x ∷ rest else rest

  abbrev pub all : (A → Bool) → List A → Bool
  all p [] = true
  all p (x ∷ xs) = p x && all p xs

-- `x` stands in the list.
abbrev pub Elem : {A : Type 0} → A → List A → Type 0
Elem x [] = ⊥
Elem x (y ∷ ys) = (x ≡ y) ⊎ Elem x ys

module _ {A : Type 0} (p : A → Bool) where
  -- Where something passes the test, there is a first such element.
  pub first-Elem : (x : A) (xs : List A) → Elem x xs → p x ≡ true → (y : A) × (first p xs ≡ some y)
  first-Elem x [] h e = absurd h
  first-Elem x (z ∷ xs) (inl same) e = (z, rw (← same, e))
  first-Elem x (z ∷ xs) (inr later) e = elim (Bool-cases (p z)) [
    | inl yes' ↦ (z, rw yes')
    | inr no' ↦ rw no' (first-Elem x xs later e)
  ]

  -- What is found stands in the list and passes the test.
  pub first_sound : (y : A) (xs : List A) → first p xs ≡ some y → Elem y xs × (p y ≡ true)
  first_sound y [] h = cc
  first_sound y (z ∷ xs) h = elim (Bool-cases (p z)) [
    | inl yes' ↦ ground arith
    | inr no' ↦ ground (arith, first_sound y xs)
  ]

  -- Where nothing is found, nothing in the list passes the test.
  pub first-eq-none : (x : A) (xs : List A) → first p xs ≡ none → Elem x xs → p x ≡ false
  first-eq-none x [] h e = absurd e
  first-eq-none x (z ∷ xs) h e = elim (Bool-cases (p z)) [
    | inl yes' ↦ ground arith
    | inr no' ↦ ground (arith, first-eq-none x xs)
  ]

  -- What is selected is what stands in the list and passes the test.
  pub Elem-select : (x : A) (xs : List A) → Elem x (select p xs) ↔ (Elem x xs × (p x ≡ true))
  Elem-select x [] = (λ h. absurd h, λ h. absurd h.0)
  Elem-select x (z ∷ xs) = elim (Bool-cases (p z)) [
    | inl yes' ↦ ground (arith, Elem-select x xs)
    | inr no' ↦ ground (arith, Elem-select x xs)
  ]

  -- Where nothing was found before, and `d` is the only addition that may pass, `d` is found.
  pub first-added :
      (d : A) (xs ys : List A)
      → first p xs ≡ none
      → Elem d ys
      → p d ≡ true
      → ((x : A) → Elem x ys → (x ≡ d) ⊎ Elem x xs)
      → first p ys ≡ some d
  first-added d xs ys missing listed passes others =
      let (y, found) = first-Elem d ys listed passes in
      let (in_ys, fits) = first_sound y ys found in
      elim (others y in_ys) [
        | inl same ↦ rw same at found
        | inr old ↦ cc (first-eq-none y xs missing old, fits)
      ]
