-- ===== src/Csi/Keys.antt =====
-- The loop of the drivers that counts the keys of a volume context, `for k := range m { switch k { … } }`
-- (pkg/driver/nfs.go, pkg/driver/iscsi.go), against which keys the context has.
use truenas_scale_csi.Base.{
  ℕ, ◌+◌, ◌≤◌, String, ◌≡◌, refl, ◌↔◌, inl, inr, Bool, false, Option, none, some, [], ◌∷◌, str_eq,
  eq_iff, Bool-cases, arith, ◌||◌,
}
use truenas_scale_csi.Csi.{Dict, lookup, found_keys}

-- An association list that stands for a Go map: no key twice.
abbrev pub IsMap : Dict → Type 0
IsMap [] = Unit
IsMap ((k, v) ∷ m) = (lookup k m ≡ none) × IsMap m

abbrev pub Has : String → Dict → Type 0
Has k m = (v : String) × (lookup k m ≡ some v)

abbrev bit : {A : Type 0} → Option A → ℕ
bit none = 0
bit (some x) = 1

-- In a map, a key is counted once, if it is there.
found_keys-one :
    (k : String) (m : Dict) → IsMap m → found_keys (λ j. str_eq j k) m ≡ bit (lookup k m)
unfolding found_keys lookup
found_keys-one k [] h = refl
found_keys-one k ((j, v) ∷ m) (fresh, h) = elim (Bool-cases (str_eq j k)) [
  | inl same ↦
      let bare : lookup k m ≡ none = rw (← (eq_iff j k).0 same) fresh in
      rw (same, found_keys-one k m h, bare) refl
  | inr other ↦ rw (other, found_keys-one k m h) refl
]

-- A key that the other test does not accept counts for itself.
found_keys-or :
    (q : String → Bool) (k : String) (m : Dict)
    → q k ≡ false
    → found_keys (λ j. q j || str_eq j k) m ≡ found_keys q m + found_keys (λ j. str_eq j k) m
unfolding found_keys
found_keys-or q k [] h = refl
found_keys-or q k ((j, v) ∷ m) h = elim (Bool-cases (str_eq j k)) [
  | inl same ↦
      let no' : q j ≡ false = rw ((eq_iff j k).0 same) h in
      rw (same, no', found_keys-or q k m h) (omega arith)
  | inr other ↦ elim (Bool-cases (q j)) [
    | inl yes' ↦ rw (other, yes', found_keys-or q k m h) (omega arith)
    | inr no' ↦ rw (other, no', found_keys-or q k m h) (omega arith)
  ]
]

bit_iff : {A : Type 0} (o : Option A) → (bit o ≡ 1) ↔ ((x : A) × (o ≡ some x))
bit_iff none = (λ h. absurd (omega arith), λ (x, h). cc h)
bit_iff (some x) = (λ h. (x, refl), λ h. refl)

bit-le : {A : Type 0} (o : Option A) → bit o ≤ 1
bit-le none = omega arith
bit-le (some x) = omega arith

-- Two different keys are both found exactly if the count is 2.
pub found_keys-both_iff :
    (a b : String) (m : Dict)
    → IsMap m
    → str_eq b a ≡ false
    → (found_keys (λ j. str_eq j a || str_eq j b) m ≡ 2) ↔ (Has a m × Has b m)
found_keys-both_iff a b m map apart =
    let total = found_keys-or (λ j. str_eq j a) b m apart in
    let one = found_keys-one a m map in
    let two = found_keys-one b m map in
    let le = bit-le (lookup a m) in
    let le' = bit-le (lookup b m) in
    (
      λ h. ((bit_iff (lookup a m)).0 (omega arith), (bit_iff (lookup b m)).0 (omega arith)),
      λ (x, y).
          let e = (bit_iff (lookup a m)).1 x in let e' = (bit_iff (lookup b m)).1 y in omega arith,
    )

-- The same of four keys, each told apart from those before it.
pub found_keys-four_iff :
    (a b c d : String) (m : Dict)
    → IsMap m
    → str_eq b a ≡ false
    → (str_eq c a || str_eq c b) ≡ false
    → (str_eq d a || str_eq d b || str_eq d c) ≡ false
    → (found_keys (λ j. str_eq j a || str_eq j b || str_eq j c || str_eq j d) m ≡ 4)
      ↔ (Has a m × Has b m × Has c m × Has d m)
found_keys-four_iff a b c d m map apart apart' apart'' =
    let total = found_keys-or (λ j. str_eq j a || str_eq j b || str_eq j c) d m apart'' in
    let total' = found_keys-or (λ j. str_eq j a || str_eq j b) c m apart' in
    let total'' = found_keys-or (λ j. str_eq j a) b m apart in
    let one = found_keys-one a m map in
    let two = found_keys-one b m map in
    let three = found_keys-one c m map in
    let four = found_keys-one d m map in
    let le = bit-le (lookup a m) in
    let le' = bit-le (lookup b m) in
    let le'' = bit-le (lookup c m) in
    let le''' = bit-le (lookup d m) in
    (
      λ h. (
        (bit_iff (lookup a m)).0 (omega arith),
        (bit_iff (lookup b m)).0 (omega arith),
        (bit_iff (lookup c m)).0 (omega arith),
        (bit_iff (lookup d m)).0 (omega arith),
      ),
      λ (x, y, z, w).
          let e = (bit_iff (lookup a m)).1 x in
          let e' = (bit_iff (lookup b m)).1 y in
          let e'' = (bit_iff (lookup c m)).1 z in
          let e''' = (bit_iff (lookup d m)).1 w in omega arith,
    )
