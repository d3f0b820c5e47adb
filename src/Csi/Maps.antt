-- ===== src/Csi/Maps.antt =====
-- Go's maps as association lists: looking up, and filling one in a loop.
use truenas_scale_csi.Base.{
  String, ◌≡◌, refl, ap, ◌⊎◌, inl, inr, some, List, [], ◌∷◌, ℤ, Elem, str_eq, eq_iff, eq_ℤ,
  eq_ℤ_iff, Bool-cases,
}
use truenas_scale_csi.Csi.{lookup, lookup_id, put_all}

module _ {V : Type 0} where
  pub lookup-Elem :
      (k : String) (m : List (String × V)) (v : V) → lookup k m ≡ some v → Elem (k, v) m
  unfolding lookup
  lookup-Elem k [] v h = cc
  lookup-Elem k ((j, w) ∷ m) v h = elim (Bool-cases (str_eq j k)) [
    | inl same ↦
        let e : j ≡ k = (eq_iff j k).0 same in
        let e' : some w ≡ some v = rw same at h in inl (cc (e, e'))
    | inr other ↦ inr (lookup-Elem k m v (rw other at h))
  ]

  pub Elem-lookup :
      (k : String) (v : V) (m : List (String × V)) → Elem (k, v) m → (w : V) × (lookup k m ≡ some w)
  unfolding lookup
  Elem-lookup k v [] h = absurd h
  Elem-lookup k v ((j, u) ∷ m) h = elim (Bool-cases (str_eq j k)) [
    | inl same ↦ (u, rw same)
    | inr other ↦ elim h [
      | inl e ↦ let same : j ≡ k = cc e in cc (other, (eq_iff j k).1 same)
      | inr later ↦ rw other (Elem-lookup k v m later)
    ]
  ]

  pub lookup_id-Elem : (k : ℤ) (m : List (ℤ × V)) (v : V) → lookup_id k m ≡ some v → Elem (k, v) m
  unfolding lookup_id
  lookup_id-Elem k [] v h = cc
  lookup_id-Elem k ((j, w) ∷ m) v h = elim (Bool-cases (eq_ℤ j k)) [
    | inl same ↦
        let e : j ≡ k = (eq_ℤ_iff j k).0 same in
        let e' : some w ≡ some v = rw same at h in inl (cc (e, e'))
    | inr other ↦ inr (lookup_id-Elem k m v (rw other at h))
  ]

  pub Elem-lookup_id :
      (k : ℤ) (v : V) (m : List (ℤ × V)) → Elem (k, v) m → (w : V) × (lookup_id k m ≡ some w)
  unfolding lookup_id
  Elem-lookup_id k v [] h = absurd h
  Elem-lookup_id k v ((j, u) ∷ m) h = elim (Bool-cases (eq_ℤ j k)) [
    | inl same ↦ (u, rw same)
    | inr other ↦ elim h [
      | inl e ↦ let same : j ≡ k = cc e in cc (other, (eq_ℤ_iff j k).1 same)
      | inr later ↦ rw other (Elem-lookup_id k v m later)
    ]
  ]

module _ {X K V : Type 0} (entry : X → K × V) where
  -- What a filled map holds was put for an element, or was there before.
  pub Elem-put_all :
      (e : K × V) (m : List (K × V)) (xs : List X)
      → Elem e (put_all entry m xs)
      → ((x : X) × Elem x xs × (e ≡ entry x)) ⊎ Elem e m
  unfolding put_all
  Elem-put_all e m [] h = inr h
  Elem-put_all e m (x ∷ xs) h = elim (Elem-put_all e (entry x ∷ m) xs h) [
    | inl (y, listed, same) ↦ inl (y, inr listed, same)
    | inr (inl same) ↦ inl (x, inl refl, same)
    | inr (inr old) ↦ inr old
  ]

  put_all-keeps :
      (e : K × V) (m : List (K × V)) (xs : List X) → Elem e m → Elem e (put_all entry m xs)
  unfolding put_all
  put_all-keeps e m [] h = h
  put_all-keeps e m (x ∷ xs) h = put_all-keeps e (entry x ∷ m) xs (inr h)

  -- Every element has its entry.
  pub put_all-Elem :
      (x : X) (m : List (K × V)) (xs : List X) → Elem x xs → Elem (entry x) (put_all entry m xs)
  unfolding put_all
  put_all-Elem x m [] h = absurd h
  put_all-Elem x m (y ∷ xs) (inl same) = put_all-keeps _ _ xs (inl (ap entry same))
  put_all-Elem x m (y ∷ xs) (inr later) = put_all-Elem x (entry y ∷ m) xs later
