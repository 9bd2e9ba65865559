-- ===== src/Base/Values.antt =====
-- Predicates on every value of a map, under the operations of `Assoc`.
use Prim.Native.Nat.{ℕ}
use mathlib.Core.Path.{◌≡◌, refl, subst}
use mathlib.Core.Logic.{◌⊎◌, inl, inr}
use mathlib.Core.Bool.{Bool, true}
use mathlib.Core.Option.{none, some}
use mathlib.Core.List.{List, [], ◌∷◌}
use native.Mathlib.Omega.{arith}
use macniri.Base.Tests.{◌==◌, Bool-cases}
use macniri.Base.Assoc.{get, put, delete, adjust, map_values, all_values, AllValues}

module _ {ℓ κ} {V : Type ℓ} (P : V → Type κ) where
  pub AllValues-map :
      (f : V → V)
      → ((v : V) → P v → P (f v))
      → (m : List (ℕ × V)) → AllValues P m
      → AllValues P (map_values f m)
  AllValues-map f keep [] h = tt
  AllValues-map f keep ((j, w) ∷ m) h = (keep w h.0, AllValues-map f keep m h.1)

  pub AllValues-adjust :
      (k : ℕ) (f : V → V)
      → ((v : V) → P v → P (f v))
      → (m : List (ℕ × V)) → AllValues P m
      → AllValues P (adjust k f m)
  AllValues-adjust k f keep [] h = tt
  AllValues-adjust k f keep ((j, w) ∷ m) h = elim (Bool-cases (j == k)) [
    | inl e ↦ rw e (keep w h.0, h.1)
    | inr e ↦ rw e (h.0, AllValues-adjust k f keep m h.1)
  ]

  pub AllValues-put :
      (k : ℕ) (v : V) → P v → (m : List (ℕ × V)) → AllValues P m → AllValues P (put k v m)
  AllValues-put k v hv [] h = (hv, tt)
  AllValues-put k v hv ((j, w) ∷ m) h = elim (Bool-cases (j == k)) [
    | inl e ↦ rw e (hv, h.1)
    | inr e ↦ rw e (h.0, AllValues-put k v hv m h.1)
  ]

  pub AllValues-delete : (k : ℕ) (m : List (ℕ × V)) → AllValues P m → AllValues P (delete k m)
  AllValues-delete k [] h = tt
  AllValues-delete k ((j, w) ∷ m) h = elim (Bool-cases (j == k)) [
    | inl e ↦ rw e (AllValues-delete k m h.1)
    | inr e ↦ rw e (h.0, AllValues-delete k m h.1)
  ]

  pub AllValues-get : (k : ℕ) {v : V} (m : List (ℕ × V)) → AllValues P m → get k m ≡ some v → P v
  AllValues-get k [] h e = cc
  AllValues-get k {v} ((j, w) ∷ m) h e = elim (Bool-cases (j == k)) [
    | inl t ↦ let e' : some w ≡ some v = rw t at e in let p : w ≡ v = cc e' in subst P p h.0
    | inr t ↦ AllValues-get k m h.1 (rw t at e)
  ]

module _ {ℓ κ} {V : Type ℓ} (P : V → Type κ) (test : V → Bool)
    (sound : (v : V) → test v ≡ true → P v) where
  pub AllValues-of_all_values : (m : List (ℕ × V)) → all_values test m ≡ true → AllValues P m
  AllValues-of_all_values [] h = tt
  AllValues-of_all_values ((j, w) ∷ m) h =
      (sound w (ground arith), AllValues-of_all_values m (ground arith))

-- The keys of a map are distinct, as a `HashMap` guarantees.
abbrev pub Distinct {ℓ} : {V : Type ℓ} → List (ℕ × V) → Type ℓ
Distinct [] = Unit
Distinct ((j, w) ∷ m) = (get j m ≡ none) × Distinct m

pub get-adjust-none {ℓ} :
    {V : Type ℓ} (k j : ℕ) (f : V → V) (m : List (ℕ × V))
    → get j m ≡ none
    → get j (adjust k f m) ≡ none
get-adjust-none k j f [] h = refl
get-adjust-none k j f ((i, w) ∷ m) h = ground (arith, get-adjust-none k j f m)

pub Distinct-adjust {ℓ} :
    {V : Type ℓ} (k : ℕ) (f : V → V) (m : List (ℕ × V)) → Distinct m → Distinct (adjust k f m)
Distinct-adjust k f [] h = tt
Distinct-adjust k f ((j, w) ∷ m) h = elim (Bool-cases (j == k)) [
  | inl e ↦ rw e h
  | inr e ↦ rw e (get-adjust-none k j f m h.0, Distinct-adjust k f m h.1)
]

pub Distinct-map {ℓ} :
    {V : Type ℓ} (f : V → V) (m : List (ℕ × V)) → Distinct m → Distinct (map_values f m)
Distinct-map f [] h = tt
Distinct-map f ((j, w) ∷ m) h = (get-map-none m h.0, Distinct-map f m h.1)
  where
    get-map-none : (m : List _) → get j m ≡ none → get j (map_values f m) ≡ none
    get-map-none [] h = refl
    get-map-none ((i, v) ∷ m) h = ground (arith, get-map-none m)

module _ {V : Type 0} where
  pub get-map_values :
      (j : ℕ) (f : V → V) (m : List (ℕ × V)) (v' : V)
      → get j (map_values f m) ≡ some v'
      → (v : V) × (get j m ≡ some v) × (v' ≡ f v)
  get-map_values j f [] v' e = absurd (cc e)
  get-map_values j f ((i, v) ∷ m) v' e = elim (Bool-cases (i == j)) [
    | inl t ↦ (v, ground (arith, t), ground (arith, t, e))
    | inr t ↦
        let (w, g, x) = get-map_values j f m v' (ground (arith, t, e)) in
        (w, ground (arith, t, g), x)
  ]

  -- A value found after `adjust` was there before, or was changed.
  pub get-adjust :
      (k j : ℕ) (f : V → V) (m : List (ℕ × V)) (v' : V)
      → get j (adjust k f m) ≡ some v'
      → (v : V) × (get j m ≡ some v) × ((v' ≡ v) ⊎ (v' ≡ f v))
  get-adjust k j f [] v' e = absurd (cc e)
  get-adjust k j f ((i, v) ∷ m) v' e = elim (Bool-cases (i == j)) [
    | inl t ↦ elim (Bool-cases (i == k)) [
      | inl q ↦ (v, ground (arith, t), inr (ground (arith, t, q, e)))
      | inr q ↦ (v, ground (arith, t), inl (ground (arith, t, q, e)))
    ]
    | inr t ↦ elim (Bool-cases (i == k)) [
      | inl q ↦ (v', ground (arith, t, q, e), inl refl)
      | inr q ↦
          let (w, g, x) = get-adjust k j f m v' (ground (arith, t, q, e)) in
          (w, ground (arith, t, g), x)
    ]
  ]
