-- ===== src/Base/Indexing.antt =====
-- What stands at an index after an insertion, a removal, a swap or an append.
use Prim.Native.Nat.{ℕ, zero, suc, ◌-◌, ◌≤◌, ◌<◌}
use mathlib.Core.Path.{◌≡◌, refl, ◌∙◌}
use mathlib.Core.Logic.{◌≢◌, ◌⊎◌, inl, inr}
use mathlib.Core.Bool.{Bool, true, false}
use mathlib.Core.Option.{Option, none, some}
use mathlib.Core.List.{List, [], ◌∷◌, ◌++◌}
use native.Mathlib.Omega.{arith}
use macniri.Base.Tests.{if◌then◌else◌, ltb, ◌==◌, Bool-cases}
use macniri.Base.Lists.{
  length, get_elem?, set, insert_at, erase_idx, swap_at, length-set, get_elem?-lt, position, any_of,
}

module _ {ℓ} {A : Type ℓ} where
  pub get_elem?-erase_idx :
      (i j : ℕ) (xs : List A)
      → get_elem? (erase_idx i xs) j ≡ (if ltb j i then get_elem? xs j else get_elem? xs (suc j))
  get_elem?-erase_idx i j [] = ground arith
  get_elem?-erase_idx zero j (x ∷ xs) = ground arith
  get_elem?-erase_idx (suc i) zero (x ∷ xs) = ground arith
  get_elem?-erase_idx (suc i) (suc j) (x ∷ xs) = ground (arith, get_elem?-erase_idx i j xs)

  pub get_elem?-insert_at :
      (i j : ℕ) (v : A) (xs : List A)
      → i ≤ length xs
      → get_elem? (insert_at i v xs) j
        ≡ (if ltb j i then get_elem? xs j else if j == i then some v else get_elem? xs (j - 1))
  get_elem?-insert_at zero zero v xs h = ground arith
  get_elem?-insert_at zero (suc j) v xs h = ground arith
  get_elem?-insert_at (suc i) j v [] h = absurd (omega arith)
  get_elem?-insert_at (suc i) zero v (x ∷ xs) h = ground arith
  get_elem?-insert_at (suc i) (suc zero) v (x ∷ xs) h =
      ground (arith, get_elem?-insert_at i zero v xs)
  get_elem?-insert_at (suc i) (suc (suc j)) v (x ∷ xs) h =
      ground (arith, get_elem?-insert_at i (suc j) v xs)

  pub get_elem?-set :
      (i j : ℕ) (v : A) (xs : List A)
      → i < length xs
      → get_elem? (set xs i v) j ≡ (if j == i then some v else get_elem? xs j)
  get_elem?-set i j v [] h = absurd (omega arith)
  get_elem?-set zero zero v (x ∷ xs) h = ground arith
  get_elem?-set zero (suc j) v (x ∷ xs) h = ground arith
  get_elem?-set (suc i) zero v (x ∷ xs) h = ground arith
  get_elem?-set (suc i) (suc j) v (x ∷ xs) h = ground (arith, get_elem?-set i j v xs)

  pub get_elem?-append :
      (j : ℕ) (xs ys : List A)
      → get_elem? (xs ++ ys) j
        ≡ (if ltb j (length xs) then get_elem? xs j else get_elem? ys (j - length xs))
  get_elem?-append j [] ys = ground arith
  get_elem?-append zero (x ∷ xs) ys = ground arith
  get_elem?-append (suc j) (x ∷ xs) ys = ground (arith, get_elem?-append j xs ys)

module _ {A : Type 0} where
  -- A swap within the list exchanges the two elements and nothing else.
  pub record Swapped (i j : ℕ) (xs ys : List A) : Type 0 where
    pub same_length : length ys ≡ length xs
    pub first : get_elem? ys i ≡ get_elem? xs j
    pub second : get_elem? ys j ≡ get_elem? xs i
    pub other : (k : ℕ) → k ≢ i → k ≢ j → get_elem? ys k ≡ get_elem? xs k

  pub swap_at-Swapped :
      (i j : ℕ) (xs : List A)
      → i < length xs
      → j < length xs
      → (ys : List A) × (swap_at i j xs ≡ some ys) × Swapped i j xs ys
  swap_at-Swapped i j xs hi hj =
      let (a, p) = get_elem?-lt xs i hi in
      let (b, q) = get_elem?-lt xs j hj in
      let ys = set (set xs i b) j a in
      let l : length (set xs i b) ≡ length xs = length-set xs i b in
      let hj' : j < length (set xs i b) = omega (arith, l) in
      let at : (k : ℕ) → get_elem? ys k ≡ (if k == j then some a else get_elem? (set xs i b) k) =
        λ k. get_elem?-set j k a (set xs i b) hj' in
      let at' : (k : ℕ) → get_elem? (set xs i b) k ≡ (if k == i then some b else get_elem? xs k) =
        λ k. get_elem?-set i k b xs hi in
      (
        ys,
        ground (arith, p, q),
        record {
          same_length = length-set (set xs i b) j a ∙ l;
          first = ground (arith, at i, at' i, p, q);
          second = ground (arith, at j, p);
          other = λ k ni nj. ground (arith, at k, at' k);
        },
      )

pub position-lt {ℓ} :
    {A : Type ℓ} (p : A → Bool) (xs : List A) (i : ℕ) → position p xs ≡ some i → i < length xs
position-lt p [] i e = absurd (cc e)
position-lt p (x ∷ xs) i e = elim (Bool-cases (p x)) [
  | inl t ↦ ground (arith, e, t)
  | inr t ↦ later (position p xs) (position-lt p xs) (rw (position, t) at e)
]
  where
    later :
        (o : Option ℕ)
        → ((j : ℕ) → o ≡ some j → j < length xs)
        → elim o [ none ↦ none | some j ↦ some (suc j) ] ≡ some i
        → i < suc (length xs)
    later none h e = absurd (cc e)
    later (some j) h e = ground (arith, e, h j refl)

-- `position` finds an element that passes the test, or none does.
pub position-cases {ℓ} :
    {A : Type ℓ} (p : A → Bool) (xs : List A)
    → ((position p xs ≡ none) × (any_of p xs ≡ false))
      ⊎ ((i : ℕ) × (x : A) × (position p xs ≡ some i) × (get_elem? xs i ≡ some x) × (p x ≡ true))
position-cases p [] = inl (refl, refl)
position-cases p (x ∷ xs) = elim (Bool-cases (p x)) [
  | inl t ↦ inr (0, x, rw t refl, refl, t)
  | inr t ↦ elim (position-cases p xs) [
    | inl (e, a) ↦ inl (rw (t, e) refl, rw (t, a) refl)
    | inr (i, y, e, g, h) ↦ inr (suc i, y, rw (t, e) refl, g, h)
  ]
]
