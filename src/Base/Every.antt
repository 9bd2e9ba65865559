-- ===== src/Base/Every.antt =====
-- A property of every element of a list.
use Prim.Native.Nat.{ℕ, zero, suc}
use mathlib.Core.Path.{◌≡◌, subst}
use mathlib.Core.Option.{some}
use mathlib.Core.List.{List, [], ◌∷◌, ◌++◌}
use macniri.Base.Lists.{get_elem?, set, insert_at, erase_idx}

module _ {ℓ κ} {A : Type ℓ} where
  abbrev pub All : (A → Type κ) → List A → Type κ
  All P [] = Unit
  All P (x ∷ xs) = P x × All P xs

module _ {ℓ κ} {A : Type ℓ} (P : A → Type κ) where
  pub All-get : (i : ℕ) (xs : List A) {x : A} → All P xs → get_elem? xs i ≡ some x → P x
  All-get i [] h e = absurd (cc e)
  All-get zero (y ∷ xs) {x} h e = subst P {x = y} {y = x} (cc e) h.0
  All-get (suc i) (y ∷ xs) {x} h e = All-get i xs {x = x} h.1 e

  pub All-set : (i : ℕ) (v : A) (xs : List A) → All P xs → P v → All P (set xs i v)
  All-set i v [] h p = tt
  All-set zero v (x ∷ xs) h p = (p, h.1)
  All-set (suc i) v (x ∷ xs) h p = (h.0, All-set i v xs h.1 p)

  pub All-erase_idx : (i : ℕ) (xs : List A) → All P xs → All P (erase_idx i xs)
  All-erase_idx i [] h = tt
  All-erase_idx zero (x ∷ xs) h = h.1
  All-erase_idx (suc i) (x ∷ xs) h = (h.0, All-erase_idx i xs h.1)

  pub All-append : (xs ys : List A) → All P xs → All P ys → All P (xs ++ ys)
  All-append [] ys h k = k
  All-append (x ∷ xs) ys h k = (h.0, All-append xs ys h.1 k)

  pub All-insert_at : (i : ℕ) (v : A) (xs : List A) → All P xs → P v → All P (insert_at i v xs)
  All-insert_at zero v xs h p = (p, h)
  All-insert_at (suc i) v [] h p = (p, tt)
  All-insert_at (suc i) v (x ∷ xs) h p = (h.0, All-insert_at i v xs h.1 p)
