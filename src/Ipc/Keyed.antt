-- ===== src/Ipc/Keyed.antt =====
-- One entry for each id, in the maps of niri-ipc/src/state.rs, whatever events are applied.
use macniri.Base.{
  ℕ, ◌≡◌, refl, ◌∙◌, inl, inr, Bool, none, List, [], ◌∷◌, arith, get, put, delete, adjust,
  map_values, change_first, get-put, get-delete, Distinct, Distinct-map, Distinct-adjust, ◌==◌,
  Bool-cases,
}
use macniri.Ipc.State.{collect_onto}
use macniri.Ipc.Replicate.{Keyed}

module _ {V : Type 0} (id : V → ℕ) where
  -- One entry for each id.
  abbrev pub IsMap : List (ℕ × V) → Type 0
  IsMap m = Keyed id m × Distinct m

  Keyed-put : (v : V) (m : List (ℕ × V)) → Keyed id m → Keyed id (put (id v) v m)
  Keyed-put v [] k = (refl, tt)
  Keyed-put v ((j, w) ∷ m) k = elim (Bool-cases (j == id v)) [
    | inl t ↦ rw t (refl, k.1)
    | inr t ↦ rw t (k.0, Keyed-put v m k.1)
  ]

  Distinct-put : (i : ℕ) (v : V) (m : List (ℕ × V)) → Distinct m → Distinct (put i v m)
  Distinct-put i v [] d = (refl, tt)
  Distinct-put i v ((j, w) ∷ m) d = elim (Bool-cases (j == i)) [
    | inl t ↦ rw t (ground (arith, t, d.0), d.1)
    | inr t ↦ rw t (ground (arith, t, d.0, get-put i j v m), Distinct-put i v m d.1)
  ]

  pub put-IsMap : (v : V) (m : List (ℕ × V)) → IsMap m → IsMap (put (id v) v m)
  put-IsMap v m h = (Keyed-put v m h.0, Distinct-put (id v) v m h.1)

  pub collect_onto-IsMap : (vs : List V) (m : List (ℕ × V)) → IsMap m → IsMap (collect_onto id m vs)
  collect_onto-IsMap [] m h = h
  collect_onto-IsMap (v ∷ vs) m h = collect_onto-IsMap vs (put (id v) v m) (put-IsMap v m h)

  Keyed-delete : (i : ℕ) (m : List (ℕ × V)) → Keyed id m → Keyed id (delete i m)
  Keyed-delete i [] k = tt
  Keyed-delete i ((j, w) ∷ m) k = elim (Bool-cases (j == i)) [
    | inl t ↦ rw t (Keyed-delete i m k.1)
    | inr t ↦ rw t (k.0, Keyed-delete i m k.1)
  ]

  Distinct-delete : (i : ℕ) (m : List (ℕ × V)) → Distinct m → Distinct (delete i m)
  Distinct-delete i [] d = tt
  Distinct-delete i ((j, w) ∷ m) d = elim (Bool-cases (j == i)) [
    | inl t ↦ rw t (Distinct-delete i m d.1)
    | inr t ↦ rw t (ground (arith, t, d.0, get-delete i j m), Distinct-delete i m d.1)
  ]

  pub delete-IsMap : (i : ℕ) (m : List (ℕ × V)) → IsMap m → IsMap (delete i m)
  delete-IsMap i m h = (Keyed-delete i m h.0, Distinct-delete i m h.1)

  -- The changes below keep the id of every value.
  module _ (f : V → V) (keep : (v : V) → id (f v) ≡ id v) where
    pub map_values-IsMap : (m : List (ℕ × V)) → IsMap m → IsMap (map_values f m)
    map_values-IsMap m h = (go m h.0, Distinct-map f m h.1)
      where
        go : (m : List (ℕ × V)) → Keyed id m → Keyed id (map_values f m)
        go [] k = tt
        go ((j, v) ∷ m) k = (keep v ∙ k.0, go m k.1)

    pub adjust-IsMap : (i : ℕ) (m : List (ℕ × V)) → IsMap m → IsMap (adjust i f m)
    adjust-IsMap i m h = (go m h.0, Distinct-adjust i f m h.1)
      where
        go : (m : List (ℕ × V)) → Keyed id m → Keyed id (adjust i f m)
        go [] k = tt
        go ((j, v) ∷ m) k = elim (Bool-cases (j == i)) [
          | inl t ↦ rw t (keep v ∙ k.0, k.1)
          | inr t ↦ rw t (k.0, go m k.1)
        ]

    get-change_first :
        (p : V → Bool) (j : ℕ) (m : List (ℕ × V))
        → get j m ≡ none
        → get j (change_first p f m) ≡ none
    get-change_first p j [] e = e
    get-change_first p j ((i, v) ∷ m) e = elim (Bool-cases (p v)) [
      | inl t ↦ rw t (ground (arith, e))
      | inr t ↦ rw t (ground (arith, e, get-change_first p j m))
    ]

    pub change_first-IsMap :
        (p : V → Bool) (m : List (ℕ × V)) → IsMap m → IsMap (change_first p f m)
    change_first-IsMap p [] h = h
    change_first-IsMap p ((j, v) ∷ m) h = elim (Bool-cases (p v)) [
      | inl t ↦ rw t ((keep v ∙ h.0.0, h.0.1), h.1)
      | inr t ↦
          let (k, d) = change_first-IsMap p m (h.0.1, h.1.1) in
          rw t ((h.0.0, k), (get-change_first p j m h.1.0, d))
    ]
