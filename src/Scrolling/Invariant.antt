-- ===== src/Scrolling/Invariant.antt =====
-- `verify_invariants` of src/layout/scrolling.rs, as far as it concerns columns, tiles and indices.
use macniri.Base.{
  ℕ, zero, suc, ◌+◌, ◌≤◌, ◌<◌, ◌≡◌, ◌⊎◌, inl, inr, refl, true, false, ◌&&◌, some, List, [], ◌∷◌,
  arith, ◌==◌, ltb, if◌then◌else◌, length, get_elem?, set, insert_at, erase_idx, any_of, All,
  Bool-cases,
}
use macniri.Scrolling.Types.{Column, ScrollingSpace}
use macniri.Scrolling.Columns.{no_columns, activate_column, settle_removed}

-- How often a window stands in a list of tiles.
abbrev pub count : ℕ → List ℕ → ℕ
count id [] = 0
count id (t ∷ ts) = (if t == id then 1 else 0) + count id ts

pub count-insert_at :
    (id i t : ℕ) (ts : List ℕ) → count id (insert_at i t ts) ≡ count id (t ∷ []) + count id ts
count-insert_at id zero t ts = omega arith
count-insert_at id (suc i) t [] = omega arith
count-insert_at id (suc i) t (u ∷ ts) = omega (arith, count-insert_at id i t ts)

pub count-erase_idx :
    (id i : ℕ) (ts : List ℕ) {t : ℕ}
    → get_elem? ts i ≡ some t
    → count id (erase_idx i ts) + count id (t ∷ []) ≡ count id ts
count-erase_idx id i [] e = absurd (cc e)
count-erase_idx id zero (u ∷ ts) {t} e = ground (arith, e)
count-erase_idx id (suc i) (u ∷ ts) {t} e = omega (arith, count-erase_idx id i ts {t = t} e)

pub count-any_of : (id : ℕ) (ts : List ℕ) → any_of (λ t. t == id) ts ≡ false → count id ts ≡ 0
count-any_of id [] h = refl
count-any_of id (t ∷ ts) h = ground (arith, h, count-any_of id ts)

module _ {W : Type 0} where
  abbrev pub total : ℕ → List (Column W) → ℕ
  total id [] = 0
  total id (c ∷ cs) = count id c.tiles + total id cs

  pub total-insert_at :
      (id i : ℕ) (c : Column W) (cs : List (Column W))
      → total id (insert_at i c cs) ≡ count id c.tiles + total id cs
  total-insert_at id zero c cs = refl
  total-insert_at id (suc i) c [] = refl
  total-insert_at id (suc i) c (d ∷ cs) = omega (arith, total-insert_at id i c cs)

  pub total-erase_idx :
      (id i : ℕ) (cs : List (Column W)) {c : Column W}
      → get_elem? cs i ≡ some c
      → total id (erase_idx i cs) + count id c.tiles ≡ total id cs
  total-erase_idx id i [] e = absurd (cc e)
  total-erase_idx id zero (d ∷ cs) {c} e = ground (arith, e)
  total-erase_idx id (suc i) (d ∷ cs) {c} e = omega (arith, total-erase_idx id i cs {c = c} e)

  pub total-set :
      (id i : ℕ) (c' : Column W) (cs : List (Column W)) {c : Column W}
      → get_elem? cs i ≡ some c
      → total id (set cs i c') + count id c.tiles ≡ total id cs + count id c'.tiles
  total-set id i c' [] e = absurd (cc e)
  total-set id zero c' (d ∷ cs) {c} e = ground (arith, e)
  total-set id (suc i) c' (d ∷ cs) {c} e = omega (arith, total-set id i c' cs {c = c} e)

  abbrev pub IsValidColumn : Column W → Type 0
  IsValidColumn c = c.active_tile_idx < length c.tiles

  -- Valid columns, and the resized window is in one of them.
  pub record IsSound (s : ScrollingSpace W) : Type 0 where
    pub columns : All IsValidColumn s.columns
    pub resized : (id : ℕ) → s.interactive_resize ≡ some id → 0 < total id s.columns

  -- And an active column, if there are any.
  pub record IsValid (s : ScrollingSpace W) : Type 0 where
    pub sound : IsSound s
    pub in_range :
        (s.active_column_idx < length s.columns)
        ⊎ ((length s.columns ≡ 0) × (s.active_column_idx ≡ 0))

  pub activate_column-IsValid :
      (idx : ℕ) (s : ScrollingSpace W)
      → idx < length s.columns
      → IsSound s
      → IsValid (activate_column idx s)
  unfolding activate_column
  activate_column-IsValid idx s l h = elim (Bool-cases (s.active_column_idx == idx)) [
    | inl t ↦ rw (activate_column, t) (record { sound = h; in_range = inl (ground (arith, t)) })
    | inr t ↦
        rw (activate_column, t)
          (record {
            sound = record { columns = h.columns; resized = λ id e. absurd (cc e) };
            in_range = inl l;
          })
  ]

  pub activate_column-columns :
      (idx : ℕ) (s : ScrollingSpace W) → (activate_column idx s).columns ≡ s.columns
  unfolding activate_column
  activate_column-columns idx s = elim (Bool-cases (s.active_column_idx == idx)) [
    | inl t ↦ rw (activate_column, t) refl
    | inr t ↦ rw (activate_column, t) refl
  ]

  pub activate_column-active :
      (idx : ℕ) (s : ScrollingSpace W) → (activate_column idx s).active_column_idx ≡ idx
  unfolding activate_column
  activate_column-active idx s = elim (Bool-cases (s.active_column_idx == idx)) [
    | inl t ↦ rw (activate_column, t) (ground (arith, t))
    | inr t ↦ rw (activate_column, t) refl
  ]

  pub no_columns_lem : (cs : List (Column W)) → no_columns cs ≡ false → 0 < length cs
  no_columns_lem [] h = absurd (cc h)
  no_columns_lem (c ∷ cs) h = omega arith

  pub no_columns_zero : (cs : List (Column W)) → no_columns cs ≡ true → length cs ≡ 0
  no_columns_zero [] h = refl
  no_columns_zero (c ∷ cs) h = absurd (cc h)

  -- After a column has gone.
  pub settle_removed-IsValid :
      (idx : ℕ) (s : ScrollingSpace W)
      → IsSound s
      → s.active_column_idx ≤ length s.columns
      → idx ≤ length s.columns
      → IsValid (settle_removed idx s) × ((settle_removed idx s).columns ≡ s.columns)
  settle_removed-IsValid idx s h a l = elim (Bool-cases (no_columns s.columns)) [
    | inl n ↦
        let z = no_columns_zero s.columns n in
        rw n (record { sound = h; in_range = inr (z, omega (arith, z, a)) }, refl)
    | inr n ↦
        let z = no_columns_lem s.columns n in
        elim (Bool-cases (ltb idx s.active_column_idx)) [
          | inl t ↦
              rw (n, t)
                (
                  record {
                    sound = record { columns = h.columns; resized = h.resized };
                    in_range = inl (ground (arith, t));
                  },
                  refl,
                )
          | inr t ↦
              elim (Bool-cases (idx == s.active_column_idx && s.activate_prev_column_on_removal)) [
                | inl p ↦ elim (Bool-cases (ltb 0 idx)) [
                  | inl q ↦
                      rw (n, t, p, q)
                        (
                          activate_column-IsValid _ s (ground (arith, p, q)) h,
                          activate_column-columns _ s,
                        )
                  | inr q ↦
                      rw (n, t, p, q)
                        (record { sound = h; in_range = inl (ground (arith, p, q)) }, refl)
                ]
                | inr p ↦
                    rw (n, t, p)
                      (activate_column-IsValid _ s (omega arith) h, activate_column-columns _ s)
              ]
        ]
  ]
