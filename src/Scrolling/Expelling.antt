-- ===== src/Scrolling/Expelling.antt =====
-- `consume_or_expel_window_left`, `consume_or_expel_window_right` and `expel_from_column` of
-- src/layout/scrolling.rs as a whole.
use macniri.Base.{
  ℕ, ◌+◌, ◌-◌, ◌<◌, ◌≡◌, inl, inr, refl, ap, ◌∙◌, Bool, true, false, not, ◌&&◌, ◌||◌, Option, none,
  some, arith, ◌==◌, length, get_elem?, get_elem?-lt, get_elem?-some, position, position-lt,
  All-get, Bool-cases, Option-cases, is_some, subst, ◌>>=◌,
}
use macniri.Scrolling.Types.{Column, ScrollingSpace}
use macniri.Scrolling.Columns.{no_columns, active_tile, contains, locate}
use macniri.Scrolling.Transfer.{
  source_tile, left_from, right_from, consume_or_expel_window_left, consume_or_expel_window_right,
}
use macniri.Scrolling.Invariant.{IsValidColumn, IsValid}
use macniri.Scrolling.Consuming.{
  Kept, Marks, consume_at-Kept, expel_to-Kept, Kept-refl, flagged-IsValid,
}

module _ {W : Type 0} where
  -- A tile that is there.
  record Sourced (s : ScrollingSpace W) (p : ℕ × ℕ) : Type 0 where
    pub column : Column W
    pub found : get_elem? s.columns p.0 ≡ some column
    pub in_range : p.1 < length column.tiles

  tile_in :
      (window col : ℕ) (s : ScrollingSpace W) (c : Column W) (p : ℕ × ℕ)
      → get_elem? s.columns col ≡ some c
      → (position (λ t. t == window) c.tiles >>= λ i. some (col, i)) ≡ some p
      → Sourced s p
  tile_in window col s c p e h = elim (Option-cases (position (λ t. t == window) c.tiles)) [
    | inl g ↦ absurd (cc (rw g at h))
    | inr (i, g) ↦
        let h' : some (col, i) ≡ some p = rw g at h in
        subst (Sourced s) {x = (col, i)} {y = p} (cc h')
          (record { column = c; found = e; in_range = position-lt (λ t. t == window) c.tiles i g })
  ]

  locate-Sourced :
      (window : ℕ) (s : ScrollingSpace W) (p : ℕ × ℕ)
      → locate window s.columns ≡ some p
      → Sourced s p
  locate-Sourced window s p h = elim (Option-cases (position (contains window) s.columns)) [
    | inl g ↦ absurd (cc (rw (locate, g) at h))
    | inr (col, g) ↦
        let (c, e) = get_elem?-lt s.columns col (position-lt (contains window) s.columns col g) in
        tile_in window col s c p e (rw (locate, g, e) at h)
  ]

  source_tile-Sourced :
      (window : Option ℕ) (s : ScrollingSpace W) (p : ℕ × ℕ)
      → IsValid s
      → source_tile window s ≡ some p
      → Sourced s p
  source_tile-Sourced none s p v h = elim (Option-cases (get_elem? s.columns s.active_column_idx)) [
    | inl g ↦ absurd (cc (rw (source_tile, g) at h))
    | inr (c, g) ↦
        let h' : some (s.active_column_idx, c.active_tile_idx) ≡ some p =
          rw (source_tile, g) at h in
        subst (Sourced s) {x = (s.active_column_idx, c.active_tile_idx)} {y = p} (cc h') (record {
          column = c;
          found = g;
          in_range = All-get IsValidColumn s.active_column_idx s.columns {x = c} v.sound.columns g;
        })
  ]
  source_tile-Sourced (some window) s p v h = locate-Sourced window s p h

  marks :
      (col idx : ℕ) (s : ScrollingSpace W) (c : Column W)
      → get_elem? s.columns col ≡ some c
      → Marks (s.active_column_idx == col && c.active_tile_idx == idx) col idx c s
  marks col idx s c e = elim (Bool-cases (s.active_column_idx == col)) [
    | inr t ↦ rw t (inr (refl, inl (ground (arith, t))))
    | inl t ↦
        let is : s.active_column_idx ≡ col = ground (arith, t) in
        elim (Bool-cases (c.active_tile_idx == idx)) [
          | inr u ↦ rw (t, u) (inr (refl, inr (ground (arith, u))))
          | inl u ↦
              let here : c.active_tile_idx ≡ idx = ground (arith, u) in
              rw (t, u)
                (inl (
                  refl,
                  ap active_tile (ap (get_elem? s.columns) is ∙ e) ∙ ap (get_elem? c.tiles) here,
                ))
        ]
  ]

  source_at :
      (window : Option ℕ) (s : ScrollingSpace W)
      → is_some (source_tile window s) ≡ true
      → (p : ℕ × ℕ) × (source_tile window s ≡ some p)
  source_at window s h = elim (Option-cases (source_tile window s)) [
    | inl g ↦ absurd (cc (h, g))
    | inr r ↦ r
  ]

  Kept-flagged :
      (b p : Bool) (s s' : ScrollingSpace W)
      → Kept (record s { activate_prev_column_on_removal = b }) s'
      → Kept s (record s' { activate_prev_column_on_removal = p })
  Kept-flagged b p s s' k = record {
    valid = flagged-IsValid p s' k.valid;
    same_windows = k.same_windows;
    same_focus = k.same_focus;
  }

  Kept-unflagged :
      (b : Bool) (s s' : ScrollingSpace W)
      → Kept (record s { activate_prev_column_on_removal = b }) s'
      → Kept s s'
  Kept-unflagged b s s' k = record {
    valid = k.valid;
    same_windows = k.same_windows;
    same_focus = k.same_focus;
  }

  left_from-Kept :
      (col idx : ℕ) (c : Column W) (b : Bool) (s : ScrollingSpace W)
      → IsValid s
      → get_elem? s.columns col ≡ some c
      → idx < length c.tiles
      → Marks b col idx c s
      → (s' : ScrollingSpace W) × (left_from col idx c b s ≡ some s') × Kept s s'
  unfolding left_from
  left_from-Kept col idx c b s v e l m =
      let cl = get_elem?-some col s.columns {a = c} e in
      elim (Bool-cases (length c.tiles == 1)) [
        | inr t ↦
            let (s', run, k) =
              expel_to-Kept col idx col b s c v e l (ground (arith, t)) (omega (arith, cl)) m in
            let p = not b && s'.activate_prev_column_on_removal in
            (
              record s' { activate_prev_column_on_removal = p },
              rw (left_from, t, run) refl,
              Kept-flagged s.activate_prev_column_on_removal p s s' k,
            )
        | inl t ↦ elim (Bool-cases (col == 0)) [
          | inl z ↦ (s, rw (left_from, t, z) refl, Kept-refl s v)
          | inr z ↦
              let p = b || s.activate_prev_column_on_removal in
              let first : idx ≡ 0 = ground (arith, t, l) in
              let (s', run, k) =
                consume_at-Kept col (col - 1) b (record s { activate_prev_column_on_removal = p }) c
                  (flagged-IsValid p s v) e (ground (arith, z, cl))
                  (subst (λ i. Marks b col i c s) first m) in
              (s', rw (left_from, t, z) run, Kept-unflagged p s s' k)
        ]
      ]

  right_from-Kept :
      (col idx : ℕ) (c : Column W) (b : Bool) (s : ScrollingSpace W)
      → IsValid s
      → get_elem? s.columns col ≡ some c
      → idx < length c.tiles
      → Marks b col idx c s
      → (s' : ScrollingSpace W) × (right_from col idx c b s ≡ some s') × Kept s s'
  unfolding right_from
  right_from-Kept col idx c b s v e l m =
      let cl = get_elem?-some col s.columns {a = c} e in
      elim (Bool-cases (length c.tiles == 1)) [
        | inr t ↦
            let (s', run, k) =
              expel_to-Kept col idx (col + 1) b s c v e l (ground (arith, t)) (omega (arith, cl))
                m in
            (s', rw (right_from, t) run, k)
        | inl t ↦ elim (Bool-cases (col + 1 == length s.columns)) [
          | inl z ↦ (s, rw (right_from, t, z) refl, Kept-refl s v)
          | inr z ↦
              let p = not b && s.activate_prev_column_on_removal in
              let first : idx ≡ 0 = ground (arith, t, l) in
              let (s', run, k) =
                consume_at-Kept col col b (record s { activate_prev_column_on_removal = p }) c
                  (flagged-IsValid p s v) e (ground (arith, z, cl))
                  (subst (λ i. Marks b col i c s) first m) in
              (s', rw (right_from, t, z) run, Kept-unflagged p s s' k)
        ]
      ]

  consume_or_expel_window_left-from :
      (window : Option ℕ) (s : ScrollingSpace W) (col idx : ℕ) (c : Column W)
      → no_columns s.columns ≡ false
      → source_tile window s ≡ some (col, idx)
      → get_elem? s.columns col ≡ some c
      → consume_or_expel_window_left window s
        ≡ left_from col idx c (s.active_column_idx == col && c.active_tile_idx == idx) s
  unfolding consume_or_expel_window_left
  consume_or_expel_window_left-from window s col idx c n h e = rw (n, h, e) refl

  -- In a valid space `consume_or_expel_window_left` does not panic, for the active window or another one
  -- that is there: the result is valid, with the same windows and the same one in focus.
  pub consume_or_expel_window_left-Kept :
      (window : Option ℕ) (s : ScrollingSpace W)
      → IsValid s
      → (no_columns s.columns ≡ false → is_some (source_tile window s) ≡ true)
      → (s' : ScrollingSpace W) × (consume_or_expel_window_left window s ≡ some s') × Kept s s'
  unfolding consume_or_expel_window_left
  consume_or_expel_window_left-Kept window s v there = elim (Bool-cases (no_columns s.columns)) [
    | inl n ↦ (s, rw n refl, Kept-refl s v)
    | inr n ↦
        let (p, h) = source_at window s (there n) in
        let at = source_tile-Sourced window s p v h in
        let c = at.column in
        let b = s.active_column_idx == p.0 && c.active_tile_idx == p.1 in
        let (s', run, k) =
          left_from-Kept p.0 p.1 c b s v at.found at.in_range (marks p.0 p.1 s c at.found) in
        (s', consume_or_expel_window_left-from window s p.0 p.1 c n h at.found ∙ run, k)
  ]

  consume_or_expel_window_right-from :
      (window : Option ℕ) (s : ScrollingSpace W) (col idx : ℕ) (c : Column W)
      → no_columns s.columns ≡ false
      → source_tile window s ≡ some (col, idx)
      → get_elem? s.columns col ≡ some c
      → consume_or_expel_window_right window s
        ≡ right_from col idx c (s.active_column_idx == col && c.active_tile_idx == idx) s
  unfolding consume_or_expel_window_right
  consume_or_expel_window_right-from window s col idx c n h e = rw (n, h, e) refl

  -- In a valid space `consume_or_expel_window_right` does not panic, for the active window or another one
  -- that is there: the result is valid, with the same windows and the same one in focus.
  pub consume_or_expel_window_right-Kept :
      (window : Option ℕ) (s : ScrollingSpace W)
      → IsValid s
      → (no_columns s.columns ≡ false → is_some (source_tile window s) ≡ true)
      → (s' : ScrollingSpace W) × (consume_or_expel_window_right window s ≡ some s') × Kept s s'
  unfolding consume_or_expel_window_right
  consume_or_expel_window_right-Kept window s v there = elim (Bool-cases (no_columns s.columns)) [
    | inl n ↦ (s, rw n refl, Kept-refl s v)
    | inr n ↦
        let (p, h) = source_at window s (there n) in
        let at = source_tile-Sourced window s p v h in
        let c = at.column in
        let b = s.active_column_idx == p.0 && c.active_tile_idx == p.1 in
        let (s', run, k) =
          right_from-Kept p.0 p.1 c b s v at.found at.in_range (marks p.0 p.1 s c at.found) in
        (s', consume_or_expel_window_right-from window s p.0 p.1 c n h at.found ∙ run, k)
  ]
