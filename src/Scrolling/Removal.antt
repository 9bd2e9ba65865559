-- ===== src/Scrolling/Removal.antt =====
-- What the removal of a column or a tile leaves, src/layout/scrolling.rs.
use macniri.Base.{
  ℕ, zero, suc, ◌+◌, ◌-◌, ◌≤◌, ◌<◌, ◌≡◌, ◌≢◌, ◌⊎◌, inl, inr, refl, sym, ap, ◌∙◌, true, false, not,
  ◌&&◌, Option, none, some, List, [], ◌∷◌, arith, ◌==◌, ltb, if◌then◌else◌, length, get_elem?,
  get_elem?-lt, get_elem?-some, get_elem?-erase_idx, get_elem?-set, set, erase_idx, any_of, min,
  All-get, All-set, All-erase_idx, Bool-cases, length-erase_idx, length-set, subst, ◌>>=◌,
}
use macniri.Scrolling.Types.{Column, ScrollingSpace, RemovedTile}
use macniri.Scrolling.Columns.{
  no_columns, active_tile, focused, active_window, activate_column, stop_resize, settle_removed,
  remove_column_by_idx, without_tile, remove_tile_by_idx,
}
use macniri.Scrolling.Invariant.{
  count, count-erase_idx, count-any_of, total, total-erase_idx, total-set, IsValidColumn, IsSound,
  IsValid, settle_removed-IsValid, activate_column-active, activate_column-columns, no_columns_zero,
}

-- A resize that goes on is of a window that has not gone.
pub stop_resize_lem :
    (tiles : List ℕ) (o : Option ℕ) (id : ℕ)
    → stop_resize tiles o ≡ some id
    → (o ≡ some id) × (count id tiles ≡ 0)
stop_resize_lem tiles none id e = absurd (cc e)
stop_resize_lem tiles (some w) id e = elim (Bool-cases (any_of (λ t. t == w) tiles)) [
  | inl t ↦ absurd (ground (arith, e, t))
  | inr t ↦
      let p : w ≡ id = ground (arith, e, t) in
      (ap some p, subst (λ i. count i tiles ≡ 0) p (count-any_of w tiles t))
]

single_count :
    (id t : ℕ) (ts : List ℕ) (i : ℕ)
    → length ts ≡ 1
    → get_elem? ts i ≡ some t
    → count id ts ≡ count id (t ∷ [])
single_count id t (u ∷ []) zero l e = ground (arith, e)
single_count id t (u ∷ []) (suc i) l e = absurd (cc e)
single_count id t [] i l e = absurd (cc e)
single_count id t (u ∷ w ∷ ts) i l e = absurd (omega (arith, l))

module _ {W : Type 0} where
  remove_column_by_idx-settled :
      (idx : ℕ) (s : ScrollingSpace W) {c : Column W}
      → get_elem? s.columns idx ≡ some c
      → remove_column_by_idx idx s
        ≡ some (
          c,
          settle_removed idx (record s {
            columns = erase_idx idx s.columns;
            interactive_resize = stop_resize c.tiles s.interactive_resize;
            activate_prev_column_on_removal =
                s.activate_prev_column_on_removal && not (idx + 1 == s.active_column_idx);
          }),
        )
  unfolding remove_column_by_idx
  remove_column_by_idx-settled idx s e = rw (remove_column_by_idx, e) refl

  settle_removed-focus :
      (idx : ℕ) (cs : List (Column W)) (s : ScrollingSpace W)
      → s.columns ≡ erase_idx idx cs
      → idx < length cs
      → s.active_column_idx < length cs
      → idx ≢ s.active_column_idx
      → active_window (settle_removed idx s) ≡ focused s.active_column_idx cs
  settle_removed-focus idx cs s e l a n =
      let len : suc (length s.columns) ≡ length cs =
        ap (λ xs. suc (length xs)) e ∙ length-erase_idx idx cs l in
      let at : (j : ℕ)
          → get_elem? s.columns j ≡ (if ltb j idx then get_elem? cs j else get_elem? cs (suc j)) =
        λ j. ap (λ xs. get_elem? xs j) e ∙ get_elem?-erase_idx idx j cs in
      elim (Bool-cases (no_columns s.columns)) [
        | inl z ↦ absurd (omega (arith, no_columns_zero s.columns z, len, l, a, n))
        | inr z ↦ elim (Bool-cases (ltb idx s.active_column_idx)) [
          | inl t ↦
              let same : get_elem? s.columns (s.active_column_idx - 1)
                  ≡ get_elem? cs s.active_column_idx =
                ground (arith, t, at (s.active_column_idx - 1)) in
              rw (z, t) (ap active_tile same)
          | inr t ↦
              let other : (idx == s.active_column_idx) ≡ false = ground (arith, n) in
              let low : min s.active_column_idx (length s.columns - 1) ≡ s.active_column_idx =
                ground (arith, t, n, len, l) in
              let same : get_elem? s.columns s.active_column_idx
                  ≡ get_elem? cs s.active_column_idx =
                ground (arith, t, n, at s.active_column_idx) in
              let to = activate_column s.active_column_idx s in
              rw (z, t, other, low)
                (ap (λ i. focused i to.columns) (activate_column-active s.active_column_idx s)
                  ∙ (ap (focused s.active_column_idx)
                        (activate_column-columns s.active_column_idx s)
                      ∙ ap active_tile same))
        ]
      ]

  -- The column has gone, and what is left is valid. The focus stays unless it was in that column.
  pub record ColumnRemoved (idx : ℕ) (c : Column W) (s s' : ScrollingSpace W) : Type 0 where
    pub valid : IsValid s'
    pub same_columns : s'.columns ≡ erase_idx idx s.columns
    pub counted : (id : ℕ) → total id s'.columns + count id c.tiles ≡ total id s.columns
    pub focus : (idx ≡ s.active_column_idx) ⊎ (active_window s' ≡ active_window s)

  pub remove_column_by_idx-ColumnRemoved :
      (idx : ℕ) (s : ScrollingSpace W) (c : Column W)
      → IsValid s
      → get_elem? s.columns idx ≡ some c
      → idx < length s.columns
      → (s' : ScrollingSpace W) × (remove_column_by_idx idx s ≡ some (c, s'))
        × ColumnRemoved idx c s s'
  remove_column_by_idx-ColumnRemoved idx s c v e l =
      let s1 : ScrollingSpace W = record s {
        columns = erase_idx idx s.columns;
        interactive_resize = stop_resize c.tiles s.interactive_resize;
        activate_prev_column_on_removal =
            s.activate_prev_column_on_removal && not (idx + 1 == s.active_column_idx);
      } in
      let len = length-erase_idx idx s.columns l in
      let sound : IsSound s1 = record {
        columns = All-erase_idx IsValidColumn idx s.columns v.sound.columns;
        resized = λ id q.
            let (r, z) = stop_resize_lem c.tiles s.interactive_resize id q in
            omega (arith, z, v.sound.resized id r, total-erase_idx id idx s.columns {c = c} e);
      } in
      let active : s.active_column_idx ≤ length (erase_idx idx s.columns) =
        ground (arith, len, l, v.in_range) in
      let (valid, same) = settle_removed-IsValid idx s1 sound active (omega (arith, len, l)) in
      (
        settle_removed idx s1,
        remove_column_by_idx-settled idx s {c = c} e,
        record {
          valid = valid;
          same_columns = same;
          counted = λ id.
              ap (λ cs. total id cs + count id c.tiles) same
              ∙ total-erase_idx id idx s.columns {c = c} e;
          focus = elim (Bool-cases (idx == s.active_column_idx)) [
            | inl t ↦ inl (ground (arith, t))
            | inr t ↦ inr (
                settle_removed-focus idx s.columns s1 refl l (ground (arith, l, v.in_range))
                  (ground (arith, t)))
          ];
        },
      )

  without_tile-IsValidColumn :
      (idx : ℕ) (c : Column W)
      → IsValidColumn c
      → idx < length c.tiles
      → length c.tiles ≢ 1
      → IsValidColumn (without_tile idx c)
  without_tile-IsValidColumn idx c v l n = ground (arith, length-erase_idx idx c.tiles l)

  active_tile-without_tile :
      (idx : ℕ) (c : Column W)
      → idx < length c.tiles
      → IsValidColumn c
      → idx ≢ c.active_tile_idx
      → active_tile (some (without_tile idx c)) ≡ active_tile (some c)
  active_tile-without_tile idx c l v n = ground (
    arith,
    n,
    get_elem?-erase_idx idx (c.active_tile_idx - 1) c.tiles,
    get_elem?-erase_idx idx c.active_tile_idx c.tiles,
  )

  without_tile-focus :
      (col idx : ℕ) (s : ScrollingSpace W) (c : Column W)
      → IsValidColumn c
      → get_elem? s.columns col ≡ some c
      → idx < length c.tiles
      → ((col ≡ s.active_column_idx) × (idx ≡ c.active_tile_idx))
        ⊎ (focused s.active_column_idx (set s.columns col (without_tile idx c)) ≡ active_window s)
  without_tile-focus col idx s c v e l =
      let c' = without_tile idx c in
      let cl = get_elem?-some col s.columns {a = c} e in
      let at = get_elem?-set col s.active_column_idx c' s.columns cl in
      elim (Bool-cases (s.active_column_idx == col)) [
        | inr t ↦
            let there : get_elem? (set s.columns col c') s.active_column_idx
                ≡ get_elem? s.columns s.active_column_idx =
              ground (arith, t, at) in
            inr (ap active_tile there)
        | inl t ↦
            let is : s.active_column_idx ≡ col = ground (arith, t) in
            elim (Bool-cases (idx == c.active_tile_idx)) [
              | inl u ↦ inl (sym is, ground (arith, u))
              | inr u ↦
                  let here : get_elem? (set s.columns col c') s.active_column_idx ≡ some c' =
                    ground (arith, t, at) in
                  inr (
                    ap active_tile here
                    ∙ (active_tile-without_tile idx c l v (ground (arith, u))
                        ∙ sym (ap active_tile (ap (get_elem? s.columns) is ∙ e))))
            ]
      ]

  -- The tile of the column `c` has gone, and the column with it if it was its only one. The focus stays
  -- unless it was on that tile.
  pub record TileRemoved (col idx : ℕ) (c : Column W) (removed : RemovedTile W)
      (s s' : ScrollingSpace W) : Type 0 where
    pub valid : IsValid s'
    pub counted : (id : ℕ) → total id s'.columns + count id (removed.tile ∷ []) ≡ total id s.columns
    pub same_tile : get_elem? c.tiles idx ≡ some removed.tile
    pub focus :
        ((col ≡ s.active_column_idx) × (idx ≡ c.active_tile_idx))
        ⊎ (active_window s' ≡ active_window s)
    pub remaining :
        ((length c.tiles ≡ 1) × (s'.columns ≡ erase_idx col s.columns))
        ⊎ ((length c.tiles ≢ 1) × (s'.columns ≡ set s.columns col (without_tile idx c)))

  remove_tile_by_idx-only :
      (col idx t : ℕ) (s s' : ScrollingSpace W) (c : Column W)
      → get_elem? s.columns col ≡ some c
      → get_elem? c.tiles idx ≡ some t
      → (length c.tiles == 1) ≡ true
      → remove_column_by_idx col s ≡ some (c, s')
      → remove_tile_by_idx col idx s
        ≡ some (record { tile = t; width = c.width; is_full_width = c.is_full_width }, s')
  unfolding remove_tile_by_idx
  remove_tile_by_idx-only col idx t s s' c a b d r =
      rw (remove_tile_by_idx, a, b, d)
        (ap
          (λ o. o >>= λ q.
            some (record { tile = t; width = c.width; is_full_width = c.is_full_width }, q.1))
          (sym (remove_column_by_idx-settled col s {c = c} a) ∙ r))

  remove_tile_by_idx-more :
      (col idx t : ℕ) (s : ScrollingSpace W) (c : Column W)
      → get_elem? s.columns col ≡ some c
      → get_elem? c.tiles idx ≡ some t
      → (length c.tiles == 1) ≡ false
      → remove_tile_by_idx col idx s
        ≡ some (
          record { tile = t; width = c.width; is_full_width = c.is_full_width },
          record s {
            columns = set s.columns col (without_tile idx c);
            interactive_resize = stop_resize (t ∷ []) s.interactive_resize;
          },
        )
  unfolding remove_tile_by_idx
  remove_tile_by_idx-more col idx t s c a b d = rw (remove_tile_by_idx, a, b, d) refl

  -- In a valid space `remove_tile_by_idx` of a tile that is there does not panic: it returns the tile with
  -- the width of its column, and leaves a valid space with all other tiles, from which the column has gone
  -- if the tile was its only one. The focus stays unless it was on that tile.
  pub remove_tile_by_idx-TileRemoved :
      (col idx : ℕ) (s : ScrollingSpace W) (c : Column W)
      → IsValid s
      → get_elem? s.columns col ≡ some c
      → idx < length c.tiles
      → (removed : RemovedTile W) × (s' : ScrollingSpace W) × (remove_tile_by_idx col idx s
          ≡ some (removed, s'))
        × TileRemoved col idx c removed s s'
  remove_tile_by_idx-TileRemoved col idx s c v e l =
      let (t, g) = get_elem?-lt c.tiles idx l in
      let removed : RemovedTile W = record {
        tile = t;
        width = c.width;
        is_full_width = c.is_full_width;
      } in
      let vc = All-get IsValidColumn col s.columns {x = c} v.sound.columns e in
      let cl : col < length s.columns = get_elem?-some col s.columns e in
      elim (Bool-cases (length c.tiles == 1)) [
        | inl one ↦
            let single : length c.tiles ≡ 1 = ground (arith, one) in
            let (s', run, r) = remove_column_by_idx-ColumnRemoved col s c v e cl in
            (
              removed,
              s',
              remove_tile_by_idx-only col idx t s s' c e g one run,
              record {
                valid = r.valid;
                counted = λ id. omega (arith, r.counted id, single_count id t c.tiles idx single g);
                same_tile = g;
                focus = elim r.focus [
                  | inl q ↦ inl (q, omega (arith, single, vc, l))
                  | inr q ↦ inr q
                ];
                remaining = inl (single, r.same_columns);
              },
            )
        | inr more ↦
            let several : length c.tiles ≢ 1 = ground (arith, more) in
            let c' = without_tile idx c in
            let ct : (id : ℕ)
                → total id (set s.columns col c') + count id (t ∷ []) ≡ total id s.columns =
              λ id. omega (
                arith,
                total-set id col c' s.columns {c = c} e,
                count-erase_idx id idx c.tiles {t = t} g,
              ) in
            (
              removed,
              _,
              remove_tile_by_idx-more col idx t s c e g more,
              record {
                valid = record {
                  sound = record {
                    columns =
                        All-set IsValidColumn col c' s.columns v.sound.columns
                          (without_tile-IsValidColumn idx c vc l several);
                    resized = λ id q.
                        let (r, z) = stop_resize_lem (t ∷ []) s.interactive_resize id q in
                        omega (arith, z, v.sound.resized id r, ct id);
                  };
                  in_range = inl (ground (arith, length-set s.columns col c', v.in_range, cl));
                };
                counted = ct;
                same_tile = g;
                focus = without_tile-focus col idx s c vc e l;
                remaining = inr (several, refl);
              },
            )
      ]
