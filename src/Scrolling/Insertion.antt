-- ===== src/Scrolling/Insertion.antt =====
-- What a new column or tile changes, src/layout/scrolling.rs.
use macniri.Base.{
  ℕ, ◌+◌, ◌≤◌, ◌<◌, ◌≡◌, ◌⊎◌, inl, inr, refl, sym, ap, ◌∙◌, Bool, true, false, none, some, List, [],
  ◌∷◌, arith, ◌==◌, leb, if◌then◌else◌, length, get_elem?, get_elem?-lt, get_elem?-some,
  get_elem?-insert_at, get_elem?-set, set, insert_at, All-get, All-set, All-insert_at, Bool-cases,
  length-insert_at, length-set,
}
use macniri.Scrolling.Types.{Column, ScrollingSpace}
use macniri.Scrolling.Columns.{
  no_columns, active_tile, focused, active_window, activate_column, new_with_tile, settle_added,
  add_column, add_tile, with_tile, add_tile_to_column,
}
use macniri.Scrolling.Invariant.{
  count, count-insert_at, total, total-insert_at, total-set, IsValidColumn, IsSound, IsValid,
  activate_column-IsValid, activate_column-columns, activate_column-active, no_columns_lem,
  no_columns_zero,
}

module _ {W : Type 0} where
  -- The tile is new, and in focus if that is asked for; otherwise the focus stays.
  pub record Added (tile : ℕ) (activate : Bool) (s s' : ScrollingSpace W) : Type 0 where
    pub valid : IsValid s'
    pub counted : (id : ℕ) → total id s'.columns ≡ total id s.columns + count id (tile ∷ [])
    pub focus :
        ((activate ≡ true) × (active_window s' ≡ some tile))
        ⊎ ((activate ≡ false) × ((length s.columns ≡ 0) ⊎ (active_window s' ≡ active_window s)))

  pub focused-insert_at :
      (i : ℕ) (c : Column W) (cs : List (Column W))
      → i ≤ length cs
      → focused i (insert_at i c cs) ≡ get_elem? c.tiles c.active_tile_idx
  focused-insert_at i c cs l = ground (arith, get_elem?-insert_at i i c cs l)

  focused-insert_other :
      (i active : ℕ) (c : Column W) (cs : List (Column W))
      → i ≤ length cs
      → focused (if leb i active then active + 1 else active) (insert_at i c cs) ≡ focused active cs
  focused-insert_other i active c cs l =
      let same : get_elem? (insert_at i c cs) (if leb i active then active + 1 else active)
          ≡ get_elem? cs active =
        ground
          (arith, get_elem?-insert_at i (active + 1) c cs l, get_elem?-insert_at i active c cs l) in
      ap active_tile same

  pub settle_added-Added :
      (i tile : ℕ) (activate : Bool) (w : W) (full : Bool) (s : ScrollingSpace W)
      → IsValid s
      → i ≤ length s.columns
      → Added tile activate s (
          settle_added i activate
            (no_columns s.columns)
            (record s { columns = insert_at i (new_with_tile tile w full) s.columns }))
  settle_added-Added i tile true w full s v l =
      let c : Column W = new_with_tile tile w full in
      let s1 : ScrollingSpace W = record s { columns = insert_at i c s.columns } in
      let len = length-insert_at i c s.columns in
      let ct : (id : ℕ) → total id s1.columns ≡ total id s.columns + count id (tile ∷ []) =
        λ id. omega (arith, total-insert_at id i c s.columns) in
      let sound : IsSound s1 = record {
        columns = All-insert_at IsValidColumn i c s.columns v.sound.columns (omega arith);
        resized = λ id q. omega (arith, v.sound.resized id q, ct id);
      } in
      let after = activate_column-IsValid i s1 (omega (arith, len, l)) sound in
      let same = activate_column-columns i s1 in
      record {
        valid = record {
          sound = record { columns = after.sound.columns; resized = after.sound.resized };
          in_range = after.in_range;
        };
        counted = λ id. ap (total id) same ∙ ct id;
        focus = inl (
          refl,
          ap (λ a. focused a (activate_column i s1).columns) (activate_column-active i s1)
              ∙ (ap (focused i) same ∙ focused-insert_at i c s.columns l),
        );
      }
  settle_added-Added i tile false w full s v l =
      let c : Column W = new_with_tile tile w full in
      let len = length-insert_at i c s.columns in
      let ct : (id : ℕ)
          → total id (insert_at i c s.columns) ≡ total id s.columns + count id (tile ∷ []) =
        λ id. omega (arith, total-insert_at id i c s.columns) in
      let columns = All-insert_at IsValidColumn i c s.columns v.sound.columns (omega arith) in
      let resized : (id : ℕ)
          → s.interactive_resize ≡ some id
          → 0 < total id (insert_at i c s.columns) =
        λ id q. omega (arith, v.sound.resized id q, ct id) in
      elim (Bool-cases (no_columns s.columns)) [
        | inl n ↦
            let z = no_columns_zero s.columns n in
            rw n (record {
              valid = record {
                sound = record { columns = columns; resized = resized };
                in_range = inl (ground (arith, len, z, v.in_range));
              };
              counted = ct;
              focus = inr (refl, inl z);
            })
        | inr n ↦
            let z = no_columns_lem s.columns n in
            elim (Bool-cases (leb i s.active_column_idx)) [
              | inl t ↦
                  rw (n, t)
                    (record {
                      valid = record {
                        sound = record { columns = columns; resized = resized };
                        in_range = inl (ground (arith, len, z, v.in_range));
                      };
                      counted = ct;
                      focus = inr (
                        refl,
                        inr (
                            ap
                              (λ b.
                                focused (if b then s.active_column_idx + 1 else s.active_column_idx)
                                  (insert_at i c s.columns))
                              (sym t)
                            ∙ focused-insert_other i s.active_column_idx c s.columns l),
                      );
                    })
              | inr t ↦
                  rw (n, t)
                    (record {
                      valid = record {
                        sound = record { columns = columns; resized = resized };
                        in_range = inl (ground (arith, len, z, v.in_range));
                      };
                      counted = ct;
                      focus = inr (
                        refl,
                        inr (
                            ap
                              (λ b.
                                focused (if b then s.active_column_idx + 1 else s.active_column_idx)
                                  (insert_at i c s.columns))
                              (sym t)
                            ∙ focused-insert_other i s.active_column_idx c s.columns l),
                      );
                    })
            ]
      ]

  -- In a valid space `add_tile` at an index of at most the number of columns does not panic: the result is
  -- valid and has the tile besides all others, in focus if that is asked for; otherwise the focus stays,
  -- unless there was no column.
  pub add_tile-Added :
      (i tile : ℕ) (activate : Bool) (w : W) (full : Bool) (s : ScrollingSpace W)
      → IsValid s
      → i ≤ length s.columns
      → (s' : ScrollingSpace W) × (add_tile (some i) tile activate w full s ≡ some s')
        × Added tile activate s s'
  unfolding add_tile
  add_tile-Added i tile activate w full s v l =
      let fits : leb i (length s.columns) ≡ true = ground (arith, l) in
      (_, rw (add_column, fits) refl, settle_added-Added i tile activate w full s v l)

  active_tile-with_tile :
      (at tile : ℕ) (c : Column W)
      → at ≤ length c.tiles
      → active_tile (some (with_tile at tile false c)) ≡ active_tile (some c)
  active_tile-with_tile at tile c l = ground (
    arith,
    get_elem?-insert_at at (c.active_tile_idx + 1) tile c.tiles l,
    get_elem?-insert_at at c.active_tile_idx tile c.tiles l,
  )

  with_tile-IsValidColumn :
      (at tile : ℕ) (activate : Bool) (c : Column W)
      → IsValidColumn c
      → at ≤ length c.tiles
      → IsValidColumn (with_tile at tile activate c)
  with_tile-IsValidColumn at tile true c v l = omega (arith, length-insert_at at tile c.tiles)
  with_tile-IsValidColumn at tile false c v l = ground (arith, v, length-insert_at at tile c.tiles)

  pub tiled-Added :
      (col at tile : ℕ) (activate : Bool) (s : ScrollingSpace W) (c : Column W)
      → IsValid s
      → get_elem? s.columns col ≡ some c
      → at ≤ length c.tiles
      → let s1 = record s { columns = set s.columns col (with_tile at tile activate c) } in
        Added tile activate s (if activate then activate_column col s1 else s1)
  tiled-Added col at tile true s c v e l =
      let c' = with_tile at tile true c in
      let s1 : ScrollingSpace W = record s { columns = set s.columns col c' } in
      let cl = get_elem?-some col s.columns {a = c} e in
      let ct : (id : ℕ) → total id s1.columns ≡ total id s.columns + count id (tile ∷ []) = λ id.
        omega
          (arith, total-set id col c' s.columns {c = c} e, count-insert_at id at tile c.tiles) in
      let vc =
        with_tile-IsValidColumn at tile true c
          (All-get IsValidColumn col s.columns {x = c} v.sound.columns e) l in
      let sound : IsSound s1 = record {
        columns = All-set IsValidColumn col c' s.columns v.sound.columns vc;
        resized = λ id q. omega (arith, v.sound.resized id q, ct id);
      } in
      let same = activate_column-columns col s1 in
      let here : get_elem? (set s.columns col c') col ≡ some c' =
        ground (arith, get_elem?-set col col c' s.columns cl) in
      let top : get_elem? (insert_at at tile c.tiles) at ≡ some tile =
        ground (arith, get_elem?-insert_at at at tile c.tiles l) in
      record {
        valid =
            activate_column-IsValid col s1 (omega (arith, cl, length-set s.columns col c')) sound;
        counted = λ id. ap (total id) same ∙ ct id;
        focus = inl (
          refl,
          ap (λ a. focused a (activate_column col s1).columns) (activate_column-active col s1)
              ∙ (ap (focused col) same ∙ (ap active_tile here ∙ top)),
        );
      }
  tiled-Added col at tile false s c v e l =
      let c' = with_tile at tile false c in
      let cl = get_elem?-some col s.columns {a = c} e in
      let ct : (id : ℕ)
          → total id (set s.columns col c') ≡ total id s.columns + count id (tile ∷ []) =
        λ id.
          omega
            (arith, total-set id col c' s.columns {c = c} e, count-insert_at id at tile c.tiles) in
      let vc =
        with_tile-IsValidColumn at tile false c
          (All-get IsValidColumn col s.columns {x = c} v.sound.columns e) l in
      record {
        valid = record {
          sound = record {
            columns = All-set IsValidColumn col c' s.columns v.sound.columns vc;
            resized = λ id q. omega (arith, v.sound.resized id q, ct id);
          };
          in_range = inl (ground (arith, cl, length-set s.columns col c', v.in_range));
        };
        counted = ct;
        focus = inr (
          refl,
          inr (elim (Bool-cases (s.active_column_idx == col)) [
            | inl t ↦
                let is : s.active_column_idx ≡ col = ground (arith, t) in
                let here : get_elem? (set s.columns col c') s.active_column_idx ≡ some c' =
                  ground (arith, t, get_elem?-set col s.active_column_idx c' s.columns cl) in
                ap active_tile here
                ∙ (active_tile-with_tile at tile c l
                    ∙ sym (ap active_tile (ap (get_elem? s.columns) is ∙ e)))
            | inr t ↦
                let there : get_elem? (set s.columns col c') s.active_column_idx
                    ≡ get_elem? s.columns s.active_column_idx =
                  ground (arith, t, get_elem?-set col s.active_column_idx c' s.columns cl) in
                ap active_tile there
          ]),
        );
      }

  -- In a valid space `add_tile_to_column` at the end of a column that is there does not panic: the result
  -- is valid and has the tile besides all others, in focus if that is asked for; otherwise the focus stays.
  pub add_tile_to_column-Added :
      (col tile : ℕ) (activate : Bool) (s : ScrollingSpace W)
      → IsValid s
      → col < length s.columns
      → (s' : ScrollingSpace W) × (add_tile_to_column col none tile activate s ≡ some s')
        × Added tile activate s s'
  unfolding add_tile_to_column
  add_tile_to_column-Added col tile activate s v l =
      let (c, e) = get_elem?-lt s.columns col l in
      let fits : leb (length c.tiles) (length c.tiles) ≡ true = ground arith in
      (
        _,
        rw (add_tile_to_column, e, fits) refl,
        tiled-Added col (length c.tiles) tile activate s c v e (omega arith),
      )
