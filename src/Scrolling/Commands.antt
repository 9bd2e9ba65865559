-- ===== src/Scrolling/Commands.antt =====
-- The focus and move commands of src/layout/scrolling.rs. `none` is a panic; the Boolean says whether a
-- command did anything, where the source returns that.
use macniri.Base.{
  ℕ, ◌+◌, ◌-◌, Bool, true, false, not, Option, none, some, ◌==◌, leb, ltb, if◌then◌else◌, length,
  get_elem?, set, insert_at, erase_idx, swap_at, min, ◌>>=◌, ◌>>◌, assert,
}
use macniri.Scrolling.Types.{Column, ScrollingSpace}
use macniri.Scrolling.Columns.{no_columns, activate_column, stop_resize, locate}

module _ {W : Type 0} where
  -- `Column::activate_idx`, with what it returns.
  abbrev pub activate_idx : ℕ → Column W → Bool × Column W
  activate_idx idx c = (not (c.active_tile_idx == idx), record c { active_tile_idx = idx })

  -- An operation of the active column; nothing without one.
  abbrev pub on_active :
      (Column W → Option (Bool × Column W)) → ScrollingSpace W → Option (Bool × ScrollingSpace W)
  on_active op s = if no_columns s.columns then some (false, s) else (do
    c ← get_elem? s.columns s.active_column_idx
    (b, c') ← op c
    some (b, record s { columns = set s.columns s.active_column_idx c' }))

  unfoldable pub focus_window_in_column : ℕ → ScrollingSpace W → Option (Bool × ScrollingSpace W)
  focus_window_in_column index s =
      on_active (λ c. some (activate_idx (min (index - 1) (length c.tiles - 1)) c)) s

  unfoldable pub focus_up : ScrollingSpace W → Option (Bool × ScrollingSpace W)
  focus_up s = on_active (λ c. some (activate_idx (c.active_tile_idx - 1) c)) s

  unfoldable pub focus_down : ScrollingSpace W → Option (Bool × ScrollingSpace W)
  focus_down s =
      on_active (λ c. some (activate_idx (min (c.active_tile_idx + 1) (length c.tiles - 1)) c)) s

  unfoldable pub focus_top : ScrollingSpace W → Option (Bool × ScrollingSpace W)
  focus_top s = on_active (λ c. some (activate_idx 0 c)) s

  unfoldable pub focus_bottom : ScrollingSpace W → Option (Bool × ScrollingSpace W)
  focus_bottom s = on_active (λ c. some (activate_idx (length c.tiles - 1) c)) s

  -- `Column::move_up` and `Column::move_down`, with the new index.
  abbrev pub swap_active : ℕ → Column W → Option (Bool × Column W)
  swap_active new_idx c =
      if c.active_tile_idx == new_idx
      then some (false, c)
      else swap_at c.active_tile_idx new_idx c.tiles >>= λ tiles.
          some (true, record c { tiles = tiles; active_tile_idx = new_idx })

  unfoldable pub move_up : ScrollingSpace W → Option (Bool × ScrollingSpace W)
  move_up s = on_active (λ c. swap_active (c.active_tile_idx - 1) c) s

  unfoldable pub move_down : ScrollingSpace W → Option (Bool × ScrollingSpace W)
  move_down s = on_active (λ c. swap_active (min (c.active_tile_idx + 1) (length c.tiles - 1)) c) s

  unfoldable pub focus_left : ScrollingSpace W → Bool × ScrollingSpace W
  unfolding activate_column
  focus_left s =
      if s.active_column_idx == 0
      then (false, s)
      else (true, activate_column (s.active_column_idx - 1) s)

  unfoldable pub focus_right : ScrollingSpace W → Bool × ScrollingSpace W
  unfolding activate_column
  focus_right s =
      if leb (length s.columns) (s.active_column_idx + 1)
      then (false, s)
      else (true, activate_column (s.active_column_idx + 1) s)

  unfoldable pub focus_column : ℕ → ScrollingSpace W → ScrollingSpace W
  unfolding activate_column
  focus_column index s =
      if no_columns s.columns then s else activate_column (min (index - 1) (length s.columns - 1)) s

  unfoldable pub activate_window : ℕ → ScrollingSpace W → Bool × ScrollingSpace W
  unfolding activate_column
  activate_window window s = elim (locate window s.columns) [
    | none ↦ (false, s)
    | some (col_idx, tile_idx) ↦ elim (get_elem? s.columns col_idx) [
      | none ↦ (false, s)
      | some c ↦ (
        true,
        activate_column col_idx (record s {
          columns = set s.columns col_idx (record c { active_tile_idx = tile_idx });
        }),
      )
    ]
  ]

  unfoldable pub move_column_to : ℕ → ScrollingSpace W → Option (ScrollingSpace W)
  unfolding activate_column
  move_column_to new_idx s = if s.active_column_idx == new_idx then some s else (do
    c ← get_elem? s.columns s.active_column_idx
    assert (ltb new_idx (length s.columns))
    some (
        activate_column new_idx (record s {
          columns = insert_at new_idx c (erase_idx s.active_column_idx s.columns);
          interactive_resize = stop_resize c.tiles s.interactive_resize;
        })))

  unfoldable pub move_left : ScrollingSpace W → Option (Bool × ScrollingSpace W)
  unfolding move_column_to
  move_left s =
      if s.active_column_idx == 0
      then some (false, s)
      else move_column_to (s.active_column_idx - 1) s >>= λ s'. some (true, s')

  unfoldable pub move_right : ScrollingSpace W → Option (Bool × ScrollingSpace W)
  unfolding move_column_to
  move_right s =
      if leb (length s.columns) (s.active_column_idx + 1)
      then some (false, s)
      else move_column_to (s.active_column_idx + 1) s >>= λ s'. some (true, s')

  unfoldable pub move_column_to_index : ℕ → ScrollingSpace W → Option (ScrollingSpace W)
  unfolding move_column_to
  move_column_to_index index s =
      if no_columns s.columns
      then some s
      else move_column_to (min (index - 1) (length s.columns - 1)) s
