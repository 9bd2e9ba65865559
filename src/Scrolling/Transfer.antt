-- ===== src/Scrolling/Transfer.antt =====
-- The commands of src/layout/scrolling.rs that move a window between columns. `none` is a panic.
use macniri.Base.{
  ℕ, ◌+◌, ◌-◌, Bool, true, false, not, ◌&&◌, ◌||◌, Option, none, some, ◌==◌, ltb, if◌then◌else◌,
  length, get_elem?, set, ◌>>=◌,
}
use macniri.Scrolling.Types.{
  Column, ScrollingSpace, ScrollDirection, direction_left, direction_right,
}
use macniri.Scrolling.Columns.{
  no_columns, activate_column, add_tile, add_tile_to_column, remove_tile_by_idx, locate,
}
use macniri.Scrolling.Commands.{move_column_to}

abbrev pub neighbour : ScrollDirection → ℕ → ℕ
neighbour direction_left idx = idx - 1
neighbour direction_right idx = idx + 1

-- Where the target column is once a single tile has left the source.
abbrev pub adjusted : ScrollDirection → (drained : Bool) → ℕ → ℕ
adjusted direction_left drained target = target
adjusted direction_right drained target = if drained then target - 1 else target

module _ {W : Type 0} where
  -- The given window, or the active one.
  abbrev pub source_tile : Option ℕ → ScrollingSpace W → Option (ℕ × ℕ)
  source_tile (some window) s = locate window s.columns
  source_tile none s =
      get_elem? s.columns s.active_column_idx >>= λ c. some (s.active_column_idx, c.active_tile_idx)

  -- A single tile goes to the end of the column at `target`.
  unfoldable pub consume_at :
      (source target : ℕ) → Bool → ScrollingSpace W → Option (ScrollingSpace W)
  unfolding remove_tile_by_idx add_tile_to_column
  consume_at source target was_active s = do
    (removed, s') ← remove_tile_by_idx source 0 s
    add_tile_to_column target none removed.tile was_active s'

  -- A tile of several goes to a column of its own at `target`.
  unfoldable pub expel_to :
      (col tile target : ℕ) → Bool → ScrollingSpace W → Option (ScrollingSpace W)
  unfolding remove_tile_by_idx add_tile
  expel_to col tile target was_active s = do
    (removed, s') ← remove_tile_by_idx col tile s
    add_tile (some target) removed.tile was_active removed.width removed.is_full_width s'

  -- The rest of the function, for the tile of a column `c`.
  unfoldable pub left_from :
      ℕ → ℕ → Column W → (was_active : Bool) → ScrollingSpace W → Option (ScrollingSpace W)
  unfolding consume_at expel_to
  left_from col tile c was_active s =
      if length c.tiles == 1
      then (if col == 0
          then some s
          else consume_at col (col - 1) was_active (record s {
            activate_prev_column_on_removal = was_active || s.activate_prev_column_on_removal;
          }))
      else (expel_to col tile col was_active s >>= λ s'. some (record s' {
        activate_prev_column_on_removal = not was_active && s'.activate_prev_column_on_removal;
      }))

  unfoldable pub consume_or_expel_window_left :
      Option ℕ → ScrollingSpace W → Option (ScrollingSpace W)
  unfolding left_from
  consume_or_expel_window_left window s = if no_columns s.columns then some s else (do
    (col, tile) ← source_tile window s
    c ← get_elem? s.columns col
    left_from col tile c (s.active_column_idx == col && c.active_tile_idx == tile) s)

  unfoldable pub right_from :
      ℕ → ℕ → Column W → (was_active : Bool) → ScrollingSpace W → Option (ScrollingSpace W)
  unfolding consume_at expel_to
  right_from col tile c was_active s =
      if length c.tiles == 1
      then (if col + 1 == length s.columns
          then some s
          else consume_at col col was_active (record s {
            activate_prev_column_on_removal = not was_active && s.activate_prev_column_on_removal;
          }))
      else expel_to col tile (col + 1) was_active s

  unfoldable pub consume_or_expel_window_right :
      Option ℕ → ScrollingSpace W → Option (ScrollingSpace W)
  unfolding right_from
  consume_or_expel_window_right window s = if no_columns s.columns then some s else (do
    (col, tile) ← source_tile window s
    c ← get_elem? s.columns col
    right_from col tile c (s.active_column_idx == col && c.active_tile_idx == tile) s)

  unfoldable pub consume_into_column : ScrollingSpace W → Option (ScrollingSpace W)
  unfolding consume_at
  consume_into_column s =
      if ltb (length s.columns) 2 || s.active_column_idx == length s.columns - 1
      then some s
      else consume_at (s.active_column_idx + 1) s.active_column_idx false s

  unfoldable pub expel_from_column : ScrollingSpace W → Option (ScrollingSpace W)
  unfolding expel_to
  expel_from_column s = if no_columns s.columns then some s else (do
    c ← get_elem? s.columns s.active_column_idx
    (if length c.tiles == 1
        then some s
        else expel_to s.active_column_idx (length c.tiles - 1) (s.active_column_idx + 1) false s))

  abbrev pub at_edge : ScrollDirection → ScrollingSpace W → Bool
  at_edge direction_left s = s.active_column_idx == 0
  at_edge direction_right s = s.active_column_idx == length s.columns - 1

  abbrev pub with_active_tile : ℕ → ℕ → ScrollingSpace W → Option (ScrollingSpace W)
  with_active_tile col idx s = do
    c ← get_elem? s.columns col
    some (record s { columns = set s.columns col (record c { active_tile_idx = idx }) })

  -- The exchange of the active tiles of two columns.
  unfoldable pub exchange :
      ScrollDirection
      → (source target : ℕ) → Column W
      → Column W
      → ScrollingSpace W
      → Option (ScrollingSpace W)
  unfolding activate_column remove_tile_by_idx add_tile_to_column add_tile
  exchange direction source target cs ct s = do
    let drained = length cs.tiles == 1
    let to = adjusted direction drained target
    (removed, s1) ← remove_tile_by_idx source cs.active_tile_idx s
    s2 ← add_tile_to_column to (some ct.active_tile_idx) removed.tile false s1
    (other, s3) ← remove_tile_by_idx to (ct.active_tile_idx + 1) s2
    s4 ←
        (if drained
          then add_tile (some source) other.tile true removed.width removed.is_full_width s3
          else add_tile_to_column source (some cs.active_tile_idx) other.tile false s3)
    s5 ← with_active_tile source cs.active_tile_idx s4
    s6 ← with_active_tile target ct.active_tile_idx s5
    some (activate_column target s6)

  unfoldable pub swap_window_in_direction :
      ScrollDirection → ScrollingSpace W → Option (ScrollingSpace W)
  unfolding move_column_to exchange
  swap_window_in_direction direction s =
      if no_columns s.columns || at_edge direction s then some s else (do
        let source = s.active_column_idx
        let target = neighbour direction source
        cs ← get_elem? s.columns source
        ct ← get_elem? s.columns target
        (if length cs.tiles == 1 && length ct.tiles == 1
            then move_column_to target s
            else exchange direction source target cs ct s))
