-- ===== src/Scrolling/Columns.antt =====
-- How src/layout/scrolling.rs adds and removes columns and tiles. `none` is a panic.
use macniri.Base.{
  ℕ, ◌+◌, ◌-◌, Bool, true, false, not, ◌&&◌, Option, none, some, List, [], ◌∷◌, ◌==◌, leb, ltb,
  if◌then◌else◌, length, get_elem?, set, insert_at, erase_idx, any_of, position, min, option_eq,
  nat_eq, ◌>>=◌, ◌>>◌, assert,
}
use macniri.Scrolling.Types.{Column, ScrollingSpace, RemovedTile}

-- An interactive resize stops if its window goes.
abbrev pub stop_resize : List ℕ → Option ℕ → Option ℕ
stop_resize tiles none = none
stop_resize tiles (some window) = if any_of (λ t. t == window) tiles then none else some window

module _ {W : Type 0} where
  abbrev pub no_columns : List (Column W) → Bool
  no_columns [] = true
  no_columns (c ∷ cs) = false

  abbrev pub active_tile : Option (Column W) → Option ℕ
  active_tile none = none
  active_tile (some c) = get_elem? c.tiles c.active_tile_idx

  -- The active tile of the column at an index.
  abbrev pub focused : ℕ → List (Column W) → Option ℕ
  focused idx cs = active_tile (get_elem? cs idx)

  abbrev pub active_window : ScrollingSpace W → Option ℕ
  active_window s = focused s.active_column_idx s.columns

  -- `activate_column`: the flags are reset when another column becomes active.
  unfoldable pub activate_column : ℕ → ScrollingSpace W → ScrollingSpace W
  activate_column idx s = if s.active_column_idx == idx then s else record s {
    active_column_idx = idx;
    activate_prev_column_on_removal = false;
    interactive_resize = none;
  }

  -- `Column::new_with_tile`.
  abbrev pub new_with_tile : ℕ → W → Bool → Column W
  new_with_tile tile width is_full_width = record {
    tiles = tile ∷ [];
    active_tile_idx = 0;
    width = width;
    is_full_width = is_full_width;
  }

  abbrev pub column_or_next : Option ℕ → ScrollingSpace W → ℕ
  column_or_next (some idx) s = idx
  column_or_next none s = if no_columns s.columns then 0 else s.active_column_idx + 1

  -- What `add_column` makes active.
  abbrev pub settle_added : ℕ → Bool → (was_empty : Bool) → ScrollingSpace W → ScrollingSpace W
  settle_added idx activate was_empty s =
      if activate
      then record (activate_column idx s) {
        activate_prev_column_on_removal = not was_empty && idx == s.active_column_idx + 1;
      }
      else (if not was_empty && leb idx s.active_column_idx
          then record s { active_column_idx = s.active_column_idx + 1 }
          else s)

  unfoldable pub add_column :
      Option ℕ → Column W → Bool → ScrollingSpace W → Option (ScrollingSpace W)
  unfolding activate_column
  add_column idx column activate s = do
    let at = column_or_next idx s
    assert (leb at (length s.columns))
    some (
        settle_added at activate (no_columns s.columns)
          (record s { columns = insert_at at column s.columns }))

  unfoldable pub add_tile :
      Option ℕ → ℕ → Bool → W → Bool → ScrollingSpace W → Option (ScrollingSpace W)
  unfolding add_column
  add_tile idx tile activate width is_full_width s =
      add_column idx (new_with_tile tile width is_full_width) activate s

  -- A tile goes into a column, whose active tile stays the same, or becomes the new one.
  abbrev pub with_tile : ℕ → ℕ → Bool → Column W → Column W
  with_tile tile_idx tile activate c = record c {
    tiles = insert_at tile_idx tile c.tiles;
    active_tile_idx =
        if activate
        then tile_idx
        else (if leb tile_idx c.active_tile_idx then c.active_tile_idx + 1 else c.active_tile_idx);
  }

  abbrev pub tile_or_end : Option ℕ → Column W → ℕ
  tile_or_end (some idx) c = idx
  tile_or_end none c = length c.tiles

  unfoldable pub add_tile_to_column :
      ℕ → Option ℕ → ℕ → Bool → ScrollingSpace W → Option (ScrollingSpace W)
  unfolding activate_column
  add_tile_to_column col_idx tile_idx tile activate s = do
    c ← get_elem? s.columns col_idx
    let at = tile_or_end tile_idx c
    assert (leb at (length c.tiles))
    let s' : ScrollingSpace W = record s {
      columns = set s.columns col_idx (with_tile at tile activate c);
    }
    some (if activate then activate_column col_idx s' else s')

  abbrev pub contains : ℕ → Column W → Bool
  contains window c = any_of (λ t. t == window) c.tiles

  unfoldable pub add_tile_right_of :
      ℕ → ℕ → Bool → W → Bool → ScrollingSpace W → Option (ScrollingSpace W)
  unfolding add_tile
  add_tile_right_of right_of tile activate width is_full_width s = do
    idx ← position (contains right_of) s.columns
    add_tile (some (idx + 1)) tile activate width is_full_width s

  -- Which column is active after the one at `column_idx` has gone.
  abbrev pub settle_removed : ℕ → ScrollingSpace W → ScrollingSpace W
  settle_removed column_idx s =
      if no_columns s.columns
      then s
      else (if ltb column_idx s.active_column_idx
          then record s {
            active_column_idx = s.active_column_idx - 1;
            activate_prev_column_on_removal = false;
          }
          else (if column_idx == s.active_column_idx && s.activate_prev_column_on_removal
              then (if ltb 0 column_idx then activate_column (s.active_column_idx - 1) s else s)
              else activate_column (min s.active_column_idx (length s.columns - 1)) s))

  unfoldable pub remove_column_by_idx : ℕ → ScrollingSpace W → Option (Column W × ScrollingSpace W)
  unfolding activate_column
  remove_column_by_idx column_idx s = do
    c ← get_elem? s.columns column_idx
    some (
      c,
      settle_removed column_idx (record s {
        columns = erase_idx column_idx s.columns;
        interactive_resize = stop_resize c.tiles s.interactive_resize;
        activate_prev_column_on_removal =
            s.activate_prev_column_on_removal && not (column_idx + 1 == s.active_column_idx);
      }),
    )

  unfoldable pub remove_active_column :
      ScrollingSpace W → Option (Option (Column W) × ScrollingSpace W)
  unfolding remove_column_by_idx
  remove_active_column s =
      if no_columns s.columns
      then some (none, s)
      else remove_column_by_idx s.active_column_idx s >>= λ r. some (some r.0, r.1)

  -- A tile leaves a column that has others.
  abbrev pub without_tile : ℕ → Column W → Column W
  without_tile tile_idx c = record c {
    tiles = erase_idx tile_idx c.tiles;
    active_tile_idx =
        if ltb tile_idx c.active_tile_idx
        then c.active_tile_idx - 1
        else (if tile_idx == c.active_tile_idx && tile_idx == length c.tiles - 1
            then tile_idx - 1
            else c.active_tile_idx);
  }

  unfoldable pub remove_tile_by_idx :
      ℕ → ℕ → ScrollingSpace W → Option (RemovedTile W × ScrollingSpace W)
  unfolding remove_column_by_idx
  remove_tile_by_idx column_idx tile_idx s = do
    c ← get_elem? s.columns column_idx
    tile ← get_elem? c.tiles tile_idx
    let removed : RemovedTile W = record {
      tile = tile;
      width = c.width;
      is_full_width = c.is_full_width;
    }
    (if length c.tiles == 1
        then (remove_column_by_idx column_idx s >>= λ r. some (removed, r.1))
        else some (
          removed,
          record s {
            columns = set s.columns column_idx (without_tile tile_idx c);
            interactive_resize = stop_resize (tile ∷ []) s.interactive_resize;
          },
        ))

  unfoldable pub remove_active_tile :
      ScrollingSpace W → Option (Option (RemovedTile W) × ScrollingSpace W)
  unfolding remove_tile_by_idx
  remove_active_tile s = if no_columns s.columns then some (none, s) else (do
    c ← get_elem? s.columns s.active_column_idx
    (removed, s') ← remove_tile_by_idx s.active_column_idx c.active_tile_idx s
    some (some removed, s'))

  -- The column and the tile of a window.
  abbrev pub locate : ℕ → List (Column W) → Option (ℕ × ℕ)
  locate window columns = do
    col_idx ← position (contains window) columns
    c ← get_elem? columns col_idx
    tile_idx ← position (λ t. t == window) c.tiles
    some (col_idx, tile_idx)

  unfoldable pub remove_tile : ℕ → ScrollingSpace W → Option (RemovedTile W × ScrollingSpace W)
  unfolding remove_tile_by_idx
  remove_tile window s = do
    (col_idx, tile_idx) ← locate window s.columns
    remove_tile_by_idx col_idx tile_idx s
