-- ===== src/Examples/Scrolling.antt =====
-- A column with two windows and one with a single window, for src/layout/scrolling.rs.
use macniri.Base.{ℕ, ◌≡◌, ◌⊎◌, refl, true, false, none, some, List, [], ◌∷◌, arith, inl}
use macniri.Scrolling.Types.{Column, ScrollingSpace, RemovedTile, direction_right}
use macniri.Scrolling.Columns.{add_tile, remove_tile_by_idx}
use macniri.Scrolling.Commands.{move_column_to_index, activate_window}
use macniri.Scrolling.Transfer.{
  consume_or_expel_window_left, consume_or_expel_window_right, consume_into_column,
  swap_window_in_direction,
}
use macniri.Scrolling.Invariant.{IsValid, total}
use macniri.Scrolling.Removal.{TileRemoved, remove_tile_by_idx-TileRemoved}
use macniri.Scrolling.Insertion.{Added, add_tile-Added}
use macniri.Scrolling.Consuming.{Kept, consume_into_column-Kept}
use macniri.Scrolling.Expelling.{
  consume_or_expel_window_left-Kept, consume_or_expel_window_right-Kept,
}
use macniri.Scrolling.Moving.{move_column_to_index-Kept}
use macniri.Scrolling.Focusing.{Preserved}
use macniri.Scrolling.Sequences.{
  Command, move_window_up, consume_or_expel_left, focus_column_right, consume_or_expel_right,
  expel_window, run_commands,
}
use macniri.Scrolling.Swapping.{swap_window_in_direction-Kept}
use macniri.Scrolling.Exchanging.{Focusing}
use macniri.Scrolling.Activating.{activate_window-Focusing}
use macniri.Scrolling.Preserving.{run_commands-Preserved}

-- Widths are numbers here.
abbrev column_of : List ℕ → ℕ → Column ℕ
column_of tiles active = record {
  tiles = tiles;
  active_tile_idx = active;
  width = 100;
  is_full_width = false;
}

-- The window 2 is in focus, and 3 is resized.
abbrev two_columns : ScrollingSpace ℕ
two_columns = record {
  columns = column_of (1 ∷ 2 ∷ []) 1 ∷ column_of (3 ∷ []) 0 ∷ [];
  active_column_idx = 0;
  activate_prev_column_on_removal = false;
  interactive_resize = some 3;
}

two_columns-IsValid : IsValid two_columns
two_columns-IsValid = record {
  sound = record {
    columns = (omega arith, (omega arith, tt));
    resized = λ id e. ground (arith, e);
  };
  in_range = inl (omega arith);
}

remove_tile_by_idx-TileRemoved_example :
    (removed : RemovedTile ℕ) × (s' : ScrollingSpace ℕ) × (remove_tile_by_idx 0 1 two_columns
      ≡ some (removed, s'))
    × TileRemoved 0 1 (column_of (1 ∷ 2 ∷ []) 1) removed two_columns s'
remove_tile_by_idx-TileRemoved_example =
    remove_tile_by_idx-TileRemoved 0 1 two_columns (column_of (1 ∷ 2 ∷ []) 1) two_columns-IsValid
      refl (omega arith)

add_tile-Added_example :
    (s' : ScrollingSpace ℕ) × (add_tile (some 1) 7 true 50 false two_columns ≡ some s')
    × Added 7 true two_columns s'
add_tile-Added_example =
    add_tile-Added 1 7 true 50 false two_columns two_columns-IsValid (omega arith)

consume_into_column-Kept_example :
    (s' : ScrollingSpace ℕ) × (consume_into_column two_columns ≡ some s') × Kept two_columns s'
consume_into_column-Kept_example = consume_into_column-Kept two_columns two_columns-IsValid

consume_or_expel_window_left-Kept_example :
    (s' : ScrollingSpace ℕ) × (consume_or_expel_window_left (some 3) two_columns ≡ some s')
    × Kept two_columns s'
consume_or_expel_window_left-Kept_example =
    consume_or_expel_window_left-Kept (some 3) two_columns two_columns-IsValid (λ n. refl)

consume_or_expel_window_right-Kept_example :
    (s' : ScrollingSpace ℕ) × (consume_or_expel_window_right none two_columns ≡ some s')
    × Kept two_columns s'
consume_or_expel_window_right-Kept_example =
    consume_or_expel_window_right-Kept none two_columns two_columns-IsValid (λ n. refl)

move_column_to_index-Kept_example :
    (s' : ScrollingSpace ℕ) × (move_column_to_index 9 two_columns ≡ some s') × Kept two_columns s'
move_column_to_index-Kept_example = move_column_to_index-Kept 9 two_columns two_columns-IsValid

abbrev some_commands : List Command
some_commands =
    move_window_up ∷ consume_or_expel_left ∷ focus_column_right ∷ consume_or_expel_right
    ∷ expel_window ∷ []

run_commands-Preserved_example :
    (s' : ScrollingSpace ℕ) × (run_commands some_commands two_columns ≡ some s')
    × Preserved two_columns s'
run_commands-Preserved_example =
    run_commands-Preserved some_commands two_columns two_columns-IsValid

swap_window_in_direction-Kept_example :
    (s' : ScrollingSpace ℕ) × (swap_window_in_direction direction_right two_columns ≡ some s')
    × Kept two_columns s'
swap_window_in_direction-Kept_example =
    swap_window_in_direction-Kept direction_right two_columns two_columns-IsValid

activate_window-Focusing_example :
    ((activate_window 3 two_columns ≡ (false, two_columns)) × (total 3 two_columns.columns ≡ 0))
    ⊎ ((s' : ScrollingSpace ℕ) × (activate_window 3 two_columns ≡ (true, s'))
        × Focusing 3 two_columns s')
activate_window-Focusing_example = activate_window-Focusing 3 two_columns two_columns-IsValid

-- The windows 2 and 3 change places, and 2 stays in focus.
swap_window_in_direction_run :
    swap_window_in_direction direction_right two_columns
    ≡ some (record two_columns {
      columns = column_of (1 ∷ 3 ∷ []) 1 ∷ column_of (2 ∷ []) 0 ∷ [];
      active_column_idx = 1;
      interactive_resize = none;
    })
unfolding swap_window_in_direction
swap_window_in_direction_run = refl
