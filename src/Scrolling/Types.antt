-- ===== src/Scrolling/Types.antt =====
-- The state of src/layout/scrolling.rs. A tile is the id of its window. Positions, sizes, animations, the
-- view offset and display modes are not modelled; `W` is the type of column widths, which are only passed on.
use macniri.Base.{ℕ, Bool, Option, List}

pub record Column (W : Type 0) : Type 0 where
  pub tiles : List ℕ
  pub active_tile_idx : ℕ
  pub width : W
  pub is_full_width : Bool

-- `activate_prev_column_on_removal` says whether the field is set: its value is a view offset.
-- `interactive_resize` is the window that is resized.
pub record ScrollingSpace (W : Type 0) : Type 0 where
  pub columns : List (Column W)
  pub active_column_idx : ℕ
  pub activate_prev_column_on_removal : Bool
  pub interactive_resize : Option ℕ

pub record RemovedTile (W : Type 0) : Type 0 where
  pub tile : ℕ
  pub width : W
  pub is_full_width : Bool

pub data ScrollDirection : Type 0 where
  direction_left direction_right : ScrollDirection
