-- ===== src/Scrolling/Sequences.antt =====
-- Sequences of the commands of src/layout/scrolling.rs, each for the active window or column.
use macniri.Base.{ℕ, Bool, Option, none, some, List, [], ◌∷◌, ◌>>=◌}
use macniri.Scrolling.Types.{ScrollingSpace, ScrollDirection}
use macniri.Scrolling.Commands.{
  focus_window_in_column, focus_up, focus_down, focus_top, focus_bottom, focus_left, focus_right,
  focus_column, move_up, move_down, move_left, move_right, move_column_to_index, activate_window,
}
use macniri.Scrolling.Transfer.{
  consume_or_expel_window_left, consume_or_expel_window_right, consume_into_column,
  expel_from_column, swap_window_in_direction,
}

-- The actions of the configuration that these commands carry out.
pub data Command : Type 0 where
  focus_column_left focus_column_right : Command
  focus_column_at focus_window_at : ℕ → Command
  focus_window_up focus_window_down focus_window_top focus_window_bottom : Command
  move_column_left move_column_right : Command
  move_column_at : ℕ → Command
  move_window_up move_window_down : Command
  consume_or_expel_left consume_or_expel_right consume_window expel_window : Command
  swap_window : ScrollDirection → Command
  focus_window_with : ℕ → Command

module _ {W : Type 0} where
  -- What a command leaves, without the Boolean that some of them return.
  abbrev pub state : Option (Bool × ScrollingSpace W) → Option (ScrollingSpace W)
  state r = r >>= λ p. some p.1

  unfoldable pub run_command : Command → ScrollingSpace W → Option (ScrollingSpace W)
  unfolding focus_window_in_column focus_up focus_down focus_top focus_bottom focus_left focus_right
      focus_column move_up move_down move_left move_right move_column_to_index
      consume_or_expel_window_left consume_or_expel_window_right consume_into_column
      expel_from_column swap_window_in_direction
  run_command focus_column_left s = some (focus_left s).1
  run_command focus_column_right s = some (focus_right s).1
  run_command (focus_column_at index) s = some (focus_column index s)
  run_command (focus_window_at index) s = state (focus_window_in_column index s)
  run_command focus_window_up s = state (focus_up s)
  run_command focus_window_down s = state (focus_down s)
  run_command focus_window_top s = state (focus_top s)
  run_command focus_window_bottom s = state (focus_bottom s)
  run_command move_column_left s = state (move_left s)
  run_command move_column_right s = state (move_right s)
  run_command (move_column_at index) s = move_column_to_index index s
  run_command move_window_up s = state (move_up s)
  run_command move_window_down s = state (move_down s)
  run_command consume_or_expel_left s = consume_or_expel_window_left none s
  run_command consume_or_expel_right s = consume_or_expel_window_right none s
  run_command consume_window s = consume_into_column s
  run_command expel_window s = expel_from_column s
  run_command (swap_window direction) s = swap_window_in_direction direction s
  run_command (focus_window_with window) s = some (activate_window window s).1

  unfoldable pub run_commands : List Command → ScrollingSpace W → Option (ScrollingSpace W)
  unfolding run_command
  run_commands [] s = some s
  run_commands (c ∷ cs) s = run_command c s >>= run_commands cs
