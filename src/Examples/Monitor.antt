-- ===== src/Examples/Monitor.antt =====
-- A space that counts windows, a motion over numbers, and monitors with two or three workspaces for
-- the functions of src/layout/monitor.rs.
use macniri.Base.{
  ℕ, suc, ◌+◌, ◌-◌, ◌≤◌, ◌≡◌, ◌⊎◌, refl, Bool, true, false, none, some, List, [], ◌∷◌, arith, min,
  ltb, leb, ◌==◌, swap_at, if◌then◌else◌,
}
use macniri.Monitor.Types.{Space, Motion, Workspace, Monitor}
use macniri.Monitor.Workspaces.{set_output, update_config}
use macniri.Monitor.Defs.{add_workspace_top, clean_up_workspaces}
use macniri.Monitor.Moves.{
  move_workspace_down, move_workspace_up, move_workspace_to_idx, remove_workspace_by_idx,
  insert_workspace,
}
use macniri.Monitor.Invariant.{IsValid, CleanedUp, clean_up_workspaces-CleanedUp}
use macniri.Monitor.Reordering.{Moved, move_workspace_down-Moved, move_workspace_up-Moved}
use macniri.Monitor.Relocating.{relocate, Relocated, move_workspace_to_idx-Relocated}
use macniri.Monitor.Exchanging.{
  Removed, remove_workspace_by_idx-Removed, Inserted, insert_workspace-Inserted,
}

abbrev pub counting : Space
counting = record {
  OutputId = ℕ;
  output_id = λ o. o;
  output_name = λ o. o;
  matches = λ i o. i == o;
  matches_lem = λ o. ground arith;
  Content = ℕ;
  Tile = Unit;
  empty = 0;
  has_windows = λ n. ltb 0 n;
  has_window = λ w n. ltb w n;
  update = λ n. n;
  add_tile = λ t target a n. suc n;
  remove_active_tile = λ n. if ltb 0 n then some (tt, n - 1) else none;
  empty_lem = refl;
  update_lem = λ n. refl;
  add_tile_lem = λ t target a n. ground arith;
}

abbrev pub still : Motion
still = record {
  F = ℕ;
  Anim = ℕ × ℕ;
  of_ℕ = λ n. n;
  add = λ a b. a + b;
  sub = λ a b. a - b;
  le = leb;
  animation_new = λ a b. (a, b);
  animation_to = λ a. a.1;
  animation_value = λ a. a.0;
  animation_offset = λ n a. (a.0 + n, a.1 + n);
  animation_is_done = λ a. true;
  correction = λ a. none;
  ceil = λ a. a;
  floor = λ a. a;
  clamp_index = λ x n. min x (n - 1);
  clamp_index_lem = λ x n h. omega arith;
}

-- A workspace with `n` windows.
abbrev pub space_of : ℕ → ℕ → Workspace counting
space_of i n = record { id = i; name = none; content = n; output = some 1; original_output = 1 }

abbrev monitor_of : Bool → ℕ → List (Workspace counting) → Monitor counting still
monitor_of above active ws = record {
  output = 1;
  workspaces = ws;
  active_workspace_idx = active;
  previous_workspace_id = none;
  workspace_switch = none;
  empty_workspace_above_first = above;
  next_id = 9;
}

abbrev pub three : Monitor counting still
three = monitor_of false 0 (space_of 5 2 ∷ space_of 6 1 ∷ space_of 7 0 ∷ [])

pub three-IsValid : IsValid three
three-IsValid = record {
  shape = record { in_range = omega arith; last_blank = refl; first_blank = λ e. absurd (cc e) };
  not_two = λ e. absurd (cc e);
  tidy = λ e i a b c. ground arith;
}

abbrev untidy : Monitor counting still
untidy = monitor_of false 0 (space_of 5 2 ∷ space_of 6 0 ∷ space_of 7 1 ∷ space_of 8 0 ∷ [])

clean_up_workspaces-CleanedUp_example :
    (m' : Monitor counting still) × (clean_up_workspaces untidy ≡ some m') × CleanedUp untidy m'
clean_up_workspaces-CleanedUp_example =
    clean_up_workspaces-CleanedUp untidy
      (record { in_range = omega arith; last_blank = refl; first_blank = λ e. absurd (cc e) }) refl

move_workspace_down-Moved_example :
    (m' : Monitor counting still) × (move_workspace_down three ≡ some m')
    × ((three.active_workspace_idx ≡ 2 × m' ≡ three)
        ⊎ ((ws : List (Workspace counting)) × (swap_at 0 1 three.workspaces ≡ some ws)
            × Moved ws three m'))
move_workspace_down-Moved_example = move_workspace_down-Moved three three-IsValid

abbrev three_second : Monitor counting still
three_second = record three { active_workspace_idx = 1 }

three_second-IsValid : IsValid three_second
three_second-IsValid = record {
  shape = record { in_range = omega arith; last_blank = refl; first_blank = λ e. absurd (cc e) };
  not_two = λ e. absurd (cc e);
  tidy = λ e i a b c. ground arith;
}

move_workspace_up-Moved_example :
    (m' : Monitor counting still) × (move_workspace_up three_second ≡ some m')
    × ((three_second.active_workspace_idx ≡ 0 × m' ≡ three_second)
        ⊎ ((ws : List (Workspace counting)) × (swap_at 1 0 three.workspaces ≡ some ws)
            × Moved ws three_second m'))
move_workspace_up-Moved_example = move_workspace_up-Moved three_second three_second-IsValid

move_workspace_to_idx-Relocated_example :
    (m' : Monitor counting still) × (move_workspace_to_idx 0 1 three ≡ some m')
    × (((3 ≤ three.active_workspace_idx ⊎ three.active_workspace_idx ≡ 1) × m' ≡ three)
        ⊎ ((w : Workspace counting) × (some (space_of 5 2) ≡ some w)
            × Relocated (relocate 0 1 w three.workspaces) three m'))
move_workspace_to_idx-Relocated_example = move_workspace_to_idx-Relocated 0 1 three three-IsValid

remove_workspace_by_idx-Removed_example :
    (w : Workspace counting) × (m' : Monitor counting still) × (some (space_of 6 1) ≡ some w)
    × (remove_workspace_by_idx 1 three ≡ some (set_output none w, m'))
    × Removed 1 three m'
remove_workspace_by_idx-Removed_example =
    remove_workspace_by_idx-Removed 1 three three-IsValid (omega arith)

insert_workspace-Inserted_example :
    (m' : Monitor counting still) × (insert_workspace (space_of 4 3) 3 true three ≡ some m')
    × Inserted 2 (update_config (set_output (some 1) (space_of 4 3))) true three m'
insert_workspace-Inserted_example =
    insert_workspace-Inserted (space_of 4 3) 3 true three three-IsValid (omega arith)

-- The focused workspace moves to the top below a new empty one, and the focus stays behind on what
-- was the empty workspace above it.
abbrev above_first : Monitor counting still
above_first = monitor_of true 1 (space_of 5 0 ∷ space_of 6 1 ∷ space_of 7 0 ∷ [])

focus_lost :
    move_workspace_to_idx 1 0 above_first
    ≡ some
        (record (monitor_of true 2
          (space_of 9 0 ∷ space_of 6 1 ∷ space_of 5 0 ∷ space_of 7 0 ∷ [])) { next_id = 10 })
unfolding move_workspace_to_idx add_workspace_top clean_up_workspaces
focus_lost = refl
