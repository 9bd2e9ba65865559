-- ===== src/Scrolling/Preserving.antt =====
-- What sequences of the commands of src/layout/scrolling.rs keep.
use macniri.Base.{
  ℕ, ◌+◌, ◌-◌, ◌≤◌, ◌<◌, ◌≡◌, ◌≢◌, inl, inr, refl, ap, ◌∙◌, Bool, true, false, Option, none, some,
  List, [], ◌∷◌, arith, ◌==◌, leb, length, get_elem?, get_elem?-lt, get_elem?-some, min, is_some,
  All-get, Bool-cases,
}
use macniri.Scrolling.Types.{Column, ScrollingSpace}
use macniri.Scrolling.Columns.{no_columns}
use macniri.Scrolling.Commands.{
  activate_idx, on_active, swap_active, focus_window_in_column, focus_up, focus_down, focus_top,
  focus_bottom, focus_left, focus_right, focus_column, move_up, move_down, move_left, move_right,
  move_column_to_index,
}
use macniri.Scrolling.Transfer.{
  source_tile, expel_to, consume_or_expel_window_left, consume_or_expel_window_right,
  consume_into_column, expel_from_column, swap_window_in_direction,
}
use macniri.Scrolling.Invariant.{IsValidColumn, IsValid, no_columns_lem}
use macniri.Scrolling.Removal.{remove_tile_by_idx-TileRemoved}
use macniri.Scrolling.Insertion.{add_tile-Added}
use macniri.Scrolling.Consuming.{Kept, remaining_length, consume_into_column-Kept}
use macniri.Scrolling.Expelling.{
  consume_or_expel_window_left-Kept, consume_or_expel_window_right-Kept,
}
use macniri.Scrolling.Moving.{move_column_to-Kept, move_column_to_index-Kept}
use macniri.Scrolling.Focusing.{
  Preserved, Preserved-refl, on_active-Preserved, activate_idx-Rearranged, swap_active-Rearranged,
  focus_left-Preserved, focus_right-Preserved, focus_column-Preserved,
}
use macniri.Scrolling.Activating.{activate_window-Focusing}
use macniri.Scrolling.Swapping.{swap_window_in_direction-Kept}
use macniri.Scrolling.Sequences.{
  Command, focus_column_left, focus_column_right, focus_column_at, focus_window_at, focus_window_up,
  focus_window_down, focus_window_top, focus_window_bottom, move_column_left, move_column_right,
  move_column_at, move_window_up, move_window_down, consume_or_expel_left, consume_or_expel_right,
  consume_window, expel_window, swap_window, focus_window_with, state, run_command, run_commands,
}

module _ {W : Type 0} where
  -- The result of a command that does not panic.
  abbrev Runs : Option (ScrollingSpace W) → ScrollingSpace W → Type 0
  Runs r s = (s' : ScrollingSpace W) × (r ≡ some s') × Preserved s s'

  state-Runs :
      (r : Option (Bool × ScrollingSpace W)) (s : ScrollingSpace W)
      → (b : Bool) × (s' : ScrollingSpace W) × (r ≡ some (b, s')) × Preserved s s'
      → Runs (state r) s
  state-Runs r s (b, s', e, k) = (s', rw e refl, k)

  Kept-Runs :
      (r : Option (ScrollingSpace W)) (s : ScrollingSpace W)
      → (s' : ScrollingSpace W) × (r ≡ some s') × Kept s s'
      → Runs r s
  Kept-Runs r s (s', e, k) = (s', e, record { valid = k.valid; same_windows = k.same_windows })

  focused-Runs :
      (g : Column W → ℕ) (s : ScrollingSpace W)
      → IsValid s
      → ((c : Column W) → IsValidColumn c → g c < length c.tiles)
      → (b : Bool) × (s' : ScrollingSpace W) × (on_active (λ c. some (activate_idx (g c) c)) s
          ≡ some (b, s'))
        × Preserved s s'
  focused-Runs g s v h =
      on_active-Preserved (λ c. some (activate_idx (g c) c)) s v
        (λ c vc. (_, _, refl, activate_idx-Rearranged (g c) c (h c vc)))

  swapped-Runs :
      (g : Column W → ℕ) (s : ScrollingSpace W)
      → IsValid s
      → ((c : Column W) → IsValidColumn c → g c < length c.tiles)
      → (b : Bool) × (s' : ScrollingSpace W) × (on_active (λ c. swap_active (g c) c) s
          ≡ some (b, s'))
        × Preserved s s'
  swapped-Runs g s v h =
      on_active-Preserved (λ c. swap_active (g c) c) s v
        (λ c vc. swap_active-Rearranged (g c) c (h c vc) vc)

  active-there :
      (s : ScrollingSpace W)
      → IsValid s
      → no_columns s.columns ≡ false
      → is_some (source_tile none s) ≡ true
  active-there s v n =
      let a : s.active_column_idx < length s.columns =
        ground (arith, no_columns_lem s.columns n, v.in_range) in
      let (c, e) = get_elem?-lt s.columns s.active_column_idx a in rw e refl

  move_left-Runs : (s : ScrollingSpace W) → IsValid s → Runs (state (move_left s)) s
  unfolding move_left
  move_left-Runs s v = elim (Bool-cases (s.active_column_idx == 0)) [
    | inl t ↦ (s, rw t refl, Preserved-refl s v)
    | inr t ↦
        let (s', run, k) =
          move_column_to-Kept (s.active_column_idx - 1) s v (ground (arith, t, v.in_range)) in
        (s', rw (t, run) refl, record { valid = k.valid; same_windows = k.same_windows })
  ]

  move_right-Runs : (s : ScrollingSpace W) → IsValid s → Runs (state (move_right s)) s
  unfolding move_right
  move_right-Runs s v = elim (Bool-cases (leb (length s.columns) (s.active_column_idx + 1))) [
    | inl t ↦ (s, rw t refl, Preserved-refl s v)
    | inr t ↦
        let (s', run, k) = move_column_to-Kept (s.active_column_idx + 1) s v (ground (arith, t)) in
        (s', rw (t, run) refl, record { valid = k.valid; same_windows = k.same_windows })
  ]

  expel_to-Runs :
      (col idx target : ℕ) (s : ScrollingSpace W) (c : Column W)
      → IsValid s
      → get_elem? s.columns col ≡ some c
      → idx < length c.tiles
      → length c.tiles ≢ 1
      → target ≤ length s.columns
      → Runs (expel_to col idx target false s) s
  unfolding expel_to
  expel_to-Runs col idx target s c v e i n l =
      let (removed, s1, run1, r) = remove_tile_by_idx-TileRemoved col idx s c v e i in
      let len =
        remaining_length col idx c removed s s1 (get_elem?-some col s.columns {a = c} e) r in
      let (s', run2, a) =
        add_tile-Added target removed.tile false removed.width removed.is_full_width s1 r.valid
          (omega (arith, len, l, n)) in
      (
        s',
        rw (expel_to, run1) run2,
        record { valid = a.valid; same_windows = λ id. omega (arith, a.counted id, r.counted id) },
      )

  expel_from_column-run :
      (s : ScrollingSpace W) (c : Column W)
      → no_columns s.columns ≡ false
      → get_elem? s.columns s.active_column_idx ≡ some c
      → (length c.tiles == 1) ≡ false
      → expel_from_column s
        ≡ expel_to s.active_column_idx (length c.tiles - 1) (s.active_column_idx + 1) false s
  unfolding expel_from_column
  expel_from_column-run s c n e t = rw (n, e, t) refl

  expel_from_column-Runs : (s : ScrollingSpace W) → IsValid s → Runs (expel_from_column s) s
  unfolding expel_from_column
  expel_from_column-Runs s v = elim (Bool-cases (no_columns s.columns)) [
    | inl n ↦ (s, rw n refl, Preserved-refl s v)
    | inr n ↦
        let a : s.active_column_idx < length s.columns =
          ground (arith, no_columns_lem s.columns n, v.in_range) in
        let (c, e) = get_elem?-lt s.columns s.active_column_idx a in
        let vc = All-get IsValidColumn s.active_column_idx s.columns {x = c} v.sound.columns e in
        elim (Bool-cases (length c.tiles == 1)) [
          | inl t ↦ (s, rw (n, e, t) refl, Preserved-refl s v)
          | inr t ↦
              let (s', run, k) =
                expel_to-Runs s.active_column_idx (length c.tiles - 1) (s.active_column_idx + 1) s c
                  v e (omega (arith, vc)) (ground (arith, t)) (omega (arith, a)) in
              (s', expel_from_column-run s c n e t ∙ run, k)
        ]
  ]

  run_command-Runs : (c : Command) (s : ScrollingSpace W) → IsValid s → Runs (run_command c s) s
  unfolding run_command focus_window_in_column focus_up focus_down focus_top focus_bottom move_up
      move_down
  run_command-Runs focus_column_left s v = ((focus_left s).1, refl, focus_left-Preserved s v)
  run_command-Runs focus_column_right s v = ((focus_right s).1, refl, focus_right-Preserved s v)
  run_command-Runs (focus_column_at index) s v =
      (focus_column index s, refl, focus_column-Preserved index s v)
  run_command-Runs (focus_window_at index) s v =
      state-Runs (focus_window_in_column index s) s
        (focused-Runs (λ c. min (index - 1) (length c.tiles - 1)) s v (λ c vc. omega (arith, vc)))
  run_command-Runs focus_window_up s v =
      state-Runs (focus_up s) s
        (focused-Runs (λ c. c.active_tile_idx - 1) s v (λ c vc. omega (arith, vc)))
  run_command-Runs focus_window_down s v = state-Runs (focus_down s) s (
      focused-Runs (λ c. min (c.active_tile_idx + 1) (length c.tiles - 1)) s v
        (λ c vc. omega (arith, vc)))
  run_command-Runs focus_window_top s v =
      state-Runs (focus_top s) s (focused-Runs (λ c. 0) s v (λ c vc. omega (arith, vc)))
  run_command-Runs focus_window_bottom s v =
      state-Runs (focus_bottom s) s
        (focused-Runs (λ c. length c.tiles - 1) s v (λ c vc. omega (arith, vc)))
  run_command-Runs move_column_left s v = move_left-Runs s v
  run_command-Runs move_column_right s v = move_right-Runs s v
  run_command-Runs (move_column_at index) s v =
      Kept-Runs (move_column_to_index index s) s (move_column_to_index-Kept index s v)
  run_command-Runs move_window_up s v =
      state-Runs (move_up s) s
        (swapped-Runs (λ c. c.active_tile_idx - 1) s v (λ c vc. omega (arith, vc)))
  run_command-Runs move_window_down s v = state-Runs (move_down s) s (
      swapped-Runs (λ c. min (c.active_tile_idx + 1) (length c.tiles - 1)) s v
        (λ c vc. omega (arith, vc)))
  run_command-Runs consume_or_expel_left s v =
      Kept-Runs (consume_or_expel_window_left none s) s
        (consume_or_expel_window_left-Kept none s v (active-there s v))
  run_command-Runs consume_or_expel_right s v =
      Kept-Runs (consume_or_expel_window_right none s) s
        (consume_or_expel_window_right-Kept none s v (active-there s v))
  run_command-Runs consume_window s v =
      Kept-Runs (consume_into_column s) s (consume_into_column-Kept s v)
  run_command-Runs expel_window s v = expel_from_column-Runs s v
  run_command-Runs (swap_window direction) s v =
      Kept-Runs (swap_window_in_direction direction s) s
        (swap_window_in_direction-Kept direction s v)
  run_command-Runs (focus_window_with window) s v = elim (activate_window-Focusing window s v) [
    | inl (e, z) ↦ (s, ap (λ r. some r.1) e, Preserved-refl s v)
    | inr (s', e, k) ↦
        (s', ap (λ r. some r.1) e, record { valid = k.valid; same_windows = k.same_windows })
  ]

  -- In a valid space no sequence of focus, move, consume, expel and swap commands panics: it leaves a valid
  -- space with the same windows.
  pub run_commands-Preserved :
      (cs : List Command) (s : ScrollingSpace W)
      → IsValid s
      → (s' : ScrollingSpace W) × (run_commands cs s ≡ some s') × Preserved s s'
  unfolding run_commands
  run_commands-Preserved [] s v = (s, refl, Preserved-refl s v)
  run_commands-Preserved (c ∷ cs) s v =
      let (s1, e, k) = run_command-Runs c s v in
      let (s', e', k') = run_commands-Preserved cs s1 k.valid in
      (
        s',
        rw e e',
        record { valid = k'.valid; same_windows = λ id. k'.same_windows id ∙ k.same_windows id },
      )
