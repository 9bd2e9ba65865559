-- ===== src/Scrolling/Moving.antt =====
-- The moves of the active column, src/layout/scrolling.rs.
use macniri.Base.{
  ℕ, ◌-◌, ◌<◌, ◌≡◌, inl, inr, refl, sym, ap, ◌∙◌, true, false, some, arith, ◌==◌, ltb, length,
  get_elem?, get_elem?-lt, insert_at, erase_idx, min, All-get, All-erase_idx, All-insert_at,
  Bool-cases, length-erase_idx, length-insert_at,
}
use macniri.Scrolling.Types.{Column, ScrollingSpace}
use macniri.Scrolling.Columns.{no_columns, active_tile, focused, stop_resize, activate_column}
use macniri.Scrolling.Commands.{move_column_to, move_column_to_index}
use macniri.Scrolling.Invariant.{
  total, total-insert_at, total-erase_idx, IsValidColumn, IsSound, IsValid, activate_column-IsValid,
  activate_column-active, activate_column-columns, no_columns_lem,
}
use macniri.Scrolling.Removal.{stop_resize_lem}
use macniri.Scrolling.Insertion.{focused-insert_at}
use macniri.Scrolling.Consuming.{Kept, Kept-refl}

module _ {W : Type 0} where
  abbrev moved : ℕ → Column W → ScrollingSpace W → ScrollingSpace W
  moved new_idx c s = record s {
    columns = insert_at new_idx c (erase_idx s.active_column_idx s.columns);
    interactive_resize = stop_resize c.tiles s.interactive_resize;
  }

  move_column_to-moved :
      (new_idx : ℕ) (s : ScrollingSpace W) (c : Column W)
      → (s.active_column_idx == new_idx) ≡ false
      → get_elem? s.columns s.active_column_idx ≡ some c
      → ltb new_idx (length s.columns) ≡ true
      → move_column_to new_idx s ≡ some (activate_column new_idx (moved new_idx c s))
  unfolding move_column_to
  move_column_to-moved new_idx s c n e l = rw (n, e, l) refl

  moved-Kept :
      (new_idx : ℕ) (s : ScrollingSpace W) (c : Column W)
      → IsValid s
      → get_elem? s.columns s.active_column_idx ≡ some c
      → s.active_column_idx < length s.columns
      → new_idx < length s.columns
      → Kept s (activate_column new_idx (moved new_idx c s))
  moved-Kept new_idx s c v e a l =
      let rest = erase_idx s.active_column_idx s.columns in
      let s1 = moved new_idx c s in
      let short = length-erase_idx s.active_column_idx s.columns a in
      let len = length-insert_at new_idx c rest in
      let ct : (id : ℕ) → total id s1.columns ≡ total id s.columns = λ id. omega (
        arith,
        total-insert_at id new_idx c rest,
        total-erase_idx id s.active_column_idx s.columns {c = c} e,
      ) in
      let vc = All-get IsValidColumn s.active_column_idx s.columns {x = c} v.sound.columns e in
      let sound : IsSound s1 = record {
        columns =
            All-insert_at IsValidColumn new_idx c rest
              (All-erase_idx IsValidColumn s.active_column_idx s.columns v.sound.columns) vc;
        resized = λ id q.
            let (r, z) = stop_resize_lem c.tiles s.interactive_resize id q in
            omega (arith, v.sound.resized id r, ct id);
      } in
      let same = activate_column-columns new_idx s1 in
      record {
        valid = activate_column-IsValid new_idx s1 (omega (arith, len, short, l)) sound;
        same_windows = λ id. ap (total id) same ∙ ct id;
        same_focus =
            ap (λ i. focused i (activate_column new_idx s1).columns)
              (activate_column-active new_idx s1)
            ∙ (ap (focused new_idx) same
                ∙ (focused-insert_at new_idx c rest (omega (arith, short, l))
                    ∙ sym (ap active_tile e)));
      }

  -- In a valid space `move_column_to` an index below the number of columns does not panic: the result is
  -- valid, with the same windows and the same one in focus.
  pub move_column_to-Kept :
      (new_idx : ℕ) (s : ScrollingSpace W)
      → IsValid s
      → new_idx < length s.columns
      → (s' : ScrollingSpace W) × (move_column_to new_idx s ≡ some s') × Kept s s'
  unfolding move_column_to
  move_column_to-Kept new_idx s v l = elim (Bool-cases (s.active_column_idx == new_idx)) [
    | inl t ↦ (s, rw t refl, Kept-refl s v)
    | inr t ↦
        let a : s.active_column_idx < length s.columns = ground (arith, l, v.in_range) in
        let (c, e) = get_elem?-lt s.columns s.active_column_idx a in
        (
          activate_column new_idx (moved new_idx c s),
          move_column_to-moved new_idx s c t e (ground (arith, l)),
          moved-Kept new_idx s c v e a l,
        )
  ]

  -- In a valid space `move_column_to_index` does not panic, whatever the index: the result is valid, with
  -- the same windows and the same one in focus.
  pub move_column_to_index-Kept :
      (index : ℕ) (s : ScrollingSpace W)
      → IsValid s
      → (s' : ScrollingSpace W) × (move_column_to_index index s ≡ some s') × Kept s s'
  unfolding move_column_to_index
  move_column_to_index-Kept index s v = elim (Bool-cases (no_columns s.columns)) [
    | inl n ↦ (s, rw n refl, Kept-refl s v)
    | inr n ↦
        let z = no_columns_lem s.columns n in
        let (s', run, k) =
          move_column_to-Kept (min (index - 1) (length s.columns - 1)) s v (omega (arith, z)) in
        (s', rw n run, k)
  ]
