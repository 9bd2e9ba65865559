-- ===== src/Scrolling/Swapping.antt =====
-- `swap_window_in_direction` of src/layout/scrolling.rs.
use macniri.Base.{
  ℕ, suc, ◌+◌, ◌<◌, ◌≡◌, ◌≢◌, inl, inr, refl, sym, ap, ◌∙◌, Bool, true, false, some, Option, arith,
  ◌==◌, ◌&&◌, ◌||◌, if◌then◌else◌, length, get_elem?, get_elem?-lt, get_elem?-some, get_elem?-set,
  get_elem?-erase_idx, All-get, Bool-cases,
}
use macniri.Scrolling.Types.{
  Column, ScrollingSpace, RemovedTile, ScrollDirection, direction_left, direction_right,
}
use macniri.Scrolling.Columns.{
  no_columns, active_tile, activate_column, add_tile, add_tile_to_column, without_tile,
  remove_tile_by_idx,
}
use macniri.Scrolling.Commands.{move_column_to}
use macniri.Scrolling.Transfer.{
  neighbour, adjusted, at_edge, with_active_tile, exchange, swap_window_in_direction,
}
use macniri.Scrolling.Invariant.{IsValidColumn, IsValid, no_columns_lem}
use macniri.Scrolling.Removal.{TileRemoved, remove_tile_by_idx-TileRemoved}
use macniri.Scrolling.Consuming.{Kept, Kept-refl}
use macniri.Scrolling.Moving.{move_column_to-Kept}
use macniri.Scrolling.Exchanging.{Replaced, replace-Replaced}
use macniri.Scrolling.Placing.{Shifts, Exchanged, place_among, place_alone}

-- The target is the next column in the direction.
abbrev Beside : ScrollDirection → ℕ → ℕ → Type 0
Beside direction_left source target = suc target ≡ source
Beside direction_right source target = target ≡ suc source

adjusted-Shifts :
    (direction : ScrollDirection) (source target : ℕ)
    → Beside direction source target
    → Shifts source target (adjusted direction true target)
adjusted-Shifts direction_left source target h = inl (refl, h)
adjusted-Shifts direction_right source target h = inr (omega (arith, h), h)

adjusted-false :
    (direction : ScrollDirection) (target : ℕ) → adjusted direction false target ≡ target
adjusted-false direction_left target = refl
adjusted-false direction_right target = refl

Beside-apart :
    (direction : ScrollDirection) (source target : ℕ)
    → Beside direction source target
    → source ≢ target
Beside-apart direction_left source target h = omega (arith, h)
Beside-apart direction_right source target h = omega (arith, h)

module _ {W : Type 0} where
  exchange-run :
      (direction : ScrollDirection) (source target to : ℕ) (b : Bool) (cs ct : Column W)
      (s s1 s2 s3 s4 s5 s6 : ScrollingSpace W) (removed other : RemovedTile W)
      → (length cs.tiles == 1) ≡ b
      → adjusted direction b target ≡ to
      → remove_tile_by_idx source cs.active_tile_idx s ≡ some (removed, s1)
      → add_tile_to_column to (some ct.active_tile_idx) removed.tile false s1 ≡ some s2
      → remove_tile_by_idx to (ct.active_tile_idx + 1) s2 ≡ some (other, s3)
      → (if b
          then add_tile (some source) other.tile true removed.width removed.is_full_width s3
          else add_tile_to_column source (some cs.active_tile_idx) other.tile false s3)
        ≡ some s4
      → with_active_tile source cs.active_tile_idx s4 ≡ some s5
      → with_active_tile target ct.active_tile_idx s5 ≡ some s6
      → exchange direction source target cs ct s ≡ some (activate_column target s6)
  unfolding exchange
  exchange-run direction source target to b cs ct s s1 s2 s3 s4 s5 s6 removed other h q r1 r2 r3 r4
        r5 r6 =
      rw (exchange, h, q, r1, r2, r3, r4, r5, r6) refl

  settled-Kept :
      (target to : ℕ) (cs ct : Column W) (s s1 s2 s3 : ScrollingSpace W)
      (r : Option (ScrollingSpace W)) (removed other : RemovedTile W)
      → get_elem? s.columns s.active_column_idx ≡ some cs
      → TileRemoved s.active_column_idx cs.active_tile_idx cs removed s s1
      → Replaced to ct.active_tile_idx removed.tile ct s1 s2 s3 other
      → (x : Exchanged s.active_column_idx target cs ct removed.tile s s3 r other)
      → Kept s (activate_column target x.s6)
  settled-Kept target to cs ct s s1 s2 s3 r removed other e gone here x = record {
    valid = x.after.valid;
    same_windows = λ id.
        omega (arith, x.after.same_windows id, x.counted id, here.counted id, gone.counted id);
    same_focus = x.after.in_focus ∙ sym (ap active_tile e ∙ gone.same_tile);
  }

  exchange-Kept :
      (direction : ScrollDirection) (target : ℕ) (cs ct : Column W) (s : ScrollingSpace W)
      → IsValid s
      → Beside direction s.active_column_idx target
      → get_elem? s.columns s.active_column_idx ≡ some cs
      → get_elem? s.columns target ≡ some ct
      → (s' : ScrollingSpace W) × (exchange direction s.active_column_idx target cs ct s ≡ some s')
        × Kept s s'
  exchange-Kept direction target cs ct s v h e d =
      let source = s.active_column_idx in
      let a = ct.active_tile_idx in
      let sl = get_elem?-some source s.columns {a = cs} e in
      let tl = get_elem?-some target s.columns {a = ct} d in
      let n = Beside-apart direction source target h in
      let vc = All-get IsValidColumn source s.columns {x = cs} v.sound.columns e in
      let vt = All-get IsValidColumn target s.columns {x = ct} v.sound.columns d in
      let (removed, s1, r1, r) =
        remove_tile_by_idx-TileRemoved source cs.active_tile_idx s cs v e vc in
      elim r.remaining [
        | inl (one, p) ↦
            let to = adjusted direction true target in
            let sh = adjusted-Shifts direction source target h in
            let d1 : get_elem? s1.columns to ≡ some ct =
              ap (λ c. get_elem? c to) p
              ∙ ground (arith, sh, d, get_elem?-erase_idx source to s.columns) in
            let (s2, s3, other, w) = replace-Replaced to a removed.tile ct s1 r.valid d1 vt in
            let x =
              place_alone source target to removed.tile cs ct s s1 s3 removed other w.valid sh sl tl
                (omega (arith, one, vc)) vt p w.columns in
            (
              activate_column target x.s6,
              exchange-run direction source target to true cs ct s s1 s2 s3 x.s4 x.s5 x.s6 removed
                  other (ground (arith, one)) refl r1 w.added w.removed x.placed x.pointed_source
                  x.pointed_target,
              settled-Kept target to cs ct s s1 s2 s3 _ removed other e r w x,
            )
        | inr (several, p) ↦
            let cs1 = without_tile cs.active_tile_idx cs in
            let d1 : get_elem? s1.columns target ≡ some ct =
              ap (λ c. get_elem? c target) p
              ∙ ground (arith, n, d, get_elem?-set source target cs1 s.columns sl) in
            let (s2, s3, other, w) = replace-Replaced target a removed.tile ct s1 r.valid d1 vt in
            let x =
              place_among source target removed.tile cs ct s s1 s3 other w.valid n sl tl vc vt p
                w.columns in
            (
              activate_column target x.s6,
              exchange-run direction source target target false cs ct s s1 s2 s3 x.s4 x.s5 x.s6
                  removed other (ground (arith, several)) (adjusted-false direction target) r1
                  w.added w.removed x.placed x.pointed_source x.pointed_target,
              settled-Kept target target cs ct s s1 s2 s3 _ removed other e r w x,
            )
      ]

  neighbour-Beside :
      (direction : ScrollDirection) (s : ScrollingSpace W)
      → s.active_column_idx < length s.columns
      → at_edge direction s ≡ false
      → Beside direction s.active_column_idx (neighbour direction s.active_column_idx)
        × (neighbour direction s.active_column_idx < length s.columns)
  neighbour-Beside direction_left s l h = (ground (arith, h), ground (arith, h, l))
  neighbour-Beside direction_right s l h = (ground (arith, h), ground (arith, h, l))

  swap_window_in_direction-run :
      (direction : ScrollDirection) (s : ScrollingSpace W) (cs ct : Column W)
      → (no_columns s.columns || at_edge direction s) ≡ false
      → get_elem? s.columns s.active_column_idx ≡ some cs
      → get_elem? s.columns (neighbour direction s.active_column_idx) ≡ some ct
      → swap_window_in_direction direction s ≡ (
          if length cs.tiles == 1 && length ct.tiles == 1
          then move_column_to (neighbour direction s.active_column_idx) s
          else exchange direction s.active_column_idx
              (neighbour direction s.active_column_idx)
              cs
              ct
              s)
  unfolding swap_window_in_direction
  swap_window_in_direction-run direction s cs ct b e d = rw (swap_window_in_direction, b, e, d) refl

  -- In a valid space `swap_window_in_direction` does not panic: the result is valid, with the same windows
  -- and the same one in focus.
  pub swap_window_in_direction-Kept :
      (direction : ScrollDirection) (s : ScrollingSpace W)
      → IsValid s
      → (s' : ScrollingSpace W) × (swap_window_in_direction direction s ≡ some s') × Kept s s'
  unfolding swap_window_in_direction
  swap_window_in_direction-Kept direction s v =
      elim (Bool-cases (no_columns s.columns || at_edge direction s)) [
        | inl t ↦ (s, rw t refl, Kept-refl s v)
        | inr t ↦
            let source = s.active_column_idx in
            let target = neighbour direction source in
            let (full, edge) : (no_columns s.columns ≡ false) × (at_edge direction s ≡ false) =
              (ground (arith, t), ground (arith, t)) in
            let sl : source < length s.columns =
              ground (arith, no_columns_lem s.columns full, v.in_range) in
            let (h, tl) = neighbour-Beside direction s sl edge in
            let (cs, e) = get_elem?-lt s.columns source sl in
            let (ct, d) = get_elem?-lt s.columns target tl in
            let run = swap_window_in_direction-run direction s cs ct t e d in
            elim (Bool-cases (length cs.tiles == 1 && length ct.tiles == 1)) [
              | inl one ↦
                  let (s', run', k) = move_column_to-Kept target s v tl in
                  (s', run ∙ rw one run', k)
              | inr more ↦
                  let (s', run', k) = exchange-Kept direction target cs ct s v h e d in
                  (s', run ∙ rw more run', k)
            ]
      ]
