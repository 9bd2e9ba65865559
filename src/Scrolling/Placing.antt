-- ===== src/Scrolling/Placing.antt =====
-- The last steps of `swap_window_in_direction` of src/layout/scrolling.rs: the other window goes into the
-- source column, or into a new one.
use macniri.Base.{
  ℕ, suc, ◌+◌, ◌≤◌, ◌<◌, ◌≡◌, ◌≢◌, ◌⊎◌, [], ◌∷◌, refl, ap, ◌∙◌, true, false, some, Option, arith,
  leb, length, get_elem?, get_elem?-some, get_elem?-set, get_elem?-insert_at, length-insert_at,
  length-erase_idx, length-set, set, insert_at, erase_idx,
}
use macniri.Scrolling.Types.{Column, ScrollingSpace, RemovedTile}
use macniri.Scrolling.Columns.{
  no_columns, activate_column, new_with_tile, settle_added, add_column, add_tile, with_tile,
  add_tile_to_column, without_tile,
}
use macniri.Scrolling.Transfer.{with_active_tile}
use macniri.Scrolling.Invariant.{count, total, IsValidColumn, IsValid, activate_column-columns}
use macniri.Scrolling.Insertion.{tiled-Added, settle_added-Added}
use macniri.Scrolling.Exchanging.{
  Focusing, point_both, add_tile_to_column-run, replaced, replaced-here,
}

-- Where the target is before and after the drained column at `source` has gone.
abbrev pub Shifts : ℕ → ℕ → ℕ → Type 0
Shifts source target to =
    ((to ≡ target) × (suc target ≡ source)) ⊎ ((to ≡ source) × (target ≡ suc source))

module _ {W : Type 0} where
  -- The other window in the place of the active one, and both columns pointed.
  pub record Exchanged (source target : ℕ) (cs ct : Column W) (t : ℕ) (s s3 : ScrollingSpace W)
      (r : Option (ScrollingSpace W)) (other : RemovedTile W) : Type 0 where
    pub s4 : ScrollingSpace W
    pub s5 : ScrollingSpace W
    pub s6 : ScrollingSpace W
    pub placed : r ≡ some s4
    pub pointed_source : with_active_tile source cs.active_tile_idx s4 ≡ some s5
    pub pointed_target : with_active_tile target ct.active_tile_idx s5 ≡ some s6
    pub counted : (id : ℕ) → total id s4.columns ≡ total id s3.columns + count id (other.tile ∷ [])
    pub after : Focusing t s4 (activate_column target s6)

  -- A column that keeps other windows gets the other one.
  pub place_among :
      (source target t : ℕ) (cs ct : Column W) (s s1 s3 : ScrollingSpace W) (other : RemovedTile W)
      → IsValid s3
      → source ≢ target
      → source < length s.columns
      → target < length s.columns
      → IsValidColumn cs
      → IsValidColumn ct
      → s1.columns ≡ set s.columns source (without_tile cs.active_tile_idx cs)
      → s3.columns
        ≡ set
            (set s1.columns target (with_tile ct.active_tile_idx t false ct))
            target
            (replaced ct.active_tile_idx t ct)
      → Exchanged source target cs ct t s s3
          (add_tile_to_column source (some cs.active_tile_idx) other.tile false s3)
          other
  place_among source target t cs ct s s1 s3 other v n sl tl vc vt p q =
      let a = ct.active_tile_idx in
      let cs1 = without_tile cs.active_tile_idx cs in
      let mid = with_tile a t false ct in
      let ct3 = replaced a t ct in
      let l1 : length s1.columns ≡ length s.columns =
        ap length p ∙ length-set s.columns source cs1 in
      let l2 = length-set s1.columns target mid in
      let at1 : get_elem? s1.columns source ≡ some cs1 =
        ap (λ c. get_elem? c source) p
        ∙ ground (arith, get_elem?-set source source cs1 s.columns sl) in
      let e3 : get_elem? s3.columns source ≡ some cs1 =
        ap (λ c. get_elem? c source) q
        ∙ ground (
          arith,
          n,
          at1,
          get_elem?-set target source ct3 (set s1.columns target mid) (omega (arith, l1, l2, tl)),
          get_elem?-set target source mid s1.columns (omega (arith, l1, tl)),
        ) in
      let d3 : get_elem? s3.columns target ≡ some ct3 =
        ap (λ c. get_elem? c target) q
        ∙ ground (
          arith,
          get_elem?-set target target ct3 (set s1.columns target mid) (omega (arith, l1, l2, tl)),
        ) in
      let len = length-erase_idx cs.active_tile_idx cs.tiles vc in
      let fits : cs.active_tile_idx ≤ length cs1.tiles = omega (arith, len, vc) in
      let cs4 = with_tile cs.active_tile_idx other.tile false cs1 in
      let s4 : ScrollingSpace W = record s3 { columns = set s3.columns source cs4 } in
      let added = tiled-Added source cs.active_tile_idx other.tile false s3 cs1 v e3 fits in
      let sl3 = get_elem?-some source s3.columns {a = cs1} e3 in
      let e4 : get_elem? s4.columns source ≡ some cs4 =
        ground (arith, get_elem?-set source source cs4 s3.columns sl3) in
      let d4 : get_elem? s4.columns target ≡ some ct3 =
        ground (arith, n, d3, get_elem?-set source target cs4 s3.columns sl3) in
      let len4 = length-insert_at cs.active_tile_idx other.tile cs1.tiles in
      let (s5, s6, r5, r6, f) =
        point_both source target cs.active_tile_idx a t cs4 ct3 s4 added.valid.sound n e4
          (omega (arith, len4, len, vc)) d4 (replaced-here a t ct vt) in
      record {
        s4 = s4;
        s5 = s5;
        s6 = s6;
        placed =
            add_tile_to_column-run source cs.active_tile_idx other.tile s3 cs1 e3
              (ground (arith, fits));
        pointed_source = r5;
        pointed_target = r6;
        counted = added.counted;
        after = f;
      }

  -- A new column takes the place of the one that has gone.
  pub place_alone :
      (source target to t : ℕ) (cs ct : Column W) (s s1 s3 : ScrollingSpace W)
      (removed other : RemovedTile W)
      → IsValid s3
      → Shifts source target to
      → source < length s.columns
      → target < length s.columns
      → cs.active_tile_idx ≡ 0
      → IsValidColumn ct
      → s1.columns ≡ erase_idx source s.columns
      → s3.columns
        ≡ set
            (set s1.columns to (with_tile ct.active_tile_idx t false ct))
            to
            (replaced ct.active_tile_idx t ct)
      → Exchanged source target cs ct t s s3
          (add_tile (some source) other.tile true removed.width removed.is_full_width s3)
          other
  unfolding add_tile
  place_alone source target to t cs ct s s1 s3 removed other v sh sl tl z vt p q =
      let a = ct.active_tile_idx in
      let mid = with_tile a t false ct in
      let ct3 = replaced a t ct in
      let new : Column W = new_with_tile other.tile removed.width removed.is_full_width in
      let l1 : suc (length s1.columns) ≡ length s.columns =
        ap (λ c. suc (length c)) p ∙ length-erase_idx source s.columns sl in
      let l2 = length-set s1.columns to mid in
      let l3 : length s3.columns ≡ length s1.columns =
        ap length q ∙ (length-set (set s1.columns to mid) to ct3 ∙ l2) in
      let tol : to < length s1.columns = ground (arith, sh, l1, sl, tl) in
      let d3 : get_elem? s3.columns to ≡ some ct3 =
        ap (λ c. get_elem? c to) q
        ∙ ground
            (arith, get_elem?-set to to ct3 (set s1.columns to mid) (omega (arith, l2, tol))) in
      let fits : source ≤ length s3.columns = omega (arith, l3, l1, sl) in
      let wide : ScrollingSpace W = record s3 { columns = insert_at source new s3.columns } in
      let s4 : ScrollingSpace W = settle_added source true (no_columns s3.columns) wide in
      let added =
        settle_added-Added source other.tile true removed.width removed.is_full_width s3 v fits in
      let same : s4.columns ≡ insert_at source new s3.columns =
        activate_column-columns source wide in
      let e4 : get_elem? s4.columns source ≡ some new =
        ap (λ c. get_elem? c source) same
        ∙ ground (arith, get_elem?-insert_at source source new s3.columns fits) in
      let d4 : get_elem? s4.columns target ≡ some ct3 =
        ap (λ c. get_elem? c target) same
        ∙ ground (arith, sh, d3, get_elem?-insert_at source target new s3.columns fits) in
      let (s5, s6, r5, r6, f) =
        point_both source target cs.active_tile_idx a t new ct3 s4 added.valid.sound
          (ground (arith, sh)) e4 (omega (arith, z)) d4 (replaced-here a t ct vt) in
      let ok : leb source (length s3.columns) ≡ true = ground (arith, fits) in
      record {
        s4 = s4;
        s5 = s5;
        s6 = s6;
        placed = rw (add_column, ok) refl;
        pointed_source = r5;
        pointed_target = r6;
        counted = added.counted;
        after = f;
      }
