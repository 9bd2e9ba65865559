-- ===== src/Scrolling/Exchanging.antt =====
-- The steps of `swap_window_in_direction` of src/layout/scrolling.rs.
use macniri.Base.{
  ℕ, ◌+◌, ◌<◌, ◌≡◌, ◌≢◌, [], ◌∷◌, inl, inr, refl, ap, ◌∙◌, true, false, some, arith, leb, length,
  get_elem?, get_elem?-some, get_elem?-set, get_elem?-insert_at, get_elem?-erase_idx,
  length-insert_at, length-set, set, insert_at, All-set,
}
use macniri.Scrolling.Types.{Column, ScrollingSpace, RemovedTile}
use macniri.Scrolling.Columns.{
  active_tile, focused, active_window, activate_column, with_tile, add_tile_to_column, without_tile,
  remove_tile_by_idx,
}
use macniri.Scrolling.Transfer.{with_active_tile}
use macniri.Scrolling.Invariant.{
  count, total, total-set, IsValidColumn, IsSound, IsValid, activate_column-IsValid,
  activate_column-columns, activate_column-active,
}
use macniri.Scrolling.Removal.{remove_tile_by_idx-TileRemoved}
use macniri.Scrolling.Insertion.{tiled-Added}

module _ {W : Type 0} where
  abbrev pub pointed : ℕ → ℕ → Column W → ScrollingSpace W → ScrollingSpace W
  pointed col idx c s = record s {
    columns = set s.columns col (record c { active_tile_idx = idx });
  }

  with_active_tile-run :
      (col idx : ℕ) (c : Column W) (s : ScrollingSpace W)
      → get_elem? s.columns col ≡ some c
      → with_active_tile col idx s ≡ some (pointed col idx c s)
  with_active_tile-run col idx c s e = rw (with_active_tile, e) refl

  pub pointed-total :
      (col idx : ℕ) (c : Column W) (s : ScrollingSpace W)
      → get_elem? s.columns col ≡ some c
      → (id : ℕ) → total id (pointed col idx c s).columns ≡ total id s.columns
  pointed-total col idx c s e id =
      omega (arith, total-set id col (record c { active_tile_idx = idx }) s.columns {c = c} e)

  pub pointed-IsSound :
      (col idx : ℕ) (c : Column W) (s : ScrollingSpace W)
      → get_elem? s.columns col ≡ some c
      → idx < length c.tiles
      → IsSound s
      → IsSound (pointed col idx c s)
  pointed-IsSound col idx c s e l h = record {
    columns = All-set IsValidColumn col (record c { active_tile_idx = idx }) s.columns h.columns l;
    resized = λ id q. omega (arith, h.resized id q, pointed-total col idx c s e id);
  }

  -- A valid space with as many of each window, and a window in focus.
  pub record Focusing (t : ℕ) (s s' : ScrollingSpace W) : Type 0 where
    pub valid : IsValid s'
    pub same_windows : (id : ℕ) → total id s'.columns ≡ total id s.columns
    pub in_focus : active_window s' ≡ some t

  -- The end of the function: both columns get their active tile, and the target becomes active.
  pub point_both :
      (source target i a t : ℕ) (cs ct : Column W) (s : ScrollingSpace W)
      → IsSound s
      → source ≢ target
      → get_elem? s.columns source ≡ some cs
      → i < length cs.tiles
      → get_elem? s.columns target ≡ some ct
      → get_elem? ct.tiles a ≡ some t
      → (s5 s6 : ScrollingSpace W) × (with_active_tile source i s ≡ some s5)
        × (with_active_tile target a s5 ≡ some s6)
        × Focusing t s (activate_column target s6)
  point_both source target i a t cs ct s v n e il d at =
      let al = get_elem?-some a ct.tiles {a = t} at in
      let sl = get_elem?-some source s.columns {a = cs} e in
      let tl = get_elem?-some target s.columns {a = ct} d in
      let s5 = pointed source i cs s in
      let ct' : Column W = record ct { active_tile_idx = a } in
      let d5 : get_elem? s5.columns target ≡ some ct = ground (
        arith,
        n,
        d,
        get_elem?-set source target (record cs { active_tile_idx = i }) s.columns sl,
      ) in
      let s6 = pointed target a ct s5 in
      let sound = pointed-IsSound target a ct s5 d5 al (pointed-IsSound source i cs s e il v) in
      let tl5 = get_elem?-some target s5.columns {a = ct} d5 in
      let here : get_elem? s6.columns target ≡ some ct' =
        ground (arith, get_elem?-set target target ct' s5.columns tl5) in
      let same = activate_column-columns target s6 in
      (
        s5,
        s6,
        with_active_tile-run source i cs s e,
        with_active_tile-run target a ct s5 d5,
        record {
          valid =
              activate_column-IsValid target s6
                (omega (arith, tl5, length-set s5.columns target ct')) sound;
          same_windows = λ id.
              ap (total id) same
              ∙ (pointed-total target a ct s5 d5 id ∙ pointed-total source i cs s e id);
          in_focus =
              ap (λ k. focused k (activate_column target s6).columns)
                (activate_column-active target s6)
              ∙ (ap (focused target) same ∙ (ap active_tile here ∙ at));
        },
      )

  pub add_tile_to_column-run :
      (col at tile : ℕ) (s : ScrollingSpace W) (c : Column W)
      → get_elem? s.columns col ≡ some c
      → leb at (length c.tiles) ≡ true
      → add_tile_to_column col (some at) tile false s
        ≡ some (record s { columns = set s.columns col (with_tile at tile false c) })
  unfolding add_tile_to_column
  add_tile_to_column-run col at tile s c e l = rw (add_tile_to_column, e, l) refl

  -- A tile in the place of another one, which was there.
  abbrev pub replaced : ℕ → ℕ → Column W → Column W
  replaced a t c = without_tile (a + 1) (with_tile a t false c)

  pub replaced-here :
      (a t : ℕ) (c : Column W) → a < length c.tiles → get_elem? (replaced a t c).tiles a ≡ some t
  replaced-here a t c l = ground (
    arith,
    get_elem?-erase_idx (a + 1) a (insert_at a t c.tiles),
    get_elem?-insert_at a a t c.tiles,
  )

  -- The tile `t` has come into the column at `col`, and `other` has left it.
  pub record Replaced (col a t : ℕ) (c : Column W) (s s2 s3 : ScrollingSpace W)
      (other : RemovedTile W) : Type 0 where
    pub added : add_tile_to_column col (some a) t false s ≡ some s2
    pub removed : remove_tile_by_idx col (a + 1) s2 ≡ some (other, s3)
    pub valid : IsValid s3
    pub counted :
        (id : ℕ)
        → total id s3.columns + count id (other.tile ∷ []) ≡ total id s.columns + count id (t ∷ [])
    pub columns : s3.columns ≡ set (set s.columns col (with_tile a t false c)) col (replaced a t c)

  pub replace-Replaced :
      (col a t : ℕ) (c : Column W) (s : ScrollingSpace W)
      → IsValid s
      → get_elem? s.columns col ≡ some c
      → a < length c.tiles
      → (s2 s3 : ScrollingSpace W) × (other : RemovedTile W) × Replaced col a t c s s2 s3 other
  replace-Replaced col a t c s v e l =
      let cl = get_elem?-some col s.columns {a = c} e in
      let c2 = with_tile a t false c in
      let s2 : ScrollingSpace W = record s { columns = set s.columns col c2 } in
      let added = tiled-Added col a t false s c v e (omega (arith, l)) in
      let e2 : get_elem? s2.columns col ≡ some c2 =
        ground (arith, get_elem?-set col col c2 s.columns cl) in
      let len = length-insert_at a t c.tiles in
      let (other, s3, run, r) =
        remove_tile_by_idx-TileRemoved col (a + 1) s2 c2 added.valid e2 (omega (arith, len, l)) in
      (
        s2,
        s3,
        other,
        record {
          added = add_tile_to_column-run col a t s c e (ground (arith, l));
          removed = run;
          valid = r.valid;
          counted = λ id. omega (arith, r.counted id, added.counted id);
          columns = elim r.remaining [
            | inl (one, p) ↦ absurd (omega (arith, one, len, l))
            | inr (more, p) ↦ p
          ];
        },
      )
