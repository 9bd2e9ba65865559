-- ===== src/Scrolling/Consuming.antt =====
-- The commands of src/layout/scrolling.rs that take a window into a column or out of it.
use macniri.Base.{
  ℕ, suc, ◌+◌, ◌-◌, ◌≤◌, ◌<◌, ◌≡◌, ◌≢◌, ◌⊎◌, inl, inr, refl, sym, ap, ◌∙◌, Bool, true, false, ◌||◌,
  some, arith, ◌==◌, ltb, length, get_elem?, get_elem?-lt, get_elem?-some, All-get, Bool-cases,
  length-erase_idx, length-set,
}
use macniri.Scrolling.Types.{Column, ScrollingSpace, RemovedTile}
use macniri.Scrolling.Columns.{active_window, without_tile}
use macniri.Scrolling.Transfer.{consume_at, expel_to, consume_into_column}
use macniri.Scrolling.Invariant.{total, IsValidColumn, IsValid}
use macniri.Scrolling.Removal.{TileRemoved, remove_tile_by_idx-TileRemoved}
use macniri.Scrolling.Insertion.{Added, add_tile-Added, add_tile_to_column-Added}

module _ {W : Type 0} where
  -- A valid space with the same windows and the same one in focus.
  pub record Kept (s s' : ScrollingSpace W) : Type 0 where
    pub valid : IsValid s'
    pub same_windows : (id : ℕ) → total id s'.columns ≡ total id s.columns
    pub same_focus : active_window s' ≡ active_window s

  -- Whether the tile is the one in focus.
  abbrev pub Marks : Bool → ℕ → ℕ → Column W → ScrollingSpace W → Type 0
  Marks b col idx c s =
      ((b ≡ true) × (active_window s ≡ get_elem? c.tiles idx))
      ⊎ ((b ≡ false) × ((col ≢ s.active_column_idx) ⊎ (idx ≢ c.active_tile_idx)))

  moved-Kept :
      (b : Bool) (col idx : ℕ) (c : Column W) (removed : RemovedTile W) (s s1 s' : ScrollingSpace W)
      → Marks b col idx c s
      → TileRemoved col idx c removed s s1
      → 0 < length s1.columns
      → Added removed.tile b s1 s'
      → Kept s s'
  moved-Kept b col idx c removed s s1 s' m r l a = record {
    valid = a.valid;
    same_windows = λ id. omega (arith, a.counted id, r.counted id);
    same_focus = elim m [
      | inl (t, at) ↦ elim a.focus [
        | inl (u, f) ↦ f ∙ sym (at ∙ r.same_tile)
        | inr (u, f) ↦ absurd (cc (t, u))
      ]
      | inr (t, other) ↦ elim a.focus [
        | inl (u, f) ↦ absurd (cc (t, u))
        | inr (u, f) ↦ elim f [
          | inl z ↦ absurd (omega (arith, z, l))
          | inr same ↦ same ∙ elim r.focus [
            | inr q ↦ q
            | inl q ↦ absurd (elim other [ inl n ↦ n q.0 | inr n ↦ n q.1 ])
          ]
        ]
      ]
    ];
  }

  pub remaining_length :
      (col idx : ℕ) (c : Column W) (removed : RemovedTile W) (s s1 : ScrollingSpace W)
      → col < length s.columns
      → TileRemoved col idx c removed s s1
      → ((length c.tiles ≡ 1) × (suc (length s1.columns) ≡ length s.columns))
        ⊎ ((length c.tiles ≢ 1) × (length s1.columns ≡ length s.columns))
  remaining_length col idx c removed s s1 l r = elim r.remaining [
    | inl (n, e) ↦ inl (n, ap (λ cs. suc (length cs)) e ∙ length-erase_idx col s.columns l)
    | inr (n, e) ↦ inr (n, ap length e ∙ length-set s.columns col (without_tile idx c))
  ]

  pub consume_at-Kept :
      (source target : ℕ) (b : Bool) (s : ScrollingSpace W) (c : Column W)
      → IsValid s
      → get_elem? s.columns source ≡ some c
      → suc target < length s.columns
      → Marks b source 0 c s
      → (s' : ScrollingSpace W) × (consume_at source target b s ≡ some s') × Kept s s'
  unfolding consume_at
  consume_at-Kept source target b s c v e l m =
      let vc = All-get IsValidColumn source s.columns {x = c} v.sound.columns e in
      let (removed, s1, run1, r) =
        remove_tile_by_idx-TileRemoved source 0 s c v e (omega (arith, vc)) in
      let len = remaining_length source 0 c removed s s1 (get_elem?-some source s.columns e) r in
      let tl : target < length s1.columns = omega (arith, len, l) in
      let (s', run2, a) = add_tile_to_column-Added target removed.tile b s1 r.valid tl in
      (
        s',
        rw (consume_at, run1) run2,
        moved-Kept b source 0 c removed s s1 s' m r (omega (arith, tl)) a,
      )

  pub expel_to-Kept :
      (col idx target : ℕ) (b : Bool) (s : ScrollingSpace W) (c : Column W)
      → IsValid s
      → get_elem? s.columns col ≡ some c
      → idx < length c.tiles
      → length c.tiles ≢ 1
      → target ≤ length s.columns
      → Marks b col idx c s
      → (s' : ScrollingSpace W) × (expel_to col idx target b s ≡ some s') × Kept s s'
  unfolding expel_to
  expel_to-Kept col idx target b s c v e i n l m =
      let cl = get_elem?-some col s.columns {a = c} e in
      let (removed, s1, run1, r) = remove_tile_by_idx-TileRemoved col idx s c v e i in
      let len = remaining_length col idx c removed s s1 cl r in
      let tl : target ≤ length s1.columns = omega (arith, len, l, n) in
      let (s', run2, a) =
        add_tile-Added target removed.tile b removed.width removed.is_full_width s1 r.valid tl in
      (
        s',
        rw (expel_to, run1) run2,
        moved-Kept b col idx c removed s s1 s' m r (omega (arith, len, cl, n)) a,
      )

  pub Kept-refl : (s : ScrollingSpace W) → IsValid s → Kept s s
  Kept-refl s v = record { valid = v; same_windows = λ id. refl; same_focus = refl }

  pub flagged-IsValid :
      (p : Bool) (s : ScrollingSpace W)
      → IsValid s
      → IsValid (record s { activate_prev_column_on_removal = p })
  flagged-IsValid p s v = record {
    sound = record { columns = v.sound.columns; resized = v.sound.resized };
    in_range = v.in_range;
  }

  -- In a valid space `consume_into_column` does not panic, and the result is valid, with the same windows
  -- and the same one in focus.
  pub consume_into_column-Kept :
      (s : ScrollingSpace W)
      → IsValid s
      → (s' : ScrollingSpace W) × (consume_into_column s ≡ some s') × Kept s s'
  unfolding consume_into_column
  consume_into_column-Kept s v =
      elim (Bool-cases (ltb (length s.columns) 2 || s.active_column_idx == length s.columns - 1)) [
        | inl t ↦ (s, rw t refl, Kept-refl s v)
        | inr t ↦
            let l : suc s.active_column_idx < length s.columns = ground (arith, t, v.in_range) in
            let (c, e) = get_elem?-lt s.columns (s.active_column_idx + 1) (omega (arith, l)) in
            let (s', run, k) =
              consume_at-Kept (s.active_column_idx + 1) s.active_column_idx false s c v e l
                (inr (refl, inl (omega arith))) in
            (s', rw t run, k)
      ]
