-- ===== src/Scrolling/Focusing.antt =====
-- The focus commands and the moves inside a column, src/layout/scrolling.rs.
use macniri.Base.{
  ℕ, zero, suc, ◌+◌, ◌-◌, ◌<◌, ◌≡◌, inl, inr, refl, ap, Bool, true, false, some, List, [], ◌∷◌,
  Option, arith, ◌==◌, leb, length, get_elem?, get_elem?-lt, get_elem?-set, set, swap_at, min,
  All-get, All-set, Bool-cases, length-set,
}
use macniri.Scrolling.Types.{Column, ScrollingSpace}
use macniri.Scrolling.Columns.{no_columns, activate_column}
use macniri.Scrolling.Commands.{
  activate_idx, on_active, swap_active, focus_left, focus_right, focus_column,
}
use macniri.Scrolling.Invariant.{
  count, total, total-set, IsValidColumn, IsValid, activate_column-IsValid, activate_column-columns,
  no_columns_lem,
}

count-set :
    (id i v : ℕ) (ts : List ℕ) {t : ℕ}
    → get_elem? ts i ≡ some t
    → count id (set ts i v) + count id (t ∷ []) ≡ count id ts + count id (v ∷ [])
count-set id i v [] e = absurd (cc e)
count-set id zero v (u ∷ ts) {t} e = ground (arith, e)
count-set id (suc i) v (u ∷ ts) {t} e = omega (arith, count-set id i v ts {t = t} e)

swap_at-run :
    (i j a b : ℕ) (ts : List ℕ)
    → get_elem? ts i ≡ some a
    → get_elem? ts j ≡ some b
    → swap_at i j ts ≡ some (set (set ts i b) j a)
swap_at-run i j a b ts e d = rw (swap_at, e, d) refl

module _ {W : Type 0} where
  -- A valid space with the same windows.
  pub record Preserved (s s' : ScrollingSpace W) : Type 0 where
    pub valid : IsValid s'
    pub same_windows : (id : ℕ) → total id s'.columns ≡ total id s.columns

  -- A valid column with the same windows.
  pub record Rearranged (c c' : Column W) : Type 0 where
    pub valid : IsValidColumn c'
    pub same_windows : (id : ℕ) → count id c'.tiles ≡ count id c.tiles

  pub Preserved-refl : (s : ScrollingSpace W) → IsValid s → Preserved s s
  Preserved-refl s v = record { valid = v; same_windows = λ id. refl }

  on_active-run :
      (op : Column W → Option (Bool × Column W)) (s : ScrollingSpace W) (c c' : Column W) (b : Bool)
      → no_columns s.columns ≡ false
      → get_elem? s.columns s.active_column_idx ≡ some c
      → op c ≡ some (b, c')
      → on_active op s ≡ some (b, record s { columns = set s.columns s.active_column_idx c' })
  on_active-run op s c c' b n e r = rw (n, e, r) refl

  pub on_active-Preserved :
      (op : Column W → Option (Bool × Column W)) (s : ScrollingSpace W)
      → IsValid s
      → ((c : Column W)
          → IsValidColumn c
          → (b : Bool) × (c' : Column W) × (op c ≡ some (b, c')) × Rearranged c c')
      → (b : Bool) × (s' : ScrollingSpace W) × (on_active op s ≡ some (b, s')) × Preserved s s'
  on_active-Preserved op s v h = elim (Bool-cases (no_columns s.columns)) [
    | inl n ↦ (false, s, rw n refl, Preserved-refl s v)
    | inr n ↦
        let z = no_columns_lem s.columns n in
        let a : s.active_column_idx < length s.columns = ground (arith, z, v.in_range) in
        let (c, e) = get_elem?-lt s.columns s.active_column_idx a in
        let vc = All-get IsValidColumn s.active_column_idx s.columns {x = c} v.sound.columns e in
        let (b, c', r, k) = h c vc in
        let same : (id : ℕ) → total id (set s.columns s.active_column_idx c') ≡ total id s.columns =
          λ id.
            omega
              (arith, total-set id s.active_column_idx c' s.columns {c = c} e, k.same_windows id) in
        (
          b,
          record s { columns = set s.columns s.active_column_idx c' },
          on_active-run op s c c' b n e r,
          record {
            valid = record {
              sound = record {
                columns =
                    All-set IsValidColumn s.active_column_idx c' s.columns v.sound.columns k.valid;
                resized = λ id q. omega (arith, v.sound.resized id q, same id);
              };
              in_range = inl (omega (arith, a, length-set s.columns s.active_column_idx c'));
            };
            same_windows = same;
          },
        )
  ]

  pub activate_idx-Rearranged :
      (idx : ℕ) (c : Column W) → idx < length c.tiles → Rearranged c (activate_idx idx c).1
  activate_idx-Rearranged idx c l = record { valid = l; same_windows = λ id. refl }

  swap_active-run :
      (idx a b : ℕ) (c : Column W)
      → (c.active_tile_idx == idx) ≡ false
      → get_elem? c.tiles c.active_tile_idx ≡ some a
      → get_elem? c.tiles idx ≡ some b
      → swap_active idx c
        ≡ some (
          true,
          record c { tiles = set (set c.tiles c.active_tile_idx b) idx a; active_tile_idx = idx },
        )
  swap_active-run idx a b c n e d = rw (n, swap_at-run c.active_tile_idx idx a b c.tiles e d) refl

  pub swap_active-Rearranged :
      (idx : ℕ) (c : Column W)
      → idx < length c.tiles
      → IsValidColumn c
      → (b : Bool) × (c' : Column W) × (swap_active idx c ≡ some (b, c')) × Rearranged c c'
  swap_active-Rearranged idx c l v = elim (Bool-cases (c.active_tile_idx == idx)) [
    | inl t ↦ (false, c, rw t refl, record { valid = v; same_windows = λ id. refl })
    | inr t ↦
        let (a, e) = get_elem?-lt c.tiles c.active_tile_idx v in
        let (b, d) = get_elem?-lt c.tiles idx l in
        let ts = set c.tiles c.active_tile_idx b in
        let d' : get_elem? ts idx ≡ some b =
          ground (arith, t, d, get_elem?-set c.active_tile_idx idx b c.tiles v) in
        (
          true,
          record c { tiles = set ts idx a; active_tile_idx = idx },
          swap_active-run idx a b c t e d,
          record {
            valid = omega (arith, l, length-set c.tiles c.active_tile_idx b, length-set ts idx a);
            same_windows = λ id. omega (
              arith,
              count-set id c.active_tile_idx b c.tiles {t = a} e,
              count-set id idx a ts {t = b} d',
            );
          },
        )
  ]

  pub activate_column-Preserved :
      (idx : ℕ) (s : ScrollingSpace W)
      → idx < length s.columns
      → IsValid s
      → Preserved s (activate_column idx s)
  activate_column-Preserved idx s l v = record {
    valid = activate_column-IsValid idx s l v.sound;
    same_windows = λ id. ap (total id) (activate_column-columns idx s);
  }

  pub focus_left-Preserved : (s : ScrollingSpace W) → IsValid s → Preserved s (focus_left s).1
  unfolding focus_left
  focus_left-Preserved s v = elim (Bool-cases (s.active_column_idx == 0)) [
    | inl t ↦ rw t (Preserved-refl s v)
    | inr t ↦
        rw t
          (activate_column-Preserved (s.active_column_idx - 1) s (ground (arith, t, v.in_range)) v)
  ]

  pub focus_right-Preserved : (s : ScrollingSpace W) → IsValid s → Preserved s (focus_right s).1
  unfolding focus_right
  focus_right-Preserved s v = elim (Bool-cases (leb (length s.columns) (s.active_column_idx + 1))) [
    | inl t ↦ rw t (Preserved-refl s v)
    | inr t ↦ rw t (activate_column-Preserved (s.active_column_idx + 1) s (ground (arith, t)) v)
  ]

  pub focus_column-Preserved :
      (index : ℕ) (s : ScrollingSpace W) → IsValid s → Preserved s (focus_column index s)
  unfolding focus_column
  focus_column-Preserved index s v = elim (Bool-cases (no_columns s.columns)) [
    | inl n ↦ rw n (Preserved-refl s v)
    | inr n ↦ rw n (
        activate_column-Preserved (min (index - 1) (length s.columns - 1)) s
          (omega (arith, no_columns_lem s.columns n)) v)
  ]
