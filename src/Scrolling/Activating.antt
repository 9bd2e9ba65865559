-- ===== src/Scrolling/Activating.antt =====
-- `activate_window` of src/layout/scrolling.rs.
use macniri.Base.{
  ℕ, ◌≡◌, ◌⊎◌, inl, inr, refl, ap, ◌∙◌, true, false, none, some, List, [], ◌∷◌, arith, ◌==◌,
  get_elem?, get_elem?-some, get_elem?-set, position, any_of, position-cases, length-set,
  Bool-cases,
}
use macniri.Scrolling.Types.{Column, ScrollingSpace}
use macniri.Scrolling.Columns.{active_tile, focused, activate_column, contains, locate}
use macniri.Scrolling.Commands.{activate_window}
use macniri.Scrolling.Invariant.{
  count-any_of, total, IsValid, activate_column-IsValid, activate_column-columns,
  activate_column-active,
}
use macniri.Scrolling.Exchanging.{Focusing, pointed, pointed-total, pointed-IsSound}

module _ {W : Type 0} where
  total-any_of : (id : ℕ) (cs : List (Column W)) → any_of (contains id) cs ≡ false → total id cs ≡ 0
  total-any_of id [] h = refl
  total-any_of id (c ∷ cs) h = elim (Bool-cases (contains id c)) [
    | inl t ↦ absurd (cc (rw t at h))
    | inr t ↦
        let h' : any_of (contains id) cs ≡ false = rw t at h in
        omega (arith, count-any_of id c.tiles t, total-any_of id cs h')
  ]

  -- Where a window is.
  record Located (window : ℕ) (cs : List (Column W)) : Type 0 where
    pub col : ℕ
    pub idx : ℕ
    pub column : Column W
    pub located : locate window cs ≡ some (col, idx)
    pub found : get_elem? cs col ≡ some column
    pub there : get_elem? column.tiles idx ≡ some window

  locate-run :
      (window col idx : ℕ) (c : Column W) (cs : List (Column W))
      → position (contains window) cs ≡ some col
      → get_elem? cs col ≡ some c
      → position (λ t. t == window) c.tiles ≡ some idx
      → locate window cs ≡ some (col, idx)
  locate-run window col idx c cs a b d = rw (locate, a, b, d) refl

  locate-cases :
      (window : ℕ) (cs : List (Column W))
      → ((locate window cs ≡ none) × (total window cs ≡ 0)) ⊎ Located window cs
  locate-cases window cs = elim (position-cases (contains window) cs) [
    | inl (e, a) ↦ inl (rw (locate, e) refl, total-any_of window cs a)
    | inr (col, c, e, g, h) ↦ elim (position-cases (λ t. t == window) c.tiles) [
      | inl (n, a) ↦ absurd (cc (a, h))
      | inr (idx, t, n, k, q) ↦
          let is : t ≡ window = ground (arith, q) in
          inr (record {
            col = col;
            idx = idx;
            column = c;
            located = locate-run window col idx c cs e g n;
            found = g;
            there = k ∙ ap some is;
          })
    ]
  ]

  activate_window-run :
      (window col idx : ℕ) (c : Column W) (s : ScrollingSpace W)
      → locate window s.columns ≡ some (col, idx)
      → get_elem? s.columns col ≡ some c
      → activate_window window s ≡ (true, activate_column col (pointed col idx c s))
  unfolding activate_window
  activate_window-run window col idx c s a b = rw (activate_window, a, b) refl

  -- In a valid space `activate_window` of a window that is not there changes nothing and returns false;
  -- otherwise it returns true, and the result is valid, with the same windows and the given one in focus.
  pub activate_window-Focusing :
      (window : ℕ) (s : ScrollingSpace W)
      → IsValid s
      → ((activate_window window s ≡ (false, s)) × (total window s.columns ≡ 0))
        ⊎ ((s' : ScrollingSpace W) × (activate_window window s ≡ (true, s')) × Focusing window s s')
  unfolding activate_window
  activate_window-Focusing window s v = elim (locate-cases window s.columns) [
    | inl (e, z) ↦ inl (rw (activate_window, e) refl, z)
    | inr at ↦
        let c : Column W = record at.column { active_tile_idx = at.idx } in
        let s1 = pointed at.col at.idx at.column s in
        let cl = get_elem?-some at.col s.columns {a = at.column} at.found in
        let il = get_elem?-some at.idx at.column.tiles {a = window} at.there in
        let here : get_elem? s1.columns at.col ≡ some c =
          ground (arith, get_elem?-set at.col at.col c s.columns cl) in
        let same = activate_column-columns at.col s1 in
        inr (
          activate_column at.col s1,
          activate_window-run window at.col at.idx at.column s at.located at.found,
          record {
            valid =
                activate_column-IsValid at.col s1 (omega (arith, cl, length-set s.columns at.col c))
                  (pointed-IsSound at.col at.idx at.column s at.found il v.sound);
            same_windows =
                λ id. ap (total id) same ∙ pointed-total at.col at.idx at.column s at.found id;
            in_focus =
                ap (λ k. focused k (activate_column at.col s1).columns)
                  (activate_column-active at.col s1)
                ∙ (ap (focused at.col) same ∙ (ap active_tile here ∙ at.there));
          },
        )
  ]
