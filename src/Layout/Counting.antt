-- ===== src/Layout/Counting.antt =====
-- How often workspaces with some property of their id and name stand in a list, on monitors and in a
-- layout.
use macniri.Base.{
  ℕ, zero, suc, ◌+◌, ◌≡◌, refl, sym, ap, ◌∙◌, Bool, ◌&&◌, Option, none, some, List, [], ◌∷◌, ◌++◌,
  map, arith, if◌then◌else◌, get_elem?, set, insert_at, erase_idx,
}
use Prim.Native.String.{String}
use macniri.Monitor.Types.{Space, Motion, Workspace, Monitor}
use macniri.Monitor.Workspaces.{has_windows_or_name, set_output, update_config}
use macniri.Monitor.Cleaning.{used}
use macniri.Layout.Types.{MonitorSet, normal, no_outputs, Layout}

-- A test of an id and a name.
abbrev pub Key : Type 0
Key = ℕ → Option String → Bool

module _ {s : Space} where
  -- How many workspaces with windows or a name pass the test.
  abbrev pub copies : Key → List (Workspace s) → ℕ
  copies key [] = 0
  copies key (w ∷ ws) = (if has_windows_or_name w && key w.id w.name then 1 else 0) + copies key ws

  pub copies-append :
      (key : Key) (a b : List (Workspace s)) → copies key (a ++ b) ≡ copies key a + copies key b
  copies-append key [] b = omega arith
  copies-append key (w ∷ a) b = omega (arith, copies-append key a b)

  pub copies-used : (key : Key) (ws : List (Workspace s)) → copies key (used ws) ≡ copies key ws
  copies-used key [] = refl
  copies-used key (w ∷ ws) = ground (arith, copies-used key ws)

  pub copies-same_used :
      (key : Key) (a b : List (Workspace s)) → used a ≡ used b → copies key a ≡ copies key b
  copies-same_used key a b e = sym (copies-used key a) ∙ (ap (copies key) e ∙ copies-used key b)

  pub copies-erase_idx :
      (key : Key) (i : ℕ) (ws : List (Workspace s)) {w : Workspace s}
      → get_elem? ws i ≡ some w
      → copies key (erase_idx i ws) + copies key (w ∷ []) ≡ copies key ws
  copies-erase_idx key i [] e = absurd (cc e)
  copies-erase_idx key zero (v ∷ ws) {w} e = ground (arith, e)
  copies-erase_idx key (suc i) (v ∷ ws) {w} e = omega (arith, copies-erase_idx key i ws {w = w} e)

  pub copies-insert_at :
      (key : Key) (i : ℕ) (w : Workspace s) (ws : List (Workspace s))
      → copies key (insert_at i w ws) ≡ copies key (w ∷ []) + copies key ws
  copies-insert_at key zero w ws = omega arith
  copies-insert_at key (suc i) w [] = omega arith
  copies-insert_at key (suc i) w (v ∷ ws) = omega (arith, copies-insert_at key i w ws)

  -- A change that keeps ids and what is used.
  pub copies-map :
      (key : Key) (g : Workspace s → Workspace s) (ws : List (Workspace s))
      → ((w : Workspace s)
          → (((g w).id ≡ w.id) × ((g w).name ≡ w.name))
            × (has_windows_or_name (g w) ≡ has_windows_or_name w))
      → copies key (map g ws) ≡ copies key ws
  copies-map key g [] h = refl
  copies-map key g (w ∷ ws) h = ground (arith, h w, copies-map key g ws h)

  pub set_output-same :
      (o : Option ℕ) (w : Workspace s)
      → (((set_output o w).id ≡ w.id) × ((set_output o w).name ≡ w.name))
        × (has_windows_or_name (set_output o w) ≡ has_windows_or_name w)
  unfolding set_output
  set_output-same none w = ((refl, refl), refl)
  set_output-same (some o) w = ground (arith, s.update_lem w.content)

  pub update_config-same :
      (w : Workspace s)
      → (((update_config w).id ≡ w.id) × ((update_config w).name ≡ w.name))
        × (has_windows_or_name (update_config w) ≡ has_windows_or_name w)
  unfolding update_config
  update_config-same w = ground (arith, s.update_lem w.content)

  pub adopt-same :
      (o : ℕ) (w : Workspace s)
      → (((update_config (set_output (some o) w)).id ≡ w.id)
          × ((update_config (set_output (some o) w)).name ≡ w.name))
        × (has_windows_or_name (update_config (set_output (some o) w)) ≡ has_windows_or_name w)
  adopt-same o w =
      let (a, b) = set_output-same (some o) w in
      let (c, d) = update_config-same (set_output (some o) w) in ((c.0 ∙ a.0, c.1 ∙ a.1), d ∙ b)

module _ {s : Space} {f : Motion} where
  abbrev pub total : Key → List (Monitor s f) → ℕ
  total key [] = 0
  total key (m ∷ ms) = copies key m.workspaces + total key ms

  pub total-append :
      (key : Key) (a b : List (Monitor s f)) → total key (a ++ b) ≡ total key a + total key b
  total-append key [] b = omega arith
  total-append key (m ∷ a) b = omega (arith, total-append key a b)

  pub total-erase_idx :
      (key : Key) (i : ℕ) (ms : List (Monitor s f)) {m : Monitor s f}
      → get_elem? ms i ≡ some m
      → total key (erase_idx i ms) + copies key m.workspaces ≡ total key ms
  total-erase_idx key i [] e = absurd (cc e)
  total-erase_idx key zero (v ∷ ms) {m} e = ground (arith, e)
  total-erase_idx key (suc i) (v ∷ ms) {m} e = omega (arith, total-erase_idx key i ms {m = m} e)

  pub total-set :
      (key : Key) (i : ℕ) (m' : Monitor s f) (ms : List (Monitor s f)) {m : Monitor s f}
      → get_elem? ms i ≡ some m
      → total key (set ms i m') + copies key m.workspaces ≡ total key ms + copies key m'.workspaces
  total-set key i m' [] e = absurd (cc e)
  total-set key zero m' (v ∷ ms) {m} e = ground (arith, e)
  total-set key (suc i) m' (v ∷ ms) {m} e = omega (arith, total-set key i m' ms {m = m} e)

  abbrev pub copies_in_set : Key → MonitorSet s f → ℕ
  copies_in_set key (normal ms primary active) = total key ms
  copies_in_set key (no_outputs ws) = copies key ws

  abbrev pub copies_in : Key → Layout s f → ℕ
  copies_in key l = copies_in_set key l.monitor_set
