-- ===== src/Layout/Belonging.antt =====
-- The workspaces that belong to an output, src/layout/mod.rs.
use macniri.Base.{
  ℕ, zero, suc, ◌≤◌, ◌≡◌, inl, inr, refl, Bool, true, false, ◌&&◌, not, filter_by, if◌then◌else◌,
  ap, ◌∷◌, ◌++◌, none, some, List, [], arith, get_elem?, erase_idx, Bool-cases,
}
use macniri.Monitor.Types.{Space, Workspace}
use macniri.Monitor.Workspaces.{has_windows_or_name}
use macniri.Monitor.Cleaning.{used}

module _ {s : Space} where
  -- The workspace at the index belongs to the output.
  abbrev pub belongs_at : ℕ → List (Workspace s) → ℕ → Bool
  belongs_at output ws i = elim (get_elem? ws i) [
    | none ↦ false
    | some w ↦ s.matches w.original_output output
  ]

  -- The workspaces with windows or a name that belong to an output, and the others.
  abbrev pub going : ℕ → List (Workspace s) → List (Workspace s)
  going output = filter_by (λ w. has_windows_or_name w && s.matches w.original_output output)

  abbrev pub staying : ℕ → List (Workspace s) → List (Workspace s)
  staying output =
      filter_by (λ w. has_windows_or_name w && not (s.matches w.original_output output))

  pub staying-erase_idx :
      (output i : ℕ) (ws : List (Workspace s))
      → belongs_at output ws i ≡ true
      → staying output (erase_idx i ws) ≡ staying output ws
  staying-erase_idx output i [] h = refl
  staying-erase_idx output zero (w ∷ ws) h = ground (arith, h)
  staying-erase_idx output (suc i) (w ∷ ws) h = ground (arith, h, staying-erase_idx output i ws)

  pub going-none :
      (output : ℕ) (ws : List (Workspace s))
      → ((j : ℕ) → belongs_at output ws j ≡ false)
      → (going output ws ≡ []) × (staying output ws ≡ used ws)
  going-none output [] h = (refl, refl)
  going-none output (w ∷ ws) h = ground (arith, h 0, going-none output ws (λ j. h (suc j)))

  -- The last workspace that belongs to the output.
  pub going-last :
      (output i : ℕ) (ws : List (Workspace s)) {w : Workspace s}
      → get_elem? ws i ≡ some w
      → s.matches w.original_output output ≡ true
      → ((j : ℕ) → suc i ≤ j → belongs_at output ws j ≡ false)
      → going output (erase_idx i ws) ++ (if has_windows_or_name w then w ∷ [] else [])
        ≡ going output ws
  going-last output i [] e t h = absurd (cc e)
  going-last output zero (v ∷ ws) {w} e t h =
      let (g, _) = going-none output ws (λ j. h (suc j) (omega arith)) in ground (arith, e, t, g)
  going-last output (suc i) (v ∷ ws) {w} e t h =
      let r = going-last output i ws {w = w} e t (λ j l. h (suc j) (omega (arith, l))) in
      elim (Bool-cases (has_windows_or_name v && s.matches v.original_output output)) [
        | inl b ↦ rw b (ap (v ∷◌) r)
        | inr b ↦ rw b r
      ]
