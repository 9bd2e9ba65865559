-- ===== src/Layout/Ownership.antt =====
-- `verify_invariants` of src/layout/mod.rs: what it asks of the layout beyond its monitors. Of the
-- workspaces it takes in those with windows or a name: of an empty, unnamed one neither the id nor the
-- original output is followed here. Clocks, options, the overview and interactive moves are not modelled.
use Prim.Native.String.{String}
use macniri.Base.{
  All, ℕ, ◌≤◌, ◌≡◌, ◌⊎◌, inl, inr, Bool, true, false, ◌&&◌, none, some, List, [], ◌∷◌, map, arith,
  ◌==◌, get_elem?, Bool-cases, eq_ignore_ascii_case,
}
use macniri.Monitor.Types.{Space, Motion, Workspace}
use macniri.Monitor.Workspaces.{has_windows_or_name, set_output, update_config}
use macniri.Monitor.Cleaning.{used}
use macniri.Layout.Types.{MonitorSet, Layout, IsSoundSet}
use macniri.Layout.Counting.{Key, copies_in_set}
use macniri.Layout.Outputs.{adopt}
use macniri.Layout.Belonging.{going, staying}
use macniri.Layout.Views.{outputs_in, used_on, primary_idx_in}

abbrev pub has_id : ℕ → Key
has_id id i name = i == id

abbrev pub has_name : String → Key
has_name s i none = false
has_name s i (some name) = eq_ignore_ascii_case name s

module _ {s : Space} where
  -- The workspace belongs to the output it is on, or it is on the primary monitor and belongs to none.
  abbrev pub Homed : List ℕ → Bool → ℕ → Workspace s → Type 0
  Homed outputs is_primary output w =
      (s.matches w.original_output output ≡ true)
      ⊎ ((is_primary ≡ true) × All (λ o. s.matches w.original_output o ≡ false) outputs)

module _ {s : Space} {f : Motion} where
  -- A monitor that is not the primary one has its own workspaces only, which is what the message of the
  -- assertion says; its condition asks for one.
  pub record IsValidSet (st : MonitorSet s f) : Type 0 where
    pub sound : IsSoundSet st
    pub unique_ids : (id : ℕ) → copies_in_set (has_id id) st ≤ 1
    pub unique_names : (name : String) → copies_in_set (has_name name) st ≤ 1
    pub owned :
        (i output : ℕ)
        → get_elem? (outputs_in st) i ≡ some output
        → All (Homed (outputs_in st) (i == primary_idx_in st) output) (used_on i st)

  abbrev pub IsValidLayout : Layout s f → Type 0
  IsValidLayout l = IsValidSet l.monitor_set

module _ {s : Space} where
  pub All-map :
      (P Q : Workspace s → Type 0) (g : Workspace s → Workspace s) (ws : List (Workspace s))
      → ((w : Workspace s) → P w → Q (g w))
      → All P ws
      → All Q (map g ws)
  All-map P Q g [] h a = tt
  All-map P Q g (w ∷ ws) h a = (h w a.0, All-map P Q g ws h a.1)

  pub All-staying :
      (P Q : Workspace s → Type 0) (output : ℕ) (ws : List (Workspace s))
      → ((w : Workspace s) → P w → s.matches w.original_output output ≡ false → Q w)
      → All P (used ws)
      → All Q (staying output ws)
  All-staying P Q output [] h a = tt
  All-staying P Q output (w ∷ ws) h a = elim (Bool-cases (has_windows_or_name w)) [
    | inr u ↦ rw u (All-staying P Q output ws h (rw u at a))
    | inl u ↦
        let a' : P w × All P (used ws) = rw u at a in
        elim (Bool-cases (s.matches w.original_output output)) [
          | inl t ↦ rw (u, t) (All-staying P Q output ws h a'.1)
          | inr t ↦ rw (u, t) (h w a'.0 t, All-staying P Q output ws h a'.1)
        ]
  ]

  pub All-going :
      (output : ℕ) (ws : List (Workspace s))
      → All (λ w. s.matches w.original_output output ≡ true) (going output ws)
  All-going output [] = tt
  All-going output (w ∷ ws) =
      elim (Bool-cases (has_windows_or_name w && s.matches w.original_output output)) [
        | inl t ↦ rw t (ground (arith, t), All-going output ws)
        | inr t ↦ rw t (All-going output ws)
      ]

  -- A workspace that comes to its own output still belongs to it; another keeps its identity.
  pub adopt-matches :
      (output : ℕ) (w : Workspace s)
      → s.matches w.original_output output ≡ true
      → s.matches (adopt output w).original_output output ≡ true
  unfolding set_output update_config
  adopt-matches output w t = ground (arith, t, s.matches_lem output)

  pub adopt-foreign :
      (output : ℕ) (w : Workspace s)
      → s.matches w.original_output output ≡ false
      → (adopt output w).original_output ≡ w.original_output
  unfolding set_output update_config
  adopt-foreign output w t = ground (arith, t)

  pub All-imp :
      (P Q : Workspace s → Type 0) (ws : List (Workspace s))
      → ((w : Workspace s) → P w → Q w)
      → All P ws
      → All Q ws
  All-imp P Q [] h a = tt
  All-imp P Q (w ∷ ws) h a = (h w a.0, All-imp P Q ws h a.1)
