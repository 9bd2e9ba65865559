-- ===== src/Layout/Views.antt =====
-- What a layout of src/layout/mod.rs shows: its outputs, and the workspaces with windows or a name on each
-- of its monitors.
use macniri.Base.{
  ℕ, ◌-◌, ◌<◌, ◌≡◌, refl, Option, none, some, List, [], ◌∷◌, ◌++◌, map, arith, ◌==◌, ltb,
  if◌then◌else◌, length, get_elem?, get_elem?-set, get_elem?-append, set,
}
use macniri.Monitor.Types.{Space, Motion, Workspace, Monitor}
use macniri.Monitor.Cleaning.{used}
use macniri.Layout.Types.{MonitorSet, normal, no_outputs}

module _ {s : Space} {f : Motion} where
  abbrev pub workspaces_of : Option (Monitor s f) → List (Workspace s)
  workspaces_of none = []
  workspaces_of (some m) = m.workspaces

  abbrev pub outputs_in : MonitorSet s f → List ℕ
  outputs_in (normal ms primary active) = map (λ m. m.output) ms
  outputs_in (no_outputs ws) = []

  abbrev pub monitors_in : MonitorSet s f → List (Monitor s f)
  monitors_in (normal ms primary active) = ms
  monitors_in (no_outputs ws) = []

  -- The workspaces on the monitor at an index.
  abbrev pub workspaces_on : ℕ → MonitorSet s f → List (Workspace s)
  workspaces_on i (normal ms primary active) = workspaces_of (get_elem? ms i)
  workspaces_on i (no_outputs ws) = []

  abbrev pub used_on : ℕ → MonitorSet s f → List (Workspace s)
  used_on i st = used (workspaces_on i st)

  -- The workspaces without an output.
  abbrev pub loose_in : MonitorSet s f → List (Workspace s)
  loose_in (normal ms primary active) = []
  loose_in (no_outputs ws) = ws

  abbrev pub primary_idx_in : MonitorSet s f → ℕ
  primary_idx_in (normal ms primary active) = primary
  primary_idx_in (no_outputs ws) = 0

  abbrev pub active_idx_in : MonitorSet s f → ℕ
  active_idx_in (normal ms primary active) = active
  active_idx_in (no_outputs ws) = 0

  pub workspaces_on_lem :
      (i : ℕ) (st : MonitorSet s f)
      → workspaces_on i st ≡ workspaces_of (get_elem? (monitors_in st) i)
  workspaces_on_lem i (normal ms primary active) = refl
  workspaces_on_lem i (no_outputs ws) = refl

  pub workspaces_of-set :
      (i j : ℕ) (m : Monitor s f) (ms : List (Monitor s f))
      → i < length ms
      → workspaces_of (get_elem? (set ms i m) j)
        ≡ (if j == i then m.workspaces else workspaces_of (get_elem? ms j))
  workspaces_of-set i j m ms l = ground (arith, get_elem?-set i j m ms l)

  pub workspaces_of-append :
      (j : ℕ) (m : Monitor s f) (ms : List (Monitor s f))
      → workspaces_of (get_elem? (ms ++ (m ∷ [])) j) ≡ (
          if ltb j (length ms)
          then workspaces_of (get_elem? ms j)
          else workspaces_of (get_elem? (m ∷ []) (j - length ms)))
  workspaces_of-append j m ms = ground (arith, get_elem?-append j ms (m ∷ []))
