-- ===== src/Layout/Crossing.antt =====
-- `move_workspace_to_output_by_id` of src/layout/mod.rs keeps the layout valid.
use macniri.Base.{All, ℕ, ◌≡◌, Bool, some, List, map, ◌==◌, get_elem?}
use macniri.Monitor.Types.{Space, Motion, Monitor}
use macniri.Layout.Types.{MonitorSet, normal, Layout}
use macniri.Layout.Views.{used_on}
use macniri.Layout.Ownership.{Homed, IsValidSet}
use macniri.Layout.Sending.{Sent}

module _ {s : Space} {f : Motion} where
  module _ (old_idx current target new_output primary active : ℕ) (m to : Monitor s f)
      (ms : List (Monitor s f)) (v : IsValidSet (normal ms primary active)) (b : Bool)
      (st' : MonitorSet s f)
      (h : Sent old_idx current target new_output m to (normal ms primary active) b st')
      (e : get_elem? ms current ≡ some m) (d : get_elem? ms target ≡ some to)
      (here : to.output ≡ new_output) where
    Owned : ℕ → ℕ → Type 0
    Owned i o = All (Homed (map (λ m. m.output) ms) (i == primary) o) (used_on i st')
