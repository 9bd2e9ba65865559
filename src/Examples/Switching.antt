-- ===== src/Examples/Switching.antt =====
-- Switches and additions of workspaces on the monitor of three workspaces.
use macniri.Base.{ℕ, zero, suc, sym, ap, ◌+◌, ◌-◌, ◌≡◌, ◌≢◌, ◌⊎◌, arith, none, some, min, get_elem?}
use macniri.Base.{[], ◌∷◌, map}
use macniri.Monitor.Workspaces.{set_output, update_config}
use macniri.Monitor.Moves.{append_workspaces}
use macniri.Monitor.Appending.{Appended, append_workspaces-Appended}
use macniri.Monitor.Types.{Workspace, Monitor}
use macniri.Monitor.Invariant.{IsValid, active_workspace}
use macniri.Monitor.Switching.{
  switch_workspace_down, switch_workspace_up, switch_workspace_auto_back_and_forth,
}
use macniri.Monitor.BackAndForth.{
  DistinctIds, Switched, switch_workspace_down-Switched, switch_workspace_up-Switched,
  switch_workspace_auto_back_and_forth-returns,
}
use macniri.Examples.Monitor.{counting, still, space_of, three, three-IsValid}

switch_workspace_down-Switched_example :
    (idx : ℕ) × (m' : Monitor counting still) × (switch_workspace_down three ≡ some m')
    × Switched idx three m'
    × ((idx ≡ min (0 + 1) (3 - 1)) ⊎ (three.workspace_switch ≢ none))
switch_workspace_down-Switched_example = switch_workspace_down-Switched three three-IsValid

switch_workspace_up-Switched_example :
    (idx : ℕ) × (m' : Monitor counting still) × (switch_workspace_up three ≡ some m')
    × Switched idx three m'
    × ((idx ≡ 0 - 1) ⊎ (three.workspace_switch ≢ none))
switch_workspace_up-Switched_example = switch_workspace_up-Switched three three-IsValid

three-id : (i : ℕ) (w : Workspace counting) → get_elem? three.workspaces i ≡ some w → w.id ≡ i + 5
three-id zero w p = ap (λ o. elim o [ none ↦ 5 | some u ↦ u.id ]) (sym p)
three-id (suc zero) w p = ap (λ o. elim o [ none ↦ 6 | some u ↦ u.id ]) (sym p)
three-id (suc (suc zero)) w p = ap (λ o. elim o [ none ↦ 7 | some u ↦ u.id ]) (sym p)
three-id (suc (suc (suc i))) w p = absurd (cc p)

three-DistinctIds : DistinctIds three.workspaces
three-DistinctIds i j w v p q e = omega (arith, three-id i w p, three-id j v q)

switch_workspace_auto_back_and_forth-returns_example :
    (m1 m2 : Monitor counting still) × (switch_workspace_auto_back_and_forth 1 three ≡ some m1)
    × (switch_workspace_auto_back_and_forth 1 m1 ≡ some m2)
    × (m1.active_workspace_idx ≡ 1)
    × (active_workspace m2 ≡ active_workspace three)
    × IsValid m1
    × IsValid m2
switch_workspace_auto_back_and_forth-returns_example =
    switch_workspace_auto_back_and_forth-returns 1 three three-IsValid three-DistinctIds
      (omega arith) (omega arith)

append_workspaces-Appended_example :
    (m' : Monitor counting still) × (append_workspaces (space_of 3 1 ∷ space_of 4 0 ∷ []) three
      ≡ some m')
    × Appended
        (map (λ v. update_config (set_output (some 1) v)) (space_of 3 1 ∷ space_of 4 0 ∷ []))
        three
        m'
append_workspaces-Appended_example =
    append_workspaces-Appended (space_of 3 1 ∷ space_of 4 0 ∷ []) three three-IsValid
