-- ===== src/Layout/Outputs.antt =====
-- `Monitor::new` of src/layout/monitor.rs, and `add_output`, `remove_output`, `focus_output` and the
-- moves of a workspace to another output of src/layout/mod.rs. `none` is a panic. Of the options of a
-- new monitor only `empty_workspace_above_first` plays a part here: it is the argument `above`.
use macniri.Base.{
  ℕ, zero, suc, ◌-◌, Bool, true, false, not, ◌&&◌, ◌||◌, Option, none, some, List, [], ◌∷◌, ◌++◌,
  map, ◌==◌, leb, if◌then◌else◌, length, get_elem?, set, erase_idx, position, get, put, delete,
  is_some, ◌===◌, option_eq, nat_eq, ◌>>=◌,
}
use macniri.Monitor.Types.{Space, Motion, Workspace, Monitor}
use macniri.Monitor.Workspaces.{has_windows_or_name, set_output, update_config}
use macniri.Monitor.Defs.{clean_up_workspaces}
use macniri.Monitor.Moves.{append_workspaces, into_workspaces}
use macniri.Layout.Types.{MonitorSet, normal, no_outputs, Layout, with_counter}

-- An index still leads to the same monitor, or to another if that one has gone.
abbrev pub shift_down : ℕ → ℕ → ℕ
shift_down gone idx = if leb gone idx then idx - 1 else idx

-- `is_empty`.
abbrev pub is_empty {ℓ} : {A : Type ℓ} → List A → Bool
is_empty [] = true
is_empty (x ∷ xs) = false

module _ {s : Space} where
  -- `assert!(ws.has_windows_or_name())` for each workspace.
  abbrev pub all_used : List (Workspace s) → Bool
  all_used [] = true
  all_used (w ∷ ws) = has_windows_or_name w && all_used ws

  -- The index of the last workspace with the id, from `idx` on, and `active` without one.
  abbrev pub find_active : Option ℕ → ℕ → ℕ → List (Workspace s) → ℕ
  find_active id idx active [] = active
  find_active id idx active (w ∷ ws) =
      find_active id (suc idx) (if some w.id === id then idx else active) ws

  -- `Workspace::new`, with the id `id`.
  abbrev pub blank_for : ℕ → ℕ → Workspace s
  blank_for output id = record {
    id = id;
    name = none;
    content = s.empty;
    output = some output;
    original_output = s.output_id output;
  }

  abbrev pub adopt : ℕ → Workspace s → Workspace s
  adopt output w = update_config (set_output (some output) w)

module _ {s : Space} {f : Motion} where
  -- The lists of a new monitor, whose empty workspaces take the next ids.
  abbrev pub furnish : (above : Bool) → ℕ → ℕ → List (Workspace s) → ℕ → Monitor s f
  furnish above output counter ws active =
      let top = above && not (is_empty ws) in
      let next = if top then suc counter else counter in
      let tail = ws ++ (blank_for output next ∷ []) in
      record {
        output = output;
        workspaces = if top then blank_for output counter ∷ tail else tail;
        active_workspace_idx = if top then suc active else active;
        previous_workspace_id = none;
        workspace_switch = none;
        empty_workspace_above_first = above;
        next_id = suc next;
      }

  -- `Monitor::new`.
  unfoldable pub new_monitor :
      (above : Bool) → ℕ → ℕ → List (Workspace s) → Option ℕ → Option (Monitor s f)
  new_monitor above output counter ws id =
      if all_used ws
      then some (furnish above output counter (map (adopt output) ws) (find_active id 0 0 ws))
      else none

-- The primary monitor, the workspaces taken from it, and whether its switch was stopped.
pub record Extraction (s : Space) (f : Motion) : Type 0 where
  pub primary : Monitor s f
  pub taken : List (Workspace s)
  pub stopped : Bool

module _ {s : Space} {f : Motion} where
  -- The active index after the workspace at `i` has gone.
  abbrev pub fall_back : ℕ → Monitor s f → ℕ
  fall_back i m =
      if leb i m.active_workspace_idx
        && not (m.empty_workspace_above_first && m.active_workspace_idx == 1)
      then m.active_workspace_idx - 1
      else m.active_workspace_idx

  abbrev pub take_at : ℕ → Workspace s → Extraction s f → Extraction s f
  take_at i w e = record {
    primary = record e.primary {
      workspaces = erase_idx i e.primary.workspaces;
      workspace_switch = none;
      active_workspace_idx = fall_back i e.primary;
    };
    taken = if has_windows_or_name w then w ∷ e.taken else e.taken;
    stopped = e.stopped || is_some e.primary.workspace_switch;
  }

  -- One round: a workspace that belongs to the output goes there, or is dropped if it is empty. The
  -- workspaces are collected from the last to the first, which the source does by a final `reverse`.
  unfoldable pub extract_at : ℕ → ℕ → Extraction s f → Option (Extraction s f)
  extract_at output i e = elim (get_elem? e.primary.workspaces i) [
    | none ↦ none
    | some w ↦ if s.matches w.original_output output then some (take_at i w e) else some e
  ]

  -- `for i in (0..count).rev()`.
  unfoldable pub extract_loop : ℕ → ℕ → Extraction s f → Option (Extraction s f)
  unfolding extract_at
  extract_loop output zero e = some e
  extract_loop output (suc i) e = extract_at output i e >>= extract_loop output i

  -- The clean-up that a stopped switch or two empty workspaces left over need.
  abbrev pub settle_primary : Extraction s f → Option (Monitor s f)
  settle_primary e =
      if e.stopped || (e.primary.empty_workspace_above_first && length e.primary.workspaces == 2)
      then clean_up_workspaces e.primary
      else some e.primary

  unfoldable pub extract : ℕ → Monitor s f → Option (Monitor s f × List (Workspace s))
  unfolding extract_loop
  extract output m = do
    e ←
        extract_loop output (length m.workspaces)
          (record { primary = m; taken = []; stopped = false })
    m' ← settle_primary e
    some (m', e.taken)

  abbrev pub add_output_to : Bool → ℕ → Layout s f → MonitorSet s f → Option (Layout s f)
  add_output_to above output l (normal ms primary active) = elim (get_elem? ms primary) [
    | none ↦ none
    | some m ↦ do
      (m', ws) ← extract output (with_counter l.next_id m)
      new ←
          new_monitor above output m'.next_id ws
            (get (s.output_name output) l.last_active_workspace_id)
      some (record {
        monitor_set = normal (set ms primary m' ++ (new ∷ [])) primary active;
        last_active_workspace_id = delete (s.output_name output) l.last_active_workspace_id;
        next_id = new.next_id;
      })
  ]
  add_output_to above output l (no_outputs ws) = do
    new ←
        new_monitor above output l.next_id ws
          (get (s.output_name output) l.last_active_workspace_id)
    some (record {
      monitor_set = normal (new ∷ []) 0 0;
      last_active_workspace_id = delete (s.output_name output) l.last_active_workspace_id;
      next_id = new.next_id;
    })

  unfoldable pub add_output : Bool → ℕ → Layout s f → Option (Layout s f)
  unfolding extract new_monitor
  add_output above output l = add_output_to above output l l.monitor_set

  -- The workspaces of the removed monitor go to the primary one, or stay without an output.
  abbrev pub rehome :
      List (Workspace s)
      → (gone primary active : ℕ) → ℕ
      → List (Monitor s f)
      → Option (MonitorSet s f × ℕ)
  rehome ws gone primary active counter [] = some (no_outputs (map update_config ws), counter)
  rehome ws gone primary active counter (m0 ∷ ms) =
      elim (get_elem? (m0 ∷ ms) (shift_down gone primary)) [
        | none ↦ none
        | some m ↦ do
          m' ← append_workspaces ws (with_counter counter m)
          some (
            normal (set (m0 ∷ ms) (shift_down gone primary) m') (shift_down gone primary)
                (shift_down gone active),
            m'.next_id,
          )
      ]

  abbrev pub remove_output_from : ℕ → Layout s f → MonitorSet s f → Option (Layout s f)
  remove_output_from output l (no_outputs ws) = none
  remove_output_from output l (normal ms primary active) =
      elim (position (λ m. m.output == output) ms) [
        | none ↦ none
        | some idx ↦ elim (get_elem? ms idx) [
          | none ↦ none
          | some m ↦ elim (get_elem? m.workspaces m.active_workspace_idx) [
            | none ↦ none
            | some w ↦ do
              (set', counter) ←
                  rehome (into_workspaces m) idx primary active l.next_id (erase_idx idx ms)
              some (record {
                monitor_set = set';
                last_active_workspace_id =
                    put (s.output_name output) w.id l.last_active_workspace_id;
                next_id = counter;
              })
          ]
        ]
      ]

  unfoldable pub remove_output : ℕ → Layout s f → Option (Layout s f)
  unfolding into_workspaces append_workspaces
  remove_output output l = remove_output_from output l l.monitor_set
