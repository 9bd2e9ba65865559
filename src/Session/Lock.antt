-- ===== src/Session/Lock.antt =====
-- `lock`, `maybe_continue_to_locking`, `continue_to_locking`, `unlock`, `new_lock_surface`,
-- `add_output`, `remove_output` and the monitors' power of src/niri.rs. The closing of the
-- screenshot and window-switcher overlays and the cursor image are not modelled. A timer's token
-- comes from the event loop, as an argument.
use macniri.Base.{
  ℕ, Bool, true, false, Option, none, some, List, [], ◌∷◌, ◌==◌, if◌then◌else◌, get, put, delete,
  adjust, map_values, all_values,
}
use macniri.Session.Types.{
  RedrawState, LockRenderState, SessionLocker, LockSurface, LockState, OutputState, Niri, Effect,
  unlocked, waiting_for_surfaces, locking, locked, insert_timer, remove_timer, confirm,
  queue_redraw_state, is_locked, is_locked_frame,
}

abbrev pub queue_output : OutputState → OutputState
queue_output s = record s { redraw_state = queue_redraw_state s.redraw_state }

unfoldable pub queue_redraw_all : Niri → Niri
queue_redraw_all n = record n { output_state = map_values queue_output n.output_state }

-- `none` is the panic of `unwrap` on an output that is not tracked.
unfoldable pub queue_redraw : ℕ → Niri → Option Niri
queue_redraw output n = elim (get output n.output_state) [
  | none ↦ none
  | some s ↦ some (record n { output_state = adjust output queue_output n.output_state })
]

-- `confirmation.lock()` and the state `Locked`.
unfoldable pub finish_lock : SessionLocker → Niri → Niri
finish_lock c n = record n { lock_state = locked c; effects = confirm c ∷ n.effects }

unfoldable pub all_locked : Niri → Bool
unfolding is_locked_frame
all_locked n = all_values (λ s. is_locked_frame s.lock_render_state) n.output_state

-- Without outputs the session is locked at once; otherwise the lock surfaces are waited for.
unfoldable pub start_lock : ℕ → SessionLocker → List (ℕ × OutputState) → Niri → Niri
unfolding finish_lock
start_lock token c [] n = finish_lock c n
start_lock token c (o ∷ rest) n = record n {
  lock_state = waiting_for_surfaces c token;
  effects = insert_timer token ∷ n.effects;
}

-- `alive` says whether the client of a lock object still runs.
unfoldable pub lock : (SessionLocker → Bool) → ℕ → SessionLocker → Niri → Niri
unfolding start_lock finish_lock
lock alive token c n = elim n.lock_state [
  | waiting_for_surfaces _ _ ↦ n
  | locking _ ↦ n
  | locked old ↦ if alive old then n else finish_lock c n
  | unlocked ↦ start_lock token c n.output_state n
]

unfoldable pub enter_locking : SessionLocker → List (ℕ × OutputState) → Niri → Niri
unfolding finish_lock queue_redraw_all
enter_locking c [] n = finish_lock c n
enter_locking c (o ∷ rest) n = queue_redraw_all (record n { lock_state = locking c })

-- Also the callback of the deadline timer.
unfoldable pub continue_to_locking : Niri → Niri
unfolding enter_locking
continue_to_locking n = elim n.lock_state [
  | waiting_for_surfaces c token ↦
      enter_locking c n.output_state (record n { effects = remove_timer token ∷ n.effects })
  | _ ↦ n
]

-- The lock surface exists and has had a commit.
abbrev pub has_surface : OutputState → Bool
has_surface s = elim s.lock_surface [ none ↦ false | some surface ↦ surface.is_mapped ]

unfoldable pub maybe_continue_to_locking : Niri → Niri
unfolding continue_to_locking
maybe_continue_to_locking n = elim n.lock_state [
  | waiting_for_surfaces c token ↦
      (if all_values has_surface n.output_state then continue_to_locking n else n)
  | _ ↦ n
]

abbrev pub drop_surface : OutputState → OutputState
drop_surface s = record s { lock_surface = none }

abbrev drop_deadline : LockState → List Effect → List Effect
drop_deadline (waiting_for_surfaces c token) effects = remove_timer token ∷ effects
drop_deadline other effects = effects

unfoldable pub unlock : Niri → Niri
unfolding queue_redraw_all
unlock n = queue_redraw_all (record n {
  lock_state = unlocked;
  effects = drop_deadline n.lock_state n.effects;
  output_state = map_values drop_surface n.output_state;
})

abbrev locker : LockState → Option SessionLocker
locker unlocked = none
locker (waiting_for_surfaces c token) = some c
locker (locking c) = some c
locker (locked c) = some c

-- A surface of another client than the lock's, and one on an unlocked session, are ignored.
abbrev pub is_waiting : LockState → Bool
is_waiting (waiting_for_surfaces confirmation token) = true
is_waiting other = false

unfoldable pub new_lock_surface : LockSurface → ℕ → Niri → Niri
new_lock_surface surface output n = elim (locker n.lock_state) [
  | none ↦ n
  | some c ↦
      (if c.client == surface.client
        then record n {
          output_state =
              adjust output (λ s. record s { lock_surface = some surface }) n.output_state;
        }
        else n)
]

-- The client commits the lock surface of an output, which is mapped by a buffer.
abbrev pub map_surface : ℕ → (is_mapped : Bool) → Niri → Niri
map_surface output is_mapped n = record n {
  output_state =
      adjust output
        (λ s. record s {
          lock_surface = elim s.lock_surface [
            | none ↦ none
            | some surface ↦ some (record surface { is_mapped = is_mapped })
          ];
        })
        n.output_state;
}

-- `CompositorHandler::commit` for the lock surface of an output, if it has one.
unfoldable pub commit_lock_surface : ℕ → (is_mapped : Bool) → Niri → Option Niri
unfolding queue_redraw maybe_continue_to_locking
commit_lock_surface output is_mapped n = elim (get output n.output_state) [
  | none ↦ some n
  | some s ↦ elim s.lock_surface [
    | none ↦ some n
    | some surface ↦
        (let m = map_surface output is_mapped n in
          if is_waiting n.lock_state
          then some (maybe_continue_to_locking m)
          else queue_redraw output m)
  ]
]

abbrev pub new_output_state : LockState → OutputState
new_output_state l = record {
  redraw_state = RedrawState.idle;
  unfinished_animations_remain = false;
  frame_callback_sequence = 0;
  lock_render_state =
      if is_locked l then LockRenderState.locked_frame else LockRenderState.session_frame;
  lock_surface = none;
}

-- `reposition_outputs` redraws the outputs that it moves, the new one among them.
abbrev pub queue_moved : (ℕ → Bool) → List (ℕ × OutputState) → List (ℕ × OutputState)
queue_moved moved [] = []
queue_moved moved ((o, s) ∷ rest) =
    (o, if moved o then queue_output s else s) ∷ queue_moved moved rest

unfoldable pub reposition_outputs : (ℕ → Bool) → Niri → Niri
reposition_outputs moved n = record n { output_state = queue_moved moved n.output_state }

-- An output that is tracked already is a failed assertion.
unfoldable pub add_output : (ℕ → Bool) → ℕ → Niri → Option Niri
unfolding reposition_outputs
add_output moved output n = elim (get output n.output_state) [
  | some s ↦ none
  | none ↦ some (
      reposition_outputs moved
        (record n { output_state = put output (new_output_state n.lock_state) n.output_state }))
]

-- An output may have been the last that was not locked, or that had no surface.
unfoldable pub remove_output_lock : Niri → Niri
unfolding all_locked finish_lock maybe_continue_to_locking
remove_output_lock n = elim n.lock_state [
  | locking c ↦ (if all_locked n then finish_lock c n else n)
  | _ ↦ maybe_continue_to_locking n
]

abbrev pub drop_token : RedrawState → List Effect → List Effect
drop_token (RedrawState.waiting_for_estimated_vblank token) effects = remove_timer token ∷ effects
drop_token (RedrawState.waiting_for_estimated_vblank_and_queued token) effects =
    remove_timer token ∷ effects
drop_token other effects = effects

unfoldable pub remove_output : (ℕ → Bool) → ℕ → Niri → Option Niri
unfolding reposition_outputs remove_output_lock
remove_output moved output n =
    let m = reposition_outputs moved n in
    elim (get output m.output_state) [
      | none ↦ none
      | some s ↦ some (
          remove_output_lock (record m {
            output_state = delete output m.output_state;
            effects = drop_token s.redraw_state m.effects;
          }))
    ]

unfoldable pub activate_monitors : Niri → Niri
unfolding queue_redraw_all
activate_monitors n =
    if n.monitors_active then n else queue_redraw_all (record n { monitors_active = true })

unfoldable pub deactivate_monitors : Niri → Niri
deactivate_monitors n = record n { monitors_active = false }
