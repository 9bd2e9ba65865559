-- ===== src/Session/Safety.antt =====
-- What a locked session guarantees about the frames that are shown.
use Prim.Native.Nat.{◌+◌}
use macniri.Base.{
  ℕ, ◌≡◌, ◌⊎◌, refl, ◌∙◌, inl, inr, Bool, true, Option, none, some, List, [], ◌∷◌, arith, get, put,
  delete, AllValues, AllValues-map, AllValues-adjust, AllValues-put, AllValues-delete,
  AllValues-of_all_values, Bool-cases, Option-cases,
}
use macniri.Session.Types.{
  RedrawState, LockRenderState, SessionLocker, LockSurface, LockState, OutputState, Niri, Effect,
  unlocked, waiting_for_surfaces, locking, locked, confirm, insert_timer, remove_timer, is_locked,
  is_locked_frame,
}
use macniri.Session.Lock.{
  queue_output, queue_moved, queue_redraw_all, queue_redraw, finish_lock, all_locked, lock,
  continue_to_locking, maybe_continue_to_locking, unlock, new_lock_surface, new_output_state,
  reposition_outputs, add_output, remove_output_lock, drop_token, remove_output, activate_monitors,
}
use macniri.Session.Redraw.{check_lock}

-- The last frame of the output hid the session.
abbrev pub ShowsLock : OutputState → Type 0
ShowsLock s = s.lock_render_state ≡ LockRenderState.locked_frame

abbrev pub AllShowLock : List (ℕ × OutputState) → Type 0
AllShowLock = AllValues ShowsLock

-- While the lock is confirmed, no output shows the session.
abbrev pub LockHides : LockState → List (ℕ × OutputState) → Type 0
LockHides (locked c) outputs = AllShowLock outputs
LockHides other outputs = Unit

abbrev pub IsHidden : Niri → Type 0
IsHidden n = LockHides n.lock_state n.output_state

-- How often a lock was confirmed to a client.
abbrev pub confirmations : List Effect → ℕ
confirmations [] = 0
confirmations (confirm c ∷ es) = confirmations es + 1
confirmations (insert_timer t ∷ es) = confirmations es
confirmations (remove_timer t ∷ es) = confirmations es

-- After the step a confirmed lock hides the session, and no lock was confirmed before it did.
abbrev pub IsSafeStep : Niri → Niri → Type 0
IsSafeStep n m =
    IsHidden m × ((confirmations m.effects ≡ confirmations n.effects) ⊎ AllShowLock m.output_state)

pub AllShowLock-of_all_locked : (n : Niri) → all_locked n ≡ true → AllShowLock n.output_state
unfolding all_locked
AllShowLock-of_all_locked n h =
    AllValues-of_all_values ShowsLock (λ s. is_locked_frame s.lock_render_state)
      (λ s e. shows s.lock_render_state e) n.output_state h
  where
    shows : (l : LockRenderState) → is_locked_frame l ≡ true → l ≡ LockRenderState.locked_frame
    shows l e = ground arith

pub queue_output-ShowsLock : (s : OutputState) → ShowsLock s → ShowsLock (queue_output s)
queue_output-ShowsLock s h = h

pub LockHides-mono :
    (l : LockState) (a b : List (ℕ × OutputState))
    → (AllShowLock a → AllShowLock b)
    → LockHides l a
    → LockHides l b
LockHides-mono unlocked a b f h = tt
LockHides-mono (waiting_for_surfaces c t) a b f h = tt
LockHides-mono (locking c) a b f h = tt
LockHides-mono (locked c) a b f h = f h

queue_redraw_all-IsHidden : (n : Niri) → IsHidden n → IsHidden (queue_redraw_all n)
unfolding queue_redraw_all
queue_redraw_all-IsHidden n =
    LockHides-mono n.lock_state n.output_state _
      (AllValues-map ShowsLock queue_output queue_output-ShowsLock n.output_state)

-- Outputs that move keep their last frame.
queue_moved-AllShowLock :
    (moved : ℕ → Bool) (m : List (ℕ × OutputState))
    → AllShowLock m
    → AllShowLock (queue_moved moved m)
queue_moved-AllShowLock moved [] h = tt
queue_moved-AllShowLock moved ((o, s) ∷ m) h = elim (Bool-cases (moved o)) [
  | inl e ↦ rw e (h.0, queue_moved-AllShowLock moved m h.1)
  | inr e ↦ rw e (h.0, queue_moved-AllShowLock moved m h.1)
]

-- The fields on which locking branches, replaced, so that proofs can match on them.
abbrev with_state : Niri → LockState → List (ℕ × OutputState) → Niri
with_state n l m = record n { lock_state = l; output_state = m }

pub lock-IsSafeStep :
    (alive : SessionLocker → Bool) (token : ℕ) (c : SessionLocker) (n : Niri)
    → IsHidden n
    → IsSafeStep n (lock alive token c n)
unfolding lock
lock-IsSafeStep alive token c n = on_state n.lock_state n.output_state
  where
    on_state :
        (l : LockState) (m : List (ℕ × OutputState))
        → LockHides l m
        → IsSafeStep (with_state n l m) (lock alive token c (with_state n l m))
    on_state unlocked [] h = (tt, inr tt)
    on_state unlocked (o ∷ m) h = (tt, inl refl)
    on_state (waiting_for_surfaces c' t) m h = (tt, inl refl)
    on_state (locking c') m h = (tt, inl refl)
    on_state (locked old) m h = elim (Bool-cases (alive old)) [
      | inl e ↦ rw (e, lock) (h, inl refl)
      | inr e ↦ rw (e, lock) (h, inr h)
    ]

pub continue_to_locking-IsSafeStep : (n : Niri) → IsHidden n → IsSafeStep n (continue_to_locking n)
unfolding continue_to_locking
continue_to_locking-IsSafeStep n = on_state n.lock_state n.output_state
  where
    on_state :
        (l : LockState) (m : List (ℕ × OutputState))
        → LockHides l m
        → IsSafeStep (with_state n l m) (continue_to_locking (with_state n l m))
    on_state unlocked m h = (tt, inl refl)
    on_state (waiting_for_surfaces c' t) [] h = (tt, inr tt)
    on_state (waiting_for_surfaces c' t) (o ∷ m) h = (tt, inl refl)
    on_state (locking c') m h = (tt, inl refl)
    on_state (locked old) m h = (h, inl refl)

pub maybe_continue_to_locking-IsSafeStep :
    (n : Niri) → IsHidden n → IsSafeStep n (maybe_continue_to_locking n)
unfolding maybe_continue_to_locking
maybe_continue_to_locking-IsSafeStep n h = ground (arith, continue_to_locking-IsSafeStep n h)

pub unlock-confirmations : (n : Niri) → confirmations (unlock n).effects ≡ confirmations n.effects
unfolding unlock
unlock-confirmations n = on_state n.lock_state
  where
    on_state :
        (l : LockState)
        → confirmations (unlock (record n { lock_state = l })).effects ≡ confirmations n.effects
    on_state unlocked = refl
    on_state (waiting_for_surfaces c t) = refl
    on_state (locking c) = refl
    on_state (locked c) = refl

pub unlock-IsSafeStep : (n : Niri) → IsSafeStep n (unlock n)
unfolding unlock
unlock-IsSafeStep n = (tt, inl (unlock-confirmations n))

pub check_lock-IsSafeStep :
    (shown : LockRenderState) (n : Niri) → IsHidden n → IsSafeStep n (check_lock shown n)
unfolding check_lock
check_lock-IsSafeStep shown n h = ground (arith, unlock-IsSafeStep n, AllShowLock-of_all_locked n)

pub new_lock_surface-IsSafeStep :
    (surface : LockSurface) (output : ℕ) (n : Niri)
    → IsHidden n
    → IsSafeStep n (new_lock_surface surface output n)
unfolding new_lock_surface
new_lock_surface-IsSafeStep surface output n h = ground (
  arith,
  LockHides-mono n.lock_state n.output_state _
      (AllValues-adjust ShowsLock output (λ s. record s { lock_surface = some surface }) (λ s p. p)
        n.output_state)
      h,
)

reposition_outputs-IsHidden :
    (moved : ℕ → Bool) (n : Niri) → IsHidden n → IsHidden (reposition_outputs moved n)
unfolding reposition_outputs
reposition_outputs-IsHidden moved n =
    LockHides-mono n.lock_state n.output_state _ (queue_moved-AllShowLock moved n.output_state)

put-IsSafeStep :
    (moved : ℕ → Bool) (output : ℕ) (n : Niri)
    → IsHidden n
    → IsSafeStep n (
        reposition_outputs moved
          (record n { output_state = put output (new_output_state n.lock_state) n.output_state }))
unfolding reposition_outputs is_locked
put-IsSafeStep moved output n h = (on_state n.lock_state n.output_state h, inl refl)
  where
    on_state :
        (l : LockState) (m : List (ℕ × OutputState))
        → LockHides l m
        → LockHides l (queue_moved moved (put output (new_output_state l) m))
    on_state unlocked m h = tt
    on_state (waiting_for_surfaces c t) m h = tt
    on_state (locking c) m h = tt
    on_state (locked c) m h =
        queue_moved-AllShowLock moved _
          (AllValues-put ShowsLock output (new_output_state (locked c)) refl m h)

remove_output_lock-IsSafeStep : (n : Niri) → IsHidden n → IsSafeStep n (remove_output_lock n)
unfolding remove_output_lock finish_lock
remove_output_lock-IsSafeStep n h =
    ground (arith, maybe_continue_to_locking-IsSafeStep n h, AllShowLock-of_all_locked n)

drop_token-confirmations :
    (r : RedrawState) (es : List Effect) → confirmations (drop_token r es) ≡ confirmations es
drop_token-confirmations RedrawState.idle es = refl
drop_token-confirmations (RedrawState.waiting_for_estimated_vblank t) es = refl
drop_token-confirmations _ es = refl

-- No effect of `m` beyond those of `n` confirms a lock, so a step from `m` is one from `n`.
pub IsSafeStep-of_effects :
    (n m r : Niri)
    → confirmations m.effects ≡ confirmations n.effects
    → IsSafeStep m r
    → IsSafeStep n r
IsSafeStep-of_effects n m r e (h, inl k) = (h, inl (k ∙ e))
IsSafeStep-of_effects n m r e (h, inr k) = (h, inr k)

-- A step that panics leaves no state behind.
abbrev pub IsSafeResult : Niri → Option Niri → Type 0
IsSafeResult n none = Unit
IsSafeResult n (some m) = IsSafeStep n m

pub add_output-IsSafeResult :
    (moved : ℕ → Bool) (output : ℕ) (n : Niri)
    → IsHidden n
    → IsSafeResult n (add_output moved output n)
unfolding add_output
add_output-IsSafeResult moved output n h = elim (Option-cases (get output n.output_state)) [
  | inl e ↦ rw (e, add_output) (put-IsSafeStep moved output n h)
  | inr (s, e) ↦ rw (e, add_output) tt
]

pub remove_output-IsSafeResult :
    (moved : ℕ → Bool) (output : ℕ) (n : Niri)
    → IsHidden n
    → IsSafeResult n (remove_output moved output n)
unfolding remove_output reposition_outputs
remove_output-IsSafeResult moved output n h =
    elim (Option-cases (get output (reposition_outputs moved n).output_state)) [
      | inl e ↦ rw (e, remove_output) tt
      | inr (s, e) ↦
          rw (e, remove_output)
            (IsSafeStep-of_effects n (without s) (remove_output_lock (without s))
              (drop_token-confirmations s.redraw_state n.effects)
              (remove_output_lock-IsSafeStep (without s) (
                LockHides-mono n.lock_state _ _ (AllValues-delete ShowsLock output _)
                  (reposition_outputs-IsHidden moved n h))))
    ]
  where
    without : OutputState → Niri
    without s =
        let m = reposition_outputs moved n in
        record m {
          output_state = delete output m.output_state;
          effects = drop_token s.redraw_state m.effects;
        }

pub queue_redraw-IsSafeResult :
    (output : ℕ) (n : Niri) → IsHidden n → IsSafeResult n (queue_redraw output n)
unfolding queue_redraw
queue_redraw-IsSafeResult output n h = elim (Option-cases (get output n.output_state)) [
  | inl e ↦ rw (e, queue_redraw) tt
  | inr (s, e) ↦
      rw (e, queue_redraw)
        (
          LockHides-mono n.lock_state n.output_state _
              (AllValues-adjust ShowsLock output queue_output queue_output-ShowsLock n.output_state)
              h,
          inl refl,
        )
]

pub activate_monitors-IsSafeStep : (n : Niri) → IsHidden n → IsSafeStep n (activate_monitors n)
unfolding activate_monitors
activate_monitors-IsSafeStep n h = elim (Bool-cases n.monitors_active) [
  | inl e ↦ rw (e, activate_monitors) (h, inl refl)
  | inr e ↦
      rw (e, activate_monitors)
        (queue_redraw_all-IsHidden (record n { monitors_active = true }) h, inl refl)
]
