-- ===== src/Session/Completion.antt =====
-- A lock that has begun is confirmed by the next `redraw_queued_outputs`.
use macniri.Base.{
  ℕ, ◌≤◌, ◌<◌, ◌≡◌, ◌≢◌, ◌⊎◌, refl, ap, ◌∙◌, inl, inr, Bool, true, false, none, List, [], ◌∷◌,
  arith, Distinct, Distinct-map, map_values, all_values, AllValues, AllValues-map, AllValues-adjust,
  length,
}
use macniri.Session.Types.{
  SessionLocker, OutputState, Niri, waiting_for_surfaces, locking, locked, is_locked,
  is_locked_frame, is_queued, idle, queue_redraw_state, remove_timer,
}
use macniri.Session.Lock.{all_locked, queue_output, continue_to_locking, enter_locking}
use macniri.Session.Safety.{ShowsLock, AllShowLock}
use macniri.Session.Redraw.{Backend, find_queued, redraw_queued_outputs, done}
use macniri.Session.Loop.{IsCalm, queued_count, Redrawn, loop-done}

-- A queued output, or one that shows the lock.
abbrev WillShow : OutputState → Type 0
WillShow s = (is_queued s.redraw_state ≡ true) ⊎ ShowsLock s

-- Locking for `c` goes on while an output is queued, and has then been confirmed.
abbrev Locks : SessionLocker → Niri → Type 0
Locks c n =
    AllValues WillShow n.output_state
    × (((n.lock_state ≡ locking c) × (find_queued n.output_state ≢ none))
        ⊎ (n.lock_state ≡ locked c))

find_queued-some :
    (m : List (ℕ × OutputState))
    → AllValues WillShow m
    → all_values (λ s. is_locked_frame s.lock_render_state) m ≡ false
    → find_queued m ≢ none
unfolding find_queued is_locked_frame
find_queued-some [] w e h = cc e
find_queued-some ((o, s) ∷ m) w e h = ground (arith, find_queued-some m w.1)

find_queued-idle :
    (m : List (ℕ × OutputState)) → AllValues (λ s. s.redraw_state ≡ idle) m → find_queued m ≡ none
unfolding find_queued is_queued
find_queued-idle [] h = refl
find_queued-idle ((o, s) ∷ m) h = ground (arith, find_queued-idle m h.1)

idle-ShowsLock :
    (m : List (ℕ × OutputState))
    → AllValues (λ s. s.redraw_state ≡ idle) m
    → AllValues WillShow m
    → AllShowLock m
unfolding is_queued
idle-ShowsLock [] h w = tt
idle-ShowsLock ((o, s) ∷ m) h w = (ground arith, idle-ShowsLock m h.1 w.1)

Redrawn-Locks : (c : SessionLocker) (o : ℕ) (n m : Niri) → Locks c n → Redrawn o n m → Locks c m
unfolding is_locked all_locked
Redrawn-Locks c o n m (w, l) r = (
  will,
  elim l [
    | inr held ↦ inr (r.kept c held)
    | inl (going, _) ↦ elim (r.confirmed c going) [
      | inr held ↦ inr held
      | inl (still, unseen) ↦ inl (still, find_queued-some m.output_state will unseen)
    ]
  ],
)
  where
    shown : ShowsLock r.drawn
    shown = r.shows (ground arith)

    will : AllValues WillShow m.output_state
    will =
        rw r.outputs
          (AllValues-adjust WillShow o (λ _. r.drawn) (λ _ _. inr shown) n.output_state w)

queue_output-queued : (s : OutputState) → IsCalm s → WillShow (queue_output s)
unfolding queue_redraw_state is_queued
queue_output-queued s c = inl (ground arith)

queue_output-IsCalm : (s : OutputState) → IsCalm s → IsCalm (queue_output s)
unfolding queue_redraw_state
queue_output-IsCalm s c = ground arith

queue_all-WillShow :
    (m : List (ℕ × OutputState))
    → AllValues IsCalm m
    → AllValues WillShow (map_values queue_output m)
queue_all-WillShow [] c = tt
queue_all-WillShow ((o, s) ∷ m) c = (queue_output-queued s c.0, queue_all-WillShow m c.1)

queued_count-le-length : (m : List (ℕ × OutputState)) → queued_count m ≤ length m
queued_count-le-length [] = omega arith
queued_count-le-length ((o, s) ∷ m) = ground (arith, queued_count-le-length m)

-- What `continue_to_locking` makes of a session that waits for lock surfaces.
record Begun (c : SessionLocker) (n : Niri) : Type 0 where
  calm : AllValues IsCalm n.output_state
  distinct : Distinct n.output_state
  locks : Locks c n

find_queued-queue_output :
    (o : ℕ) (s : OutputState) (m : List (ℕ × OutputState))
    → IsCalm s
    → find_queued ((o, queue_output s) ∷ m) ≢ none
unfolding find_queued is_queued queue_redraw_state
find_queued-queue_output o s m c e = ground arith

length-map_values :
    (f : OutputState → OutputState) (m : List (ℕ × OutputState))
    → length (map_values f m) ≡ length m
length-map_values f [] = refl
length-map_values f ((o, s) ∷ m) = omega (arith, length-map_values f m)

enter_locking-Begun :
    (c : SessionLocker) (m : List (ℕ × OutputState)) (n : Niri)
    → n.output_state ≡ m
    → AllValues IsCalm m
    → Distinct m
    → Begun c (enter_locking c m n)
      × (queued_count (enter_locking c m n).output_state ≤ length n.output_state)
unfolding enter_locking
enter_locking-Begun c [] n e k d =
    (record { calm = rw e tt; distinct = rw e tt; locks = (rw e tt, inr refl) }, rw e (omega arith))
enter_locking-Begun c ((o, s) ∷ m) n e k d = (
  record {
    calm = rw e (AllValues-map IsCalm queue_output queue_output-IsCalm ((o, s) ∷ m) k);
    distinct = rw e (Distinct-map queue_output ((o, s) ∷ m) d);
    locks =
        rw e (queue_all-WillShow ((o, s) ∷ m) k, inl (refl, find_queued-queue_output o s _ k.0));
  },
  omega (
    arith,
    queued_count-le-length (map_values queue_output n.output_state),
    length-map_values queue_output n.output_state,
  ),
)

Locks-drained :
    (c : SessionLocker) (m : Niri)
    → AllValues (λ s. s.redraw_state ≡ idle) m.output_state
    → Locks c m
    → m.lock_state ≡ locked c
Locks-drained c m i (w, inl (_, more)) = absurd (more (find_queued-idle m.output_state i))
Locks-drained c m i (w, inr held) = held

continue_to_locking-enter_locking :
    (c : SessionLocker) (token : ℕ) (n : Niri)
    → n.lock_state ≡ waiting_for_surfaces c token
    → continue_to_locking n
      ≡ enter_locking c n.output_state (record n { effects = remove_timer token ∷ n.effects })
unfolding continue_to_locking
continue_to_locking-enter_locking c token n l = ground arith

-- Without an output that waits for a vblank, with different outputs and a round of fuel for each: when a
-- session that waits for lock surfaces continues to locking, the next `redraw_queued_outputs` ends
-- with the lock confirmed for that client and every output showing it.
pub continue_to_locking-locks :
    (fuel : ℕ) (b : Backend) (animating : ℕ → Bool) (n : Niri) (c : SessionLocker) (token : ℕ)
    → n.lock_state ≡ waiting_for_surfaces c token
    → AllValues IsCalm n.output_state
    → Distinct n.output_state
    → length n.output_state < fuel
    → (m : Niri) × (redraw_queued_outputs fuel b animating (continue_to_locking n) ≡ done m)
      × (m.lock_state ≡ locked c)
      × AllShowLock m.output_state
continue_to_locking-locks fuel b animating n c token l k d f =
    let before : Niri = record n { effects = remove_timer token ∷ n.effects } in
    let (begun, count) = enter_locking-Begun c n.output_state before refl k d in
    let (m, e, i, w) =
      loop-done (Locks c) (Redrawn-Locks c) fuel b animating _ begun.calm begun.distinct
        (omega arith) begun.locks in
    (
      m,
      ap (redraw_queued_outputs fuel b animating) (continue_to_locking-enter_locking c token n l)
          ∙ e,
      Locks-drained c m i w,
      idle-ShowsLock m.output_state i w.0,
    )
