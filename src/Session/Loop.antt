-- ===== src/Session/Loop.antt =====
-- `redraw_queued_outputs` ends, serves every queued output, and completes a lock that was begun.
use macniri.Base.{
  ℕ, zero, suc, ◌+◌, ◌<◌, ◌≡◌, ◌⊎◌, refl, inl, inr, Bool, true, false, none, some, List, [], ◌∷◌,
  arith, get, Distinct, Distinct-adjust, adjust, if◌then◌else◌, AllValues, AllValues-adjust,
  AllValues-get, Bool-cases, Option-cases,
}
use macniri.Session.Types.{
  LockRenderState, SessionLocker, OutputState, Niri, locking, locked, is_locked, is_queued, idle,
  queued,
}
use macniri.Session.Lock.{all_locked}
use macniri.Session.Redraw.{
  Backend, winit, headless, render_output, after_render, check_lock, redraw, find_queued,
  redraw_queued_outputs, done,
}

-- No output waits for a vblank. The backends that are built never make one wait.
abbrev pub IsCalm : OutputState → Type 0
IsCalm s = (s.redraw_state ≡ idle) ⊎ (s.redraw_state ≡ queued)

abbrev pub queued_count : List (ℕ × OutputState) → ℕ
queued_count [] = 0
queued_count ((o, s) ∷ m) = (if is_queued s.redraw_state then 1 else 0) + queued_count m

-- The key that the search finds leads to a queued output.
find_queued-get :
    (o : ℕ) (m : List (ℕ × OutputState))
    → Distinct m
    → find_queued m ≡ some o
    → (s : OutputState) × (get o m ≡ some s) × (is_queued s.redraw_state ≡ true)
unfolding find_queued
find_queued-get o [] d h = absurd (cc h)
find_queued-get o ((j, w) ∷ m) d h = elim (Bool-cases (is_queued w.redraw_state)) [
  | inl e ↦ (w, ground arith, e)
  | inr e ↦ let (s, p, q) = find_queued-get o m d.1 (rw e at h) in (s, ground arith, q)
]

queued_count-adjust :
    (o : ℕ) (s' : OutputState) (m : List (ℕ × OutputState)) {s : OutputState}
    → get o m ≡ some s
    → is_queued s.redraw_state ≡ true
    → s'.redraw_state ≡ idle
    → queued_count (adjust o (λ _. s') m) + 1 ≡ queued_count m
unfolding is_queued
queued_count-adjust o s' [] g q i = absurd (cc g)
queued_count-adjust o s' ((j, w) ∷ m) {s} g q i = ground (arith, queued_count-adjust o s' m {s = s})

-- What `redraw` makes of a queued output: its output goes idle, shows the lock if the session is
-- locked, and nothing else happens but, perhaps, the confirmation of the lock.
pub record Redrawn (output : ℕ) (n m : Niri) : Type 0 where
  pub drawn : OutputState
  pub outputs : m.output_state ≡ adjust output (λ _. drawn) n.output_state
  pub is_idle : drawn.redraw_state ≡ idle
  pub shows : is_locked n.lock_state ≡ true → drawn.lock_render_state ≡ LockRenderState.locked_frame
  pub confirmed :
      (c : SessionLocker)
      → n.lock_state ≡ locking c
      → ((m.lock_state ≡ locking c) × (all_locked m ≡ false)) ⊎ (m.lock_state ≡ locked c)
  pub kept : (c : SessionLocker) → n.lock_state ≡ locked c → m.lock_state ≡ locked c

check_lock-Redrawn :
    (output : ℕ) (n : Niri) (s' : OutputState)
    → s'.redraw_state ≡ idle
    → s'.lock_render_state ≡ (
        if is_locked n.lock_state
        then LockRenderState.locked_frame
        else LockRenderState.session_frame)
    → Redrawn output n (
        check_lock s'.lock_render_state
          (record n { output_state = adjust output (λ _. s') n.output_state }))
unfolding check_lock is_locked
check_lock-Redrawn output n s' i l = record {
  drawn = s';
  outputs = ground arith;
  is_idle = i;
  shows = λ e. ground arith;
  confirmed = λ c e. ground arith;
  kept = λ c e. ground arith;
}

-- The new state of a queued output.
drawn : Backend → Bool → Niri → OutputState → OutputState
drawn b animating n s = elim (render_output b animating n.monitors_active s) [
  | none ↦ s
  | some (s', res) ↦ after_render (is_locked n.lock_state) n.monitors_active res s'
]

redrawn : Backend → Bool → ℕ → Niri → OutputState → Niri
redrawn b animating output n s =
    check_lock (drawn b animating n s).lock_render_state
      (record n { output_state = adjust output (λ _. drawn b animating n s) n.output_state })

drawn-is_idle :
    (b : Backend) (animating : Bool) (n : Niri) (s : OutputState)
    → s.redraw_state ≡ queued
    → (drawn b animating n s).redraw_state ≡ idle
unfolding drawn render_output after_render
drawn-is_idle winit animating n s q = ground arith
drawn-is_idle headless animating n s q = ground arith

drawn-shows :
    (b : Backend) (animating : Bool) (n : Niri) (s : OutputState)
    → s.redraw_state ≡ queued
    → (drawn b animating n s).lock_render_state ≡ (
        if is_locked n.lock_state
        then LockRenderState.locked_frame
        else LockRenderState.session_frame)
unfolding drawn render_output after_render
drawn-shows winit animating n s q = ground arith
drawn-shows headless animating n s q = ground arith

redraw-redrawn :
    (b : Backend) (animating : Bool) (output : ℕ) (n : Niri) (s : OutputState)
    → get output n.output_state ≡ some s
    → s.redraw_state ≡ queued
    → redraw b animating output n ≡ some (redrawn b animating output n s)
unfolding redraw redrawn drawn render_output is_queued
redraw-redrawn winit animating output n s e q = ground arith
redraw-redrawn headless animating output n s e q = ground arith

redrawn-Redrawn :
    (b : Backend) (animating : Bool) (output : ℕ) (n : Niri) (s : OutputState)
    → s.redraw_state ≡ queued
    → Redrawn output n (redrawn b animating output n s)
unfolding redrawn
redrawn-Redrawn b animating output n s q =
    check_lock-Redrawn output n (drawn b animating n s) (drawn-is_idle b animating n s q)
      (drawn-shows b animating n s q)

IsCalm-queued :
    (s : OutputState) → IsCalm s → is_queued s.redraw_state ≡ true → s.redraw_state ≡ queued
unfolding is_queued
IsCalm-queued s h e = ground arith

IsDrained : Niri → Type 0
IsDrained m = AllValues (λ s. s.redraw_state ≡ idle) m.output_state

find_queued-none :
    (m : List (ℕ × OutputState))
    → AllValues IsCalm m
    → find_queued m ≡ none
    → AllValues (λ s. s.redraw_state ≡ idle) m
unfolding find_queued is_queued
find_queued-none [] c h = tt
find_queued-none ((o, s) ∷ m) c h = (ground arith, find_queued-none m c.1 (ground arith))

module _ (P : Niri → Type 0) (keep : (o : ℕ) (n m : Niri) → P n → Redrawn o n m → P m) where
  -- The loop ends with as many rounds as there are queued outputs, by its test, and a property
  -- that every redraw keeps holds at its end.
  pub loop-done :
      (fuel : ℕ) (b : Backend) (animating : ℕ → Bool) (n : Niri)
      → AllValues IsCalm n.output_state
      → Distinct n.output_state
      → queued_count n.output_state < fuel
      → P n
      → (m : Niri) × (redraw_queued_outputs fuel b animating n ≡ done m)
        × AllValues (λ s. s.redraw_state ≡ idle) m.output_state
        × P m
  unfolding redraw_queued_outputs
  loop-done zero b animating n c d f p = absurd (omega arith)
  loop-done (suc fuel) b animating n c d f p = elim (Option-cases (find_queued n.output_state)) [
    | inl e ↦ (n, rw (e, redraw_queued_outputs) refl, find_queued-none n.output_state c e, p)
    | inr (o, e) ↦
        let (s, g, q') = find_queued-get o n.output_state d e in
        let q = IsCalm-queued s (AllValues-get IsCalm o n.output_state c g) q' in
        let next = redrawn b (animating o) o n s in
        let w = redrawn-Redrawn b (animating o) o n s q in
        let (z, t, i, k) =
          loop-done fuel b animating next
            (rw w.outputs (AllValues-adjust IsCalm o _ (λ _ _. inl w.is_idle) n.output_state c))
            (rw w.outputs (Distinct-adjust o _ n.output_state d))
            (rw w.outputs
              (omega (arith, queued_count-adjust o w.drawn n.output_state {s = s} g q' w.is_idle)))
            (keep o n next p w) in
        (z, rw (e, redraw_queued_outputs) (rw (redraw-redrawn b (animating o) o n s g q) t), i, k)
  ]

-- Where no output waits for a vblank and the outputs are different, the loop ends by its own test with
-- more fuel than outputs are queued, without a panic, and leaves every output idle.
pub redraw_queued_outputs-done :
    (fuel : ℕ) (b : Backend) (animating : ℕ → Bool) (n : Niri)
    → AllValues IsCalm n.output_state
    → Distinct n.output_state
    → queued_count n.output_state < fuel
    → (m : Niri) × (redraw_queued_outputs fuel b animating n ≡ done m)
      × AllValues (λ s. s.redraw_state ≡ idle) m.output_state
redraw_queued_outputs-done fuel b animating n c d f =
    let (m, e, i, _) = loop-done (λ _. Unit {0}) (λ _ _ _ _ _. tt) fuel b animating n c d f tt in
    (m, e, i)
