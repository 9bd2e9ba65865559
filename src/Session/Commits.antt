-- ===== src/Session/Commits.antt =====
-- What a commit of a lock surface changes, src/handlers/compositor.rs.
use macniri.Base.{
  ℕ, inl, inr, refl, Bool, Option, none, some, get, AllValues-adjust, Bool-cases, Option-cases,
}
use macniri.Session.Types.{Niri}
use macniri.Session.Lock.{
  map_surface, commit_lock_surface, is_waiting, maybe_continue_to_locking, queue_redraw,
}
use macniri.Session.Safety.{
  ShowsLock, LockHides-mono, IsHidden, IsSafeResult, maybe_continue_to_locking-IsSafeStep,
  queue_redraw-IsSafeResult,
}

module _ (output : ℕ) (is_mapped : Bool) (n : Niri) where
  map_surface-IsHidden : IsHidden n → IsHidden (map_surface output is_mapped n)
  map_surface-IsHidden =
      LockHides-mono n.lock_state n.output_state _
        (AllValues-adjust ShowsLock output _ (λ s p. p) n.output_state)

  -- The surface itself is no effect.
  map_surface-IsSafeResult :
      (r : Option Niri) → IsSafeResult (map_surface output is_mapped n) r → IsSafeResult n r
  map_surface-IsSafeResult none h = tt
  map_surface-IsSafeResult (some m) h = h

  pub commit_lock_surface-IsSafeResult :
      IsHidden n → IsSafeResult n (commit_lock_surface output is_mapped n)
  unfolding commit_lock_surface
  commit_lock_surface-IsSafeResult h =
      let m = map_surface output is_mapped n in
      let hm = map_surface-IsHidden h in
      elim (Option-cases (get output n.output_state)) [
        | inl e ↦ rw (e, commit_lock_surface) (h, inl refl)
        | inr (s, e) ↦ elim (Option-cases s.lock_surface) [
          | inl q ↦ rw (e, q, commit_lock_surface) (h, inl refl)
          | inr (surface, q) ↦ elim (Bool-cases (is_waiting n.lock_state)) [
            | inl w ↦
                rw (e, q, w, commit_lock_surface)
                  (map_surface-IsSafeResult (some (maybe_continue_to_locking m))
                    (maybe_continue_to_locking-IsSafeStep m hm))
            | inr w ↦
                rw (e, q, w, commit_lock_surface)
                  (map_surface-IsSafeResult (queue_redraw output m)
                    (queue_redraw-IsSafeResult output m hm))
          ]
        ]
      ]
