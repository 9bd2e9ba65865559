-- ===== src/Session/Traces.antt =====
-- Sequences of requests to src/niri.rs.
use macniri.Base.{◌≡◌, subst, inl, inr, Option, some, List, [], ◌∷◌, Option-cases, ◌>>=◌}
use macniri.Session.Types.{Niri}
use macniri.Session.Safety.{IsHidden, IsSafeResult}
use macniri.Session.Steps.{Request, step, step-IsSafeResult}

-- The requests of a session in their order; a panic ends it.
unfoldable pub run : List Request → Niri → Option Niri
unfolding step
run [] n = some n
run (r ∷ rs) n = step r n >>= run rs

-- Whatever requests arrive in whatever order at a session in which a confirmed lock hides every
-- output: in every state they lead to, it hides every output.
pub run-IsHidden : (rs : List Request) (n m : Niri) → IsHidden n → run rs n ≡ some m → IsHidden m
unfolding run
run-IsHidden [] n m h e = subst IsHidden {x = n} {y = m} (cc e) h
run-IsHidden (r ∷ rs) n m h e = elim (Option-cases (step r n)) [
  | inl failed ↦ absurd (cc (rw failed at e))
  | inr (n', s) ↦
      let safe : IsSafeResult n (some n') = rw s at (step-IsSafeResult r n h) in
      run-IsHidden rs n' m safe.0 (rw s at e)
]
