-- ===== src/Examples/FrameClock.antt =====
-- A 60 Hz and a variable refresh rate clock of src/frame_clock.rs.
use macniri.Base.{ℕ, max, ◌+◌, ◌≡◌, refl, arith, Bool, true, false, some}
use macniri.FrameClock.Defs.{FrameClock, next_presentation_time, set_vrr, presented}
use macniri.FrameClock.Prediction.{
  IsNextFrame, next_presentation_time-IsNextFrame, next_presentation_time-vrr,
}

abbrev clock_after : Bool → ℕ → FrameClock
clock_after vrr last = record {
  last_presentation_time = some last;
  refresh_interval_ns = some 16666666;
  vrr = vrr;
}

-- Two frames were missed.
missed_frames : next_presentation_time 40000000 (clock_after false 1000000) ≡ 50999998
unfolding next_presentation_time
missed_frames = refl

next_presentation_time-IsNextFrame_example :
    IsNextFrame 40000000 1000000 16666666
      (next_presentation_time 40000000 (clock_after false 1000000))
next_presentation_time-IsNextFrame_example =
    next_presentation_time-IsNextFrame 40000000 1000000 16666666 (omega arith) (omega arith)

next_presentation_time-vrr_example :
    next_presentation_time 40000000 (clock_after true 1000000) ≡ max 40000000 (1000000 + 16666666)
next_presentation_time-vrr_example =
    next_presentation_time-vrr 40000000 1000000 16666666 (omega arith) (omega arith) (omega arith)

-- A change of mode forgets the last presentation.
mode_changed :
    next_presentation_time 40000000 (presented 0 (set_vrr true (clock_after false 1000000)))
    ≡ 40000000
unfolding next_presentation_time set_vrr presented
mode_changed = refl
