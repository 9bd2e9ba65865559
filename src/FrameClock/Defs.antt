-- ===== src/FrameClock/Defs.antt =====
-- `FrameClock` of src/frame_clock.rs. A `Duration` is its number of nanoseconds; the time that
-- `get_monotonic_time` returns is an argument.
use macniri.Base.{
  ℕ, ◌+◌, ◌-◌, ◌*◌, ◌/◌, ◌%◌, ◌^◌, Bool, ◌&&◌, Option, none, some, ◌==◌, ltb, leb, if◌then◌else◌,
  bool_beq,
}

pub record FrameClock : Type 0 where
  pub last_presentation_time : Option ℕ
  pub refresh_interval_ns : Option ℕ
  pub vrr : Bool

-- The wrap-around of a `u64`.
abbrev pub u64 : ℕ → ℕ
u64 n = n % 2 ^ 64

-- `none` is the panic on an interval of zero, or of a second or more.
unfoldable pub new : Option ℕ → Bool → Option FrameClock
new none vrr =
    some (record { last_presentation_time = none; refresh_interval_ns = none; vrr = vrr })
new (some interval) vrr =
    if ltb 0 interval && ltb interval 1000000000
    then some
        (record { last_presentation_time = none; refresh_interval_ns = some interval; vrr = vrr })
    else none

unfoldable pub set_vrr : Bool → FrameClock → FrameClock
set_vrr vrr c =
    if bool_beq c.vrr vrr then c else record c { vrr = vrr; last_presentation_time = none }

unfoldable pub presented : ℕ → FrameClock → FrameClock
presented presentation_time c =
    if presentation_time == 0
    then c
    else record c { last_presentation_time = some presentation_time }

-- The current time, or, after an early vblank, the time it stood for.
abbrev pub catch_up : (now last interval : ℕ) → ℕ
catch_up now last interval =
    if leb now last
    then if ltb (now + interval) last then last + interval else now + interval
    else now

-- The time from the last presentation to the next one.
abbrev pub to_next : (since_last interval : ℕ) → ℕ
to_next since_last interval = u64 (u64 (u64 since_last / interval + 1) * interval)

abbrev pub predict : (vrr : Bool) → (now last interval : ℕ) → ℕ
predict vrr now last interval =
    let time = catch_up now last interval in
    let to_next_ns = to_next (time - last) interval in
    if vrr && ltb interval to_next_ns then time else last + to_next_ns

unfoldable pub next_presentation_time : ℕ → FrameClock → ℕ
next_presentation_time now c = elim c.refresh_interval_ns [
  | none ↦ now
  | some interval ↦ elim c.last_presentation_time [
    | none ↦ now
    | some last ↦ predict c.vrr now last interval
  ]
]
