-- ===== src/FrameClock/Prediction.antt =====
-- When `next_presentation_time` of src/frame_clock.rs expects the next frame to be shown.
use native.Mathlib.Nat.{mod-eq_of_lt, div-mul-le_self, lt-div-mul-add, div-le_self}
use macniri.Base.{
  ℕ, zero, suc, ◌+◌, ◌-◌, ◌*◌, ◌/◌, ◌^◌, ◌≤◌, ◌<◌, max, ◌≡◌, ◌⊎◌, refl, ap, ◌∙◌, inl, inr, true,
  false, some, ◌&&◌, if◌then◌else◌, ltb, leb, arith, Bool-cases,
}
use macniri.FrameClock.Defs.{u64, catch_up, to_next, next_presentation_time}

-- The frame after `since_last` is a whole number of intervals away, and the first such.
record Following (since_last interval next : ℕ) : Type 0 where
  pub rounds : ℕ
  pub multiple : next ≡ (rounds + 1) * interval
  pub after : since_last < next
  pub soon : next ≤ since_last + interval

u64_lem : (n : ℕ) → n < 2 ^ 64 → u64 n ≡ n
u64_lem n h = mod-eq_of_lt h

to_next-Following :
    (since_last interval : ℕ)
    → 0 < interval
    → since_last + interval < 2 ^ 64
    → Following since_last interval (to_next since_last interval)
to_next-Following since_last interval p h =
    let q = since_last / interval in
    let l : q * interval ≤ since_last = div-mul-le_self since_last interval in
    let g : since_last < q * interval + interval = lt-div-mul-add p in
    let d : q ≤ since_last = div-le_self since_last interval in
    let e1 : u64 since_last ≡ since_last = u64_lem since_last (omega arith) in
    let e2 : u64 (q + 1) ≡ q + 1 = u64_lem (q + 1) (omega arith) in
    let e3 : u64 ((q + 1) * interval) ≡ (q + 1) * interval =
      u64_lem ((q + 1) * interval) (omega arith) in
    let e : to_next since_last interval ≡ (q + 1) * interval =
      ap (λ n. u64 (u64 (n / interval + 1) * interval)) e1
      ∙ (ap (λ n. u64 (n * interval)) e2 ∙ e3) in
    record { rounds = q; multiple = e; after = omega (arith, e); soon = omega (arith, e) }

-- What is known of the time that is reckoned from.
record Caught (now last interval time : ℕ) : Type 0 where
  pub from_last : last ≤ time
  pub from_now : now ≤ time
  pub near : (time ≤ last + interval) ⊎ (time ≤ now)
  pub exact : (now ≤ last) ⊎ (time ≡ now)

catch_up-Caught : (now last interval : ℕ) → Caught now last interval (catch_up now last interval)
catch_up-Caught now last interval = elim (Bool-cases (leb now last)) [
  | inr t ↦ rw t (record {
    from_last = ground (arith, t);
    from_now = omega arith;
    near = inr (omega arith);
    exact = inr refl;
  })
  | inl t ↦ elim (Bool-cases (ltb (now + interval) last)) [
    | inl u ↦
        rw (t, u)
          (record {
            from_last = omega arith;
            from_now = ground (arith, t);
            near = inl (omega arith);
            exact = inl (ground (arith, t));
          })
    | inr u ↦
        rw (t, u)
          (record {
            from_last = ground (arith, u);
            from_now = omega arith;
            near = inl (ground (arith, t));
            exact = inl (ground (arith, t));
          })
  ]
]

-- More than one interval to the next frame is the same as one interval gone by.
late_cases :
    (since_last interval next rounds : ℕ)
    → next ≡ (rounds + 1) * interval
    → since_last < next
    → next ≤ since_last + interval
    → ((interval < next) × (interval ≤ since_last)) ⊎ ((next ≡ interval) × (since_last < interval))
late_cases since_last interval next zero e a b = inr (omega arith, omega arith)
late_cases since_last interval next (suc k) e a b =
    let z : (suc k + 1) * interval ≡ k * interval + interval + interval = omega arith in
    elim (Bool-cases (ltb 0 interval)) [
      | inl t ↦ inl (ground (arith, t, z, e), omega (arith, z, e))
      | inr t ↦ absurd (ground (arith, t, a, b))
    ]

two_rounds :
    (interval next rounds : ℕ)
    → 0 < interval
    → next ≡ (rounds + 1) * interval
    → interval < next
    → next ≤ interval + interval
    → next ≡ 2 * interval
two_rounds interval next zero p e a b = absurd (omega (arith, e, a))
two_rounds interval next (suc zero) p e a b = omega (arith, e)
two_rounds interval next (suc (suc k)) p e a b =
    let z : (suc (suc k) + 1) * interval ≡ k * interval + interval + interval + interval =
      omega arith in
    absurd (omega (arith, z, e, b, p))

-- The frame after a last presentation that is not past: one interval after it, or two if it is the
-- current time or more than one interval ahead.
abbrev early_frame : (now last interval : ℕ) → ℕ
early_frame now last interval =
    if ltb now last && leb last (now + interval) then last + interval else last + 2 * interval

early_lem :
    (now last interval : ℕ)
    → 0 < interval
    → now ≤ last
    → now + interval + interval < 2 ^ 64
    → last + to_next (catch_up now last interval - last) interval ≡ early_frame now last interval
early_lem now last interval p l h =
    let t = catch_up now last interval in
    let near : t - last ≤ interval = ground (arith, l) in
    let f = to_next-Following (t - last) interval p (omega (arith, near, h)) in
    elim (Bool-cases (ltb now last && leb last (now + interval))) [
      | inl a ↦
          let s : t - last < interval = ground (arith, a, l) in
          let one : to_next (t - last) interval ≡ interval = ground (
            arith,
            s,
            late_cases (t - last) interval (to_next (t - last) interval) f.rounds f.multiple f.after
                f.soon,
          ) in
          rw (one, a) refl
      | inr a ↦
          let s : t - last ≡ interval = ground (arith, a, l) in
          let two : to_next (t - last) interval ≡ 2 * interval =
            two_rounds interval (to_next (t - last) interval) f.rounds p f.multiple
              (omega (arith, s, f.after)) (omega (arith, s, f.soon)) in
          rw (two, a) refl
    ]

-- The next frame of a fixed refresh rate: a whole number of intervals after the last one and in the
-- future; at most one interval away if the last presentation is past, and otherwise the early frame.
pub record IsNextFrame (now last interval next : ℕ) : Type 0 where
  pub rounds : ℕ
  pub aligned : next ≡ last + (rounds + 1) * interval
  pub after : now < next
  pub at_once : last < now → next ≤ now + interval
  pub early : now ≤ last → next ≡ early_frame now last interval

-- With a fixed refresh rate, a last presentation and an interval above 0, when now and two intervals
-- after it fit 64 bits, the predicted time is a whole number of intervals after the last presentation and
-- in the future. If the last presentation is past it is at most one interval from now. If not, it is one
-- interval after the last presentation when that is ahead by at most one interval, and two after it when
-- that is now or further ahead.
pub next_presentation_time-IsNextFrame :
    (now last interval : ℕ)
    → 0 < interval
    → now + interval + interval < 2 ^ 64
    → IsNextFrame now last interval (
        next_presentation_time now (record {
          last_presentation_time = some last;
          refresh_interval_ns = some interval;
          vrr = false;
        }))
unfolding next_presentation_time
next_presentation_time-IsNextFrame now last interval p h =
    let time = catch_up now last interval in
    let b = catch_up-Caught now last interval in
    let f = to_next-Following (time - last) interval p (ground (arith, b.near)) in
    record {
      rounds = f.rounds;
      aligned = ap (last +◌) f.multiple;
      after = omega (arith, f.after, b.from_last, b.from_now);
      at_once = λ l. elim b.exact [
        | inl e ↦ absurd (omega (arith, e, l))
        | inr e ↦ omega (arith, f.soon, b.from_last, e)
      ];
      early = λ l. early_lem now last interval p l h;
    }

-- With a variable refresh rate, a last presentation in the past and an interval above 0, when now and two
-- intervals after it fit 64 bits, the predicted time is one interval after the last presentation, or now
-- if that has passed.
pub next_presentation_time-vrr :
    (now last interval : ℕ)
    → 0 < interval
    → last < now
    → now + interval + interval < 2 ^ 64
    → next_presentation_time now (record {
      last_presentation_time = some last;
      refresh_interval_ns = some interval;
      vrr = true;
    })
      ≡ max now (last + interval)
unfolding next_presentation_time
next_presentation_time-vrr now last interval p l h =
    let f = to_next-Following (now - last) interval p (omega arith) in
    ground (
      arith,
      late_cases (now - last) interval (to_next (now - last) interval) f.rounds f.multiple f.after
          f.soon,
    )
