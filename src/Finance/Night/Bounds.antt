-- ===== src/Finance/Night/Bounds.antt =====
-- The night seconds of a stay never exceed the stay.
use parking_system.Common.{
  ℕ, zero, suc, ◌+◌, ◌-◌, ◌*◌, ◌/◌, ◌≤◌, ◌<◌, min, max, arith, inl, inr, Bool-cases, leb, ltb,
}
use parking_system.Finance.Night.{
  second, hour, day, at_hour, window_end, seconds_between, night_of_day, night_loop,
  night_overlap_seconds, night_max_days,
}

-- The windows of two successive days are disjoint.
windows_disjoint :
    (cursor s e : ℕ) → s < 24 → e < 24 → window_end cursor s e ≤ at_hour (cursor + day) s
unfolding window_end at_hour
windows_disjoint cursor s e hs he = ground arith

-- A window that begins behind the last one adds no more than it reaches further.
room_for_window :
    (start end reached window_begin window_stop total : ℕ)
    → reached ≤ window_begin
    → total * second ≤ min reached end - start
    → (total + seconds_between (max window_begin start) (min window_stop end)) * second
      ≤ min (max reached window_stop) end - start
unfolding seconds_between
room_for_window start end reached window_begin window_stop total behind h = ground arith

next_window :
    (cursor reached s e : ℕ)
    → s < 24
    → e < 24
    → reached ≤ at_hour cursor s
    → max reached (window_end cursor s e) ≤ at_hour (cursor + day) s
unfolding at_hour
next_window cursor reached s e hs he h = omega (arith, windows_disjoint cursor s e hs he)

night_loop_bounded :
    (days start end s e cursor total reached : ℕ)
    → s < 24
    → e < 24
    → reached ≤ at_hour cursor s
    → total * second ≤ min reached end - start
    → night_loop days start end s e cursor total * second ≤ end - start
unfolding night_loop night_of_day
night_loop_bounded zero start end s e cursor total reached hs he behind h = omega arith
night_loop_bounded (suc days) start end s e cursor total reached hs he behind h =
    elim (Bool-cases (ltb cursor end)) [
      | inr stop ↦ rw stop (omega arith)
      | inl more ↦ rw more (
          night_loop_bounded days start end s e (cursor + day)
            (total + night_of_day start end s e cursor) (max reached (window_end cursor s e)) hs he
            (next_window cursor reached s e hs he behind)
            (room_for_window start end reached (at_hour cursor s) (window_end cursor s e) total
              behind h))
    ]

-- For hours of the clock, the night seconds of a stay are at most its length.
pub night_overlap_seconds-le :
    (start duration s e : ℕ) → s < 24 → e < 24 → night_overlap_seconds start duration s e ≤ duration
unfolding night_overlap_seconds
night_overlap_seconds-le start duration s e hs he = elim (Bool-cases (leb duration 0)) [
  | inl none_left ↦ rw none_left (omega arith)
  | inr some_left ↦ rw some_left (
      omega (
        arith,
        night_loop_bounded night_max_days start (start + duration * second) s e
            (start / hour * hour - day) 0 0 hs he (omega arith) (omega arith),
      ))
]
