-- ===== src/Dag/Difficulty/Clamped.antt =====
-- The clamp of the retargeting is a clamp to a range that is not empty, on the newest samples.
use kovanica_node.Common.{
  ℕ, ◌+◌, ◌-◌, ap, ◌∙◌, ◌++◌, drop, drop-append_left, length-append, ◌^◌, ◌≤◌, ◌<◌, ◌≡◌, List, [],
  ◌∷◌, length, max, arith,
}
use native.Mathlib.Nat.{div-le_self, le-mul_of_pos_right}
use kovanica_node.Dag.Difficulty.{
  TimedWork, Retarget, clamp, recent_samples, sum_work, average_work, lower_bound, sat128,
  upper_bound, scaled_work, next_work,
}

pub clamp-range :
    (x lower upper : ℕ)
    → lower ≤ upper
    → (lower ≤ clamp x lower upper) × (clamp x lower upper ≤ upper)
unfolding clamp
clamp-range x lower upper l = ground (arith, l)

sum_work-bound :
    (samples : List TimedWork) (acc : ℕ) → acc < 2 ^ 128 → sum_work acc samples < 2 ^ 128
unfolding sum_work
sum_work-bound [] acc h = h
sum_work-bound (s ∷ samples) acc h = sum_work-bound samples (sat128 (acc + s.work)) (omega arith)

pub average_work-bound : (samples : List TimedWork) → average_work samples < 2 ^ 128
unfolding average_work
average_work-bound samples = omega (
  arith,
  sum_work-bound samples 0 (omega arith),
  div-le_self (sum_work 0 samples) (length samples),
)

-- The assertion of `clamp` holds: the interval that the work is clamped to is not empty.
pub lower_le_upper :
    (r : Retarget) (avg : ℕ) → avg < 2 ^ 128 → lower_bound r avg ≤ upper_bound r avg
unfolding lower_bound upper_bound
lower_le_upper r avg l =
    let pos : 0 < max r.max_factor 1 = omega arith in
    omega (arith, le-mul_of_pos_right avg pos, div-le_self avg (max r.max_factor 1), l)

pub record IsClamped (r : Retarget) (recent : List TimedWork) : Type 0 where
  pub order :
      lower_bound r (average_work (recent_samples r recent))
      ≤ upper_bound r (average_work (recent_samples r recent))
  pub clamped :
      next_work r recent
      ≡ clamp
          (scaled_work r (recent_samples r recent))
          (lower_bound r (average_work (recent_samples r recent)))
          (upper_bound r (average_work (recent_samples r recent)))
  pub exact :
      lower_bound r (average_work (recent_samples r recent))
        ≤ scaled_work r (recent_samples r recent)
      → scaled_work r (recent_samples r recent)
        ≤ upper_bound r (average_work (recent_samples r recent))
      → next_work r recent ≡ scaled_work r (recent_samples r recent)

-- The last `max` with the floor changes nothing.
pub next_work-IsClamped :
    (r : Retarget) (recent : List TimedWork)
    → 2 ≤ length (recent_samples r recent)
    → IsClamped r recent
unfolding next_work
next_work-IsClamped r recent enough =
    let samples = recent_samples r recent in
    let avg = average_work samples in
    let floor : r.min_work ≤ lower_bound r avg = unfold lower_bound in omega arith in
    let order = lower_le_upper r avg (average_work-bound samples) in
    let (low, high) =
      clamp-range (scaled_work r samples) (lower_bound r avg) (upper_bound r avg) order in
    record {
      order = order;
      clamped = ground (arith, enough, low, high, floor);
      exact = λ a b. unfold clamp in ground (arith, enough, a, b, floor);
    }

pub recent-last :
    (r : Retarget) (older newest : List TimedWork)
    → r.window + 1 < 2 ^ 64
    → length newest ≡ r.window + 1
    → recent_samples r (older ++ newest) ≡ newest
unfolding recent_samples
recent-last r [] newest w l = ground (arith, w, l)
recent-last r (o ∷ older) newest w l =
    let size = length-append (o ∷ older) newest in
    let cut : length ((o ∷ older) ++ newest) - (r.window + 1) ≡ length (o ∷ older) =
      omega (arith, size, l) in
    let dropped : drop (length ((o ∷ older) ++ newest) - (r.window + 1)) ((o ∷ older) ++ newest)
        ≡ newest =
      ap (λ k. drop k ((o ∷ older) ++ newest)) cut ∙ drop-append_left (o ∷ older) newest in
    ground (arith, w, l, size, dropped)
