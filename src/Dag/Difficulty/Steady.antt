-- ===== src/Dag/Difficulty/Steady.antt =====
-- The rest point of the retargeting.
use kovanica_node.Common.{
  ℕ, zero, suc, ◌+◌, ◌-◌, ◌*◌, ◌/◌, ◌^◌, ◌≤◌, ◌<◌, ◌≡◌, refl, sym, ap, ◌∙◌, subst, List, [], ◌∷◌,
  length, ◌++◌, max, arith,
}
use native.Mathlib.Nat.{div-le_self, le-mul_of_pos_right, mul-div_cancel, mul-div_right}
use kovanica_node.Dag.Difficulty.Clamped.{recent-last, next_work-IsClamped}
use kovanica_node.Dag.Difficulty.{
  TimedWork, Retarget, sum_work, first_timestamp, last_timestamp, average_work, lower_bound, sat64,
  sat128, upper_bound, scaled_work, next_work,
}

-- Blocks of equal work at the target interval.
unfoldable pub evenly : ℕ → ℕ → ℕ → ℕ → List TimedWork
evenly interval work zero start = []
evenly interval work (suc n) start =
    record { timestamp_ms = start; work = work } ∷ evenly interval work n (start + interval)

module _ (interval work : ℕ) where
  evenly-length : (n start : ℕ) → length (evenly interval work n start) ≡ n
  unfolding evenly
  evenly-length zero start = refl
  evenly-length (suc n) start = ap suc (evenly-length n (start + interval))

  evenly-sum :
      (n start acc : ℕ)
      → acc + n * work < 2 ^ 128
      → sum_work acc (evenly interval work n start) ≡ acc + n * work
  unfolding evenly sum_work
  evenly-sum zero start acc h = omega arith
  evenly-sum (suc n) start acc h =
      let whole : sat128 (acc + work) ≡ acc + work = omega (arith, h) in
      let rest = evenly-sum n (start + interval) (acc + work) (omega (arith, h)) in
      let goal : sum_work (sat128 (acc + work)) (evenly interval work n (start + interval))
          ≡ acc + suc n * work =
        ap (λ a. sum_work a (evenly interval work n (start + interval))) whole
        ∙ rest
        ∙ omega arith in
      goal

  evenly-first : (n start : ℕ) → first_timestamp (evenly interval work (suc n) start) ≡ start
  unfolding evenly first_timestamp
  evenly-first n start = refl

  evenly-last :
      (n start : ℕ) → last_timestamp (evenly interval work (suc n) start) ≡ start + n * interval
  unfolding evenly last_timestamp
  evenly-last zero start = omega arith
  evenly-last (suc n) start = evenly-last n (start + interval) ∙ omega arith

product_fits : (w e : ℕ) → w < 2 ^ 128 → w * e < 2 ^ 128 → w * max e 1 < 2 ^ 128
product_fits w zero l h = omega (arith, l)
product_fits w (suc e) l h =
    let same : max (suc e) 1 ≡ suc e = omega arith in subst (λ n. w * n < 2 ^ 128) (sym same) h

module _ (r : Retarget) (work start : ℕ) (older : List TimedWork) (some_window : 1 ≤ r.window)
    (window_word : r.window + 1 < 2 ^ 64) (floor : r.min_work ≤ work)
    (sum_word : (r.window + 1) * work < 2 ^ 128)
    (span_word : r.window * r.target_interval_ms < 2 ^ 64)
    (product_word : work * (r.window * r.target_interval_ms) < 2 ^ 128) where
  abbrev newest : List TimedWork
  newest = evenly r.target_interval_ms work (suc r.window) start

  newest-length : length newest ≡ r.window + 1
  newest-length = evenly-length r.target_interval_ms work (suc r.window) start ∙ omega arith

  newest-average : average_work newest ≡ work
  unfolding average_work
  newest-average =
      let sum : sum_work 0 newest ≡ (r.window + 1) * work =
        evenly-sum r.target_interval_ms work (suc r.window) start 0 (omega (arith, sum_word))
        ∙ omega arith in
      let some_samples : 0 < r.window + 1 = omega arith in
      ap (λ n. n / length newest) sum
      ∙ ap (λ n. (r.window + 1) * work / n) newest-length
      ∙ mul-div_right work some_samples

  abbrev span : ℕ
  span = max (r.window * r.target_interval_ms) 1

  newest-scaled : scaled_work r newest ≡ work
  unfolding scaled_work
  newest-scaled =
      let t = r.target_interval_ms in
      let gap : length newest - 1 ≡ r.window = omega (arith, newest-length) in
      let expected : max (sat64 ((length newest - 1) * t)) 1 ≡ span =
        ap (λ n. max (sat64 (n * t)) 1) gap ∙ omega (arith, span_word) in
      let actual : max (last_timestamp newest - first_timestamp newest) 1 ≡ span =
        omega (arith, evenly-last t work r.window start, evenly-first t work r.window start) in
      let product : work * span < 2 ^ 128 =
        product_fits work (r.window * t) (omega (arith, sum_word)) product_word in
      let some_span : 0 < span = omega arith in
      ap
        (λ e.
          sat128 (average_work newest * e) / max (last_timestamp newest - first_timestamp newest) 1)
        expected
      ∙ ap (λ a. sat128 (a * span) / max (last_timestamp newest - first_timestamp newest) 1)
          newest-average
      ∙ ap (λ d. sat128 (work * span) / d) actual
      ∙ ap (λ n. n / span) (omega (arith, product))
      ∙ mul-div_cancel work some_span

  -- The samples are in the range where the work is the scaled average.
  abbrev Fits : List TimedWork → Type 0
  Fits samples =
      (2 ≤ length samples)
      × (lower_bound r (average_work samples) ≤ scaled_work r samples)
      × (scaled_work r samples ≤ upper_bound r (average_work samples))
      × (scaled_work r samples ≡ work)

  newest-Fits : Fits newest
  newest-Fits =
      let avg_low : work / max r.max_factor 1 ≤ work = div-le_self work (max r.max_factor 1) in
      let pos : 0 < max r.max_factor 1 = omega arith in
      let avg_high : work ≤ work * max r.max_factor 1 = le-mul_of_pos_right work pos in
      let low : lower_bound r work ≤ work = unfold lower_bound in omega (arith, avg_low, floor) in
      let high : work ≤ upper_bound r work =
        unfold upper_bound in omega (arith, avg_high, sum_word) in
      (
        omega (arith, newest-length, some_window),
        subst (λ n. lower_bound r (average_work newest) ≤ n) (sym newest-scaled)
            (subst (λ n. lower_bound r n ≤ work) (sym newest-average) low),
        subst (λ n. n ≤ upper_bound r (average_work newest)) (sym newest-scaled)
            (subst (λ n. work ≤ upper_bound r n) (sym newest-average) high),
        newest-scaled,
      )

  -- Where the newest window + 1 blocks have equal work at or above the floor, each at the target
  -- interval after the one before, and the window is at least 1, the next work is the same,
  -- whatever is older, if no sum or product of the calculation saturates.
  pub next_work-steady : next_work r (older ++ newest) ≡ work
  next_work-steady =
      let same = recent-last r older newest window_word newest-length in
      let (enough, low, high, scaled) = subst Fits (sym same) newest-Fits in
      (next_work-IsClamped r (older ++ newest) enough).exact low high ∙ scaled
