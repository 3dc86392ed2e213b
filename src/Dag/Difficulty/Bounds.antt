-- ===== src/Dag/Difficulty/Bounds.antt =====
-- The range of the retargeted work, in plain arithmetic.
use kovanica_node.Common.{
  ℕ, ◌+◌, ◌-◌, ◌*◌, ◌/◌, min, refl, sym, ap, ◌∙◌, subst, ◌++◌, length-append, ◌^◌, ◌≤◌, ◌<◌, ◌≡◌,
  List, [], ◌∷◌, length, max, arith,
}
use native.Mathlib.Nat.{le_trans}
use kovanica_node.Dag.Difficulty.{
  TimedWork, Retarget, clamp, recent_samples, sum_work, first_timestamp, last_timestamp,
  average_work, lower_bound, sat64, sat128, upper_bound, scaled_work, next_work,
}
use kovanica_node.Dag.Difficulty.Clamped.{
  clamp-range, average_work-bound, lower_le_upper, next_work-IsClamped, recent-last,
}

-- The amounts of the retargeting, in plain arithmetic on the samples that count. A sum or product
-- stops at the largest word of its width.
abbrev pub total_work : List TimedWork → ℕ
total_work [] = 0
total_work (s ∷ samples) = s.work + total_work samples

abbrev pub mean_work : List TimedWork → ℕ
mean_work samples = min (total_work samples) (2 ^ 128 - 1) / length samples

abbrev pub least_work : Retarget → List TimedWork → ℕ
least_work r samples = max (mean_work samples / max r.max_factor 1) r.min_work

abbrev pub most_work : Retarget → List TimedWork → ℕ
most_work r samples = max (min (mean_work samples * max r.max_factor 1) (2 ^ 128 - 1)) r.min_work

abbrev pub ideal_work : Retarget → List TimedWork → ℕ → ℕ
ideal_work r samples elapsed =
    min (mean_work samples * max (min ((length samples - 1) * r.target_interval_ms) (2 ^ 64 - 1)) 1)
      (2 ^ 128 - 1)
    / max elapsed 1

pub record InRange (r : Retarget) (samples : List TimedWork) (elapsed work : ℕ) : Type 0 where
  pub floor : r.min_work ≤ work
  pub lowest : least_work r samples ≤ work
  pub highest : work ≤ most_work r samples
  pub below : ideal_work r samples elapsed ≤ least_work r samples → work ≡ least_work r samples
  pub exact :
      least_work r samples ≤ ideal_work r samples elapsed
      → ideal_work r samples elapsed ≤ most_work r samples
      → work ≡ ideal_work r samples elapsed
  pub above : most_work r samples ≤ ideal_work r samples elapsed → work ≡ most_work r samples

sum_work-total :
    (samples : List TimedWork) (acc : ℕ)
    → acc < 2 ^ 128
    → sum_work acc samples ≡ min (acc + total_work samples) (2 ^ 128 - 1)
unfolding sum_work
sum_work-total [] acc h = omega (arith, h)
sum_work-total (s ∷ samples) acc h =
    omega (arith, sum_work-total samples (sat128 (acc + s.work)) (omega arith))

average-mean : (samples : List TimedWork) → average_work samples ≡ mean_work samples
unfolding average_work
average-mean samples =
    ap (λ n. n / length samples) (sum_work-total samples 0 (omega arith) ∙ omega arith)

last_timestamp-append :
    (samples : List TimedWork) (last : TimedWork)
    → last_timestamp (samples ++ last ∷ []) ≡ last.timestamp_ms
unfolding last_timestamp
last_timestamp-append [] last = refl
last_timestamp-append (s ∷ []) last = refl
last_timestamp-append (s ∷ t ∷ samples) last = last_timestamp-append (t ∷ samples) last

recent-counted :
    (r : Retarget) (older newest : List TimedWork)
    → r.window + 1 < 2 ^ 64
    → length newest ≤ r.window + 1
    → (0 < length older → length newest ≡ r.window + 1)
    → recent_samples r (older ++ newest) ≡ newest
recent-counted r [] newest w l full = unfold recent_samples in ground (arith, w, l)
recent-counted r (o ∷ older) newest w l full =
    recent-last r (o ∷ older) newest w (full (omega arith))

clamp_in :
    (x lower upper : ℕ)
    → lower ≤ upper
    → ((x ≤ lower → clamp x lower upper ≡ lower)
        × (lower ≤ x → x ≤ upper → clamp x lower upper ≡ x)
        × (upper ≤ x → clamp x lower upper ≡ upper))
unfolding clamp
clamp_in x lower upper l =
    (λ h. ground (arith, l, h), λ h k. ground (arith, l, h, k), λ h. ground (arith, l, h))

clamped-InRange :
    (r : Retarget) (samples : List TimedWork) (elapsed : ℕ)
    → least_work r samples ≤ most_work r samples
    → InRange r samples elapsed
        (clamp (ideal_work r samples elapsed) (least_work r samples) (most_work r samples))
clamped-InRange r samples elapsed order =
    let least = least_work r samples in
    let ideal = ideal_work r samples elapsed in
    let (low, high) = clamp-range ideal least (most_work r samples) order in
    let (below, exact, above) = clamp_in ideal least (most_work r samples) order in
    let floor : r.min_work ≤ least = omega arith in
    record {
      floor = le_trans floor low;
      lowest = low;
      highest = high;
      below = below;
      exact = exact;
      above = above;
    }

module _ (r : Retarget) (middle : List TimedWork) (first last : TimedWork) where
  abbrev counted : List TimedWork
  counted = first ∷ (middle ++ last ∷ [])

  abbrev elapsed : ℕ
  elapsed = last.timestamp_ms - first.timestamp_ms

  counted-scaled : scaled_work r counted ≡ ideal_work r counted elapsed
  unfolding scaled_work first_timestamp
  counted-scaled = λ i.
      sat128 (average-mean counted i * max (sat64 ((length counted - 1) * r.target_interval_ms)) 1)
      / max (last_timestamp-append (first ∷ middle) last i - first.timestamp_ms) 1

  counted-lower : lower_bound r (average_work counted) ≡ least_work r counted
  unfolding lower_bound
  counted-lower = ap (λ n. max (n / max r.max_factor 1) r.min_work) (average-mean counted)

  counted-upper : upper_bound r (average_work counted) ≡ most_work r counted
  unfolding upper_bound
  counted-upper = ap (λ n. max (sat128 (n * max r.max_factor 1)) r.min_work) (average-mean counted)

  -- Let the newest window + 1 samples count, or all if there are fewer, and let there be two at
  -- least. The work is the mean work of these samples, times the expected over the elapsed time,
  -- where that lies between the mean divided by the factor and the mean multiplied by it, both
  -- raised to the floor; otherwise it is the nearer of the two bounds. Sums and products stop at
  -- the largest word, and window + 1 is a word of 64 bits.
  pub next_work-range :
      (older : List TimedWork)
      → r.window + 1 < 2 ^ 64
      → length counted ≤ r.window + 1
      → (0 < length older → length counted ≡ r.window + 1)
      → InRange r counted elapsed (next_work r (older ++ counted))
  next_work-range older w l full =
      let same = recent-counted r older counted w l full in
      let enough : 2 ≤ length counted = omega (arith, length-append middle (last ∷ [])) in
      let c =
        next_work-IsClamped r (older ++ counted) (subst (λ x. 2 ≤ length x) (sym same) enough) in
      let order : least_work r counted ≤ most_work r counted =
        subst (λ n. n ≤ most_work r counted) counted-lower
          (subst (λ n. lower_bound r (average_work counted) ≤ n) counted-upper
            (lower_le_upper r (average_work counted) (average_work-bound counted))) in
      let to_range : clamp (scaled_work r counted) (lower_bound r (average_work counted))
            (upper_bound r (average_work counted))
          ≡ clamp (ideal_work r counted elapsed) (least_work r counted) (most_work r counted) =
        λ i. clamp (counted-scaled i) (counted-lower i) (counted-upper i) in
      let whole : next_work r (older ++ counted)
          ≡ clamp (ideal_work r counted elapsed) (least_work r counted) (most_work r counted) =
        c.clamped
        ∙ ap
            (λ x.
              clamp (scaled_work r x) (lower_bound r (average_work x))
                (upper_bound r (average_work x)))
            same
        ∙ to_range in
      subst (InRange r counted elapsed) (sym whole) (clamped-InRange r counted elapsed order)
