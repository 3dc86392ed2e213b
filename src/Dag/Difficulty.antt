-- ===== src/Dag/Difficulty.antt =====
-- difficulty.rs: the work of the next block from the recent ones.
pub mod Clamped
pub mod Bounds
pub mod Steady
use kovanica_node.Common.{
  ℕ, zero, suc, ◌+◌, ◌-◌, ◌*◌, ◌/◌, ◌%◌, ◌^◌, Bool, true, false, List, [], ◌∷◌, ltb, if◌then◌else◌,
  length, drop, min, max,
}

pub record TimedWork : Type 0 where
  pub timestamp_ms : ℕ
  pub work : ℕ

pub record Retarget : Type 0 where
  pub target_interval_ms : ℕ
  pub window : ℕ
  pub max_factor : ℕ
  pub min_work : ℕ

abbrev pub default_retarget : Retarget
default_retarget = record { target_interval_ms = 1000; window = 20; max_factor = 4; min_work = 1 }

abbrev pub sat64 : ℕ → ℕ
sat64 n = min n (2 ^ 64 - 1)

abbrev pub sat128 : ℕ → ℕ
sat128 n = min n (2 ^ 128 - 1)

-- `Ord::clamp` without its assertion that `lower <= upper`.
unfoldable pub clamp : ℕ → ℕ → ℕ → ℕ
clamp x lower upper = if ltb x lower then lower else if ltb upper x then upper else x

-- The last `window + 1` samples.
unfoldable pub recent_samples : Retarget → List TimedWork → List TimedWork
recent_samples r recent =
    let keep = (r.window + 1) % 2 ^ 64 in
    if ltb keep (length recent) then drop (length recent - keep) recent else recent

-- `iter().fold(0, |acc, s| acc.saturating_add(s.work))`
unfoldable pub sum_work : ℕ → List TimedWork → ℕ
sum_work acc [] = acc
sum_work acc (s ∷ samples) = sum_work (sat128 (acc + s.work)) samples

unfoldable pub first_timestamp : List TimedWork → ℕ
first_timestamp [] = 0
first_timestamp (s ∷ samples) = s.timestamp_ms

unfoldable pub last_timestamp : List TimedWork → ℕ
last_timestamp [] = 0
last_timestamp (s ∷ []) = s.timestamp_ms
last_timestamp (s ∷ t ∷ samples) = last_timestamp (t ∷ samples)

unfoldable pub average_work : List TimedWork → ℕ
average_work samples = sum_work 0 samples / length samples

unfoldable pub lower_bound : Retarget → ℕ → ℕ
lower_bound r avg = max (avg / max r.max_factor 1) r.min_work

unfoldable pub upper_bound : Retarget → ℕ → ℕ
upper_bound r avg = max (sat128 (avg * max r.max_factor 1)) r.min_work

unfoldable pub scaled_work : Retarget → List TimedWork → ℕ
scaled_work r samples =
    let expected = max (sat64 ((length samples - 1) * r.target_interval_ms)) 1 in
    let actual = max (last_timestamp samples - first_timestamp samples) 1 in
    sat128 (average_work samples * expected) / actual

unfoldable pub next_work : Retarget → List TimedWork → ℕ
next_work r recent =
    let samples = recent_samples r recent in
    let avg = average_work samples in
    if ltb (length samples) 2
    then r.min_work
    else max (clamp (scaled_work r samples) (lower_bound r avg) (upper_bound r avg)) r.min_work
