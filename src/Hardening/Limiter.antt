-- ===== src/Hardening/Limiter.antt =====
-- What a peer can send in one window.
use kovanica_node.Common.{
  ℕ, ◌+◌, ◌^◌, ◌≤◌, ◌<◌, ◌≡◌, refl, true, false, List, [], ◌∷◌, if◌then◌else◌, All, Bool-cases, ◌⊎◌,
  inl, inr, arith,
}
use kovanica_node.Hardening.{
  P2pHardeningConfig, RateLimitState, add64, reset, refresh, over_limit, consume, check_and_consume,
}

-- The bytes and messages that are let through, for requests of a tick and a number of bytes.
pub served : P2pHardeningConfig → List (ℕ × ℕ) → RateLimitState → ℕ × ℕ
served config [] state = (0, 0)
served config ((tick, bytes) ∷ requests) state =
    let (next, allowed) = check_and_consume tick config bytes state in
    let (total, count) = served config requests next in
    if allowed then (total + bytes, count + 1) else (total, count)

module _ (config : P2pHardeningConfig) (start : ℕ) where
  -- A request within the window that cannot overflow the counter.
  abbrev pub InWindow : ℕ × ℕ → Type 0
  InWindow (tick, bytes) =
      (tick < start + config.rate_window_ticks) × (config.max_bytes_per_window + bytes < 2 ^ 64)

  record Counts (state : RateLimitState) : Type 0 where
    pub started : state.window_start_tick ≡ start
    pub bytes : state.bytes_in_window ≤ config.max_bytes_per_window
    pub messages : state.messages_in_window ≤ config.max_messages_per_window

  module _ (window : start + config.rate_window_ticks < 2 ^ 64)
      (limited : 0 < config.max_bytes_per_window) (metered : 0 < config.max_messages_per_window)
      (word : config.max_messages_per_window + 1 < 2 ^ 64) where
    refresh-same :
        (tick : ℕ) (state : RateLimitState)
        → state.window_start_tick ≡ start
        → tick < start + config.rate_window_ticks
        → refresh tick config state ≡ state
    unfolding refresh
    refresh-same tick state e l =
        let end : add64 state.window_start_tick config.rate_window_ticks
            ≡ start + config.rate_window_ticks =
          omega (arith, e, window) in
        ground (arith, end, l)

    -- A request is refused, or counted with no limit passed.
    consume-cases :
        (bytes : ℕ) (state : RateLimitState)
        → Counts state
        → config.max_bytes_per_window + bytes < 2 ^ 64
        → (consume config bytes state ≡ (state, false))
          ⊎ ((state.bytes_in_window + bytes ≤ config.max_bytes_per_window)
              × (state.messages_in_window + 1 ≤ config.max_messages_per_window)
              × (consume config bytes state ≡ (
                record state {
                  bytes_in_window = state.bytes_in_window + bytes;
                  messages_in_window = state.messages_in_window + 1;
                },
                true,
              )))
    unfolding consume over_limit
    consume-cases bytes state c l =
        let b : add64 state.bytes_in_window bytes ≡ state.bytes_in_window + bytes =
          omega (arith, c.bytes, l) in
        let m : add64 state.messages_in_window 1 ≡ state.messages_in_window + 1 =
          omega (arith, c.messages, word) in
        elim (Bool-cases
          (over_limit config.max_bytes_per_window (add64 state.bytes_in_window bytes))) [
            | inl over ↦ inl (ground (arith, over))
            | inr fits ↦
                elim (Bool-cases
                  (over_limit config.max_messages_per_window (add64 state.messages_in_window 1))) [
                    | inl over ↦ inl (ground (arith, fits, over))
                    | inr room ↦ inr (
                      ground (arith, fits, b, limited),
                      ground (arith, room, m, metered),
                      ground (arith, fits, room, b, m),
                    )
                  ]
          ]

    -- From a state of the window on, the bytes and messages that are let through add up to no more
    -- than is left.
    served-le :
        (requests : List (ℕ × ℕ)) (state : RateLimitState)
        → Counts state
        → All InWindow requests
        → (state.bytes_in_window + (served config requests state).0 ≤ config.max_bytes_per_window)
          × (state.messages_in_window + (served config requests state).1
              ≤ config.max_messages_per_window)
    unfolding served check_and_consume
    served-le [] state c a = (omega (arith, c.bytes), omega (arith, c.messages))
    served-le ((tick, bytes) ∷ requests) state c ((early, small), a) =
        let same = refresh-same tick state c.started early in
        elim (consume-cases bytes state c small) [
          | inl refused ↦
              let (b, m) = served-le requests state c a in ground (arith, same, refused, b, m)
          | inr (fits, room, allowed) ↦
              let next : RateLimitState = record state {
                bytes_in_window = state.bytes_in_window + bytes;
                messages_in_window = state.messages_in_window + 1;
              } in
              let (b, m) =
                served-le requests next
                  (record { started = c.started; bytes = fits; messages = room }) a in
              ground (arith, same, allowed, b, m)
        ]

    -- In a window that begins at `start`, whatever a peer sends in whatever order, the bytes that are
    -- let through are at most the limit of bytes, and the messages at most that of messages, if both
    -- limits are set, the window ends below the largest word and no request makes a counter wrap.
    pub served_bounds :
        (requests : List (ℕ × ℕ))
        → All InWindow requests
        → ((served config requests (reset start)).0 ≤ config.max_bytes_per_window)
          × ((served config requests (reset start)).1 ≤ config.max_messages_per_window)
    unfolding reset
    served_bounds requests a =
        let (b, m) =
          served-le requests (reset start)
            (record { started = refl; bytes = omega arith; messages = omega arith }) a in
        (omega (arith, b), omega (arith, m))
