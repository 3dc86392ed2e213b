-- ===== src/Dag/Pow/Target.antt =====
-- The target test against the inequality that it stands for.
use kovanica_node.Common.{
  ℕ, zero, suc, ◌+◌, ◌-◌, ◌*◌, ◌^◌, ◌≤◌, ◌<◌, ◌≡◌, refl, sym, ap, ◌∙◌, subst, true, List, [], ◌∷◌,
  All, All-take, All-drop, ◌↔◌, arith, length, take, drop, drop-drop, length-take, length-drop,
  IsBytes, max,
}
use native.Mathlib.Nat.{mul-le-mul_right, pow-suc}
use kovanica_node.Dag.{BlockId}
use kovanica_node.Dag.Pow.{read_be, limb_at, hash_limbs, work_limbs, rows, top_clear, meets_target}
use kovanica_node.Dag.Pow.Product.{value, size, IsLimb, Holds, rows-Holds}

-- The identity as a big-endian number.
unfoldable pub hash_number : BlockId → ℕ
hash_number id = read_be 0 id.bytes

read_be-split :
    (n acc : ℕ) (bytes : List ℕ)
    → read_be acc bytes ≡ read_be (read_be acc (take n bytes)) (drop n bytes)
unfolding read_be
read_be-split zero acc bytes = refl
read_be-split (suc n) acc [] = refl
read_be-split (suc n) acc (b ∷ bytes) = read_be-split n (acc * 256 + b) bytes

regroup : (acc b p r : ℕ) → (acc * 256 + b) * p + r ≡ acc * (p * 256) + ((0 * 256 + b) * p + r)
regroup acc b p r = omega arith

read_be-add :
    (acc : ℕ) (bytes : List ℕ) → read_be acc bytes ≡ acc * 256 ^ length bytes + read_be 0 bytes
unfolding read_be
read_be-add acc [] = omega arith
read_be-add acc (b ∷ bytes) =
    let p = 256 ^ length bytes in
    let high : 256 ^ suc (length bytes) ≡ p * 256 = pow-suc 256 (length bytes) in
    let first : read_be (acc * 256 + b) bytes ≡ (acc * 256 + b) * p + read_be 0 bytes =
      read_be-add (acc * 256 + b) bytes in
    let second : read_be (0 * 256 + b) bytes ≡ (0 * 256 + b) * p + read_be 0 bytes =
      read_be-add (0 * 256 + b) bytes in
    let goal : read_be (acc * 256 + b) bytes
        ≡ acc * 256 ^ suc (length bytes) + read_be (0 * 256 + b) bytes =
      first
      ∙ regroup acc b p (read_be 0 bytes)
      ∙ sym (
          ap (λ q. acc * q + read_be (0 * 256 + b) bytes) high
          ∙ ap (λ q. acc * (p * 256) + q) second) in
    goal

le_255 : (b : ℕ) → b < 256 → b ≤ 255
le_255 b l = omega (arith, l)

read_be-lt : (bytes : List ℕ) → IsBytes bytes → read_be 0 bytes < 256 ^ length bytes
unfolding read_be
read_be-lt [] h = omega arith
read_be-lt (b ∷ bytes) (l, h) = omega (
  arith,
  read_be-lt bytes h,
  read_be-add (0 * 256 + b) bytes,
  pow-suc 256 (length bytes),
  mul-le-mul_right (256 ^ length bytes) (le_255 b l),
)

top_clear_iff :
    (prod : List ℕ) (n : ℕ) → Holds prod n (2 ^ 384) → (top_clear prod ≡ true) ↔ (n < 2 ^ 256)
unfolding top_clear value size
top_clear_iff [] n h = absurd (omega (arith, h.width))
top_clear_iff (a ∷ []) n h = absurd (omega (arith, h.width))
top_clear_iff (a ∷ b ∷ []) n h = absurd (omega (arith, h.width))
top_clear_iff (a ∷ b ∷ c ∷ []) n h = absurd (omega (arith, h.width))
top_clear_iff (a ∷ b ∷ c ∷ d ∷ []) n h = absurd (omega (arith, h.width))
top_clear_iff (a ∷ b ∷ c ∷ d ∷ e ∷ []) n h = absurd (omega (arith, h.width))
top_clear_iff (a ∷ b ∷ c ∷ d ∷ e ∷ f ∷ []) n h =
    (λ t. ground (arith, t, h.limbs, h.reads), λ t. ground (arith, t, h.limbs, h.reads))
top_clear_iff (a ∷ b ∷ c ∷ d ∷ e ∷ f ∷ g ∷ rest) n h = absurd (omega (arith, h.width))

nil_of : (xs : List ℕ) → length xs ≡ 0 → xs ≡ []
nil_of [] h = refl
nil_of (x ∷ xs) h = absurd (omega (arith, h))

module _ (bytes : List ℕ) (bs : IsBytes bytes) (whole : length bytes ≡ 32) where
  window-length : (start : ℕ) → start ≤ 24 → length (take 8 (drop start bytes)) ≡ 8
  window-length start l =
      ground (arith, length-take 8 (drop start bytes), length-drop start bytes, whole, l)

  limb_at-IsLimb : (start : ℕ) → start ≤ 24 → IsLimb (limb_at bytes start)
  limb_at-IsLimb start l =
      let w = window-length start l in
      let low =
        read_be-lt (take 8 (drop start bytes))
          (All-take (λ b. b < 256) 8 (drop start bytes) (All-drop (λ b. b < 256) start bytes bs)) in
      subst (λ n. limb_at bytes start < 256 ^ n) w low

  read-window :
      (acc start : ℕ)
      → start ≤ 24
      → read_be acc (drop start bytes)
        ≡ read_be (acc * 2 ^ 64 + limb_at bytes start) (drop (start + 8) bytes)
  read-window acc start l =
      let w = window-length start l in
      let cut = read_be-split 8 acc (drop start bytes) in
      let add =
        subst (λ n. read_be acc (take 8 (drop start bytes)) ≡ acc * 256 ^ n + limb_at bytes start) w
          (read_be-add acc (take 8 (drop start bytes))) in
      cut
      ∙ ap (λ n. read_be n (drop 8 (drop start bytes))) add
      ∙ ap (read_be (acc * 2 ^ 64 + limb_at bytes start)) (sym (drop-drop start 8 bytes))

  value-limbs : value (hash_limbs (record { bytes = bytes })) ≡ read_be 0 bytes
  unfolding hash_limbs value
  value-limbs =
      let h1 = 0 * 2 ^ 64 + limb_at bytes 0 in
      let h2 = h1 * 2 ^ 64 + limb_at bytes 8 in
      let h3 = h2 * 2 ^ 64 + limb_at bytes 16 in
      let h4 = h3 * 2 ^ 64 + limb_at bytes 24 in
      let end : drop 32 bytes ≡ [] =
        nil_of (drop 32 bytes) (omega (arith, length-drop 32 bytes, whole)) in
      let all : read_be 0 bytes ≡ h4 =
        read-window 0 0 (omega arith)
        ∙ read-window h1 8 (omega arith)
        ∙ read-window h2 16 (omega arith)
        ∙ read-window h3 24 (omega arith)
        ∙ unfold read_be in ap (read_be h4) end in
      omega (arith, all)

work_limbs-value : (work : ℕ) → work < 2 ^ 128 → value (work_limbs work) ≡ work
unfolding work_limbs value
work_limbs-value work l = omega (arith, l)

abbrev zeros : List ℕ
zeros = 0 ∷ 0 ∷ 0 ∷ 0 ∷ 0 ∷ 0 ∷ []

zeros-IsLimb : All IsLimb zeros
zeros-IsLimb = let z : IsLimb 0 = omega arith in (z, (z, (z, (z, (z, (z, tt))))))

product_fits : (a b : ℕ) → a < 2 ^ 256 → b < 2 ^ 128 → a * b < 2 ^ 384
product_fits a b la lb =
    let most : a ≤ 2 ^ 256 - 1 = omega (arith, la) in omega (arith, mul-le-mul_right b most, lb)

product-Holds :
    (h w : List ℕ)
    → All IsLimb h
    → All IsLimb w
    → value h < 2 ^ 256
    → value w < 2 ^ 128
    → Holds (rows h w zeros) (value h * value w) (2 ^ 384)
unfolding value size
product-Holds h w hs ws lh lw =
    let fit = product_fits (value h) (value w) lh lw in
    let r = rows-Holds h w zeros hs ws zeros-IsLimb (omega (arith, fit)) in
    record { reads = omega (arith, r.reads); limbs = r.limbs; width = r.width }

-- The limb arithmetic decides `H * work < 2^256`, where `H` is the identity as a big-endian number
-- and a work of zero counts as one.
pub meets_target_iff :
    (id : BlockId) (work : ℕ)
    → IsBytes id.bytes
    → length id.bytes ≡ 32
    → work < 2 ^ 128
    → (meets_target id work ≡ true) ↔ (hash_number id * max work 1 < 2 ^ 256)
unfolding meets_target hash_number
meets_target_iff id work bs whole l =
    let w = max work 1 in
    let low : w < 2 ^ 128 = omega (arith, l) in
    let number = value-limbs id.bytes bs whole in
    let factor = work_limbs-value w low in
    let h0 = limb_at-IsLimb id.bytes bs whole 24 (omega arith) in
    let h1 = limb_at-IsLimb id.bytes bs whole 16 (omega arith) in
    let h2 = limb_at-IsLimb id.bytes bs whole 8 (omega arith) in
    let h3 = limb_at-IsLimb id.bytes bs whole 0 (omega arith) in
    let h : All IsLimb (hash_limbs id) = unfold hash_limbs in (h0, (h1, (h2, (h3, tt)))) in
    let ws : All IsLimb (work_limbs w) = unfold work_limbs in (omega arith, (omega arith, tt)) in
    let below : value (hash_limbs id) < 2 ^ 256 =
      unfold hash_limbs value in omega (arith, h0, h1, h2, h3) in
    let held =
      product-Holds (hash_limbs id) (work_limbs w) h ws below (omega (arith, factor, low)) in
    let test =
      top_clear_iff (rows (hash_limbs id) (work_limbs w) zeros)
        (value (hash_limbs id) * value (work_limbs w)) held in
    subst (λ a. (top_clear (rows (hash_limbs id) (work_limbs w) zeros) ≡ true) ↔ (a * w < 2 ^ 256))
      number
      (subst
        (λ b.
          (top_clear (rows (hash_limbs id) (work_limbs w) zeros) ≡ true)
          ↔ (value (hash_limbs id) * b < 2 ^ 256))
        factor test)
