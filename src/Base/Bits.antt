-- ===== src/Base/Bits.antt =====
-- Masks: what remains of a number after two masks that have no bit in common.
use Prim.Native.Nat.{ℕ, zero, suc, ◌+◌, ◌*◌, ◌/◌, ◌%◌, min, bit_and, digits, bit_and-bitwise}
use mathlib.Core.Path.{◌≡◌, refl, ap, ◌∙◌}
use native.Mathlib.Omega.{arith}

-- `x & mask` of which at most `places` binary places are looked at.
abbrev masked : (places x mask : ℕ) → ℕ
masked places x mask = digits (λ _. zero) min places x mask

masked_zero : (places mask : ℕ) → masked places 0 mask ≡ 0
masked_zero zero mask = refl
masked_zero (suc places) mask = refl

-- One place, and those above it.
masked_split :
    (places x mask : ℕ)
    → masked (suc places) x mask ≡ masked places (x / 2) (mask / 2) * 2 + min (x % 2) (mask % 2)
masked_split places zero mask = omega (arith, masked_zero places (mask / 2))
masked_split places (suc x) mask = refl

masked_none : (places x : ℕ) → masked places x 0 ≡ 0
masked_none zero x = refl
masked_none (suc places) x = omega (arith, masked_split places x 0, masked_none places (x / 2))

-- The numbers share none of their lowest `places` places, above which `mask` has no bit.
abbrev pub Apart : (places other mask : ℕ) → Type 0
Apart zero other mask = mask ≡ 0
Apart (suc places) other mask =
    (min (other % 2) (mask % 2) ≡ 0) × Apart places (other / 2) (mask / 2)

masked_apart : (w k n x other mask : ℕ) → Apart w other mask → masked k (masked n x other) mask ≡ 0
masked_apart w zero n x other mask h = refl
masked_apart zero (suc k) n x other mask h =
    ap (masked (suc k) (masked n x other)) h ∙ masked_none (suc k) (masked n x other)
masked_apart (suc w) (suc k) zero x other mask h = refl
masked_apart (suc w) (suc k) (suc n) x other mask h =
    let rest = masked_apart w k n (x / 2) (other / 2) (mask / 2) h.1 in
    let low = h.0 in
    let inner = masked n (x / 2) (other / 2) in
    let halved : masked (suc n) x other / 2 ≡ inner = omega (arith, masked_split n x other) in
    let bit : masked (suc n) x other % 2 ≡ min (x % 2) (other % 2) =
      omega (arith, masked_split n x other) in
    let above : masked k (masked (suc n) x other / 2) (mask / 2) ≡ 0 =
      ap (λ y. masked k y (mask / 2)) halved ∙ rest in
    omega (arith, masked_split k (masked (suc n) x other) mask)

pub bit_and-apart : (w x other mask : ℕ) → Apart w other mask → bit_and (bit_and x other) mask ≡ 0
bit_and-apart w x other mask h =
    bit_and-bitwise (bit_and x other) mask
    ∙ ap (λ y. masked (bit_and x other) y mask) (bit_and-bitwise x other)
    ∙ masked_apart w (bit_and x other) x x other mask h

-- Clearing bit 0 of a 32-bit mask leaves it clear.
pub clear_one : (x : ℕ) → bit_and (bit_and x 0xffff_fffe) 1 ≡ 0
clear_one x = bit_and-apart 1 x 0xffff_fffe 1 (refl, refl)

-- Clearing bit 2 of a 32-bit mask leaves it clear.
pub clear_four : (x : ℕ) → bit_and (bit_and x 0xffff_fffb) 4 ≡ 0
clear_four x = bit_and-apart 3 x 0xffff_fffb 4 (refl, (refl, (refl, refl)))
