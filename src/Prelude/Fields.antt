-- ===== src/Prelude/Fields.antt =====
-- `|` on words of a width, digit by digit, and the sum that it is for fields that do not overlap.
use Prim.Native.Nat.{ℕ, zero, suc, ◌+◌, ◌*◌, ◌/◌, ◌%◌, ◌^◌, ◌<◌, max}
use mathlib.Core.Path.{◌≡◌, ap}
use native.Mathlib.Omega.{arith}
use native.Mathlib.Nat.{pow-suc}

-- The lowest `width` digits of `a | b`.
unfoldable pub or_bits : ℕ → ℕ → ℕ → ℕ
or_bits zero a b = 0
or_bits (suc width) a b = max (a % 2) (b % 2) + 2 * or_bits width (a / 2) (b / 2)

or_bits-none : (width word : ℕ) → word < 2 ^ width → or_bits width word 0 ≡ word
unfolding or_bits
or_bits-none zero word fits = omega arith
or_bits-none (suc width) word fits =
    omega (arith, pow-suc 2 width, or_bits-none width (word / 2) (omega (arith, pow-suc 2 width)))

-- A field above `k` low bits, and one within them.
pub or_bits-disjoint :
    (width k high low : ℕ)
    → low < 2 ^ k
    → high * 2 ^ k + low < 2 ^ width
    → or_bits width (high * 2 ^ k) low ≡ high * 2 ^ k + low
unfolding or_bits
or_bits-disjoint width zero high low small fits =
    let nothing_low : low ≡ 0 = omega arith in
    rw nothing_low (omega (arith, or_bits-none width (high * 2 ^ 0) (omega arith)))
or_bits-disjoint zero (suc k) high low small fits = omega arith
or_bits-disjoint (suc width) (suc k) high low small fits =
    let shifted : high * 2 ^ suc k ≡ 2 * (high * 2 ^ k) =
      omega (arith, ap (λ (p : ℕ). high * p) (pow-suc 2 k)) in
    let halved : high * 2 ^ suc k / 2 ≡ high * 2 ^ k = omega (arith, shifted) in
    let rest =
      or_bits-disjoint width k high (low / 2) (omega (arith, pow-suc 2 k))
        (omega (arith, shifted, pow-suc 2 width)) in
    omega (arith, shifted, rest, ap (λ (h : ℕ). or_bits width h (low / 2)) halved)
