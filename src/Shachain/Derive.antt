-- ===== src/Shachain/Derive.antt =====
-- src/shachain.rs: a secret derives every secret whose index shares its high bits.
use keraunos.Prelude.{
  ℕ, zero, suc, ◌+◌, ◌*◌, ◌/◌, ◌%◌, ◌^◌, ◌≤◌, ◌<◌, ◌≡◌, refl, sym, ap, ◌∙◌, arith, Bytes, ◌==◌,
  if◌then◌else◌, inl, inr, scale_le, Bool-cases,
}
use keraunos.Shachain.{test_bit, flip_bit, derive_step, derive_secret}
use native.Mathlib.Nat.{pow-suc, div-div-eq-div-mul, div-add-mod'}
use mathlib.Core.Path.{subst}
use native.Mathlib.Decide.{dec_le}

pub half_up : (x k : ℕ) → x / 2 ^ suc k ≡ x / 2 ^ k / 2
half_up x k = ap (λ t. x / t) (pow-suc 2 k) ∙ sym (div-div-eq-div-mul x (2 ^ k) 2)

-- Two indices with the same bits from `n` on.
abbrev pub Agree : ℕ → ℕ → ℕ → Type 0
Agree n i j = i / 2 ^ n ≡ j / 2 ^ n

pub Agree-mono : (n k i j : ℕ) → n ≤ k → Agree n i j → Agree k i j
Agree-mono n zero i j h e = subst (λ m. Agree m i j) {x = n} {y = 0} (omega arith) e
Agree-mono n (suc k) i j h e = elim (dec_le n k) [
  | yes p ↦ rw (half_up i k, half_up j k) (ap (λ (t : ℕ). t / 2) (Agree-mono n k i j p e))
  | no p ↦ subst (λ m. Agree m i j) {x = n} {y = suc k} (omega arith) e
]

-- The low `n` bits are zero.
abbrev pub LowZero : ℕ → ℕ → Type 0
LowZero n i = i % 2 ^ n ≡ 0

pub two_pow-pos : (n : ℕ) → 0 < 2 ^ n
two_pow-pos zero = omega arith
two_pow-pos (suc n) = rw pow-suc (omega (arith, two_pow-pos n))

-- A number split at bit `n`, with bit `n` apart.
pub split_bit : (n i : ℕ) → i ≡ i / 2 ^ suc n * (2 * 2 ^ n) + i / 2 ^ n % 2 * 2 ^ n + i % 2 ^ n
split_bit n i =
    rw half_up (
      omega (arith, div-add-mod' i (2 ^ n), ap (λ (t : ℕ). t * 2 ^ n) (div-add-mod' (i / 2 ^ n) 2)))

pub LowZero-down : (n i : ℕ) → LowZero (suc n) i → LowZero n i × (i / 2 ^ n % 2 ≡ 0)
LowZero-down n i h =
    let whole : i ≡ i / 2 ^ suc n * 2 ^ suc n = omega (arith, div-add-mod' i (2 ^ suc n), h) in
    let sum : i / 2 ^ n % 2 * 2 ^ n + i % 2 ^ n ≡ 0 =
      omega (arith, split_bit n i, whole, ap (λ (t : ℕ). i / 2 ^ suc n * t) (pow-suc 2 n)) in
    (
      omega (arith, sum),
      elim (Bool-cases (i / 2 ^ n % 2 == 0)) [
        | inl z ↦ ground arith
        | inr z ↦
            absurd
              (omega (arith, sum, two_pow-pos n, scale_le 1 (i / 2 ^ n % 2) (2 ^ n) (ground arith)))
      ],
    )

module _ (sha256 : Bytes → Bytes) where
  derive-LowZero : (base : Bytes) (n i : ℕ) → LowZero n i → derive_secret sha256 base n i ≡ base
  unfolding derive_secret derive_step test_bit
  derive-LowZero base zero i h = refl
  derive-LowZero base (suc n) i h =
      let (low, bit) = LowZero-down n i h in rw bit (derive-LowZero base n i low)

  derive_step-Agree :
      (base : Bytes) (n i j : ℕ)
      → Agree n i j
      → derive_step sha256 base n i ≡ derive_step sha256 base n j
  unfolding derive_step test_bit flip_bit
  derive_step-Agree base n i j e =
      ap (λ (t : ℕ). if t % 2 == 1 then sha256 (flip_bit base n) else base) e

  abbrev Composes : ℕ → ℕ → ℕ → ℕ → Bytes → Type 0
  Composes n k i j base =
      derive_secret sha256 (derive_secret sha256 base k i) n j ≡ derive_secret sha256 base k j

  Composes-at : (base : Bytes) (n i j : ℕ) → LowZero n i → Composes n n i j base
  Composes-at base n i j z = ap (λ t. derive_secret sha256 t n j) (derive-LowZero base n i z)

  -- Deriving in two stages is deriving at once: from a secret whose index `i` has its low `n` bits
  -- zero, every index `j` with the same bits above gets the secret that the base would give.
  pub derive_secret-derive_secret :
      (base : Bytes) (n k i j : ℕ)
      → n ≤ k
      → Agree n i j
      → LowZero n i
      → derive_secret sha256 (derive_secret sha256 base k i) n j ≡ derive_secret sha256 base k j
  unfolding derive_secret
  derive_secret-derive_secret base n zero i j h e z =
      subst (λ m. Composes n m i j base) {x = n} {y = 0} (omega arith) (Composes-at base n i j z)
  derive_secret-derive_secret base n (suc k) i j h e z = elim (dec_le n k) [
    | yes p ↦
        derive_secret-derive_secret (derive_step sha256 base k i) n k i j p e z
        ∙ ap (λ t. derive_secret sha256 t k j)
            (derive_step-Agree base k i j (Agree-mono n k i j p e))
    | no p ↦
        subst (λ m. Composes n m i j base) {x = n} {y = suc k} (omega arith)
          (Composes-at base n i j z)
  ]
