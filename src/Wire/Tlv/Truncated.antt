-- ===== src/Wire/Tlv/Truncated.antt =====
-- src/wire/tlv.rs: the truncated integers.
use keraunos.Prelude.{
  ℕ, zero, suc, ◌+◌, ◌-◌, ◌*◌, ◌%◌, ◌^◌, ◌≤◌, ◌<◌, ◌≡◌, refl, ap, ◌∙◌, Bytes, [], ◌∷◌, ◌++◌, arith,
  length, All, IsByte, u64_mod, be_bytes, from_be, from_be-be_bytes, from_be-lt, append_assoc,
  scale_le, be_bytes-from_be_acc, be_bytes-IsByte, false,
}
use keraunos.Wire.Ser.{ok}
use native.Mathlib.Nat.{pow-suc, pow-le-pow_right}
use native.Mathlib.Decide.{dec_le}
use keraunos.Wire.Tlv.{
  strip_zeros, shift_in, first_is_zero, read_tu64, write_tu64, read_tu32, write_tu32, read_tu16,
  write_tu16,
}

pow_le_u64 : (k : ℕ) → k ≤ 8 → 256 ^ k ≤ u64_mod
pow_le_u64 k h = pow-le-pow_right (omega arith) h

-- After `k` bytes no bit is shifted out, as long as `k` and those to come are 8 at most.
shift_in-from_be :
    (bs : Bytes) (out k : ℕ)
    → All IsByte bs
    → length bs + k ≤ 8
    → out < 256 ^ k
    → shift_in out bs ≡ from_be out bs
unfolding shift_in from_be
shift_in-from_be [] out k bytes h fits = refl
shift_in-from_be (b ∷ bs) out k bytes h fits =
    let wide : out * 256 < u64_mod =
      omega (arith, pow_le_u64 (suc k) (omega arith), pow-suc 256 k) in
    let same : out * 256 % u64_mod ≡ out * 256 = omega arith in
    rw same (
      shift_in-from_be bs (out * 256 + b) (suc k) bytes.1 (omega arith)
        (rw pow-suc (omega (arith, bytes.0))))

from_be-strip_zeros : (bs : Bytes) → from_be 0 (strip_zeros bs) ≡ from_be 0 bs
unfolding from_be strip_zeros
from_be-strip_zeros [] = refl
from_be-strip_zeros (b ∷ bs) = ground (arith, from_be-strip_zeros bs)

first-strip_zeros : (bs : Bytes) → first_is_zero (strip_zeros bs) ≡ false
unfolding first_is_zero strip_zeros
first-strip_zeros [] = refl
first-strip_zeros (b ∷ bs) = ground (arith, first-strip_zeros bs)

length-strip_zeros : (bs : Bytes) → length (strip_zeros bs) ≤ length bs
unfolding strip_zeros
length-strip_zeros [] = omega arith
length-strip_zeros (b ∷ bs) = ground (arith, length-strip_zeros bs)

strip_zeros-IsByte : (bs : Bytes) → All IsByte bs → All IsByte (strip_zeros bs)
unfolding strip_zeros
strip_zeros-IsByte [] h = tt
strip_zeros-IsByte (b ∷ bs) h = ground (arith, strip_zeros-IsByte bs h.1)

from_be-ge : (bs : Bytes) (acc : ℕ) → acc * 256 ^ length bs ≤ from_be acc bs
unfolding from_be
from_be-ge [] acc = omega arith
from_be-ge (b ∷ bs) acc = rw pow-suc (
    omega (
      arith,
      from_be-ge bs (acc * 256 + b),
      scale_le (acc * 256) (acc * 256 + b) (256 ^ length bs) (omega arith),
    ))

length-le_of_lt :
    (n : ℕ) (bs : Bytes) → first_is_zero bs ≡ false → from_be 0 bs < 256 ^ n → length bs ≤ n
unfolding first_is_zero from_be
length-le_of_lt n [] h lt = omega arith
length-le_of_lt n (c ∷ cs) h lt =
    let lt' : from_be (0 * 256 + c) cs < 256 ^ n = lt in
    elim (dec_le (suc (length cs)) n) [
      | yes p ↦ p
      | no p ↦ absurd (
          omega (
            arith,
            lt',
            from_be-ge cs (0 * 256 + c),
            scale_le 1 (0 * 256 + c) (256 ^ length cs) (ground arith),
            pow-le-pow_right {n = 256} (omega arith) {i = n} {j = length cs} (omega arith),
          ))
    ]

-- What `write_tu64` writes of a value below 256 ^ n.
write_tu64_shape :
    (n v : ℕ)
    → n ≤ 8
    → v < 256 ^ n
    → (length (write_tu64 v) ≤ n)
      × (first_is_zero (write_tu64 v) ≡ false)
      × (shift_in 0 (write_tu64 v) ≡ v)
unfolding write_tu64
write_tu64_shape n v h lt =
    let bs : Bytes = be_bytes 8 v in
    let wide : v < 256 ^ 8 = omega (arith, pow_le_u64 n h) in
    let value : from_be 0 (strip_zeros bs) ≡ v =
      from_be-strip_zeros bs ∙ from_be-be_bytes 8 v wide in
    let lead : first_is_zero (strip_zeros bs) ≡ false = first-strip_zeros bs in
    let bytes : All IsByte (strip_zeros bs) = strip_zeros-IsByte bs (be_bytes-IsByte 8 v) in
    let short : length (strip_zeros bs) ≤ n =
      length-le_of_lt n (strip_zeros bs) lead (rw value lt) in
    (short, lead, shift_in-from_be (strip_zeros bs) 0 0 bytes (omega arith) (omega arith) ∙ value)

read_tu-write_tu :
    (v : ℕ)
    → v < u64_mod
    → (read_tu64 (write_tu64 v) ≡ ok v)
      × (v < 2 ^ 32 → read_tu32 (write_tu32 v) ≡ ok v)
      × (v < 2 ^ 16 → read_tu16 (write_tu16 v) ≡ ok v)
unfolding read_tu32 read_tu16 write_tu32 write_tu16 read_tu64
read_tu-write_tu v h = (
  ground (arith, write_tu64_shape 8 v (omega arith) (omega arith)),
  λ k. unfold read_tu64 in ground (arith, write_tu64_shape 4 v (omega arith) (omega arith)),
  λ k. unfold read_tu64 in ground (arith, write_tu64_shape 2 v (omega arith) (omega arith)),
)

strip_zeros-be_bytes : (m : ℕ) (bs : Bytes) → strip_zeros (be_bytes m 0 ++ bs) ≡ strip_zeros bs
unfolding be_bytes
strip_zeros-be_bytes zero bs = refl
strip_zeros-be_bytes (suc m) bs =
    ap strip_zeros (append_assoc (be_bytes m 0) (0 ∷ []) bs)
    ∙ strip_zeros-be_bytes m (0 ∷ bs)
    ∙ zero_first bs
  where
    zero_first : (bs : Bytes) → strip_zeros (0 ∷ bs) ≡ strip_zeros bs
    zero_first bs = unfold strip_zeros in refl

strip_zeros_self : (bs : Bytes) → first_is_zero bs ≡ false → strip_zeros bs ≡ bs
unfolding strip_zeros first_is_zero
strip_zeros_self [] h = refl
strip_zeros_self (b ∷ bs) h = rw h

-- A truncated integer has one encoding only: bytes that `read_tu64` accepts are those that
-- `write_tu64` writes for the value, which is a u64.
pub read_tu64_canonical :
    (bs : Bytes) (v : ℕ) → All IsByte bs → read_tu64 bs ≡ ok v → (write_tu64 v ≡ bs) × (v < u64_mod)
unfolding read_tu64 write_tu64
read_tu64_canonical bs v bytes h =
    let short : length bs ≤ 8 = ground arith in
    let lead : first_is_zero bs ≡ false = ground arith in
    let value : v ≡ from_be 0 bs =
      ground (arith, shift_in-from_be bs 0 0 bytes (omega arith) (omega arith)) in
    (
      rw value (
          ap (λ k. strip_zeros (be_bytes k (from_be 0 bs))) {x = 8}
            {y = length bs + (8 - length bs)} (omega arith)
          ∙ ap strip_zeros (be_bytes-from_be_acc bs (8 - length bs) 0 bytes)
          ∙ strip_zeros-be_bytes (8 - length bs) bs
          ∙ strip_zeros_self bs lead),
      rw value (omega (arith, from_be-lt (length bs) bs bytes refl, pow_le_u64 (length bs) short)),
    )

-- The truncated integers of 64, 32 and 16 bits are read back as they were written.
pub read_tu_all-write_tu_all :
    (a b c : ℕ)
    → a < u64_mod
    → b < 2 ^ 32
    → c < 2 ^ 16
    → (read_tu64 (write_tu64 a) ≡ ok a)
      × (read_tu32 (write_tu32 b) ≡ ok b)
      × (read_tu16 (write_tu16 c) ≡ ok c)
read_tu_all-write_tu_all a b c p q r = (
  (read_tu-write_tu a p).0,
  (read_tu-write_tu b (omega arith)).1 q,
  (read_tu-write_tu c (omega arith)).2 r,
)
