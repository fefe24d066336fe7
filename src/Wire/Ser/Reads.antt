-- ===== src/Wire/Ser/Reads.antt =====
-- What the readers of src/wire/ser.rs return, on bytes in front of a rest and on any input.
use keraunos.Prelude.{
  All, IsByte, All-append_left, be_bytes-from_be, from_be-lt, inl, inr, ℕ, ◌^◌, ◌<◌, ◌≡◌, Bytes,
  ◌++◌, arith, length, be_bytes, from_be-be_bytes, length-be_bytes, length-append, take-append,
  drop-append, take-append-drop, length-take,
}
use keraunos.Wire.Ser.{ok, read_take, read_be, Result-cases}
use mathlib.Core.Path.{subst}

pub read_take-append :
    (n : ℕ) (xs rest : Bytes) → length xs ≡ n → read_take n (xs ++ rest) ≡ ok (xs, rest)
unfolding read_take
read_take-append n xs rest h =
    ground (arith, length-append xs rest, take-append xs rest, drop-append xs rest)

pub read_be-append :
    (n v : ℕ) (rest : Bytes) → v < 256 ^ n → read_be n (be_bytes n v ++ rest) ≡ ok (v, rest)
unfolding read_be
read_be-append n v rest h =
    ground
      (arith, read_take-append n (be_bytes n v) rest (length-be_bytes n v), from_be-be_bytes n v)

pub read_take_inv :
    (n : ℕ) (r xs rest : Bytes) → read_take n r ≡ ok (xs, rest) → (r ≡ xs ++ rest) × (length xs ≡ n)
unfolding read_take
read_take_inv n r xs rest h = ground (arith, take-append-drop n r, length-take n r)

-- A successful read of `n` bytes took them from the front, and they are the value's encoding.
pub read_be_inv :
    (n v : ℕ) (r rest : Bytes)
    → All IsByte r
    → read_be n r ≡ ok (v, rest)
    → (r ≡ be_bytes n v ++ rest) × (v < 256 ^ n)
unfolding read_be
read_be_inv n v r rest bytes h = elim (Result-cases (read_take n r)) [
  | inl ((head, tail), e) ↦ decoded head tail e
  | inr (x, e) ↦ ground arith
]
  where
    decoded :
        (head tail : Bytes)
        → read_take n r ≡ ok (head, tail)
        → (r ≡ be_bytes n v ++ rest) × (v < 256 ^ n)
    decoded head tail e =
        let (split, len) = read_take_inv n r head tail e in
        let byte : All IsByte head =
          All-append_left IsByte head tail (subst (All IsByte) split bytes) in
        ground (arith, be_bytes-from_be n head byte len, from_be-lt n head byte len)
