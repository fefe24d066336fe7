-- ===== src/Wire/Msgs/Fits.antt =====
-- The values that the types of src/wire/msgs.rs hold: arrays of their size, integers of their
-- width, keys and signatures that libsecp256k1 takes, and byte strings with a 16-bit length.
use keraunos.Prelude.{
  ℕ, ◌∷◌, from_be, ◌^◌, ◌%◌, ◌<◌, ◌≡◌, refl, Bytes, Bool, true, arith, length, be_bytes, ◌++◌,
}
use keraunos.Wire.Ser.{ok, read_take, read_be, read_bytes_u16, read_pubkey, read_signature}
use keraunos.Wire.Ser.Reads.{read_take-append, read_be-append}

abbrev pub HasLength : ℕ → Bytes → Type 0
HasLength n xs = length xs ≡ n

abbrev pub IsU8 : ℕ → Type 0
IsU8 v = v < 256 ^ 1

abbrev pub IsU16 : ℕ → Type 0
IsU16 v = v < 256 ^ 2

abbrev pub IsU32 : ℕ → Type 0
IsU32 v = v < 256 ^ 4

abbrev pub IsU64 : ℕ → Type 0
IsU64 v = v < 256 ^ 8

abbrev pub IsShort : Bytes → Type 0
IsShort xs = length xs < 256 ^ 2

abbrev pub IsPubkey : (Bytes → Bool) → Bytes → Type 0
IsPubkey is_pubkey k = (length k ≡ 33) × (is_pubkey k ≡ true)

abbrev pub IsSignature : (Bytes → Bool) → Bytes → Type 0
IsSignature is_signature s = (length s ≡ 64) × (is_signature s ≡ true)

pub read_take_fact :
    (n : ℕ) (xs : Bytes)
    → HasLength n xs
    → (rest : Bytes) → read_take n (xs ++ rest) ≡ ok (xs, rest)
read_take_fact n xs h rest = read_take-append n xs rest h

pub read_be_fact :
    (n v : ℕ) → v < 256 ^ n → (rest : Bytes) → read_be n (be_bytes n v ++ rest) ≡ ok (v, rest)
read_be_fact n v h rest = read_be-append n v rest h

pub read_u8_fact : (v : ℕ) → IsU8 v → (rest : Bytes) → read_be 1 (v ∷ rest) ≡ ok (v, rest)
unfolding read_be read_take from_be
read_u8_fact v h rest = ground arith

pub read_short_fact :
    (xs : Bytes)
    → IsShort xs
    → (rest : Bytes)
    → read_bytes_u16 (be_bytes 2 (length xs % 2 ^ 16) ++ (xs ++ rest)) ≡ ok (xs, rest)
unfolding read_bytes_u16
read_short_fact xs h rest =
    let same : length xs % 2 ^ 16 ≡ length xs = omega arith in
    rw (same, read_be_fact 2 (length xs) h (xs ++ rest)) (read_take-append (length xs) xs rest refl)

module _ (is_pubkey is_signature : Bytes → Bool) where
  pub read_pubkey_fact :
      (k : Bytes)
      → IsPubkey is_pubkey k
      → (rest : Bytes) → read_pubkey is_pubkey is_signature (k ++ rest) ≡ ok (k, rest)
  unfolding read_pubkey
  read_pubkey_fact k h rest = rw (read_take_fact 33 k h.0 rest, h.1) refl

  pub read_signature_fact :
      (s : Bytes)
      → IsSignature is_signature s
      → (rest : Bytes) → read_signature is_pubkey is_signature (s ++ rest) ≡ ok (s, rest)
  unfolding read_signature
  read_signature_fact s h rest = rw (read_take_fact 64 s h.0 rest, h.1) refl
