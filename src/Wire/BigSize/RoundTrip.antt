-- ===== src/Wire/BigSize/RoundTrip.antt =====
-- src/wire/bigsize.rs: reading inverts writing, and every integer has one encoding only.
use keraunos.Prelude.{
  ℕ, inl, inr, if◌then◌else◌, leb, ◌+◌, ◌^◌, ◌≤◌, ◌<◌, ◌≡◌, Bytes, [], ◌∷◌, ◌++◌, arith, length,
  be_bytes, length-be_bytes, length-append, All, IsByte, u64_mod, append_assoc,
}
use keraunos.Wire.Ser.{ok, read_take, read_be, Result-cases}
use keraunos.Wire.Ser.Reads.{read_be-append, read_be_inv}
use keraunos.Wire.BigSize.{write, read, len, read_payload}

-- The bytes of an encoding.
unfoldable pub encoding : ℕ → Bytes
encoding v =
    if leb v 0xfc
    then v ∷ []
    else if leb v 0xffff
    then 0xfd ∷ be_bytes 2 v
    else if leb v 0xffff_ffff
    then 0xfe ∷ be_bytes 4 v
    else 0xff ∷ be_bytes 8 v

pub write-encoding : (w : Bytes) (v : ℕ) → write w v ≡ w ++ encoding v
unfolding write encoding
write-encoding w v = ground (
  arith,
  append_assoc w (0xfd ∷ []) (be_bytes 2 v),
  append_assoc w (0xfe ∷ []) (be_bytes 4 v),
  append_assoc w (0xff ∷ []) (be_bytes 8 v),
)

-- `len` is the number of bytes that `write` appends.
pub length-write : (w : Bytes) (v : ℕ) → length (write w v) ≡ length w + len v
unfolding len encoding
length-write w v = rw (write-encoding w v) (
    ground (
      arith,
      length-append w (encoding v),
      length-be_bytes 2 v,
      length-be_bytes 4 v,
      length-be_bytes 8 v,
    ))

read_byte : (b : ℕ) (rest : Bytes) → b < 256 → read_be 1 (b ∷ rest) ≡ ok (b, rest)
unfolding read_be
read_byte b rest h = ground arith

read_payload-append :
    (n least v : ℕ) (rest : Bytes)
    → v < 256 ^ n
    → least ≤ v
    → read_payload n least (be_bytes n v ++ rest) ≡ ok (v, rest)
unfolding read_payload
read_payload-append n least v rest h k = ground (arith, read_be-append n v rest h)

pub read-encoding : (v : ℕ) (rest : Bytes) → v < u64_mod → read (encoding v ++ rest) ≡ ok (v, rest)
unfolding read encoding
read-encoding v rest h = ground (
  arith,
  read_byte v rest,
  read_byte 0xfd (be_bytes 2 v ++ rest) (omega arith),
  read_byte 0xfe (be_bytes 4 v ++ rest) (omega arith),
  read_byte 0xff (be_bytes 8 v ++ rest) (omega arith),
  read_payload-append 2 0xfd v rest,
  read_payload-append 4 0x1_0000 v rest,
  read_payload-append 8 0x1_0000_0000 v rest,
)

-- `read` takes a u64 back that `write` appended to any bytes, and leaves what follows it.
pub read-write : (v : ℕ) (rest : Bytes) → v < u64_mod → read (write [] v ++ rest) ≡ ok (v, rest)
read-write v rest h = rw (write-encoding [] v) (read-encoding v rest h)

read_payload_inv :
    (n least v : ℕ) (r rest : Bytes)
    → All IsByte r
    → read_payload n least r ≡ ok (v, rest)
    → (r ≡ be_bytes n v ++ rest) × (v < 256 ^ n) × (least ≤ v)
unfolding read_payload
read_payload_inv n least v r rest bytes h = elim (Result-cases (read_be n r)) [
  | inl ((u, tail), e) ↦ ground (arith, read_be_inv n u r tail bytes e)
  | inr (x, e) ↦ ground arith
]

-- The encoding is minimal and unique: whatever `read` accepts, it is `write`'s encoding of the
-- returned u64, followed by the bytes left.
pub read_canonical :
    (r : Bytes) (v : ℕ) (rest : Bytes)
    → All IsByte r
    → read r ≡ ok (v, rest)
    → (r ≡ write [] v ++ rest) × (v < u64_mod)
unfolding read encoding
read_canonical [] v rest bytes h = unfold read_be read_take in ground arith
read_canonical (b ∷ bs) v rest bytes h = rw (write-encoding [] v) (
    ground (
      arith,
      read_byte b bs bytes.0,
      read_payload_inv 2 0xfd v bs rest bytes.1,
      read_payload_inv 4 0x1_0000 v bs rest bytes.1,
      read_payload_inv 8 0x1_0000_0000 v bs rest bytes.1,
    ))
