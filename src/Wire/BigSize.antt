-- ===== src/Wire/BigSize.antt =====
-- src/wire/bigsize.rs
pub mod RoundTrip
use keraunos.Prelude.{ℕ, ◌%◌, ◌^◌, Bytes, leb, ltb, ◌==◌, if◌then◌else◌}
use keraunos.Wire.Ser.{
  Result, ok, err, non_minimal_big_size, ◌>>=◌, write_u8, write_u16, write_u32, write_u64, read_be,
}

unfoldable pub write : Bytes → ℕ → Bytes
unfolding write_u8 write_u16 write_u32 write_u64
write w value =
    if leb value 0xfc
    then write_u8 w (value % 2 ^ 8)
    else if leb value 0xffff
    then write_u16 (write_u8 w 0xfd) (value % 2 ^ 16)
    else if leb value 0xffff_ffff
    then write_u32 (write_u8 w 0xfe) (value % 2 ^ 32)
    else write_u64 (write_u8 w 0xff) value

-- A payload of `n` bytes whose value must be at least `least`.
unfoldable pub read_payload : ℕ → ℕ → Bytes → Result (ℕ × Bytes)
read_payload n least r = do
  (v, rest) ← read_be n r
  if ltb v least then err non_minimal_big_size else ok (v, rest)

read_tagged : ℕ → Bytes → Result (ℕ × Bytes)
unfolding read_payload
read_tagged first rest =
    if leb first 0xfc
    then ok (first, rest)
    else if first == 0xfd
    then read_payload 2 0xfd rest
    else if first == 0xfe
    then read_payload 4 0x1_0000 rest
    else read_payload 8 0x1_0000_0000 rest

unfoldable pub read : Bytes → Result (ℕ × Bytes)
unfolding read_tagged
read r = do (first, rest) ← read_be 1 r; read_tagged first rest

unfoldable pub len : ℕ → ℕ
len value =
    if leb value 0xfc
    then 1
    else if leb value 0xffff
    then 3
    else if leb value 0xffff_ffff
    then 5
    else 9
