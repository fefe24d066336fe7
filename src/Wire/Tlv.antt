-- ===== src/Wire/Tlv.antt =====
-- src/wire/tlv.rs
pub mod Stream
pub mod Sound
pub mod Truncated
use keraunos.Prelude.{
  ℕ, zero, suc, ◌+◌, ◌*◌, ◌%◌, ◌^◌, Bytes, Bool, true, false, not, ◌&&◌, ◌||◌, ltb, leb, ◌==◌,
  if◌then◌else◌, List, [], ◌∷◌, ◌++◌, Option, none, some, length, drop, be_bytes, u64_mod,
}
use keraunos.Wire.Ser.{
  Result, ok, err, unknown_required_tlv, tlv_not_strictly_ascending, tlv_length_mismatch,
  bad_format, ◌>>=◌, read_take, write_bytes,
}
use keraunos.Wire.BigSize

pub record TlvRecord : Type 0 where
  pub typ : ℕ
  pub value : Bytes

-- `if let Some(prev) = last_type { typ <= prev }`
unfoldable pub not_ascending : Option ℕ → ℕ → Bool
not_ascending none typ = false
not_ascending (some prev) typ = leb typ prev

unfoldable pub read_value : ℕ → ℕ → Bytes → Result (TlvRecord × Bytes)
read_value typ len r =
    if ltb (length r) len
    then err tlv_length_mismatch
    else (read_take len r >>= λ t. ok (record { typ = typ; value = t.0 }, t.1))

unfoldable pub read_length_value : ℕ → Bytes → Result (TlvRecord × Bytes)
read_length_value typ r = do (len, rest) ← BigSize.read r; read_value typ len rest

-- One round of the loop of `parse_stream`.
unfoldable pub read_record : Option ℕ → Bytes → Result (TlvRecord × Bytes)
unfolding not_ascending
read_record last r = do
  (typ, rest) ← BigSize.read r
  if not_ascending last typ then err tlv_not_strictly_ascending else read_length_value typ rest

-- `none`: out of fuel, which is no value of the source.
unfoldable pub parse_loop : ℕ → Bytes → Option ℕ → List TlvRecord → Option (Result (List TlvRecord))
parse_loop fuel [] last records = some (ok records)
parse_loop zero (b ∷ bs) last records = none
parse_loop (suc fuel) (b ∷ bs) last records = elim (read_record last (b ∷ bs)) [
  | err e ↦ some (err e)
  | ok (rec, rest) ↦ parse_loop fuel rest (some rec.typ) (records ++ rec ∷ [])
]

-- Each round takes bytes from the front, so as many rounds as there are bytes suffice.
unfoldable pub parse_stream : Bytes → Option (Result (List TlvRecord))
unfolding parse_loop
parse_stream bs = parse_loop (length bs) bs none []

unfoldable pub contains : List ℕ → ℕ → Bool
contains [] t = false
contains (k ∷ ks) t = k == t || contains ks t

unfoldable pub check_unknown_even : List TlvRecord → List ℕ → Result (Unit {0})
unfolding contains
check_unknown_even [] known = ok tt
check_unknown_even (rec ∷ records) known =
    if rec.typ % 2 == 0 && not (contains known rec.typ)
    then err (unknown_required_tlv rec.typ)
    else check_unknown_even records known

unfoldable pub write_record : Bytes → ℕ → Bytes → Bytes
unfolding write_bytes
write_record w typ value = write_bytes (BigSize.write (BigSize.write w typ) (length value)) value

-- `bytes[skip..]`, with `skip` the number of leading zeros.
unfoldable pub strip_zeros : Bytes → Bytes
strip_zeros [] = []
strip_zeros (b ∷ bs) = if b == 0 then strip_zeros bs else b ∷ bs

unfoldable pub write_tu64 : ℕ → Bytes
unfolding strip_zeros
write_tu64 value = strip_zeros (be_bytes 8 value)

-- `out << 8 | b`, where the shift leaves the low 8 bits of `out` zero and drops those above 64.
unfoldable pub shift_in : ℕ → Bytes → ℕ
shift_in out [] = out
shift_in out (b ∷ bs) = shift_in (out * 256 % u64_mod + b) bs

unfoldable pub first_is_zero : Bytes → Bool
first_is_zero [] = false
first_is_zero (b ∷ bs) = b == 0

unfoldable pub read_tu64 : Bytes → Result ℕ
unfolding first_is_zero shift_in
read_tu64 value =
    if ltb 8 (length value)
    then err (bad_format "tu64 too long")
    else if first_is_zero value
    then err (bad_format "tu64 not minimal")
    else ok (shift_in 0 value)

unfoldable pub write_tu32 : ℕ → Bytes
unfolding write_tu64
write_tu32 value = write_tu64 value

unfoldable pub read_tu32 : Bytes → Result ℕ
unfolding read_tu64
read_tu32 value =
    if ltb 4 (length value)
    then err (bad_format "tu32 too long")
    else (read_tu64 value >>= λ v. ok (v % 2 ^ 32))

unfoldable pub write_tu16 : ℕ → Bytes
unfolding write_tu64
write_tu16 value = write_tu64 value

unfoldable pub read_tu16 : Bytes → Result ℕ
unfolding read_tu64
read_tu16 value =
    if ltb 2 (length value)
    then err (bad_format "tu16 too long")
    else (read_tu64 value >>= λ v. ok (v % 2 ^ 16))
