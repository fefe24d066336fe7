-- ===== src/Wire/Tlv/Stream.antt =====
-- src/wire/tlv.rs: `parse_stream` against `write_record`.
use keraunos.Prelude.{
  ℕ, zero, suc, ◌≤◌, ◌<◌, ◌≡◌, ◌≢◌, refl, sym, ap, ◌∙◌, Bytes, List, [], ◌∷◌, ◌++◌, Option, none,
  some, arith, length, length-append, All, u64_mod, append_assoc, append-nil, false,
}
use keraunos.Wire.Ser.{ok}
use keraunos.Wire.Ser.Reads.{read_take-append}
use keraunos.Wire.BigSize
use keraunos.Wire.BigSize.RoundTrip.{encoding, write-encoding, read-encoding}
use keraunos.Wire.Tlv.{
  TlvRecord, not_ascending, read_value, read_length_value, read_record, parse_loop, parse_stream,
  write_record,
}

-- The callers' loop: one `write_record` after the other.
unfoldable pub write_records : Bytes → List TlvRecord → Bytes
write_records w [] = w
write_records w (rec ∷ records) = write_records (write_record w rec.typ rec.value) records

-- Types strictly ascend, from a type already seen if there is one.
abbrev pub Above : Option ℕ → ℕ → Type 0
Above none typ = Unit {0}
Above (some prev) typ = prev < typ

abbrev pub Ascending : Option ℕ → List TlvRecord → Type 0
Ascending last [] = Unit {0}
Ascending last (rec ∷ records) = Above last rec.typ × Ascending (some rec.typ) records

-- Types and lengths fit 64 bits.
abbrev pub IsRecord : TlvRecord → Type 0
IsRecord rec = (rec.typ < u64_mod) × (length rec.value < u64_mod)

unfoldable pub record_bytes : TlvRecord → Bytes
record_bytes rec = encoding rec.typ ++ (encoding (length rec.value) ++ rec.value)

unfoldable pub stream_bytes : List TlvRecord → Bytes
stream_bytes [] = []
stream_bytes (rec ∷ records) = record_bytes rec ++ stream_bytes records

pub write_record-bytes :
    (w : Bytes) (rec : TlvRecord) → write_record w rec.typ rec.value ≡ w ++ record_bytes rec
unfolding write_record record_bytes
write_record-bytes w rec = rw (
  write-encoding (BigSize.write w rec.typ) (length rec.value),
  write-encoding w rec.typ,
  append_assoc (w ++ encoding rec.typ) (encoding (length rec.value)) rec.value,
  append_assoc w (encoding rec.typ) (encoding (length rec.value) ++ rec.value),
)

pub write_records-bytes :
    (w : Bytes) (records : List TlvRecord) → write_records w records ≡ w ++ stream_bytes records
unfolding write_records stream_bytes
write_records-bytes w [] = sym (append-nil w)
write_records-bytes w (rec ∷ records) =
    write_records-bytes (write_record w rec.typ rec.value) records
    ∙ ap (λ t. t ++ stream_bytes records) (write_record-bytes w rec)
    ∙ append_assoc w (record_bytes rec) (stream_bytes records)

Above-test : (last : Option ℕ) (typ : ℕ) → Above last typ → not_ascending last typ ≡ false
unfolding not_ascending
Above-test none typ h = refl
Above-test (some prev) typ h = ground arith

pub Above-of_test : (last : Option ℕ) (typ : ℕ) → not_ascending last typ ≡ false → Above last typ
unfolding not_ascending
Above-of_test none typ h = tt
Above-of_test (some prev) typ h = ground arith

read_value-append :
    (typ : ℕ) (value rest : Bytes)
    → read_value typ (length value) (value ++ rest) ≡ ok (record { typ = typ; value = value }, rest)
unfolding read_value
read_value-append typ value rest =
    ground (arith, read_take-append (length value) value rest refl, length-append value rest)

read_record-bytes :
    (last : Option ℕ) (rec : TlvRecord) (rest : Bytes)
    → Above last rec.typ
    → IsRecord rec
    → read_record last (record_bytes rec ++ rest) ≡ ok (rec, rest)
unfolding read_record read_length_value record_bytes
read_record-bytes last rec rest above fits =
    rw
      (
        append_assoc (encoding rec.typ) (encoding (length rec.value) ++ rec.value) rest,
        append_assoc (encoding (length rec.value)) rec.value rest,
      )
      (ground (
        arith,
        read-encoding rec.typ (encoding (length rec.value) ++ (rec.value ++ rest)),
        read-encoding (length rec.value) (rec.value ++ rest),
        read_value-append rec.typ rec.value rest,
        Above-test last rec.typ above,
      ))

parse_loop_step :
    (fuel : ℕ) (bs : Bytes) (last : Option ℕ) (records : List TlvRecord) {rec : TlvRecord}
    {rest : Bytes}
    → bs ≢ []
    → read_record last bs ≡ ok (rec, rest)
    → parse_loop (suc fuel) bs last records
      ≡ parse_loop fuel rest (some rec.typ) (records ++ rec ∷ [])
unfolding parse_loop
parse_loop_step fuel [] last records h e = absurd (h refl)
parse_loop_step fuel (b ∷ bs) last records h e = rw (e, parse_loop)

pub encoding-pos : (v : ℕ) (rest : Bytes) → 0 < length (encoding v ++ rest)
unfolding encoding
encoding-pos v rest = ground arith

pub record_bytes-pos : (rec : TlvRecord) → 0 < length (record_bytes rec)
unfolding record_bytes
record_bytes-pos rec = encoding-pos rec.typ (encoding (length rec.value) ++ rec.value)

record_bytes-ne : (rec : TlvRecord) (rest : Bytes) → record_bytes rec ++ rest ≢ []
record_bytes-ne rec rest e =
    absurd (omega (arith, record_bytes-pos rec, ap length e, length-append (record_bytes rec) rest))

parse_loop-stream_bytes :
    (records : List TlvRecord) (fuel : ℕ) (last : Option ℕ) (seen : List TlvRecord)
    → length (stream_bytes records) ≤ fuel
    → Ascending last records
    → All IsRecord records
    → parse_loop fuel (stream_bytes records) last seen ≡ some (ok (seen ++ records))
unfolding stream_bytes
parse_loop-stream_bytes [] fuel last seen h asc fits = unfold parse_loop in rw append-nil refl
parse_loop-stream_bytes (rec ∷ records) zero last seen h asc fits =
    absurd
      (omega (arith, record_bytes-pos rec, length-append (record_bytes rec) (stream_bytes records)))
parse_loop-stream_bytes (rec ∷ records) (suc fuel) last seen h asc fits =
    parse_loop_step fuel (record_bytes rec ++ stream_bytes records) last seen
      (record_bytes-ne rec (stream_bytes records))
      (read_record-bytes last rec (stream_bytes records) asc.0 fits.0)
    ∙ parse_loop-stream_bytes records fuel (some rec.typ) (seen ++ rec ∷ [])
        (omega
          (arith, record_bytes-pos rec, length-append (record_bytes rec) (stream_bytes records)))
        asc.1 fits.1
    ∙ ap (λ t. some (ok t)) (append_assoc seen (rec ∷ []) records)

-- `parse_stream` reads back what `write_record` wrote, record by record, if the types strictly
-- ascend and types and lengths fit 64 bits.
pub parse_stream-write_records :
    (records : List TlvRecord)
    → Ascending none records
    → All IsRecord records
    → parse_stream (write_records [] records) ≡ some (ok records)
unfolding parse_stream
parse_stream-write_records records asc fits =
    rw (write_records-bytes [] records) (
      parse_loop-stream_bytes records (length (stream_bytes records)) none [] (omega arith) asc
        fits)
