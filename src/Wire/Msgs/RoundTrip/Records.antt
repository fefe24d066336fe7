-- ===== src/Wire/Msgs/RoundTrip/Records.antt =====
-- src/wire/msgs.rs: what the readers find in the TLV records that `encode` wrote.
use keraunos.Prelude.{
  ℕ, ◌*◌, ◌/◌, ◌%◌, ◌≡◌, refl, ◌∙◌, ap, sym, arith, Bytes, List, [], ◌∷◌, ◌++◌, append_assoc,
  append-nil, All, length, length-append, take, drop, take-append, drop-append, Option, none, some,
  be_bytes, length-be_bytes, from_be-be_bytes, from_be,
}
use keraunos.Wire.Ser.{ok, write_u64, read_be}
use keraunos.Wire.Tlv.{TlvRecord, parse_stream, check_unknown_even, contains}
use keraunos.Wire.Tlv.Stream.{
  stream_bytes, record_bytes, Ascending, IsRecord, write_record-bytes, write_records-bytes,
  parse_stream-write_records,
}
use keraunos.Wire.Msgs.Data.{ClosingSignedFeeRange}
use keraunos.Wire.Msgs.Fits.{HasLength, IsU64, read_be_fact}
use keraunos.Wire.Msgs.Put.{concat, optional_record, networks_value, alias_value, fee_range_value}
use keraunos.Wire.Msgs.Records.{
  read_records, chunks, networks_of, last_of, open_accept_tlvs, alias_of, read_fee_range,
  fee_range_of,
}
use keraunos.Wire.Msgs.Valid.{IsOptional, IsNetworks, IsAlias, IsFeeRange}

abbrev pub tlv_of : Option Bytes → ℕ → List TlvRecord
tlv_of none typ = []
tlv_of (some value) typ = record { typ = typ; value = value } ∷ []

pub optional_record-eq :
    (value : Option Bytes) (typ : ℕ) (w : Bytes)
    → optional_record value typ w ≡ w ++ stream_bytes (tlv_of value typ)
unfolding optional_record stream_bytes
optional_record-eq none typ w = sym (append-nil w)
optional_record-eq (some value) typ w =
    rw (append-nil) (write_record-bytes w (record { typ = typ; value = value }))

pub read_records-stream_bytes :
    (records : List TlvRecord) (known : List ℕ)
    → Ascending none records
    → All IsRecord records
    → check_unknown_even records known ≡ ok tt
    → read_records known (stream_bytes records) ≡ ok records
unfolding read_records
read_records-stream_bytes records known asc fits even =
    let parsed : parse_stream (stream_bytes records) ≡ some (ok records) =
      ap parse_stream (sym (write_records-bytes [] records))
      ∙ parse_stream-write_records records asc fits in
    rw (parsed, read_records, even) refl

-- One record of type 1.
pub read_records-tlv :
    (value : Option Bytes)
    → IsOptional value
    → read_records [] (stream_bytes (tlv_of value 1)) ≡ ok (tlv_of value 1)
read_records-tlv none h = read_records-stream_bytes [] [] tt tt (unfold check_unknown_even in refl)
read_records-tlv (some value) h =
    read_records-stream_bytes (tlv_of (some value) 1) [] (tt, tt) ((omega arith, h), tt)
      (unfold check_unknown_even in refl)

abbrev pub tlvs_of : Option Bytes → Option Bytes → List TlvRecord
tlvs_of shutdown ctype = tlv_of shutdown 0 ++ tlv_of ctype 1

pub stream_bytes-append :
    (xs ys : List TlvRecord) → stream_bytes xs ++ stream_bytes ys ≡ stream_bytes (xs ++ ys)
unfolding stream_bytes
stream_bytes-append [] ys = refl
stream_bytes-append (x ∷ xs) ys =
    append_assoc (record_bytes x) (stream_bytes xs) (stream_bytes ys)
    ∙ ap (λ t. record_bytes x ++ t) (stream_bytes-append xs ys)

pub read_records-tlvs :
    (shutdown ctype : Option Bytes)
    → IsOptional shutdown
    → IsOptional ctype
    → read_records (0 ∷ []) (stream_bytes (tlvs_of shutdown ctype)) ≡ ok (tlvs_of shutdown ctype)
read_records-tlvs none none h k =
    read_records-stream_bytes [] (0 ∷ []) tt tt (unfold check_unknown_even in refl)
read_records-tlvs none (some t) h k =
    read_records-stream_bytes (tlv_of (some t) 1) (0 ∷ []) (tt, tt) ((omega arith, k), tt)
      (unfold check_unknown_even in refl)
read_records-tlvs (some s) none h k =
    read_records-stream_bytes (tlv_of (some s) 0) (0 ∷ []) (tt, tt) ((omega arith, h), tt)
      (unfold check_unknown_even contains in refl)
read_records-tlvs (some s) (some t) h k =
    read_records-stream_bytes (tlvs_of (some s) (some t)) (0 ∷ []) (tt, (omega arith, tt))
      ((omega arith, h), ((omega arith, k), tt)) (unfold check_unknown_even contains in refl)

pub open_accept_tlvs-tlvs :
    (shutdown ctype : Option Bytes) → open_accept_tlvs (tlvs_of shutdown ctype) ≡ (shutdown, ctype)
unfolding open_accept_tlvs last_of
open_accept_tlvs-tlvs none none = refl
open_accept_tlvs-tlvs none (some t) = refl
open_accept_tlvs-tlvs (some s) none = refl
open_accept_tlvs-tlvs (some s) (some t) = refl

chunks-concat :
    (nets : List Bytes)
    → All (HasLength 32) nets
    → (length (concat nets) ≡ 32 * length nets) × (chunks (length nets) (concat nets) ≡ nets)
unfolding concat chunks
chunks-concat [] h = (refl, refl)
chunks-concat (net ∷ nets) h =
    let (size, same) = chunks-concat nets h.1 in
    let cut : (take 32 (net ++ concat nets) ≡ net) × (drop 32 (net ++ concat nets) ≡ concat nets) =
      rw (sym h.0) (take-append net (concat nets), drop-append net (concat nets)) in
    (omega (arith, length-append net (concat nets), size, h.0), rw (cut.0, cut.1, same) refl)

pub IsOptional-networks :
    (nets : Option (List Bytes)) → IsNetworks nets → IsOptional (networks_value nets)
IsOptional-networks none h = tt
IsOptional-networks (some nets) h = omega (arith, h.0, chunks-concat nets h.1)

pub networks_of-tlv :
    (nets : Option (List Bytes))
    → IsNetworks nets
    → networks_of (tlv_of (networks_value nets) 1) none ≡ ok nets
unfolding networks_of
networks_of-tlv none h = refl
networks_of-tlv (some nets) h =
    let (size, same) = chunks-concat nets h.1 in
    let whole : length (concat nets) % 32 ≡ 0 = omega (arith, size) in
    let count : length (concat nets) / 32 ≡ length nets = omega (arith, size) in
    rw (whole, count, same) refl

alias_of-value :
    (value : Bytes) → length value ≡ 8 → alias_of (tlv_of (some value) 1) ≡ some (from_be 0 value)
unfolding alias_of last_of
alias_of-value value h = ground arith

fee_range_of-value :
    (value : Bytes) (range : ClosingSignedFeeRange)
    → length value ≡ 16
    → read_fee_range value ≡ ok range
    → fee_range_of (tlv_of (some value) 1) ≡ ok (some range)
unfolding fee_range_of last_of
fee_range_of-value value range h k = ground arith

pub alias_of-tlv :
    (alias : Option ℕ) → IsAlias alias → alias_of (tlv_of (alias_value alias) 1) ≡ alias
unfolding write_u64
alias_of-tlv none h = unfold alias_of last_of in refl
alias_of-tlv (some alias) h =
    alias_of-value (be_bytes 8 alias) (length-be_bytes 8 alias)
    ∙ ap (λ t. some t) (from_be-be_bytes 8 alias h)

read_fee_range-bytes :
    (range : ClosingSignedFeeRange)
    → IsU64 range.min_fee_satoshis
    → IsU64 range.max_fee_satoshis
    → read_fee_range (be_bytes 8 range.min_fee_satoshis ++ be_bytes 8 range.max_fee_satoshis)
      ≡ ok range
unfolding read_fee_range
read_fee_range-bytes range h k =
    let last : read_be 8 (be_bytes 8 range.max_fee_satoshis) ≡ ok (range.max_fee_satoshis, []) =
      ap (read_be 8) (sym (append-nil (be_bytes 8 range.max_fee_satoshis)))
      ∙ read_be_fact 8 range.max_fee_satoshis k [] in
    rw (read_be_fact 8 range.min_fee_satoshis h (be_bytes 8 range.max_fee_satoshis), last) refl

pub fee_range_of-tlv :
    (range : Option ClosingSignedFeeRange)
    → IsFeeRange range
    → fee_range_of (tlv_of (fee_range_value range) 1) ≡ ok range
unfolding write_u64
fee_range_of-tlv none h = unfold fee_range_of last_of in refl
fee_range_of-tlv (some range) h =
    let lo : Bytes = be_bytes 8 range.min_fee_satoshis in
    let hi : Bytes = be_bytes 8 range.max_fee_satoshis in
    let size : length (lo ++ hi) ≡ 16 = omega (
      arith,
      length-append lo hi,
      length-be_bytes 8 range.min_fee_satoshis,
      length-be_bytes 8 range.max_fee_satoshis,
    ) in
    fee_range_of-value (lo ++ hi) range size (read_fee_range-bytes range h.0 h.1)

pub IsOptional-alias : (alias : Option ℕ) → IsOptional (alias_value alias)
unfolding write_u64
IsOptional-alias none = tt
IsOptional-alias (some alias) = omega (arith, length-be_bytes 8 alias)

pub IsOptional-fee_range :
    (range : Option ClosingSignedFeeRange) → IsOptional (fee_range_value range)
unfolding write_u64
IsOptional-fee_range none = tt
IsOptional-fee_range (some range) = omega (
  arith,
  length-append (be_bytes 8 range.min_fee_satoshis) (be_bytes 8 range.max_fee_satoshis),
  length-be_bytes 8 range.min_fee_satoshis,
  length-be_bytes 8 range.max_fee_satoshis,
)
