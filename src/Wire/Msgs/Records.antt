-- ===== src/Wire/Msgs/Records.antt =====
-- src/wire/msgs.rs: what the readers take from the TLV records at the end of a message.
use keraunos.Prelude.{
  ℕ, zero, suc, ◌%◌, ◌/◌, ◌&&◌, ◌==◌, if◌then◌else◌, List, [], ◌∷◌, Option, none, some, Bytes, Bool,
  length, take, drop, from_be,
}
use keraunos.Wire.Ser.{Result, ok, err, ◌>>=◌, unexpected_end, bad_format, read_be}
use keraunos.Wire.Tlv.{TlvRecord, parse_stream, check_unknown_even}
use keraunos.Wire.Msgs.Data.{ClosingSignedFeeRange}

-- `parse_stream(r.rest())?`, then `check_unknown_even(&records, known)?`. The fuel of
-- `parse_stream` never runs out.
unfoldable pub read_records : List ℕ → Bytes → Result (List TlvRecord)
unfolding parse_stream check_unknown_even
read_records known r = elim (parse_stream r) [
  | none ↦ err unexpected_end
  | some parsed ↦ parsed >>= λ records. check_unknown_even records known >>= λ t. ok records
]

-- `chunks_exact(32)`, as many as there are.
unfoldable pub chunks : ℕ → Bytes → List Bytes
chunks zero b = []
chunks (suc n) b = take 32 b ∷ chunks n (drop 32 b)

-- The loop of `Init::read`: the last record of type 1 counts.
unfoldable pub networks_of : List TlvRecord → Option (List Bytes) → Result (Option (List Bytes))
unfolding chunks
networks_of [] networks = ok networks
networks_of (rec ∷ records) networks =
    if rec.typ == 1
    then (if length rec.value % 32 == 0
        then networks_of records (some (chunks (length rec.value / 32) rec.value))
        else err (bad_format "init networks length"))
    else networks_of records networks

-- The value of the last record that is wanted.
unfoldable pub last_of : (TlvRecord → Bool) → List TlvRecord → Option Bytes → Option Bytes
last_of wanted [] found = found
last_of wanted (rec ∷ records) found =
    last_of wanted records (if wanted rec then some rec.value else found)

unfoldable pub open_accept_tlvs : List TlvRecord → Option Bytes × Option Bytes
unfolding last_of
open_accept_tlvs records =
    (last_of (λ rec. rec.typ == 0) records none, last_of (λ rec. rec.typ == 1) records none)

-- The loop of `CHANNEL_READY`.
unfoldable pub alias_of : List TlvRecord → Option ℕ
unfolding last_of from_be
alias_of records = elim (last_of (λ rec. rec.typ == 1 && length rec.value == 8) records none) [
  | none ↦ none
  | some value ↦ some (from_be 0 value)
]

unfoldable pub read_fee_range : Bytes → Result ClosingSignedFeeRange
unfolding read_be
read_fee_range value = do
  (lo, vr) ← read_be 8 value
  (hi, vr') ← read_be 8 vr
  ok (record { min_fee_satoshis = lo; max_fee_satoshis = hi })

-- The loop of `CLOSING_SIGNED`. A record of 16 bytes has both numbers.
unfoldable pub fee_range_of : List TlvRecord → Result (Option ClosingSignedFeeRange)
unfolding last_of read_fee_range
fee_range_of records = elim (last_of (λ rec. rec.typ == 1 && length rec.value == 16) records none) [
  | none ↦ ok none
  | some value ↦ read_fee_range value >>= λ range. ok (some range)
]
