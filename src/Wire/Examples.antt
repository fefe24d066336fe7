-- ===== src/Wire/Examples.antt =====
-- src/wire: the codecs on concrete input.
use keraunos.Prelude.{
  ◌<◌, ◌≡◌, ◌≢◌, ◌↔◌, refl, arith, Bytes, List, [], ◌∷◌, ◌++◌, none, some, All, u64_mod, IsByte,
}
use keraunos.Wire.Ser.{ok, read_be}
use keraunos.Wire.BigSize.{read, write}
use keraunos.Wire.BigSize.RoundTrip.{read-write, read_canonical}
use keraunos.Wire.Tlv.{
  TlvRecord, read_record, read_length_value, read_value, parse_stream, check_unknown_even,
  read_tu64, read_tu32, read_tu16, write_tu64, write_tu32, write_tu16,
}
use keraunos.Wire.Tlv.Stream.{write_records, Ascending, IsRecord, parse_stream-write_records}
use keraunos.Wire.Tlv.Sound.{
  parse_stream_sound, parse_stream-ne-none, check_unknown_even_iff, IsUnknownEven,
}
use keraunos.Wire.Tlv.Truncated.{read_tu_all-write_tu_all}

abbrev word_bytes : Bytes
word_bytes = 0xfd ∷ 1 ∷ 2 ∷ 9 ∷ []

read-write_example : read (write [] 258 ++ 9 ∷ []) ≡ ok (258, 9 ∷ [])
read-write_example = read-write 258 (9 ∷ []) (omega arith)

read_canonical_example : (word_bytes ≡ write [] 258 ++ 9 ∷ []) × (258 < u64_mod)
unfolding read read_be
read_canonical_example =
    read_canonical word_bytes 258 (9 ∷ [])
      (omega arith, (omega arith, (omega arith, (omega arith, tt)))) refl

abbrev two_records : List TlvRecord
two_records = record { typ = 1; value = 5 ∷ 6 ∷ [] } ∷ record { typ = 4; value = [] } ∷ []

abbrev two_records_bytes : Bytes
two_records_bytes = 1 ∷ 2 ∷ 5 ∷ 6 ∷ 4 ∷ 0 ∷ []

bytes_of_two_records : All IsByte two_records_bytes
bytes_of_two_records =
    (omega arith, (omega arith, (omega arith, (omega arith, (omega arith, (omega arith, tt))))))

parse_stream-write_records_example :
    parse_stream (write_records [] two_records) ≡ some (ok two_records)
parse_stream-write_records_example =
    parse_stream-write_records two_records (tt, (omega arith, tt))
      ((omega arith, omega arith), ((omega arith, omega arith), tt))

parse_stream_sound_example :
    (two_records_bytes ≡ write_records [] two_records)
    × Ascending none two_records
    × All IsRecord two_records
unfolding parse_stream read_record read read_be read_length_value read_value
parse_stream_sound_example =
    parse_stream_sound two_records_bytes two_records bytes_of_two_records refl

parse_stream-ne-none_example : parse_stream two_records_bytes ≢ none
parse_stream-ne-none_example = parse_stream-ne-none two_records_bytes bytes_of_two_records

check_unknown_even_iff_example :
    (check_unknown_even two_records (4 ∷ []) ≡ ok tt)
    ↔ All (λ rec. ¬ IsUnknownEven (4 ∷ []) rec) two_records
check_unknown_even_iff_example = check_unknown_even_iff two_records (4 ∷ [])

read_tu_all-write_tu_all_example :
    (read_tu64 (write_tu64 1000) ≡ ok 1000)
    × (read_tu32 (write_tu32 0) ≡ ok 0)
    × (read_tu16 (write_tu16 65535) ≡ ok 65535)
read_tu_all-write_tu_all_example =
    read_tu_all-write_tu_all 1000 0 65535 (omega arith) (omega arith) (omega arith)
