-- ===== src/Wire/Tlv/Sound.antt =====
-- src/wire/tlv.rs: what `parse_stream` accepts, that it always ends, and the check of even types.
use keraunos.Prelude.{
  ℕ, zero, suc, ◌%◌, ◌≤◌, ◌<◌, ◌≡◌, ◌≢◌, refl, sym, ap, ◌∙◌, Bytes, List, [], ◌∷◌, ◌++◌, Option,
  none, some, arith, length, length-append, All, IsByte, u64_mod, append_assoc, append-nil, inl,
  inr, All-append_right, false, ◌↔◌,
}
use keraunos.Wire.Ser.{ok, read_take, Result-cases}
use keraunos.Wire.Ser.Reads.{read_take_inv}
use keraunos.Wire.BigSize
use keraunos.Wire.BigSize.RoundTrip.{encoding, write-encoding, read_canonical}
use keraunos.Wire.Tlv.{
  TlvRecord, not_ascending, read_value, read_length_value, read_record, parse_loop, parse_stream,
  contains, check_unknown_even,
}
use keraunos.Wire.Tlv.Stream.{
  write_records, Above, Ascending, IsRecord, record_bytes, stream_bytes, write_records-bytes,
  Above-of_test, record_bytes-pos,
}
use mathlib.Core.Path.{subst}

read-encoding_inv :
    (r : Bytes) (v : ℕ) (rest : Bytes)
    → All IsByte r
    → BigSize.read r ≡ ok (v, rest)
    → (r ≡ encoding v ++ rest) × (v < u64_mod) × All IsByte rest
read-encoding_inv r v rest bytes h =
    let (split, fits) = read_canonical r v rest bytes h in
    let split' : r ≡ encoding v ++ rest = rw (write-encoding [] v) at split in
    (split', fits, All-append_right IsByte (encoding v) rest (subst (All IsByte) split' bytes))

read_value_inv :
    (typ len : ℕ) (r : Bytes) (rec : TlvRecord) (rest : Bytes)
    → All IsByte r
    → read_value typ len r ≡ ok (rec, rest)
    → (r ≡ rec.value ++ rest) × (length rec.value ≡ len) × (rec.typ ≡ typ) × All IsByte rest
unfolding read_value
read_value_inv typ len r rec rest bytes h = elim (Result-cases (read_take len r)) [
  | inl ((value, tail), e) ↦ taken value tail e
  | inr (x, e) ↦ ground arith
]
  where
    taken :
        (value tail : Bytes)
        → read_take len r ≡ ok (value, tail)
        → (r ≡ rec.value ++ rest) × (length rec.value ≡ len) × (rec.typ ≡ typ) × All IsByte rest
    taken value tail e =
        let (split, size) = read_take_inv len r value tail e in
        let more : All IsByte tail =
          All-append_right IsByte value tail (subst (All IsByte) split bytes) in
        ground arith

abbrev ReadsRecord : Option ℕ → Bytes → TlvRecord → Bytes → Type 0
ReadsRecord last r rec rest =
    (r ≡ record_bytes rec ++ rest) × Above last rec.typ × IsRecord rec × All IsByte rest

read_record_inv :
    (last : Option ℕ) (r : Bytes) (rec : TlvRecord) (rest : Bytes)
    → All IsByte r
    → read_record last r ≡ ok (rec, rest)
    → ReadsRecord last r rec rest
unfolding read_record read_length_value record_bytes
read_record_inv last r rec rest bytes h = elim (Result-cases (BigSize.read r)) [
  | inr (x, e) ↦ ground arith
  | inl ((typ, r1), e) ↦ with_type typ r1 e (read-encoding_inv r typ r1 bytes e)
]
  where
    with_length :
        (typ len : ℕ) (r1 r2 : Bytes)
        → not_ascending last typ ≡ false
        → read_value typ len r2 ≡ ok (rec, rest)
        → (r ≡ encoding typ ++ r1) × (typ < u64_mod) × All IsByte r1
        → (r1 ≡ encoding len ++ r2) × (len < u64_mod) × All IsByte r2
        → ReadsRecord last r rec rest
    with_length typ len r1 r2 asc h' t l =
        let (split, size, same, more) = read_value_inv typ len r2 rec rest l.2 h' in
        (
          rw (same, size)
              (t.0
                ∙ ap (λ s. encoding typ ++ s)
                    (l.0
                      ∙ ap (λ s. encoding len ++ s) split
                      ∙ sym (append_assoc (encoding len) rec.value rest))
                ∙ sym (append_assoc (encoding typ) (encoding len ++ rec.value) rest)),
          rw same (Above-of_test last typ asc),
          (rw same t.1, rw size l.1),
          more,
        )

    with_type :
        (typ : ℕ) (r1 : Bytes)
        → BigSize.read r ≡ ok (typ, r1)
        → (r ≡ encoding typ ++ r1) × (typ < u64_mod) × All IsByte r1
        → ReadsRecord last r rec rest
    with_type typ r1 e t = elim (Result-cases (BigSize.read r1)) [
      | inr (x, e') ↦ absurd (ground arith)
      | inl ((len, r2), e') ↦
          with_length typ len r1 r2 (ground arith) (ground arith) t
            (read-encoding_inv r1 len r2 t.2 e')
    ]

parse_loop_inv :
    (fuel : ℕ) (bs : Bytes) (last : Option ℕ) (seen out : List TlvRecord)
    → All IsByte bs
    → parse_loop fuel bs last seen ≡ some (ok out)
    → (records : List TlvRecord) × (out ≡ seen ++ records)
      × (bs ≡ stream_bytes records)
      × Ascending last records
      × All IsRecord records
unfolding parse_loop stream_bytes
parse_loop_inv fuel [] last seen out bytes h = ([], ground (arith, append-nil seen), refl, tt, tt)
parse_loop_inv zero (b ∷ bs) last seen out bytes h = absurd (ground arith)
parse_loop_inv (suc fuel) (b ∷ bs) last seen out bytes h =
    elim (Result-cases (read_record last (b ∷ bs))) [
      | inr (x, e) ↦ absurd (ground arith)
      | inl ((rec, rest), e) ↦
          let (split, above, fits, more) = read_record_inv last (b ∷ bs) rec rest bytes e in
          let (records, p, q, asc, all) =
            parse_loop_inv fuel rest (some rec.typ) (seen ++ rec ∷ []) out more
              (rw (e, parse_loop) at h) in
          (
            rec ∷ records,
            p ∙ append_assoc seen (rec ∷ []) records,
            split ∙ ap (λ s. record_bytes rec ++ s) q,
            (above, asc),
            (fits, all),
          )
    ]

-- Whatever `parse_stream` accepts is a canonical stream: the returned records have strictly
-- ascending types and sizes of 64 bits, and `write_record` writes the input back from them.
pub parse_stream_sound :
    (bs : Bytes) (records : List TlvRecord)
    → All IsByte bs
    → parse_stream bs ≡ some (ok records)
    → (bs ≡ write_records [] records) × Ascending none records × All IsRecord records
unfolding parse_stream
parse_stream_sound bs records bytes h =
    let (found, p, q, asc, all) = parse_loop_inv (length bs) bs none [] records bytes h in
    (
      q ∙ sym (ap stream_bytes p) ∙ sym (write_records-bytes [] records),
      subst (Ascending none) (sym p) asc,
      subst (All IsRecord) (sym p) all,
    )

parse_loop-ne-none :
    (fuel : ℕ) (bs : Bytes) (last : Option ℕ) (seen : List TlvRecord)
    → All IsByte bs
    → length bs ≤ fuel
    → parse_loop fuel bs last seen ≢ none
unfolding parse_loop
parse_loop-ne-none fuel [] last seen bytes h = λ e. cc
parse_loop-ne-none zero (b ∷ bs) last seen bytes h = absurd (omega arith)
parse_loop-ne-none (suc fuel) (b ∷ bs) last seen bytes h =
    elim (Result-cases (read_record last (b ∷ bs))) [
      | inr (x, e) ↦ rw (e, parse_loop) (λ p. cc)
      | inl ((rec, rest), e) ↦
          let (split, above, fits, more) = read_record_inv last (b ∷ bs) rec rest bytes e in
          rw (e, parse_loop)
            (parse_loop-ne-none fuel rest (some rec.typ) (seen ++ rec ∷ []) more (
              omega (
                arith,
                ap length split,
                length-append (record_bytes rec) rest,
                record_bytes-pos rec,
              )))
    ]

-- The loop of `parse_stream` ends on every input of bytes: it never runs out of fuel.
pub parse_stream-ne-none : (bs : Bytes) → All IsByte bs → parse_stream bs ≢ none
unfolding parse_stream
parse_stream-ne-none bs bytes = parse_loop-ne-none (length bs) bs none [] bytes (omega arith)

-- An even type that is not in `known`.
abbrev pub IsUnknownEven : List ℕ → TlvRecord → Type 0
IsUnknownEven known rec = (rec.typ % 2 ≡ 0) × (contains known rec.typ ≡ false)

-- `check_unknown_even` passes exactly when no record has an unknown even type.
pub check_unknown_even_iff :
    (records : List TlvRecord) (known : List ℕ)
    → (check_unknown_even records known ≡ ok tt) ↔ All (λ rec. ¬ IsUnknownEven known rec) records
unfolding check_unknown_even
check_unknown_even_iff [] known = (λ h. tt, λ h. refl)
check_unknown_even_iff (rec ∷ records) known =
    let ih = check_unknown_even_iff records known in
    (λ h. (λ u. ground arith, ih.0 (ground arith)), λ h. ground (arith, h.0, ih.1 h.1))
