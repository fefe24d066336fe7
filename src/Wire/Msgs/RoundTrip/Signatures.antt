-- ===== src/Wire/Msgs/RoundTrip/Signatures.antt =====
-- src/wire/msgs.rs: the reader of the signatures, on what `encode` writes.
use keraunos.Prelude.{
  ◌%◌, ◌^◌, ◌≡◌, refl, ◌∙◌, sym, arith, Bytes, Bool, List, [], ◌∷◌, ◌++◌, append_assoc, append-nil,
  All, length,
}
use keraunos.Wire.Ser.{ok, write_u16, write_bytes}
use keraunos.Wire.Msgs.Data.{CommitmentSigned, commitment_signed}
use keraunos.Wire.Msgs.Fits.{IsSignature, read_take_fact, read_be_fact, read_signature_fact}
use keraunos.Wire.Msgs.Put.{concat}
use keraunos.Wire.Msgs.Valid.{IsMessage}
use keraunos.Wire.Msgs.Write.{write_body, write_signatures}
use keraunos.Wire.Msgs.Read.{read_signatures, read_commitment_signed}

pub write_signatures-eq :
    (sigs : List Bytes) (w : Bytes) → write_signatures sigs w ≡ w ++ concat sigs
unfolding write_signatures concat write_bytes
write_signatures-eq [] w = sym (append-nil w)
write_signatures-eq (sig ∷ sigs) w =
    write_signatures-eq sigs (w ++ sig) ∙ append_assoc w sig (concat sigs)

module _ (is_pubkey is_signature : Bytes → Bool) where
  read_signatures_fact :
      (sigs : List Bytes)
      → All (IsSignature is_signature) sigs
      → (rest : Bytes)
      → read_signatures is_pubkey is_signature (length sigs) (concat sigs ++ rest) ≡ ok (sigs, rest)
  unfolding read_signatures concat
  read_signatures_fact [] h rest = refl
  read_signatures_fact (sig ∷ sigs) h rest =
      rw
        (
          append_assoc sig (concat sigs) rest,
          read_signature_fact is_pubkey is_signature sig h.0 (concat sigs ++ rest),
          read_signatures_fact sigs h.1 rest,
        )
        refl

  pub read_commitment_signed-write_body :
      (m : CommitmentSigned) (rest : Bytes)
      → IsMessage is_pubkey is_signature (commitment_signed m)
      → read_commitment_signed is_pubkey is_signature (write_body (commitment_signed m) [] ++ rest)
        ≡ ok m
  unfolding read_commitment_signed write_body write_u16 write_bytes
  read_commitment_signed-write_body m rest (h_id, h_sig, (h_count, h_sigs)) =
      let same : length m.htlc_signatures % 2 ^ 16 ≡ length m.htlc_signatures = omega arith in
      simp (
        write_signatures-eq,
        append_assoc,
        same,
        read_take_fact 32 m.channel_id h_id,
        read_signature_fact is_pubkey is_signature m.signature h_sig,
        read_be_fact 2 (length m.htlc_signatures) h_count,
        read_signatures_fact m.htlc_signatures h_sigs,
      )
