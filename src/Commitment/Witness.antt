-- ===== src/Commitment/Witness.antt =====
-- src/commitment/mod.rs: the witnesses. How libsecp256k1 writes a signature in DER is a parameter.
use keraunos.Prelude.{Option, none, some, if◌then◌else◌, List, [], ◌∷◌, ◌++◌, Bytes}
use keraunos.Commitment.Scripts.{bytes_le, funding_redeemscript}

module _ (serialize_der : Bytes → Bytes) where
  unfoldable pub sig_with_sighash_all : Bytes → Bytes
  sig_with_sighash_all sig = serialize_der sig ++ 1 ∷ []

  unfoldable pub funding_spend_witness : Bytes → Bytes → Bytes → Bytes → List Bytes
  unfolding funding_redeemscript bytes_le sig_with_sighash_all
  funding_spend_witness holder_funding_pubkey counterparty_funding_pubkey holder_sig
        counterparty_sig =
      let redeem = funding_redeemscript holder_funding_pubkey counterparty_funding_pubkey in
      let holder_first = bytes_le holder_funding_pubkey counterparty_funding_pubkey in
      let first = if holder_first then holder_sig else counterparty_sig in
      let second = if holder_first then counterparty_sig else holder_sig in
      [] ∷ sig_with_sighash_all first ∷ sig_with_sighash_all second ∷ redeem ∷ []

  unfoldable pub htlc_tx_witness : Bytes → Bytes → Option Bytes → Bytes → List Bytes
  unfolding sig_with_sighash_all
  htlc_tx_witness countersignatory_sig holder_sig preimage witness_script =
      []
      ∷ sig_with_sighash_all countersignatory_sig
      ∷ sig_with_sighash_all holder_sig
      ∷ elim preimage [ none ↦ [] | some p ↦ p ]
      ∷ witness_script
      ∷ []
