-- ===== src/Channel/Env.antt =====
-- What the channel calls and does not implement: the `ChannelSigner` trait, libsecp256k1, and the
-- functions of src/keys.rs, src/commitment, src/bitcoin and src/crypto/sha256.rs on the other side of
-- the module boundary. `secret_point` is `none` where the source's `expect("valid secret")` panics.
use keraunos.Prelude.{ℕ, ◌≡◌, Bool, Option, some, Bytes, All, get_elem?}
use keraunos.Types.{FeeRatePerKw}
use keraunos.Commitment.{
  ChannelPublicKeys, TxCreationKeys, HtlcOutputInCommitment, CommitmentTxParams, BuiltCommitmentTx,
  Transaction,
}

pub record Env : Type 0 where
  pub sha256 : Bytes → Bytes
  pub secret_point : Bytes → Option Bytes
  pub per_commitment_point : ℕ → Bytes
  pub release_commitment_secret : ℕ → Bytes
  pub sign_with_funding_key : Bytes → Bytes
  pub sign_htlc : Bytes → Bytes → Bytes
  pub serialize_der : Bytes → Bytes
  pub verify_ecdsa : Bytes → Bytes → Bytes → Bool
  pub derive_keys : Bytes → ChannelPublicKeys → ChannelPublicKeys → TxCreationKeys
  pub commit_number_obscure_factor : Bytes → Bytes → ℕ
  pub funding_redeemscript : Bytes → Bytes → Bytes
  pub build_commitment_tx : CommitmentTxParams → BuiltCommitmentTx
  pub build_htlc_tx :
      Bytes → ℕ → HtlcOutputInCommitment → TxCreationKeys → ℕ → FeeRatePerKw → Transaction
  -- the first input under `SighashType::All`, with its script and value
  pub segwit_v0_sighash : Transaction → Bytes → ℕ → Bytes

-- An entry of `htlcs_in_output_order` names an HTLC of the parameters that has an output.
abbrev pub IsPlaced : CommitmentTxParams → BuiltCommitmentTx → ℕ × Bytes → Type 0
IsPlaced p built (i, script) =
    (h : HtlcOutputInCommitment) × (vout : ℕ) × (get_elem? p.htlcs i ≡ some h)
    × (get_elem? built.htlc_output_indices i ≡ some (some vout))

-- What the channel relies on in `build_commitment_tx`.
abbrev pub PlacesHtlcs : Env → Type 0
PlacesHtlcs env =
    (p : CommitmentTxParams)
    → All (IsPlaced p (env.build_commitment_tx p)) (env.build_commitment_tx p).htlcs_in_output_order
