-- ===== src/Commitment.antt =====
-- src/commitment/mod.rs: the data of commitment transactions, the second-stage fees and trimming.
-- Scripts, transaction ids and keys are byte strings.
pub mod Scripts
pub mod Build
pub mod Order
pub mod Places
pub mod Indices
pub mod StagedOutputs
pub mod Panics
pub mod Value
pub mod Witness
pub mod Examples
use keraunos.Prelude.{ℕ, ltb, if◌then◌else◌, Bool, List, Option, Bytes, add64}
use keraunos.Types.{Msat, FeeRatePerKw, fee_for_weight, to_sat_floor}

abbrev pub commitment_tx_base_weight : ℕ
commitment_tx_base_weight = 724

abbrev pub commitment_tx_weight_per_htlc : ℕ
commitment_tx_weight_per_htlc = 172

abbrev pub htlc_timeout_tx_weight : ℕ
htlc_timeout_tx_weight = 663

abbrev pub htlc_success_tx_weight : ℕ
htlc_success_tx_weight = 703

-- src/bitcoin/tx.rs: what a transaction holds.
pub record OutPoint : Type 0 where
  pub txid : Bytes
  pub vout : ℕ

pub record TxIn : Type 0 where
  pub previous_output : OutPoint
  pub script_sig : Bytes
  pub sequence : ℕ
  pub witness : List Bytes

pub record TxOut : Type 0 where
  pub value : ℕ
  pub script_pubkey : Bytes

pub record Transaction : Type 0 where
  pub version : ℕ
  pub input : List TxIn
  pub output : List TxOut
  pub lock_time : ℕ

-- src/keys.rs
pub record ChannelPublicKeys : Type 0 where
  pub funding_pubkey : Bytes
  pub revocation_basepoint : Bytes
  pub payment_basepoint : Bytes
  pub delayed_payment_basepoint : Bytes
  pub htlc_basepoint : Bytes

pub record TxCreationKeys : Type 0 where
  pub per_commitment_point : Bytes
  pub revocation_key : Bytes
  pub broadcaster_htlc_key : Bytes
  pub countersignatory_htlc_key : Bytes
  pub broadcaster_delayed_payment_key : Bytes

-- `offered` is from the broadcaster's point of view.
pub record HtlcOutputInCommitment : Type 0 where
  pub offered : Bool
  pub amount_msat : Msat
  pub cltv_expiry : ℕ
  pub payment_hash : Bytes

unfoldable pub htlc_timeout_fee : FeeRatePerKw → ℕ
unfolding fee_for_weight
htlc_timeout_fee feerate = fee_for_weight feerate htlc_timeout_tx_weight

unfoldable pub htlc_success_fee : FeeRatePerKw → ℕ
unfolding fee_for_weight
htlc_success_fee feerate = fee_for_weight feerate htlc_success_tx_weight

unfoldable pub htlc_is_trimmed : HtlcOutputInCommitment → FeeRatePerKw → ℕ → Bool
unfolding htlc_timeout_fee htlc_success_fee to_sat_floor
htlc_is_trimmed htlc feerate broadcaster_dust_limit_sat =
    let second_stage_fee =
      if htlc.offered then htlc_timeout_fee feerate else htlc_success_fee feerate in
    ltb (to_sat_floor htlc.amount_msat) (add64 broadcaster_dust_limit_sat second_stage_fee)

pub record CommitmentTxParams : Type 0 where
  pub funding_outpoint : OutPoint
  pub commitment_number : ℕ
  pub obscure_factor : ℕ
  pub broadcaster_pays_fee : Bool
  pub feerate : FeeRatePerKw
  pub broadcaster_dust_limit_sat : ℕ
  pub to_self_delay : ℕ
  pub keys : TxCreationKeys
  pub countersignatory_payment_basepoint : Bytes
  pub to_broadcaster_msat : Msat
  pub to_countersignatory_msat : Msat
  pub htlcs : List HtlcOutputInCommitment

pub record BuiltCommitmentTx : Type 0 where
  pub tx : Transaction
  pub txid : Bytes
  pub fee_sat : ℕ
  pub htlc_output_indices : List (Option ℕ)
  pub htlcs_in_output_order : List (ℕ × Bytes)
  pub to_broadcaster_index : Option ℕ
  pub to_countersignatory_index : Option ℕ
