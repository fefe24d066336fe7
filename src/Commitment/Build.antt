-- ===== src/Commitment/Build.antt =====
-- src/commitment/mod.rs: building commitment, second-stage and closing transactions.
use Prim.Native.Nat.{Ordering, compare}
use keraunos.Prelude.{
  ℕ, ◌+◌, ◌-◌, ◌/◌, ◌%◌, ◌^◌, leb, not, if◌then◌else◌, Bool, List, [], ◌∷◌, ◌++◌, Option, none,
  some, Bytes, length, set, replicate, keep, drop, add64, mul64, bit_xor, from_be,
}
use keraunos.Prelude.Sort.{then_with, bytes_cmp, sort_by}
use keraunos.Types.{FeeRatePerKw, fee_for_weight, to_sat_floor}
use keraunos.Bitcoin.Script.{Hashes, new_p2wsh}
use keraunos.Bitcoin.Tx.{txid}
use keraunos.Commitment.{
  OutPoint, TxOut, Transaction, TxCreationKeys, HtlcOutputInCommitment, CommitmentTxParams,
  BuiltCommitmentTx, commitment_tx_base_weight, commitment_tx_weight_per_htlc, htlc_timeout_fee,
  htlc_success_fee, htlc_is_trimmed,
}
use keraunos.Commitment.Scripts.{revocable_delayed, to_remote, htlc_witness_script}

pub data Origin : Type 0 where
  broadcaster countersignatory : Origin
  htlc : ℕ → Bytes → Origin

pub record Staged : Type 0 where
  pub txout : TxOut
  pub cltv : ℕ
  pub origin : Origin

unfoldable pub is_untrimmed : CommitmentTxParams → HtlcOutputInCommitment → Bool
unfolding htlc_is_trimmed
is_untrimmed p h = not (htlc_is_trimmed h p.feerate p.broadcaster_dust_limit_sat)

unfoldable pub base_fee : CommitmentTxParams → ℕ
unfolding is_untrimmed fee_for_weight
base_fee p =
    let num_untrimmed = length (keep (is_untrimmed p) p.htlcs) in
    fee_for_weight p.feerate
      (add64 commitment_tx_base_weight (mul64 commitment_tx_weight_per_htlc num_untrimmed))

-- `saturating_sub`: on ℕ, `-` stops at 0.
unfoldable pub to_broadcaster_sat : CommitmentTxParams → ℕ
unfolding base_fee to_sat_floor
to_broadcaster_sat p =
    if p.broadcaster_pays_fee
    then to_sat_floor p.to_broadcaster_msat - base_fee p
    else to_sat_floor p.to_broadcaster_msat

unfoldable pub to_countersignatory_sat : CommitmentTxParams → ℕ
unfolding base_fee to_sat_floor
to_countersignatory_sat p =
    if p.broadcaster_pays_fee
    then to_sat_floor p.to_countersignatory_msat
    else to_sat_floor p.to_countersignatory_msat - base_fee p

-- `BOLT 3` output ordering, on the outputs alone and with the tie-break.
unfoldable pub txout_cmp : TxOut → TxOut → Ordering
unfolding bytes_cmp
txout_cmp a b = then_with (compare a.value b.value) (bytes_cmp a.script_pubkey b.script_pubkey)

unfoldable pub staged_cmp : Staged → Staged → Ordering
unfolding txout_cmp
staged_cmp a b = then_with (txout_cmp a.txout b.txout) (compare a.cltv b.cltv)

-- The variables that the last loop assigns.
pub record Placed : Type 0 where
  pub htlc_output_indices : List (Option ℕ)
  pub htlcs_in_output_order : List (ℕ × Bytes)
  pub to_broadcaster_index : Option ℕ
  pub to_countersignatory_index : Option ℕ
  pub outputs : List TxOut

-- `htlc_output_indices[i] = …` is always in range.
unfoldable pub place_one : ℕ → Staged → Placed → Placed
place_one vout s acc = elim s.origin [
  | broadcaster ↦ record acc {
    to_broadcaster_index = some vout;
    outputs = acc.outputs ++ s.txout ∷ [];
  }
  | countersignatory ↦ record acc {
    to_countersignatory_index = some vout;
    outputs = acc.outputs ++ s.txout ∷ [];
  }
  | htlc i script ↦ record acc {
    htlc_output_indices = set acc.htlc_output_indices i (some vout);
    htlcs_in_output_order = acc.htlcs_in_output_order ++ (i, script) ∷ [];
    outputs = acc.outputs ++ s.txout ∷ [];
  }
]

unfoldable pub place : ℕ → List Staged → Placed → Placed
unfolding place_one
place vout [] acc = acc
place vout (s ∷ staged) acc = place (vout + 1) staged (place_one vout s acc)

-- `0x2000_0000 | (obscured & 0xff_ffff)` and `0x8000_0000 | ((obscured >> 24) & 0xff_ffff)`: the bits
-- are disjoint, so `|` is `+`.
unfoldable pub commitment_lock_time : ℕ → ℕ
commitment_lock_time obscured = 2 ^ 29 + obscured % 2 ^ 24

unfoldable pub commitment_sequence : ℕ → ℕ
commitment_sequence obscured = 2 ^ 31 + obscured / 2 ^ 24 % 2 ^ 24

abbrev pub nothing_placed : CommitmentTxParams → Placed
nothing_placed p = record {
  htlc_output_indices = replicate (length p.htlcs) none;
  htlcs_in_output_order = [];
  to_broadcaster_index = none;
  to_countersignatory_index = none;
  outputs = [];
}

module _ (hashes : Hashes) where
  unfoldable pub stage_broadcaster : CommitmentTxParams → List Staged
  unfolding to_broadcaster_sat revocable_delayed new_p2wsh
  stage_broadcaster p =
      let script =
        revocable_delayed p.keys.revocation_key p.to_self_delay
          p.keys.broadcaster_delayed_payment_key in
      if leb p.broadcaster_dust_limit_sat (to_broadcaster_sat p)
      then record {
        txout = record { value = to_broadcaster_sat p; script_pubkey = new_p2wsh hashes script };
        cltv = 0;
        origin = broadcaster;
      }
        ∷ []
      else []

  unfoldable pub stage_countersignatory : CommitmentTxParams → List Staged
  unfolding to_countersignatory_sat to_remote
  stage_countersignatory p =
      if leb p.broadcaster_dust_limit_sat (to_countersignatory_sat p)
      then record {
        txout = record {
          value = to_countersignatory_sat p;
          script_pubkey = to_remote hashes p.countersignatory_payment_basepoint;
        };
        cltv = 0;
        origin = countersignatory;
      }
        ∷ []
      else []

  unfoldable pub stage_htlc : CommitmentTxParams → ℕ → HtlcOutputInCommitment → Staged
  unfolding htlc_witness_script new_p2wsh to_sat_floor
  stage_htlc p i h =
      let script = htlc_witness_script hashes p.keys h in
      record {
        txout = record {
          value = to_sat_floor h.amount_msat;
          script_pubkey = new_p2wsh hashes script;
        };
        cltv = h.cltv_expiry;
        origin = htlc i script;
      }

  -- The loop over `p.htlcs`, from index `i` on.
  unfoldable pub stage_htlcs : CommitmentTxParams → ℕ → List HtlcOutputInCommitment → List Staged
  unfolding is_untrimmed stage_htlc
  stage_htlcs p i [] = []
  stage_htlcs p i (h ∷ hs) =
      let rest = stage_htlcs p (i + 1) hs in
      if is_untrimmed p h then stage_htlc p i h ∷ rest else rest

  unfoldable pub staged_outputs : CommitmentTxParams → List Staged
  unfolding stage_broadcaster stage_countersignatory stage_htlcs
  staged_outputs p = stage_broadcaster p ++ (stage_countersignatory p ++ stage_htlcs p 0 p.htlcs)

  unfoldable pub placed : CommitmentTxParams → Placed
  unfolding staged_outputs sort_by staged_cmp place
  placed p = place 0 (sort_by staged_cmp (staged_outputs p)) (nothing_placed p)

  unfoldable pub build_commitment_tx : CommitmentTxParams → BuiltCommitmentTx
  unfolding placed txid base_fee commitment_lock_time commitment_sequence
  build_commitment_tx p =
      let obscured = bit_xor p.commitment_number p.obscure_factor in
      let done = placed p in
      let tx : Transaction = record {
        version = 2;
        lock_time = commitment_lock_time obscured;
        input =
            record {
              previous_output = p.funding_outpoint;
              script_sig = [];
              sequence = commitment_sequence obscured;
              witness = [];
            }
            ∷ [];
        output = done.outputs;
      } in
      record {
        tx = tx;
        txid = txid hashes tx;
        fee_sat = base_fee p;
        htlc_output_indices = done.htlc_output_indices;
        htlcs_in_output_order = done.htlcs_in_output_order;
        to_broadcaster_index = done.to_broadcaster_index;
        to_countersignatory_index = done.to_countersignatory_index;
      }

  -- Bytes 26 to 31 of the hash.
  unfoldable pub commit_number_obscure_factor : Bytes → Bytes → ℕ
  unfolding from_be
  commit_number_obscure_factor opener accepter =
      from_be 0 (drop 26 (hashes.sha256 (opener ++ accepter)))

  unfoldable pub build_htlc_tx :
      Bytes → ℕ → HtlcOutputInCommitment → TxCreationKeys → ℕ → FeeRatePerKw → Transaction
  unfolding htlc_timeout_fee htlc_success_fee revocable_delayed to_sat_floor new_p2wsh
  build_htlc_tx commitment_txid htlc_output_index h keys to_self_delay feerate =
      let fee = if h.offered then htlc_timeout_fee feerate else htlc_success_fee feerate in
      let output_script =
        revocable_delayed keys.revocation_key to_self_delay keys.broadcaster_delayed_payment_key in
      record {
        version = 2;
        lock_time = if h.offered then h.cltv_expiry else 0;
        input =
            record {
              previous_output = record { txid = commitment_txid; vout = htlc_output_index };
              script_sig = [];
              sequence = 0;
              witness = [];
            }
            ∷ [];
        output =
            record {
              value = to_sat_floor h.amount_msat - fee;
              script_pubkey = new_p2wsh hashes output_script;
            }
            ∷ [];
      }

unfoldable pub closing_output : ℕ → Bytes → ℕ → List TxOut
closing_output value script dust_limit_sat =
    if leb dust_limit_sat value then record { value = value; script_pubkey = script } ∷ [] else []

unfoldable pub build_closing_tx : OutPoint → ℕ → ℕ → Bytes → Bytes → ℕ → Transaction
unfolding closing_output sort_by txout_cmp
build_closing_tx funding_outpoint to_holder_sat to_counterparty_sat holder_script
      counterparty_script dust_limit_sat =
    record {
      version = 2;
      lock_time = 0;
      input =
          record {
            previous_output = funding_outpoint;
            script_sig = [];
            sequence = 2 ^ 32 - 1;
            witness = [];
          }
          ∷ [];
      output = sort_by txout_cmp (
          closing_output to_holder_sat holder_script dust_limit_sat
          ++ closing_output to_counterparty_sat counterparty_script dust_limit_sat);
    }
