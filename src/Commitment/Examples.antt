-- ===== src/Commitment/Examples.antt =====
-- src/commitment/mod.rs: a commitment with an HTLC that is trimmed and one that is not.
use keraunos.Prelude.{
  add64, ℕ, ◌+◌, ◌*◌, ◌≤◌, ◌≡◌, refl, min, true, false, [], ◌∷◌, some, none, get_elem?, ◌⊎◌,
}
use keraunos.Types.{to_sat_floor}
use keraunos.Bitcoin.Script.{Hashes, new_p2wsh}
use keraunos.Commitment.{CommitmentTxParams, HtlcOutputInCommitment, TxCreationKeys}
use keraunos.Commitment.Build.{build_commitment_tx, is_untrimmed}
use keraunos.Commitment.Scripts.{htlc_witness_script}
use keraunos.Commitment.Indices.{build_commitment_tx-indices}
use keraunos.Commitment.Value.{build_commitment_tx-value, output_value, payer_sat, funds_msat}
use keraunos.Commitment.Panics.{with_builder, with_builder-PlacesHtlcs}
use keraunos.Channel.Env.{PlacesHtlcs}
use keraunos.Channel.Examples.Samples.{sample_env}

abbrev pub sample_hashes : Hashes
sample_hashes = record { sha256 = λ b. b; ripemd160 = λ b. 6 ∷ b }

abbrev pub sample_keys : TxCreationKeys
sample_keys = record {
  per_commitment_point = 1 ∷ [];
  revocation_key = 2 ∷ [];
  broadcaster_htlc_key = 3 ∷ [];
  countersignatory_htlc_key = 4 ∷ [];
  broadcaster_delayed_payment_key = 5 ∷ [];
}

abbrev pub large_htlc : HtlcOutputInCommitment
large_htlc = record {
  offered = true;
  amount_msat = 5_000_500;
  cltv_expiry = 500;
  payment_hash = 9 ∷ [];
}

abbrev pub small_htlc : HtlcOutputInCommitment
small_htlc = record {
  offered = false;
  amount_msat = 400_000;
  cltv_expiry = 501;
  payment_hash = 8 ∷ [];
}

abbrev pub sample_params : CommitmentTxParams
sample_params = record {
  funding_outpoint = record { txid = 1 ∷ []; vout = 0 };
  commitment_number = 42;
  obscure_factor = 7;
  broadcaster_pays_fee = true;
  feerate = 2500;
  broadcaster_dust_limit_sat = 546;
  to_self_delay = 144;
  keys = sample_keys;
  countersignatory_payment_basepoint = 7 ∷ [];
  to_broadcaster_msat = 900_000_000;
  to_countersignatory_msat = 50_000_000;
  htlcs = small_htlc ∷ large_htlc ∷ [];
}

build_commitment_tx-indices_example :
    ((is_untrimmed sample_params large_htlc ≡ true)
      × (vout : ℕ) × (get_elem?
            (build_commitment_tx sample_hashes sample_params).htlc_output_indices
            1
          ≡ some (some vout))
      × (get_elem? (build_commitment_tx sample_hashes sample_params).tx.output vout
          ≡ some (record {
            value = to_sat_floor large_htlc.amount_msat;
            script_pubkey =
                new_p2wsh sample_hashes (htlc_witness_script sample_hashes sample_keys large_htlc);
          })))
    ⊎ ((is_untrimmed sample_params large_htlc ≡ false)
        × (get_elem? (build_commitment_tx sample_hashes sample_params).htlc_output_indices 1
            ≡ some none))
build_commitment_tx-indices_example =
    build_commitment_tx-indices sample_hashes sample_params 1 large_htlc refl

build_commitment_tx-value_example :
    1000
      * (output_value (build_commitment_tx sample_hashes sample_params).tx.output
          + min (build_commitment_tx sample_hashes sample_params).fee_sat (payer_sat sample_params))
    ≤ funds_msat sample_params
build_commitment_tx-value_example = build_commitment_tx-value sample_hashes sample_params

with_builder-PlacesHtlcs_example : PlacesHtlcs (with_builder sample_hashes sample_env)
with_builder-PlacesHtlcs_example = with_builder-PlacesHtlcs sample_hashes sample_env

-- The small HTLC is trimmed; the large one stands before the balances, which are worth more.
sample_indices :
    (build_commitment_tx sample_hashes sample_params).htlc_output_indices ≡ none ∷ some 0 ∷ []
unfolding build_commitment_tx add64
sample_indices = refl
