-- ===== src/Channel/Examples/Samples.antt =====
-- src/channel: an environment whose keys are their own points, and channels in normal operation.
use keraunos.Prelude.{refl, arith, true, false, if◌then◌else◌, bytes_eq, [], ◌∷◌, none, some}
use keraunos.Shachain.{new}
use keraunos.Commitment.{ChannelPublicKeys, Transaction, BuiltCommitmentTx}
use keraunos.Channel.Data.{
  Channel, ChannelConfig, ChannelParams, opener, normal, Htlc, local_payment, committed,
  PendingCounterpartyCommitment,
}
use keraunos.Channel.Env.{Env, PlacesHtlcs}
use keraunos.Channel.Invariant.{IsValid}

abbrev pub some_keys : ChannelPublicKeys
some_keys = record {
  funding_pubkey = 2 ∷ [];
  revocation_basepoint = 3 ∷ [];
  payment_basepoint = 4 ∷ [];
  delayed_payment_basepoint = 5 ∷ [];
  htlc_basepoint = 6 ∷ [];
}

abbrev pub no_tx : Transaction
no_tx = record { version = 2; input = []; output = []; lock_time = 0 }

abbrev pub no_built : BuiltCommitmentTx
no_built = record {
  tx = no_tx;
  txid = 1 ∷ [];
  fee_sat = 0;
  htlc_output_indices = [];
  htlcs_in_output_order = [];
  to_broadcaster_index = none;
  to_countersignatory_index = none;
}

-- The zero key is no key; every other secret is its own point.
abbrev pub sample_env : Env
sample_env = record {
  sha256 = λ b. b;
  secret_point = λ s. if bytes_eq s (0 ∷ []) then none else some s;
  per_commitment_point = λ n. n ∷ [];
  release_commitment_secret = λ n. n ∷ [];
  sign_with_funding_key = λ d. d;
  sign_htlc = λ d p. d;
  serialize_der = λ s. s;
  verify_ecdsa = λ d s k. true;
  derive_keys = λ p a b. record {
    per_commitment_point = p;
    revocation_key = a.revocation_basepoint;
    broadcaster_htlc_key = a.htlc_basepoint;
    countersignatory_htlc_key = b.htlc_basepoint;
    broadcaster_delayed_payment_key = a.delayed_payment_basepoint;
  };
  commit_number_obscure_factor = λ a b. 7;
  funding_redeemscript = λ a b. a;
  build_commitment_tx = λ p. no_built;
  build_htlc_tx = λ a b c d e f. no_tx;
  segwit_v0_sighash = λ a b c. 8 ∷ [];
}

pub sample_env-PlacesHtlcs : PlacesHtlcs sample_env
sample_env-PlacesHtlcs p = tt

abbrev pub sample_config : ChannelConfig
sample_config = record {
  announce = true;
  dust_limit_sat = 354;
  reserve_ppm = 10_000;
  htlc_minimum_msat = 1000;
  to_self_delay = 144;
  max_accepted_htlcs = 30;
  max_htlc_value_in_flight_ppm = 500_000;
  minimum_depth = 3;
}

abbrev pub sample_params : ChannelParams
sample_params = record {
  holder_dust_limit_sat = 354;
  counterparty_dust_limit_sat = 354;
  holder_selected_reserve_sat = 10_000;
  counterparty_selected_reserve_sat = 10_000;
  counterparty_max_htlc_value_in_flight_msat = 500_000_000;
  holder_max_htlc_value_in_flight_msat = 500_000_000;
  counterparty_htlc_minimum_msat = 1000;
  holder_htlc_minimum_msat = 1000;
  counterparty_max_accepted_htlcs = 30;
  holder_max_accepted_htlcs = 30;
  holder_selected_delay = 144;
  counterparty_selected_delay = 144;
}

abbrev pub inbound_sample : Htlc
inbound_sample = record {
  outbound = false;
  id = 0;
  amount_msat = 1_000_000;
  payment_hash = 9 ∷ [];
  cltv_expiry = 700_000;
  onion = [];
  source = none;
  resolution = none;
  phase_holder = committed;
  phase_counterparty = committed;
  processed = false;
}

abbrev pub outbound_sample : Htlc
outbound_sample = record {
  outbound = true;
  id = 0;
  amount_msat = 2_000_000;
  payment_hash = 10 ∷ [];
  cltv_expiry = 700_000;
  onion = [];
  source = some (local_payment (11 ∷ []));
  resolution = none;
  phase_holder = committed;
  phase_counterparty = committed;
  processed = false;
}

-- A channel of 1,000,000 satoshi in normal operation, with an HTLC in each direction.
abbrev pub sample : Channel
sample = record {
  role = opener;
  state = normal;
  config = sample_config;
  params = sample_params;
  temporary_channel_id = 1 ∷ [];
  channel_id = 1 ∷ [];
  funding_outpoint = some (record { txid = 1 ∷ []; vout = 0 });
  funding_amount_sat = 1_000_000;
  push_msat = 400_000_000;
  holder_pubkeys = some_keys;
  counterparty_pubkeys = some some_keys;
  obscure_factor = 7;
  feerate_holder = 1000;
  feerate_counterparty = 1000;
  pending_fee_ack = none;
  announce = true;
  to_holder_msat = 600_000_000;
  to_counterparty_msat = 400_000_000;
  counterparty_dirty = false;
  htlcs = inbound_sample ∷ outbound_sample ∷ [];
  next_holder_htlc_id = 1;
  next_counterparty_htlc_id = 1;
  holder_commitment_number = 0;
  counterparty_commitment_number = 0;
  counterparty_current_point = some (5 ∷ []);
  counterparty_next_point = some (6 ∷ []);
  counterparty_secrets = new;
  current_holder_commitment = none;
  current_counterparty_commitment = none;
  pending_counterparty_commitment = none;
  awaiting_raa = false;
  holding_cell = [];
  short_channel_id = none;
  funding_confirmed = true;
  channel_ready_sent = true;
  channel_ready_received = true;
  holder_shutdown_script = none;
  counterparty_shutdown_script = none;
  shutdown_sent = false;
  shutdown_received = false;
  last_closing_fee_proposal = none;
  closing_tx = none;
}

abbrev pub sample_snapshot : PendingCounterpartyCommitment
sample_snapshot = record {
  info = record {
    number = 1;
    txid = 1 ∷ [];
    per_commitment_point = 6 ∷ [];
    htlcs = [];
    to_holder_msat = 598_000_000;
    to_counterparty_msat = 399_000_000;
    feerate = 1000;
  };
  included = [];
  removed = [];
  fee_update = none;
}

-- The same, with a `revoke_and_ack` awaited.
abbrev pub waiting : Channel
waiting = record sample {
  pending_counterparty_commitment = some sample_snapshot;
  awaiting_raa = true;
}

pub sample-IsValid : IsValid sample
sample-IsValid = record {
  good = (
    record { legal_phases = refl; sourced = refl; numbered = omega arith; is_held = refl },
    (record { legal_phases = refl; sourced = refl; numbered = omega arith; is_held = refl }, tt),
  );
  distinct = ((refl, tt), (tt, tt));
  entries = tt;
  in_flight = refl;
  point = refl;
  points = refl;
}

pub waiting-IsValid : IsValid waiting
waiting-IsValid = record {
  good = sample-IsValid.good;
  distinct = sample-IsValid.distinct;
  entries = tt;
  in_flight = refl;
  point = refl;
  points = refl;
}
