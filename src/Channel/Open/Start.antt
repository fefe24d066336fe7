-- ===== src/Channel/Open/Start.antt =====
-- src/channel/mod.rs: a new channel, on either side, and `accept_channel`. The signer's public keys
-- and the hash of the chain are arguments.
use keraunos.Prelude.{
  ℕ, ◌%◌, Bool, true, false, not, ◌&&◌, ◌==◌, ltb, if◌then◌else◌, bytes_eq, [], Option, none, some,
  Bytes, mul64, sub64,
}
use keraunos.Types.{Msat, FeeRatePerKw}
use keraunos.Shachain.{new}
use keraunos.Commitment.{ChannelPublicKeys}
use keraunos.Channel.Data.{
  Channel, ChannelConfig, ChannelParams, ChannelRole, opener, accepter, ChannelState, open_sent,
  accept_sent, Result, ok, err, panic, text, close, invalid_state, deny, ◌>>◌,
}
use keraunos.Channel.Env.{Env}
use keraunos.Channel.Open.Data.{
  OpenChannel, AcceptChannel, basepoints_msg, pubkeys_from_msg, reserve_for, max_in_flight_for,
  max_htlcs_per_side, static_remotekey_channel_type,
}

abbrev pub is_open_sent : ChannelState → Bool
is_open_sent open_sent = true
is_open_sent _ = false

-- The fields that both `Channel { .. }` literals set alike.
unfoldable pub fresh :
    ChannelRole
    → ChannelState
    → ChannelConfig
    → ChannelParams
    → Bytes
    → ℕ
    → Msat
    → FeeRatePerKw
    → ChannelPublicKeys
    → Option ChannelPublicKeys
    → ℕ
    → Bool
    → Msat
    → Msat
    → Option Bytes
    → Channel
unfolding new
fresh role state config params temporary_channel_id funding_amount_sat push_msat feerate
      holder_pubkeys counterparty_pubkeys obscure_factor announce to_holder_msat
      to_counterparty_msat point =
    record {
      role = role;
      state = state;
      config = config;
      params = params;
      temporary_channel_id = temporary_channel_id;
      channel_id = temporary_channel_id;
      funding_outpoint = none;
      funding_amount_sat = funding_amount_sat;
      push_msat = push_msat;
      holder_pubkeys = holder_pubkeys;
      counterparty_pubkeys = counterparty_pubkeys;
      obscure_factor = obscure_factor;
      feerate_holder = feerate;
      feerate_counterparty = feerate;
      pending_fee_ack = none;
      announce = announce;
      to_holder_msat = to_holder_msat;
      to_counterparty_msat = to_counterparty_msat;
      counterparty_dirty = false;
      htlcs = [];
      next_holder_htlc_id = 0;
      next_counterparty_htlc_id = 0;
      holder_commitment_number = 0;
      counterparty_commitment_number = 0;
      counterparty_current_point = point;
      counterparty_next_point = none;
      counterparty_secrets = new;
      current_holder_commitment = none;
      current_counterparty_commitment = none;
      pending_counterparty_commitment = none;
      awaiting_raa = false;
      holding_cell = [];
      short_channel_id = none;
      funding_confirmed = false;
      channel_ready_sent = false;
      channel_ready_received = false;
      holder_shutdown_script = none;
      counterparty_shutdown_script = none;
      shutdown_sent = false;
      shutdown_received = false;
      last_closing_fee_proposal = none;
      closing_tx = none;
    }

unfoldable pub outbound_params : ChannelConfig → ℕ → ChannelParams
unfolding reserve_for max_in_flight_for
outbound_params config funding_amount_sat = record {
  holder_dust_limit_sat = config.dust_limit_sat;
  counterparty_dust_limit_sat = 0;
  holder_selected_reserve_sat = reserve_for config funding_amount_sat;
  counterparty_selected_reserve_sat = 0;
  counterparty_max_htlc_value_in_flight_msat = 0;
  holder_max_htlc_value_in_flight_msat = max_in_flight_for config funding_amount_sat;
  counterparty_htlc_minimum_msat = 0;
  holder_htlc_minimum_msat = config.htlc_minimum_msat;
  counterparty_max_accepted_htlcs = 0;
  holder_max_accepted_htlcs = config.max_accepted_htlcs;
  holder_selected_delay = config.to_self_delay;
  counterparty_selected_delay = 0;
}

unfoldable pub new_outbound :
    Env
    → ChannelPublicKeys
    → ChannelConfig
    → Bytes
    → Bytes
    → ℕ
    → Msat
    → FeeRatePerKw
    → Result (Channel × OpenChannel)
unfolding fresh outbound_params reserve_for max_in_flight_for basepoints_msg mul64 sub64
new_outbound env holder_pubkeys config chain_hash temporary_channel_id funding_amount_sat push_msat
      feerate =
    if ltb (mul64 funding_amount_sat 1000) push_msat
    then err (invalid_state (text "push exceeds funding"))
    else ok (
      fresh opener open_sent config (outbound_params config funding_amount_sat) temporary_channel_id
          funding_amount_sat push_msat feerate holder_pubkeys none 0 config.announce
          (sub64 (mul64 funding_amount_sat 1000) push_msat) push_msat none,
      record {
        chain_hash = chain_hash;
        temporary_channel_id = temporary_channel_id;
        funding_satoshis = funding_amount_sat;
        push_msat = push_msat;
        dust_limit_satoshis = config.dust_limit_sat;
        max_htlc_value_in_flight_msat = max_in_flight_for config funding_amount_sat;
        channel_reserve_satoshis = reserve_for config funding_amount_sat;
        htlc_minimum_msat = config.htlc_minimum_msat;
        feerate_per_kw = feerate;
        to_self_delay = config.to_self_delay;
        max_accepted_htlcs = config.max_accepted_htlcs;
        basepoints = basepoints_msg holder_pubkeys;
        first_per_commitment_point = env.per_commitment_point 0;
        channel_flags = if config.announce then 1 else 0;
        upfront_shutdown_script = none;
        channel_type = some static_remotekey_channel_type;
      },
    )

-- `if let Some(ct)`: no channel type is as good as the right one.
abbrev pub is_other_type : Option Bytes → Bool
is_other_type none = false
is_other_type (some ct) = not (bytes_eq ct static_remotekey_channel_type)

unfoldable pub check_open : ChannelConfig → Bytes → OpenChannel → Result (Unit {0})
unfolding reserve_for mul64
check_open config chain_hash msg = do
  deny (not (bytes_eq msg.chain_hash chain_hash)) (close (text "unknown chain"))
  deny (ltb (mul64 msg.funding_satoshis 1000) msg.push_msat) (close (text "push exceeds funding"))
  deny (ltb msg.channel_reserve_satoshis msg.dust_limit_satoshis)
      (close (text "dust limit above reserve"))
  deny (ltb 2016 msg.to_self_delay) (close (text "to_self_delay unreasonably large"))
  deny (ltb max_htlcs_per_side msg.max_accepted_htlcs) (close (text "max_accepted_htlcs above 483"))
  deny (ltb msg.feerate_per_kw 253) (close (text "feerate too low"))
  deny (is_other_type msg.channel_type) (close (text "unsupported channel_type"))
  deny (ltb (reserve_for config msg.funding_satoshis) msg.dust_limit_satoshis)
      (close (text "our reserve below their dust limit"))

unfoldable pub inbound_params : ChannelConfig → OpenChannel → ChannelParams
unfolding reserve_for max_in_flight_for
inbound_params config msg = record {
  holder_dust_limit_sat = config.dust_limit_sat;
  counterparty_dust_limit_sat = msg.dust_limit_satoshis;
  holder_selected_reserve_sat = reserve_for config msg.funding_satoshis;
  counterparty_selected_reserve_sat = msg.channel_reserve_satoshis;
  counterparty_max_htlc_value_in_flight_msat = msg.max_htlc_value_in_flight_msat;
  holder_max_htlc_value_in_flight_msat = max_in_flight_for config msg.funding_satoshis;
  counterparty_htlc_minimum_msat = msg.htlc_minimum_msat;
  holder_htlc_minimum_msat = config.htlc_minimum_msat;
  counterparty_max_accepted_htlcs = msg.max_accepted_htlcs;
  holder_max_accepted_htlcs = config.max_accepted_htlcs;
  holder_selected_delay = config.to_self_delay;
  counterparty_selected_delay = msg.to_self_delay;
}

unfoldable pub accept_msg : Env → ChannelPublicKeys → ChannelConfig → OpenChannel → AcceptChannel
unfolding reserve_for max_in_flight_for basepoints_msg
accept_msg env holder_pubkeys config msg = record {
  temporary_channel_id = msg.temporary_channel_id;
  dust_limit_satoshis = config.dust_limit_sat;
  max_htlc_value_in_flight_msat = max_in_flight_for config msg.funding_satoshis;
  channel_reserve_satoshis = reserve_for config msg.funding_satoshis;
  htlc_minimum_msat = config.htlc_minimum_msat;
  minimum_depth = config.minimum_depth;
  to_self_delay = config.to_self_delay;
  max_accepted_htlcs = config.max_accepted_htlcs;
  basepoints = basepoints_msg holder_pubkeys;
  first_per_commitment_point = env.per_commitment_point 0;
  upfront_shutdown_script = none;
  channel_type = msg.channel_type;
}

unfoldable pub new_inbound :
    Env → ChannelPublicKeys → ChannelConfig → Bytes → OpenChannel → Result (Channel × AcceptChannel)
unfolding check_open accept_msg inbound_params fresh pubkeys_from_msg mul64 sub64
new_inbound env holder_pubkeys config chain_hash msg =
    check_open config chain_hash msg
    >> ok (
      fresh accepter accept_sent config (inbound_params config msg) msg.temporary_channel_id
          msg.funding_satoshis msg.push_msat msg.feerate_per_kw holder_pubkeys
          (some (pubkeys_from_msg msg.basepoints))
          (env.commit_number_obscure_factor msg.basepoints.payment holder_pubkeys.payment_basepoint)
          (msg.channel_flags % 2 == 1 && config.announce) msg.push_msat
          (sub64 (mul64 msg.funding_satoshis 1000) msg.push_msat)
          (some msg.first_per_commitment_point),
      accept_msg env holder_pubkeys config msg,
    )

unfoldable pub check_accept : Channel → AcceptChannel → Result (Unit {0})
check_accept c msg = do
  deny (not (is_open_sent c.state)) (close (text "accept_channel in wrong state"))
  deny (not (bytes_eq msg.temporary_channel_id c.temporary_channel_id))
      (close (text "accept_channel for unknown channel"))
  deny (ltb c.params.holder_selected_reserve_sat msg.dust_limit_satoshis)
      (close (text "their dust limit above our selected reserve"))
  deny (ltb msg.channel_reserve_satoshis c.params.holder_dust_limit_sat)
      (close (text "their reserve below our dust limit"))
  deny (ltb 2016 msg.to_self_delay) (close (text "to_self_delay unreasonably large"))
  deny (ltb 144 msg.minimum_depth) (close (text "minimum_depth unreasonably large"))
  deny (ltb max_htlcs_per_side msg.max_accepted_htlcs) (close (text "max_accepted_htlcs above 483"))

unfoldable pub accepted : Env → Channel → AcceptChannel → Channel
unfolding pubkeys_from_msg
accepted env c msg =
    let cp = pubkeys_from_msg msg.basepoints in
    record c {
      obscure_factor =
          env.commit_number_obscure_factor c.holder_pubkeys.payment_basepoint cp.payment_basepoint;
      counterparty_pubkeys = some cp;
      counterparty_current_point = some msg.first_per_commitment_point;
      params = record c.params {
        counterparty_dust_limit_sat = msg.dust_limit_satoshis;
        counterparty_selected_reserve_sat = msg.channel_reserve_satoshis;
        counterparty_max_htlc_value_in_flight_msat = msg.max_htlc_value_in_flight_msat;
        counterparty_htlc_minimum_msat = msg.htlc_minimum_msat;
        counterparty_max_accepted_htlcs = msg.max_accepted_htlcs;
        counterparty_selected_delay = msg.to_self_delay;
      };
    }

unfoldable pub on_accept_channel : Env → Channel → AcceptChannel → Channel × Result (Unit {0})
unfolding check_accept accepted
on_accept_channel env c msg = elim (check_accept c msg) [
  | err e ↦ (c, err e)
  | panic ↦ (c, panic)
  | ok u ↦ (accepted env c msg, ok tt)
]
