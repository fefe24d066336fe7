-- ===== src/Channel/Open/Fund.antt =====
-- src/channel/mod.rs: the funding messages, `channel_ready`, and what we may send.
use keraunos.Prelude.{
  ℕ, Bool, true, false, not, ◌&&◌, ◌||◌, if◌then◌else◌, ltb, bytes_eq, [], Option, none, some,
  Bytes, length, add64, mul64,
}
use keraunos.Types.{Msat, ShortChannelId, from_sat, saturating_sub, fee_for_weight}
use keraunos.Commitment.{commitment_tx_base_weight, commitment_tx_weight_per_htlc}
use keraunos.Channel.Data.{
  Channel, ChannelState, funding_created_sent, accept_sent, awaiting_channel_ready, normal, Result,
  ok, err, panic, text, close, invalid_state, deny, expect, ◌>>=◌, ◌>>◌, is_opener, is_confirmable,
}
use keraunos.Channel.Env.{Env}
use keraunos.Channel.Balance.{balances_for}
use keraunos.Channel.Htlcs.{is_some}
use keraunos.Channel.Build.{
  build_holder_commitment_at, build_counterparty_commitment_at, counterparty_info_from_built,
  sign_counterparty_commitment_tx, verify_counterparty_funding_sig,
}
use keraunos.Channel.Open.Data.{
  FundingCreated, FundingSigned, ChannelReady, channel_id_from_funding,
}
use keraunos.Channel.Open.Start.{is_open_sent}

abbrev pub is_accept_sent : ChannelState → Bool
is_accept_sent accept_sent = true
is_accept_sent _ = false

abbrev pub is_funding_created_sent : ChannelState → Bool
is_funding_created_sent funding_created_sent = true
is_funding_created_sent _ = false

abbrev pub is_awaiting_channel_ready : ChannelState → Bool
is_awaiting_channel_ready awaiting_channel_ready = true
is_awaiting_channel_ready _ = false

-- The funding outpoint and the channel's final name.
unfoldable pub bind_funding : Channel → Bytes → ℕ → Channel
unfolding channel_id_from_funding
bind_funding c txid output_index = record c {
  funding_outpoint = some (record { txid = txid; vout = output_index });
  channel_id = channel_id_from_funding txid output_index;
}

-- Sign their commitment #0, and keep what it holds.
unfoldable pub sign_first : Env → Channel → Result (Channel × Bytes)
unfolding build_counterparty_commitment_at counterparty_info_from_built
    sign_counterparty_commitment_tx
sign_first env c = do
  point ← expect c.counterparty_current_point
  built ← build_counterparty_commitment_at env c 0 point
  sig ← sign_counterparty_commitment_tx env c (built.0)
  ok (
    record c {
      current_counterparty_commitment =
          some (counterparty_info_from_built c 0 point (built.0) (built.2));
    },
    sig,
  )

-- Verify their signature of our commitment #0, and keep both.
unfoldable pub verify_first : Env → Channel → Bytes → Result Channel
unfolding build_holder_commitment_at verify_counterparty_funding_sig
verify_first env c sig = do
  built ← build_holder_commitment_at env c 0
  verify_counterparty_funding_sig env c (built.0) sig
  ok (record c {
    current_holder_commitment = some (record {
      number = 0;
      built = built.0;
      counterparty_sig = sig;
      counterparty_htlc_sigs = [];
      htlcs = built.2;
      keys = built.1;
      feerate = c.feerate_holder;
    });
  })

unfoldable pub check_funding : Channel → Result (Unit {0})
check_funding c = do
  deny (not (is_open_sent c.state) || not (is_opener c.role))
      (invalid_state (text "funding_created in wrong state"))
  deny (not (is_some c.counterparty_pubkeys)) (invalid_state (text "accept_channel not processed"))

-- An error after the outpoint is bound leaves it bound.
unfoldable pub funding_created : Env → Channel → Bytes → ℕ → Channel × Result FundingCreated
unfolding check_funding bind_funding sign_first
funding_created env c txid output_index = elim (check_funding c) [
  | err e ↦ (c, err e)
  | panic ↦ (c, panic)
  | ok u ↦
      let bound = bind_funding c txid output_index in
      elim (sign_first env bound) [
        | err e ↦ (bound, err e)
        | panic ↦ (bound, panic)
        | ok (signed, sig) ↦ (
          record signed { state = funding_created_sent },
          ok (record {
            temporary_channel_id = c.temporary_channel_id;
            funding_txid = txid;
            funding_output_index = output_index;
            signature = sig;
          }),
        )
      ]
]

unfoldable pub on_funding_created : Env → Channel → FundingCreated → Channel × Result FundingSigned
unfolding bind_funding verify_first sign_first
on_funding_created env c msg =
    if not (is_accept_sent c.state)
    then (c, err (close (text "funding_created in wrong state")))
    else let bound = bind_funding c msg.funding_txid msg.funding_output_index in
      elim (verify_first env bound msg.signature) [
        | err e ↦ (bound, err e)
        | panic ↦ (bound, panic)
        | ok verified ↦ elim (sign_first env verified) [
          | err e ↦ (verified, err e)
          | panic ↦ (verified, panic)
          | ok (signed, sig) ↦ (
            record signed { state = awaiting_channel_ready },
            ok (record { channel_id = signed.channel_id; signature = sig }),
          )
        ]
      ]

unfoldable pub on_funding_signed : Env → Channel → FundingSigned → Channel × Result (Unit {0})
unfolding verify_first
on_funding_signed env c msg =
    if not (is_funding_created_sent c.state)
    then (c, err (close (text "funding_signed in wrong state")))
    else if not (bytes_eq msg.channel_id c.channel_id)
    then (c, err (close (text "funding_signed wrong channel id")))
    else elim (verify_first env c msg.signature) [
      | err e ↦ (c, err e)
      | panic ↦ (c, panic)
      | ok verified ↦ (record verified { state = awaiting_channel_ready }, ok tt)
    ]

unfoldable pub maybe_become_normal : Channel → Channel
maybe_become_normal c =
    if is_awaiting_channel_ready c.state && (c.channel_ready_sent && c.channel_ready_received)
    then record c { state = normal }
    else c

unfoldable pub funding_confirmed_at :
    Env → Channel → ShortChannelId → Channel × Result (Option ChannelReady)
unfolding maybe_become_normal
funding_confirmed_at env c scid =
    if not (is_confirmable c.state)
    then (c, err (invalid_state (text "funding_confirmed in wrong state")))
    else let confirmed = record c { short_channel_id = some scid; funding_confirmed = true } in
      if c.channel_ready_sent then (confirmed, ok none) else (
        maybe_become_normal (record confirmed { channel_ready_sent = true }),
        ok (
            some (record {
              channel_id = c.channel_id;
              second_per_commitment_point = env.per_commitment_point 1;
              short_channel_id_alias = none;
            })),
      )

unfoldable pub on_channel_ready : Channel → ChannelReady → Channel × Result (Unit {0})
unfolding maybe_become_normal
on_channel_ready c msg =
    if not (is_confirmable c.state)
    then (c, err (close (text "channel_ready in wrong state")))
    else if ltb 0 c.counterparty_commitment_number || c.awaiting_raa
    then (c, ok tt)
    else (
      maybe_become_normal (record c {
        counterparty_next_point = some msg.second_per_commitment_point;
        channel_ready_received = true;
      }),
      ok tt,
    )

unfoldable pub available_to_send_msat : Channel → Msat
unfolding saturating_sub from_sat fee_for_weight
available_to_send_msat c =
    let avail =
      saturating_sub (balances_for c false).0
        (from_sat c.params.counterparty_selected_reserve_sat) in
    let fee = fee_for_weight c.feerate_counterparty (
      add64 commitment_tx_base_weight
        (mul64 commitment_tx_weight_per_htlc (add64 (length c.htlcs) 1))) in
    if is_opener c.role then saturating_sub avail (from_sat fee) else avail
