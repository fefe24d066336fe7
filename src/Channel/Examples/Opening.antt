-- ===== src/Channel/Examples/Opening.antt =====
-- src/channel/mod.rs: the opening theorems at concrete messages.
use keraunos.Prelude.{◌≡◌, refl, arith, true, false, [], ◌∷◌, none, some, bytes_eq, mul64, sub64}
use keraunos.Channel.Data.{
  Channel, opener, accepter, open_sent, accept_sent, awaiting_channel_ready, normal,
}
use keraunos.Channel.Invariant.Flush.{is_panic}
use keraunos.Channel.Open.Data.{
  OpenChannel, AcceptChannel, FundingCreated, ChannelReady, basepoints_msg, pubkeys_from_msg,
  reserve_for, static_remotekey_channel_type,
}
use keraunos.Channel.Open.Start.{
  fresh, new_outbound, new_inbound, check_open, inbound_params, outbound_params, accept_msg,
}
use keraunos.Channel.Open.Fund.{
  funding_created, on_funding_created, funding_confirmed_at, on_channel_ready,
}
use keraunos.Channel.Open.Invariant.{
  IsOpen, IsBounded, IsSplit, new_inbound-IsOpen, new_outbound-IsOpen,
}
use keraunos.Channel.Open.Signing.{funding_created-IsOpen, on_funding_created-IsOpen}
use keraunos.Channel.Open.Ready.{ready-is_normal}
use keraunos.Channel.Open.Steps.{
  here, next, gets_funding_created, gets_ready, sees_funding, OpenReach-IsOpen,
}
use keraunos.Channel.Examples.Samples.{sample_env, sample_config, some_keys, sample}

abbrev an_open : OpenChannel
an_open = record {
  chain_hash = 1 ∷ [];
  temporary_channel_id = 2 ∷ [];
  funding_satoshis = 1_000_000;
  push_msat = 400_000_000;
  dust_limit_satoshis = 354;
  max_htlc_value_in_flight_msat = 500_000_000;
  channel_reserve_satoshis = 10_000;
  htlc_minimum_msat = 1000;
  feerate_per_kw = 1000;
  to_self_delay = 144;
  max_accepted_htlcs = 30;
  basepoints = basepoints_msg some_keys;
  first_per_commitment_point = 5 ∷ [];
  channel_flags = 1;
  upfront_shutdown_script = none;
  channel_type = some static_remotekey_channel_type;
}

abbrev inbound : Channel
inbound =
    fresh accepter accept_sent sample_config (inbound_params sample_config an_open) (2 ∷ [])
      1_000_000 400_000_000 1000 some_keys (some (pubkeys_from_msg (basepoints_msg some_keys))) 7
      true 400_000_000 (sub64 (mul64 1_000_000 1000) 400_000_000) (some (5 ∷ []))

new_inbound-IsOpen_example :
    IsOpen inbound
    × IsBounded inbound
    × IsSplit inbound
    × (inbound.counterparty_current_point ≡ some (5 ∷ []))
unfolding new_inbound check_open bytes_eq fresh reserve_for mul64
new_inbound-IsOpen_example =
    new_inbound-IsOpen sample_env some_keys sample_config (1 ∷ []) an_open inbound
      (accept_msg sample_env some_keys sample_config an_open) (omega arith) refl

abbrev outbound_msg : OpenChannel
outbound_msg = record an_open { first_per_commitment_point = 0 ∷ [] }

abbrev outbound : Channel
outbound =
    fresh opener open_sent sample_config (outbound_params sample_config 1_000_000) (2 ∷ [])
      1_000_000 400_000_000 1000 some_keys none 0 true (sub64 (mul64 1_000_000 1000) 400_000_000)
      400_000_000 none

new_outbound-IsOpen_example :
    IsOpen outbound × IsSplit outbound × (outbound_msg.push_msat ≡ outbound.to_counterparty_msat)
unfolding new_outbound reserve_for fresh
new_outbound-IsOpen_example =
    new_outbound-IsOpen sample_env some_keys sample_config (1 ∷ []) (2 ∷ []) 1_000_000 400_000_000
      1000 outbound outbound_msg (omega arith) refl

inbound-IsOpen : IsOpen inbound
unfolding fresh
inbound-IsOpen = record {
  valid = record {
    good = tt;
    distinct = tt;
    entries = tt;
    in_flight = refl;
    point = refl;
    points = refl;
  };
  keyed = refl;
  pointed = refl;
  funded = refl;
}

-- The opener after `accept_channel`, and in its later states.
abbrev opening : Channel
opening = record outbound {
  counterparty_pubkeys = some some_keys;
  counterparty_current_point = some (5 ∷ []);
}

opening-IsOpen : IsOpen opening
unfolding fresh
opening-IsOpen = record {
  valid = record {
    good = tt;
    distinct = tt;
    entries = tt;
    in_flight = refl;
    point = refl;
    points = refl;
  };
  keyed = refl;
  pointed = refl;
  funded = refl;
}

abbrev an_accept : AcceptChannel
an_accept = accept_msg sample_env some_keys sample_config an_open

funding_created-IsOpen_example :
    IsOpen (funding_created sample_env opening (3 ∷ []) 0).0
    × is_panic (funding_created sample_env opening (3 ∷ []) 0).1 ≡ false
funding_created-IsOpen_example = funding_created-IsOpen sample_env opening opening-IsOpen (3 ∷ []) 0

abbrev a_funding : FundingCreated
a_funding = record {
  temporary_channel_id = 2 ∷ [];
  funding_txid = 3 ∷ [];
  funding_output_index = 0;
  signature = 4 ∷ [];
}

on_funding_created-IsOpen_example :
    IsOpen (on_funding_created sample_env inbound a_funding).0
    × is_panic (on_funding_created sample_env inbound a_funding).1 ≡ false
on_funding_created-IsOpen_example =
    on_funding_created-IsOpen sample_env inbound inbound-IsOpen a_funding

abbrev their_ready : ChannelReady
their_ready = record {
  channel_id = 3 ∷ [];
  second_per_commitment_point = 6 ∷ [];
  short_channel_id_alias = none;
}

-- The accepter, all the way.
abbrev funded : Channel
funded = (on_funding_created sample_env inbound a_funding).0

abbrev ready : Channel
ready = (on_channel_ready (funding_confirmed_at sample_env funded 77).0 their_ready).0

OpenReach-IsOpen_example : IsOpen ready
OpenReach-IsOpen_example =
    OpenReach-IsOpen
      (next (next (next here (gets_funding_created a_funding)) (sees_funding 77))
        (gets_ready their_ready))
      inbound-IsOpen

abbrev half_open : Channel
half_open = record sample {
  state = awaiting_channel_ready;
  channel_ready_sent = false;
  channel_ready_received = false;
}

ready-is_normal_example :
    ((funding_confirmed_at sample_env (on_channel_ready half_open their_ready).0 77).0
      ≡ (on_channel_ready (funding_confirmed_at sample_env half_open 77).0 their_ready).0)
    × ((funding_confirmed_at sample_env (on_channel_ready half_open their_ready).0 77).0.state
        ≡ normal)
    × ((funding_confirmed_at sample_env half_open 77).0.state ≡ awaiting_channel_ready)
    × ((on_channel_ready half_open their_ready).0.state ≡ awaiting_channel_ready)
ready-is_normal_example = ready-is_normal sample_env half_open their_ready 77 refl
